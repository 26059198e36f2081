-- ===== src/Import/Placed.antt =====
-- crates/pkdump-core/src/import: what the rows and the errors of a parse satisfy.
use pokedumpster.Base.{
  Text, codes, ℕ, ◌+◌, ◌≤◌, ◌≡◌, refl, true, false, List, [], ◌∷◌, replicate, length, All,
  All-append, All-replicate, is_empty, arith, Option, none, some,
}
use pokedumpster.Import.Rows.{
  ImportError, csv, missing_column, bad_row, Result, ok, err, ◌>>=◌, ok_or, Record, Csv, ParsedRow,
  parse_records, require, quantity_of, price_of,
}
use pokedumpster.Import.Values.{one_of}

-- The values that the condition column of the collection accepts.
abbrev pub tiers : List Text
tiers =
    codes "Near Mint"
    ∷ codes "Lightly Played"
    ∷ codes "Moderately Played"
    ∷ codes "Heavily Played"
    ∷ codes "Damaged"
    ∷ []

abbrev pub IsTier : Text → Type 0
IsTier s = one_of s tiers ≡ true

-- What the csv crate reports is no error of a row.
abbrev pub IsCsv : {A : Type 0} → Result A → Type 0
IsCsv (ok a) = Unit
IsCsv (err (csv m)) = Unit
IsCsv (err (missing_column m)) = ⊥
IsCsv (err (bad_row l m)) = ⊥

abbrev pub IsFile : Csv → Type 0
IsFile input = IsCsv input.headers × All IsCsv input.records

-- An error of a row names its line, between `first` and `last`.
abbrev pub IsPlaced : ℕ → ℕ → ImportError → Type 0
IsPlaced first last (csv m) = Unit
IsPlaced first last (missing_column m) = Unit
IsPlaced first last (bad_row l m) = (first ≤ l) × (l ≤ last)

unfoldable pub Ensures : {A : Type 0} → ℕ → ℕ → (A → Type 0) → Result A → Type 0
Ensures first last P (ok a) = P a
Ensures first last P (err e) = IsPlaced first last e

pub IsPlaced-widen :
    (i j k l : ℕ) (e : ImportError) → i ≤ k → l ≤ j → IsPlaced k l e → IsPlaced i j e
IsPlaced-widen i j k l (csv m) p q h = tt
IsPlaced-widen i j k l (missing_column m) p q h = tt
IsPlaced-widen i j k l (bad_row n m) p q h = (omega (arith, h.0), omega (arith, h.1))

pub IsCsv-IsPlaced :
    (A : Type 0) (i j : ℕ) (e : ImportError) → IsCsv {A = A} (err e) → IsPlaced i j e
IsCsv-IsPlaced A i j (csv m) h = tt
IsCsv-IsPlaced A i j (missing_column m) h = absurd h
IsCsv-IsPlaced A i j (bad_row l m) h = absurd h

-- A step ensures what its continuation ensures of the values that it may give.
pub bind-Ensures :
    {A B : Type 0} (i j : ℕ) (P : A → Type 0) (Q : B → Type 0) (r : Result A) (f : A → Result B)
    → Ensures i j P r
    → ((a : A) → P a → Ensures i j Q (f a))
    → Ensures i j Q (r >>= f)
unfolding Ensures
bind-Ensures i j P Q (ok a) f h k = k a h
bind-Ensures i j P Q (err e) f h k = h

pub ok-Ensures : {A : Type 0} (i j : ℕ) (P : A → Type 0) (a : A) → P a → Ensures i j P (ok a)
unfolding Ensures
ok-Ensures i j P a h = h

pub require-Ensures :
    (s : Text) (l : ℕ) (m : Text) → Ensures l l (λ t. is_empty t ≡ false) (require s l m)
unfolding require Ensures
require-Ensures [] l m = (omega arith, omega arith)
require-Ensures (c ∷ cs) l m = refl

ok_or-Ensures :
    {A : Type 0} (o : Option A) (l : ℕ) (m : Text) → Ensures l l (λ a. Unit) (ok_or o (bad_row l m))
unfolding Ensures
ok_or-Ensures none l m = (omega arith, omega arith)
ok_or-Ensures (some a) l m = tt

pub quantity_of-Ensures :
    (what : Text) (l : ℕ) (s : Text) → Ensures l l (λ q. Unit) (quantity_of what l s)
unfolding quantity_of Ensures
quantity_of-Ensures what l [] = tt
quantity_of-Ensures what l (c ∷ cs) = ok_or-Ensures _ l _

pub ok_or-missing_column :
    {A : Type 0} (i j : ℕ) (o : Option A) (m : Text)
    → Ensures i j (λ a. Unit) (ok_or o (missing_column m))
unfolding Ensures
ok_or-missing_column i j none m = tt
ok_or-missing_column i j (some a) m = tt

-- What the csv crate reports of the header.
pub header : (n : ℕ) (r : Result Record) → IsCsv r → Ensures 2 n (λ r. Unit) r
unfolding Ensures
header n (ok r) h = tt
header n (err e) h = IsCsv-IsPlaced Record 2 n e h

module _ {Price : Type 0} where
  pub price_of-Ensures :
      (f : Text → Option Price) (what : Text) (l : ℕ) (s : Text)
      → Ensures l l (λ q. Unit) (price_of f what l s)
  unfolding price_of Ensures
  price_of-Ensures f what l [] = tt
  price_of-Ensures f what l (c ∷ cs) =
      bind-Ensures l l (λ a. Unit) (λ q. Unit) _ _ (ok_or-Ensures (f (c ∷ cs)) l _) (λ a h. tt)

  -- A row as the resolver takes it: a number, a set and one of the five conditions.
  abbrev pub IsComplete : ParsedRow Price → Type 0
  IsComplete row =
      (is_empty row.number ≡ false) × (is_empty row.set_hint ≡ false) × IsTier row.condition

  -- A complete row of a line between `first` and `last`.
  abbrev pub IsRow : ℕ → ℕ → ParsedRow Price → Type 0
  IsRow first last row = IsComplete row × ((first ≤ row.source_line) × (row.source_line ≤ last))

  -- What the body of the loop ensures at a line.
  abbrev pub EnsuresRow : (ℕ → Record → Result (ParsedRow Price × ℕ)) → Type 0
  EnsuresRow f =
      (l : ℕ) (r : Record) → Ensures l l (λ (p : ParsedRow Price × ℕ). IsRow l l p.0) (f l r)

  widen :
      (l j : ℕ)
      → 2 ≤ l
      → l ≤ j
      → (r : Result (ParsedRow Price × ℕ))
      → Ensures l l (λ (p : ParsedRow Price × ℕ). IsRow l l p.0) r
      → Ensures 2 j (λ (p : ParsedRow Price × ℕ). IsRow 2 j p.0) r
  unfolding Ensures
  widen l j a b (ok p) h = (h.0, (omega (arith, a, h.1.0), omega (arith, b, h.1.1)))
  widen l j a b (err e) h = IsPlaced-widen 2 j l l e a b h

  module _ (f : ℕ → Record → Result (ParsedRow Price × ℕ)) (hf : EnsuresRow f) where
    pub parse_records-Ensures :
        (i j : ℕ) (rs : List (Result Record))
        → All IsCsv rs
        → i + length rs ≤ j
        → Ensures 2 (j + 1) (All (IsRow 2 (j + 1))) (parse_records f i rs)
    unfolding parse_records Ensures
    parse_records-Ensures i j [] hs b = tt
    parse_records-Ensures i j (err e ∷ rs) hs b = IsCsv-IsPlaced Record 2 (j + 1) e hs.0
    parse_records-Ensures i j (ok r ∷ rs) hs b =
        bind-Ensures 2 (j + 1) (λ (p : ParsedRow Price × ℕ). IsRow 2 (j + 1) p.0)
          (All (IsRow 2 (j + 1))) (f (i + 2) r) _
          (widen (i + 2) (j + 1) (omega (arith, b)) (omega (arith, b)) (f (i + 2) r) (hf (i + 2) r))
          (λ p hp.
            bind-Ensures 2 (j + 1) (All (IsRow 2 (j + 1))) (All (IsRow 2 (j + 1)))
              (parse_records f (i + 1) rs) _
              (parse_records-Ensures (i + 1) j rs hs.1 (omega (arith, b)))
              (λ rows h. All-append _ (replicate p.1 p.0) rows (All-replicate _ p.1 p.0 hp) h))
