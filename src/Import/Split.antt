-- ===== src/Import/Split.antt =====
-- crates/pkdump-core/src/import/collectr.rs: what the three parts of a Collectr file satisfy.
use pokedumpster.Base.{
  Text, codes, ℕ, ◌+◌, ◌≤◌, ◌≡◌, refl, false, List, [], ◌∷◌, length, All, All-append, All-replicate,
  is_empty, arith, Option, some, Bool-cases, inl, inr, eq_ignore_ascii_case,
}
use pokedumpster.Import.Canonical.{map_condition-IsTier}
use pokedumpster.Import.Collectr.{
  CollectrParsed, SkippedRow, Routed, single, product, skip, push_routed, parse_rows, parse_row,
  parse, columns, Columns, route_pokemon,
}
use pokedumpster.Import.Placed.{
  IsFile, IsCsv, Ensures, IsTier, IsPlaced-widen, bind-Ensures, ok-Ensures, quantity_of-Ensures,
  ok_or-missing_column, IsCsv-IsPlaced, header,
}
use pokedumpster.Import.Rows.{
  Result, ok, err, ◌>>=◌, Record, Csv, ParsedRow, ParsedSealedRow, column, ok_or, missing_column,
  cell,
}
use pokedumpster.Import.Unicode.{Unicode}

abbrev pub IsSkipped : ℕ → ℕ → SkippedRow → Type 0
IsSkipped first last row =
    (is_empty row.reason ≡ false) × (first ≤ row.source_line) × (row.source_line ≤ last)

module _ {Price : Type 0} where
  abbrev pub IsSingle : ℕ → ℕ → ParsedRow Price → Type 0
  IsSingle first last row =
      (is_empty row.set_hint ≡ false)
      × IsTier row.condition
      × (first ≤ row.source_line)
      × (row.source_line ≤ last)

  abbrev pub IsProduct : ℕ → ℕ → ParsedSealedRow Price → Type 0
  IsProduct first last row =
      (is_empty row.set_hint ≡ false)
      × IsTier row.condition
      × (first ≤ row.source_line)
      × (row.source_line ≤ last)

  abbrev pub IsSplit : ℕ → ℕ → CollectrParsed Price → Type 0
  IsSplit first last out =
      All (IsSingle first last) out.singles
      × All (IsProduct first last) out.sealed
      × All (IsSkipped first last) out.skipped

  abbrev pub IsRouted : ℕ → ℕ → Routed Price → Type 0
  IsRouted first last (single row q) = IsSingle first last row
  IsRouted first last (product row) = IsProduct first last row
  IsRouted first last (skip row) = IsSkipped first last row

  push_routed-IsSplit :
      (i j : ℕ) (out : CollectrParsed Price) (x : Routed Price)
      → IsSplit i j out
      → IsRouted i j x
      → IsSplit i j (push_routed out x)
  unfolding push_routed
  push_routed-IsSplit i j out (single row q) h k =
      (All-append _ _ _ h.0 (All-replicate _ q row k), h.1, h.2)
  push_routed-IsSplit i j out (product row) h k = (h.0, All-append _ _ _ h.1 (k, tt), h.2)
  push_routed-IsSplit i j out (skip row) h k = (h.0, h.1, All-append _ _ _ h.2 (k, tt))

  widen :
      (l j : ℕ)
      → 2 ≤ l
      → l ≤ j
      → (r : Result (Routed Price)) → Ensures l l (IsRouted l l) r
      → Ensures 2 j (IsRouted 2 j) r
  unfolding Ensures
  widen l j a b (ok (single row q)) h = (h.0, h.1, omega (arith, a, h.2), omega (arith, b, h.3))
  widen l j a b (ok (product row)) h = (h.0, h.1, omega (arith, a, h.2), omega (arith, b, h.3))
  widen l j a b (ok (skip row)) h = (h.0, omega (arith, a, h.1), omega (arith, b, h.2))
  widen l j a b (err e) h = IsPlaced-widen 2 j l l e a b h

  abbrev EnsuresRouted : (ℕ → Record → Result (Routed Price)) → Type 0
  EnsuresRouted f = (l : ℕ) (r : Record) → Ensures l l (IsRouted l l) (f l r)

  module _ (f : ℕ → Record → Result (Routed Price)) (hf : EnsuresRouted f) where
    parse_rows-Ensures :
        (i j : ℕ) (out : CollectrParsed Price) (rs : List (Result Record))
        → All IsCsv rs
        → i + length rs ≤ j
        → IsSplit 2 (j + 1) out
        → Ensures 2 (j + 1) (IsSplit 2 (j + 1)) (parse_rows f out i rs)
    unfolding parse_rows Ensures
    parse_rows-Ensures i j out [] hs b h = h
    parse_rows-Ensures i j out (err e ∷ rs) hs b h = IsCsv-IsPlaced Record 2 (j + 1) e hs.0
    parse_rows-Ensures i j out (ok r ∷ rs) hs b h =
        bind-Ensures 2 (j + 1) (IsRouted 2 (j + 1)) (IsSplit 2 (j + 1)) (f (i + 2) r) _
          (widen (i + 2) (j + 1) (omega arith) (omega (arith, b)) (f (i + 2) r) (hf (i + 2) r))
          (λ x k.
            parse_rows-Ensures (i + 1) j (push_routed out x) rs hs.1 (omega (arith, b))
              (push_routed-IsSplit 2 (j + 1) out x h k))

module _ (u : Unicode) (i j : ℕ) (headers : Record) where
  columns-Ensures : Ensures i j (λ c. Unit) (columns u headers)
  unfolding columns
  columns-Ensures = need (codes "category") (codes "Category") _ (λ category.
      need (codes "set") (codes "Set") _ (λ set.
        need (codes "product name") (codes "Product Name") _ (λ name.
          need (codes "card number") (codes "Card Number") _ (λ number. ok-Ensures i j _ _ tt))))
    where
      need :
          (name what : Text) (k : ℕ → Result Columns)
          → ((n : ℕ) → Ensures i j (λ c. Unit) (k n))
          → Ensures i j (λ c. Unit) (ok_or (column u headers name) (missing_column what) >>= k)
      need name what k h =
          bind-Ensures i j (λ n. Unit) (λ c. Unit) _ k (ok_or-missing_column i j _ _) (λ n t. h n)

module _ (u : Unicode) {Price : Type 0} (parse_f64 : Text → Option Price) where
  route_pokemon-IsRouted :
      (c : Columns) (l : ℕ) (r : Record) (name set : Text) (q : ℕ) (number : Text)
      → is_empty set ≡ false
      → IsRouted l l (route_pokemon u parse_f64 c l r name set q number)
  unfolding route_pokemon
  route_pokemon-IsRouted c l r name set q [] h =
      (h, map_condition-IsTier u _, omega arith, omega arith)
  route_pokemon-IsRouted c l r name set q (n ∷ ns) h =
      (h, map_condition-IsTier u _, omega arith, omega arith)

  pub parse_row-Ensures :
      (c : Columns) (l : ℕ) (r : Record) → Ensures l l (IsRouted l l) (parse_row u parse_f64 c l r)
  unfolding parse_row
  parse_row-Ensures c l r =
      elim (Bool-cases (eq_ignore_ascii_case (cell r (some c.category)) (codes "pokemon"))) [
        | inl e ↦ rw e (elim (Bool-cases (is_empty (cell r (some c.set)))) [
          | inl e' ↦ rw e' (ok-Ensures l l _ _ (refl, omega arith, omega arith))
          | inr e' ↦ rw e' (
              bind-Ensures l l _ _ _
                (λ q. ok (
                  route_pokemon u parse_f64 c l r (cell r (some c.name)) (cell r (some c.set)) q
                    (cell r (some c.number))))
                (quantity_of-Ensures (codes "Quantity") l (cell r c.quantity))
                (λ q t. ok-Ensures l l _ _ (
                  route_pokemon-IsRouted c l r (cell r (some c.name)) (cell r (some c.set)) q
                    (cell r (some c.number)) e')))
        ])
        | inr e ↦ rw e (ok-Ensures l l _ _ (refl, omega arith, omega arith))
      ]

  -- A Collectr file whose errors are the csv crate's is split into cards and products, each with a set,
  -- one of the five conditions and the line of a record, and skipped rows, each with a reason and such a
  -- line; or it is an error, and an error of a row names such a line.
  pub Collectr-parse :
      (input : Csv)
      → IsFile input
      → Ensures 2
          (length input.records + 1)
          (IsSplit 2 (length input.records + 1))
          (parse u parse_f64 input)
  unfolding parse
  Collectr-parse input h =
      let n = length input.records + 1 in
      bind-Ensures 2 n (λ r. Unit) (IsSplit 2 n) input.headers _ (header n input.headers h.0)
        (λ headers t.
          bind-Ensures 2 n (λ c. Unit) (IsSplit 2 n) (columns u headers) _
            (columns-Ensures u 2 n headers)
            (λ c t'.
              parse_rows-Ensures (parse_row u parse_f64 c) (parse_row-Ensures c) 0
                (length input.records) (record { singles = []; sealed = []; skipped = [] })
                input.records h.1 (omega arith) (tt, tt, tt)))
