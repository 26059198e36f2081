-- ===== src/Import/Surfaced.antt =====
-- crates/pkdump-core/src/import/collectr.rs: no record of a Collectr file disappears.
use pokedumpster.Base.{
  Text, ℕ, zero, suc, ◌+◌, ◌≡◌, sym, ap, ◌∙◌, subst, ◌⊎◌, inl, inr, List, [], ◌∷◌, ◌++◌, length,
  Any, Any-append, Option, arith,
}
use pokedumpster.Import.Collectr.{
  CollectrParsed, Routed, single, product, skip, push_routed, parse_rows, parse_row, parse, columns,
  Columns,
}
use pokedumpster.Import.Placed.{Ensures}
use pokedumpster.Import.Rows.{Result, ok, err, ◌>>=◌, Record}
use pokedumpster.Import.Split.{IsRouted, parse_row-Ensures}
use pokedumpster.Import.Unicode.{Unicode}

-- A property of what a parse gives, if it gives something.
abbrev IfOk : {A : Type 0} → (A → Type 0) → Result A → Type 0
IfOk P (ok a) = P a
IfOk P (err e) = Unit

bind-IfOk :
    {A B : Type 0} (P : B → Type 0) (r : Result A) (g : A → Result B)
    → ((a : A) → IfOk P (g a))
    → IfOk P (r >>= g)
bind-IfOk P (ok a) g h = h a
bind-IfOk P (err e) g h = tt

map-IfOk :
    {A : Type 0} (P Q : A → Type 0) (r : Result A) → ((a : A) → P a → Q a) → IfOk P r → IfOk Q r
map-IfOk P Q (ok a) f h = f a h
map-IfOk P Q (err e) f h = tt

all-IfOk : {A : Type 0} (P : A → Type 0) (r : Result A) → ((a : A) → P a) → IfOk P r
all-IfOk P (ok a) h = h a
all-IfOk P (err e) h = tt

module _ {Price : Type 0} where
  -- A card, a product or a skipped row has the line.
  abbrev pub Surfaces : ℕ → CollectrParsed Price → Type 0
  Surfaces l out =
      Any (λ row. row.source_line ≡ l) out.singles
      ⊎ (Any (λ row. row.source_line ≡ l) out.sealed ⊎ Any (λ row. row.source_line ≡ l) out.skipped)

  -- A card of which there is no copy.
  abbrev pub IsNoCopy : Result (Routed Price) → Type 0
  IsNoCopy (ok (single row zero)) = Unit
  IsNoCopy (ok (single row (suc q))) = ⊥
  IsNoCopy (ok (product row)) = ⊥
  IsNoCopy (ok (skip row)) = ⊥
  IsNoCopy (err e) = ⊥

  push_routed-keeps :
      (l : ℕ) (out : CollectrParsed Price) (x : Routed Price)
      → Surfaces l out
      → Surfaces l (push_routed out x)
  unfolding push_routed
  push_routed-keeps l out (single row q) (inl h) = inl (Any-append _ out.singles _ (inl h))
  push_routed-keeps l out (single row q) (inr h) = inr h
  push_routed-keeps l out (product row) (inl h) = inl h
  push_routed-keeps l out (product row) (inr (inl h)) =
      inr (inl (Any-append _ out.sealed _ (inl h)))
  push_routed-keeps l out (product row) (inr (inr h)) = inr (inr h)
  push_routed-keeps l out (skip row) (inl h) = inl h
  push_routed-keeps l out (skip row) (inr (inl h)) = inr (inl h)
  push_routed-keeps l out (skip row) (inr (inr h)) = inr (inr (Any-append _ out.skipped _ (inl h)))

  push_routed-Surfaces :
      (l : ℕ) (out : CollectrParsed Price) (x : Routed Price)
      → IsRouted l l x
      → Surfaces l (push_routed out x) ⊎ IsNoCopy (ok x)
  unfolding push_routed
  push_routed-Surfaces l out (single row zero) h = inr tt
  push_routed-Surfaces l out (single row (suc q)) h =
      inl (inl (Any-append _ out.singles _ (inr (inl (omega (arith, h.2, h.3))))))
  push_routed-Surfaces l out (product row) h =
      inl (inr (inl (Any-append _ out.sealed _ (inr (inl (omega (arith, h.2, h.3)))))))
  push_routed-Surfaces l out (skip row) h =
      inl (inr (inr (Any-append _ out.skipped _ (inr (inl (omega (arith, h.1, h.2)))))))

  module _ (f : ℕ → Record → Result (Routed Price)) where
    -- The loop keeps what it has.
    parse_rows-keeps :
        (l i : ℕ) (out : CollectrParsed Price) (rs : List (Result Record))
        → Surfaces l out
        → IfOk (Surfaces l) (parse_rows f out i rs)
    unfolding parse_rows
    parse_rows-keeps l i out [] k = k
    parse_rows-keeps l i out (err x ∷ rs) k = tt
    parse_rows-keeps l i out (ok r ∷ rs) k =
        bind-IfOk (Surfaces l) (f (i + 2) r) _
          (λ x. parse_rows-keeps l (i + 1) (push_routed out x) rs (push_routed-keeps l out x k))

    -- The record in front.
    front :
        (l i : ℕ) (out : CollectrParsed Price) (rs : List (Result Record))
        (o : Result (Routed Price))
        → Ensures l l (IsRouted l l) o
        → IfOk (λ e. Surfaces l e ⊎ IsNoCopy o) (o >>= λ x. parse_rows f (push_routed out x) i rs)
    unfolding Ensures
    front l i out rs (err e) h = tt
    front l i out rs (ok x) h = elim (push_routed-Surfaces l out x h) [
      | inl s ↦
          map-IfOk _ _ (parse_rows f (push_routed out x) i rs) (λ e k. inl k)
            (parse_rows-keeps l i (push_routed out x) rs s)
      | inr n ↦ all-IfOk _ (parse_rows f (push_routed out x) i rs) (λ e. inr n)
    ]

    module _ (hf : (l : ℕ) (r : Record) → Ensures l l (IsRouted l l) (f l r)) (r : Record)
        (after : List (Result Record)) where
      parse_rows-Surfaces :
          (before : List (Result Record)) (i l : ℕ) (out : CollectrParsed Price)
          → l ≡ length before + i + 2
          → IfOk
              (λ e. Surfaces l e ⊎ IsNoCopy (f l r))
              (parse_rows f out i (before ++ (ok r ∷ after)))
      unfolding parse_rows
      parse_rows-Surfaces [] i l out e =
          let e' : l ≡ i + 2 = omega (arith, e) in
          rw e' (front (i + 2) (i + 1) out after (f (i + 2) r) (hf (i + 2) r))
      parse_rows-Surfaces (err x ∷ before) i l out e = tt
      parse_rows-Surfaces (ok y ∷ before) i l out e =
          bind-IfOk (λ e. Surfaces l e ⊎ IsNoCopy (f l r)) (f (i + 2) y) _
            (λ x. parse_rows-Surfaces before (i + 1) l (push_routed out x) (omega (arith, e)))

-- Where a Collectr file is parsed, each of its records is surfaced by a card, a product or a skipped row
-- that carries the record's line, unless it is a card of which the file has no copy.
pub parse-Surfaces :
    (u : Unicode) {Price : Type 0} (parse_f64 : Text → Option Price) (headers : Record)
    (c : Columns) (before after : List (Result Record)) (r : Record) (out : CollectrParsed Price)
    → columns u headers ≡ ok c
    → parse u parse_f64 (record { headers = ok headers; records = before ++ (ok r ∷ after) })
      ≡ ok out
    → Surfaces (length before + 2) out ⊎ IsNoCopy (parse_row u parse_f64 c (length before + 2) r)
unfolding parse
parse-Surfaces u {Price = Price} parse_f64 headers c before after r out hc h =
    let l = length before + 2 in
    let P : CollectrParsed Price → Type 0 =
      λ e. Surfaces l e ⊎ IsNoCopy (parse_row u parse_f64 c l r) in
    let rows = before ++ (ok r ∷ after) in
    subst (IfOk P)
      (sym (
          ap
            (λ (k : Result Columns). k >>= λ c.
              parse_rows (parse_row u parse_f64 c)
                (record { singles = []; sealed = []; skipped = [] }) 0 rows)
            hc)
        ∙ h)
      (parse_rows-Surfaces (parse_row u parse_f64 c) (parse_row-Ensures u parse_f64 c) r after
        before 0 l (record { singles = []; sealed = []; skipped = [] }) (omega arith))
