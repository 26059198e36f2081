-- ===== src/Search/Page/Sorted.antt =====
-- What a database answers to the row query of crates/pkdump-db/src/search.rs: a table in ORDER BY
-- order, of which the rows behind one of them are those that follow it.
use Prim.Native.Nat.{Ordering}
use pokedumpster.Base.{Text, ◌≡◌, refl, List, [], ◌∷◌, ◌++◌, Bool, if◌then◌else◌, All}
use pokedumpster.Search.Value.{Value}
use pokedumpster.Search.Flag.{Dir}
use pokedumpster.Search.Meaning.{is_gt, row_order, values_of}
use pokedumpster.Search.Meaning.Lex.{IsOrder, row_order-same, row_order-flipped}
use pokedumpster.Search.Row.{Columns}

-- A row that the query matches: its columns, and the value of each SQL expression on it.
pub record Entry (F : Type 0) : Type 0 where
  pub columns : Columns F
  pub env : Text → Value F

abbrev pub keep {ℓ} : {A : Type ℓ} → (A → Bool) → List A → List A
keep t [] = []
keep t (x ∷ xs) = if t x then x ∷ keep t xs else keep t xs

module _ {F : Type 0} (order : Value F → Value F → Ordering) (keys : List (Text × Dir)) where
  abbrev pub entry_order : Entry F → Entry F → Ordering
  entry_order a b = row_order order keys (values_of keys a.env) (values_of keys b.env)

  -- Each row comes behind all before it.
  abbrev pub IsSorted : List (Entry F) → Type 0
  IsSorted [] = Unit
  IsSorted (e ∷ es) = All (λ later. entry_order later e ≡ Ordering.gt) es × IsSorted es

  abbrev pub behind : Entry F → Entry F → Bool
  behind e other = is_gt (entry_order other e)

  keep_all :
      (e : Entry F) (es : List (Entry F))
      → All (λ later. entry_order later e ≡ Ordering.gt) es
      → keep (behind e) es ≡ es
  keep_all e [] h = refl
  keep_all e (x ∷ es) h = rw (h.0, keep_all e es h.1) refl

  module _ (laws : IsOrder order) where
    -- The rows behind one of a sorted table are those that follow it.
    pub keep-behind :
        (front : List (Entry F)) (e : Entry F) (rest : List (Entry F))
        → IsSorted (front ++ e ∷ rest)
        → keep (behind e) (front ++ e ∷ rest) ≡ rest
    keep-behind [] e rest h =
        rw (row_order-same order laws keys (values_of keys e.env)) (keep_all e rest h.0)
    keep-behind (x ∷ front) e rest h =
        rw
          (
            row_order-flipped order laws keys (values_of keys e.env) (values_of keys x.env),
            at front h.0,
          )
          (keep-behind front e rest h.1)
      where
        at :
            (front : List (Entry F))
            → All (λ later. entry_order later x ≡ Ordering.gt) (front ++ e ∷ rest)
            → entry_order e x ≡ Ordering.gt
        at [] h = h.0
        at (y ∷ front) h = at front h.1
