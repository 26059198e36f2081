-- ===== src/Search/Seek.antt =====
-- crates/pkdump-db/src/search.rs: `seek_predicate`, the rows behind a cursor, and `build_sql`.
use pokedumpster.Base.{Text, codes, Option, none, some, List, [], ◌∷◌, ◌++◌}
use pokedumpster.Search.Value.{Value, null, Frag, join}
use pokedumpster.Search.Flag.{Dir, asc, desc}
use pokedumpster.Search.Order.{sql}

module _ {F : Type 0} where
  -- The term of an earlier key: the row ties with the cursor there.
  abbrev pub tie : Text → Value F → Text × List (Value F)
  tie expr null = (expr ++ codes " IS NULL", [])
  tie expr v = (expr ++ codes " = ?", v ∷ [])

  -- The term of the key at which the row lies behind the cursor.
  abbrev pub beyond : Text → Dir → Value F → Text × List (Value F)
  beyond expr asc null = (expr ++ codes " IS NOT NULL", [])
  beyond expr desc null = (codes "0", [])
  beyond expr asc v = (expr ++ codes " > ?", v ∷ [])
  beyond expr desc v = (codes "(" ++ expr ++ codes " < ? OR " ++ expr ++ codes " IS NULL)", v ∷ [])

  unfoldable pub concat_params : List (Frag F) → List (Value F)
  concat_params [] = []
  concat_params ((s, p) ∷ fs) = p ++ concat_params fs

  unfoldable pub texts : List (Frag F) → List Text
  texts [] = []
  texts ((s, p) ∷ fs) = s ∷ texts fs

  -- One pass of the outer loop: the terms joined, and their values in order.
  unfoldable pub alternative : List (Frag F) → Frag F
  unfolding join concat_params texts
  alternative terms =
      (codes "(" ++ join (codes " AND ") (texts terms) ++ codes ")", concat_params terms)

  abbrev pub cons_some : Frag F → Option (List (Frag F)) → Option (List (Frag F))
  cons_some f none = none
  cons_some f (some fs) = some (f ∷ fs)

  -- The outer loop, with the terms of its inner loop so far; `none` is an index out of range.
  unfoldable pub alternatives :
      List (Frag F) → List (Text × Dir) → List (Value F) → Option (List (Frag F))
  unfolding alternative
  alternatives ties [] after = some []
  alternatives ties (key ∷ keys) [] = none
  alternatives ties ((expr, dir) ∷ keys) (v ∷ after) =
      cons_some (alternative (ties ++ beyond expr dir v ∷ []))
        (alternatives (ties ++ tie expr v ∷ []) keys after)

  unfoldable pub chain : List (Frag F) → Frag F
  unfolding join concat_params texts
  chain alts = (codes "(" ++ join (codes " OR ") (texts alts) ++ codes ")", concat_params alts)

  -- The bound of the first key, repeated in front of the chain.
  unfoldable pub lead : Text → Dir → Value F → Frag F → Frag F
  lead expr asc null (sql, params) = (sql, params)
  lead expr asc v (sql, params) = (expr ++ codes " >= ? AND " ++ sql, v ∷ params)
  lead expr desc v (sql, params) = (sql, params)

  abbrev pub lead_first :
      List (Text × Dir) → List (Value F) → Option (List (Frag F)) → Option (Frag F)
  lead_first ((expr, dir) ∷ keys) (v ∷ after) (some alts) = some (lead expr dir v (chain alts))
  lead_first _ _ _ = none

  unfoldable pub seek_predicate : List (Text × Dir) → List (Value F) → Option (Frag F)
  unfolding alternatives
  seek_predicate keys after = lead_first keys after (alternatives [] keys after)
