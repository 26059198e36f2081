-- ===== src/Search/Meaning.antt =====
-- What crates/pkdump-db/src/search.rs means by a seek predicate and by ORDER BY: SQL's logic of three
-- values over a row, and the order of rows with NULL first ascending and last descending.
use Prim.Native.Nat.{Ordering}
use Prim.Native.Nat
use pokedumpster.Base.{
  Text, codes, Option, none, some, List, [], ◌∷◌, ◌++◌, Bool, true, false, ◌&&◌, ◌||◌,
  if◌then◌else◌, map,
}
use pokedumpster.Search.Value.{Value, null, integer, real, text, blob, Frag}
use pokedumpster.Search.Flag.{Dir, asc, desc}
use pokedumpster.Search.Seek.{alternative, chain}
pub mod Select
pub mod Logic
pub mod Seek
pub mod Lex

pub data Truth : Type 0 where
  holds fails unknown : Truth

abbrev pub truth : Bool → Truth
truth true = holds
truth false = fails

unfoldable pub both : Truth → Truth → Truth
both holds b = b
both fails b = fails
both unknown fails = fails
both unknown b = unknown

unfoldable pub either : Truth → Truth → Truth
either holds b = holds
either fails b = b
either unknown holds = holds
either unknown b = unknown

-- The atomic conditions of a seek predicate, on the value of an SQL expression.
pub data Term (F : Type 0) : Type 0 where
  is_null is_not_null : Text → Term F
  never : Term F
  equals greater at_least less_or_null : Text → Value F → Term F

-- Alternatives of conditions, behind an optional bound.
pub record Pred (F : Type 0) : Type 0 where
  pub bound : Option (Term F)
  pub alts : List (List (Term F))

abbrev pub is_lt : Ordering → Bool
is_lt Ordering.lt = true
is_lt _ = false

abbrev pub is_eq : Ordering → Bool
is_eq Ordering.eq = true
is_eq _ = false

abbrev pub is_gt : Ordering → Bool
is_gt Ordering.gt = true
is_gt _ = false

abbrev pub is_ge : Ordering → Bool
is_ge Ordering.lt = false
is_ge _ = true

abbrev pub flip : Ordering → Ordering
flip Ordering.lt = Ordering.gt
flip Ordering.eq = Ordering.eq
flip Ordering.gt = Ordering.lt

abbrev pub then_by : Ordering → Ordering → Ordering
then_by Ordering.eq later = later
then_by o later = o

module _ {F : Type 0} where
  -- The SQL of a condition and of a predicate.
  unfoldable pub render_term : Term F → Frag F
  render_term (is_null e) = (e ++ codes " IS NULL", [])
  render_term (is_not_null e) = (e ++ codes " IS NOT NULL", [])
  render_term never = (codes "0", [])
  render_term (equals e v) = (e ++ codes " = ?", v ∷ [])
  render_term (greater e v) = (e ++ codes " > ?", v ∷ [])
  render_term (at_least e v) = (e ++ codes " >= ?", v ∷ [])
  render_term (less_or_null e v) =
      (codes "(" ++ e ++ codes " < ? OR " ++ e ++ codes " IS NULL)", v ∷ [])

  abbrev pub behind_bound : Option (Term F) → Frag F → Frag F
  behind_bound none f = f
  behind_bound (some t) (sql, params) =
      ((render_term t).0 ++ codes " AND " ++ sql, (render_term t).1 ++ params)

  unfoldable pub render_alts : List (List (Term F)) → List (Frag F)
  unfolding alternative render_term
  render_alts [] = []
  render_alts (ts ∷ alts) = alternative (map render_term ts) ∷ render_alts alts

  unfoldable pub render : Pred F → Frag F
  unfolding render_alts chain
  render p = behind_bound p.bound (chain (render_alts p.alts))

  abbrev pub null_test : Value F → Bool
  null_test null = true
  null_test _ = false

  -- The order of two values that are not NULL is the database's.
  module _ (order : Value F → Value F → Ordering) where
    -- A comparison with NULL is neither true nor false.
    unfoldable pub tested : (Ordering → Bool) → Value F → Value F → Truth
    tested t null w = unknown
    tested t v null = unknown
    tested t v w = truth (t (order v w))

    unfoldable pub term_truth : Term F → (Text → Value F) → Truth
    unfolding tested either
    term_truth (is_null e) row = truth (null_test (row e))
    term_truth (is_not_null e) row = if null_test (row e) then fails else holds
    term_truth never row = fails
    term_truth (equals e v) row = tested is_eq (row e) v
    term_truth (greater e v) row = tested is_gt (row e) v
    term_truth (at_least e v) row = tested is_ge (row e) v
    term_truth (less_or_null e v) row = either (tested is_lt (row e) v) (truth (null_test (row e)))

    unfoldable pub all_truth : List (Term F) → (Text → Value F) → Truth
    unfolding term_truth both
    all_truth [] row = holds
    all_truth (t ∷ ts) row = both (term_truth t row) (all_truth ts row)

    unfoldable pub any_truth : List (List (Term F)) → (Text → Value F) → Truth
    unfolding all_truth either
    any_truth [] row = fails
    any_truth (ts ∷ alts) row = either (all_truth ts row) (any_truth alts row)

    abbrev pub bound_truth : Option (Term F) → (Text → Value F) → Truth
    bound_truth none row = holds
    bound_truth (some t) row = term_truth t row

    unfoldable pub truth_of : Pred F → (Text → Value F) → Truth
    unfolding any_truth term_truth both
    truth_of p row = both (bound_truth p.bound row) (any_truth p.alts row)

    -- NULL is the least value.
    unfoldable pub null_first : Value F → Value F → Ordering
    null_first null null = Ordering.eq
    null_first null w = Ordering.lt
    null_first v null = Ordering.gt
    null_first v w = order v w

    unfoldable pub key_order : Dir → Value F → Value F → Ordering
    unfolding null_first
    key_order asc v w = null_first v w
    key_order desc v w = flip (null_first v w)

    -- ORDER BY over the values of the keys, the first key first.
    unfoldable pub row_order : List (Text × Dir) → List (Value F) → List (Value F) → Ordering
    unfolding key_order
    row_order [] vs ws = Ordering.eq
    row_order (key ∷ keys) [] ws = Ordering.eq
    row_order (key ∷ keys) (v ∷ vs) [] = Ordering.eq
    row_order ((expr, dir) ∷ keys) (v ∷ vs) (w ∷ ws) =
        then_by (key_order dir v w) (row_order keys vs ws)

  unfoldable pub values_of : List (Text × Dir) → (Text → Value F) → List (Value F)
  values_of [] row = []
  values_of ((expr, dir) ∷ keys) row = row expr ∷ values_of keys row
