-- ===== src/Search/Meaning/Logic.antt =====
-- crates/pkdump-db/src/search.rs: SQL's logic of three values against the order of the values.
use Prim.Native.Nat.{Ordering}
use pokedumpster.Base.{
  Text, ◌≡◌, ◌↔◌, refl, List, [], ◌∷◌, ◌++◌, Bool, true, false, ◌&&◌, ◌||◌, if◌then◌else◌, arith,
}
use pokedumpster.Search.Value.{Value, null, integer, real, text, blob}
use pokedumpster.Search.Flag.{Dir, asc, desc}
use pokedumpster.Search.Meaning.{
  Truth, holds, fails, unknown, truth, both, either, is_lt, is_eq, is_gt, is_ge, flip, null_test,
  tested, null_first, key_order, term_truth, Term, all_truth,
}
use pokedumpster.Search.Meaning.Select.{tie_term, beyond_term}

abbrev pub is_true : Truth → Bool
is_true holds = true
is_true _ = false

pub is_true_iff : (t : Truth) → (t ≡ holds) ↔ (is_true t ≡ true)
is_true_iff holds = ground arith
is_true_iff fails = ground arith
is_true_iff unknown = ground arith

pub is_gt_iff : (o : Ordering) → (o ≡ Ordering.gt) ↔ (is_gt o ≡ true)
is_gt_iff Ordering.lt = ground arith
is_gt_iff Ordering.eq = ground arith
is_gt_iff Ordering.gt = ground arith

is_true-truth : (b : Bool) → is_true (truth b) ≡ b
is_true-truth true = refl
is_true-truth false = refl

pub is_true-both : (a b : Truth) → is_true (both a b) ≡ (is_true a && is_true b)
unfolding both
is_true-both holds b = refl
is_true-both fails b = refl
is_true-both unknown holds = refl
is_true-both unknown fails = refl
is_true-both unknown unknown = refl

pub is_true-either : (a b : Truth) → is_true (either a b) ≡ (is_true a || is_true b)
unfolding either
is_true-either holds b = refl
is_true-either fails b = refl
is_true-either unknown holds = refl
is_true-either unknown fails = refl
is_true-either unknown unknown = refl

module _ {F : Type 0} (order : Value F → Value F → Ordering) where
  equals-order :
      (r v : Value F)
      → null_test v ≡ false
      → is_true (tested order is_eq r v) ≡ is_eq (null_first order r v)
  unfolding tested null_first
  equals-order r null h = cc
  equals-order null v h = refl
  equals-order r v h = is_true-truth (is_eq (order r v))

  greater-order :
      (r v : Value F)
      → null_test v ≡ false
      → is_true (tested order is_gt r v) ≡ is_gt (null_first order r v)
  unfolding tested null_first
  greater-order r null h = cc
  greater-order null v h = refl
  greater-order r v h = is_true-truth (is_gt (order r v))

  pub at_least-order :
      (r v : Value F)
      → null_test v ≡ false
      → is_true (tested order is_ge r v) ≡ is_ge (null_first order r v)
  unfolding tested null_first
  at_least-order r null h = cc
  at_least-order null v h = refl
  at_least-order r v h = is_true-truth (is_ge (order r v))

  less-order :
      (r v : Value F)
      → null_test v ≡ false
      → is_true (either (tested order is_lt r v) (truth (null_test r)))
        ≡ is_gt (flip (null_first order r v))
  unfolding tested null_first either
  less-order r null h = cc
  less-order null v h = refl
  less-order r v h = flipped (order r v)
    where
      flipped : (o : Ordering) → is_true (either (truth (is_lt o)) (truth false)) ≡ is_gt (flip o)
      flipped Ordering.lt = unfold either in refl
      flipped Ordering.eq = unfold either in refl
      flipped Ordering.gt = unfold either in refl

  null-order : (r : Value F) → null_test r ≡ is_eq (null_first order r null)
  unfolding null_first
  null-order null = refl
  null-order r = refl

  not_null-order :
      (r : Value F)
      → is_true (if null_test r then fails else holds) ≡ is_gt (null_first order r null)
  unfolding null_first
  not_null-order null = refl
  not_null-order r = refl

  never-order : (r : Value F) → false ≡ is_gt (flip (null_first order r null))
  unfolding null_first
  never-order null = refl
  never-order r = refl

  module _ (row : Text → Value F) (expr : Text) where
    -- A tie holds where neither value comes before the other.
    pub tie-order :
        (v : Value F)
        → is_true (term_truth order (tie_term expr v) row) ≡ is_eq (null_first order (row expr) v)
    unfolding term_truth
    tie-order null = rw is_true-truth (null-order (row expr))
    tie-order (integer n) = equals-order (row expr) (integer n) refl
    tie-order (real x) = equals-order (row expr) (real x) refl
    tie-order (text s) = equals-order (row expr) (text s) refl
    tie-order (blob b) = equals-order (row expr) (blob b) refl

    -- The last condition holds where the row's value comes behind the cursor's.
    pub beyond-order :
        (dir : Dir) (v : Value F)
        → is_true (term_truth order (beyond_term expr dir v) row)
          ≡ is_gt (key_order order dir (row expr) v)
    unfolding term_truth key_order
    beyond-order asc null = not_null-order (row expr)
    beyond-order desc null = never-order (row expr)
    beyond-order asc (integer n) = greater-order (row expr) (integer n) refl
    beyond-order asc (real x) = greater-order (row expr) (real x) refl
    beyond-order asc (text s) = greater-order (row expr) (text s) refl
    beyond-order asc (blob b) = greater-order (row expr) (blob b) refl
    beyond-order desc (integer n) = less-order (row expr) (integer n) refl
    beyond-order desc (real x) = less-order (row expr) (real x) refl
    beyond-order desc (text s) = less-order (row expr) (text s) refl
    beyond-order desc (blob b) = less-order (row expr) (blob b) refl

  pub all-snoc :
      (row : Text → Value F) (ts : List (Term F)) (t : Term F)
      → is_true (all_truth order (ts ++ t ∷ []) row)
        ≡ (is_true (all_truth order ts row) && is_true (term_truth order t row))
  unfolding all_truth
  all-snoc row [] t = ground (arith, is_true-both (term_truth order t row) holds)
  all-snoc row (u ∷ ts) t = ground (
    arith,
    is_true-both (term_truth order u row) (all_truth order (ts ++ t ∷ []) row),
    is_true-both (term_truth order u row) (all_truth order ts row),
    all-snoc row ts t,
  )
