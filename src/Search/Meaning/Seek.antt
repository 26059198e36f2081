-- ===== src/Search/Meaning/Seek.antt =====
-- crates/pkdump-db/src/search.rs: `seek_predicate` selects exactly the rows behind the cursor.
use Prim.Native.Nat.{Ordering}
use pokedumpster.Base.{
  Text, ◌≤◌, ◌≡◌, ◌↔◌, refl, some, List, [], ◌∷◌, ◌++◌, Bool, true, false, ◌&&◌, ◌||◌, arith,
  Bool-cases, ◌∙◌, append_assoc, length,
}
use pokedumpster.Search.Value.{Value, null, integer, real, text, blob, Frag}
use pokedumpster.Search.Flag.{Dir, asc, desc}
use pokedumpster.Search.Seek.{chain, lead, seek_predicate}
use pokedumpster.Search.Meaning.{
  holds, is_eq, is_gt, is_ge, flip, Term, Pred, behind_bound, render_term, render_alts, render,
  null_first, key_order, then_by, row_order, values_of, term_truth, all_truth, any_truth,
  bound_truth, truth_of,
}
use pokedumpster.Search.Meaning.Select.{
  tie_term, beyond_term, seek_alts, seek_bound, seek, alternatives-render,
}
use pokedumpster.Search.Meaning.Logic.{
  is_true, is_true_iff, is_gt_iff, is_true-both, is_true-either, tie-order, beyond-order, all-snoc,
  at_least-order,
}

-- Behind at this key, or tied here and behind later.
step_asc :
    (t : Bool) (o later : Ordering)
    → ((t && is_gt o) || ((t && is_eq o) && is_gt later)) ≡ (t && is_gt (then_by o later))
step_asc true Ordering.lt later = refl
step_asc true Ordering.eq later = refl
step_asc true Ordering.gt later = refl
step_asc false o later = refl

step_desc :
    (t : Bool) (o later : Ordering)
    → ((t && is_gt (flip o)) || ((t && is_eq o) && is_gt later))
      ≡ (t && is_gt (then_by (flip o) later))
step_desc true Ordering.lt later = refl
step_desc true Ordering.eq later = refl
step_desc true Ordering.gt later = refl
step_desc false o later = refl

first_ge : (o later : Ordering) → then_by o later ≡ Ordering.gt → is_ge o ≡ true
first_ge Ordering.lt later h = cc
first_ge Ordering.eq later h = refl
first_ge Ordering.gt later h = refl

module _ {F : Type 0} (order : Value F → Value F → Ordering) (row : Text → Value F) where
  step :
      (t : Bool) (dir : Dir) (r v : Value F) (later : Ordering)
      → ((t && is_gt (key_order order dir r v))
          || ((t && is_eq (null_first order r v)) && is_gt later))
        ≡ (t && is_gt (then_by (key_order order dir r v) later))
  unfolding key_order
  step t asc r v later = step_asc t (null_first order r v) later
  step t desc r v later = step_desc t (null_first order r v) later

  any_truth-order :
      (ties : List (Term F)) (keys : List (Text × Dir)) (after : List (Value F))
      → length after ≡ length keys
      → is_true (any_truth order (seek_alts ties keys after) row) ≡ (
          is_true (all_truth order ties row)
          && is_gt (row_order order keys (values_of keys row) after))
  unfolding any_truth row_order values_of
  any_truth-order ties [] after h = ground (arith, Bool-cases (is_true (all_truth order ties row)))
  any_truth-order ties (key ∷ keys) [] h = absurd (omega arith)
  any_truth-order ties ((expr, dir) ∷ keys) (v ∷ after) h =
      rw
        (
          is_true-either (all_truth order (ties ++ beyond_term expr dir v ∷ []) row)
              (any_truth order (seek_alts (ties ++ tie_term expr v ∷ []) keys after) row),
          any_truth-order (ties ++ tie_term expr v ∷ []) keys after (omega arith),
          all-snoc order row ties (tie_term expr v),
          all-snoc order row ties (beyond_term expr dir v),
          tie-order order row expr v,
          beyond-order order row expr dir v,
        )
        (step (is_true (all_truth order ties row)) dir (row expr) v
          (row_order order keys (values_of keys row) after))

  -- The repeated bound leaves no row out.
  bound-order :
      (keys : List (Text × Dir)) (after : List (Value F))
      → row_order order keys (values_of keys row) after ≡ Ordering.gt
      → is_true (bound_truth order (seek_bound keys after) row) ≡ true
  unfolding row_order values_of term_truth key_order
  bound-order [] after h = refl
  bound-order ((expr, asc) ∷ keys) [] h = refl
  bound-order ((expr, desc) ∷ keys) [] h = refl
  bound-order ((expr, asc) ∷ keys) (null ∷ after) h = refl
  bound-order ((expr, desc) ∷ keys) (v ∷ after) h = refl
  bound-order ((expr, asc) ∷ keys) (integer n ∷ after) h =
      at_least-order order (row expr) (integer n) refl ∙ first_ge _ _ h
  bound-order ((expr, asc) ∷ keys) (real x ∷ after) h =
      at_least-order order (row expr) (real x) refl ∙ first_ge _ _ h
  bound-order ((expr, asc) ∷ keys) (text s ∷ after) h =
      at_least-order order (row expr) (text s) refl ∙ first_ge _ _ h
  bound-order ((expr, asc) ∷ keys) (blob b ∷ after) h =
      at_least-order order (row expr) (blob b) refl ∙ first_ge _ _ h

  pub truth_of-seek :
      (keys : List (Text × Dir)) (after : List (Value F))
      → length after ≡ length keys
      → (truth_of order (seek keys after) row ≡ holds)
        ↔ (row_order order keys (values_of keys row) after ≡ Ordering.gt)
  unfolding truth_of
  truth_of-seek keys after h = ground (
    arith,
    is_true_iff (truth_of order (seek keys after) row),
    is_gt_iff (row_order order keys (values_of keys row) after),
    is_true-both (bound_truth order (seek_bound keys after) row)
        (any_truth order (seek_alts [] keys after) row),
    any_truth-order [] keys after h,
    bound-order keys after,
  )

pub is_true-seek :
    {F : Type 0} (order : Value F → Value F → Ordering) (row : Text → Value F)
    (keys : List (Text × Dir)) (after : List (Value F))
    → length after ≡ length keys
    → is_true (truth_of order (seek keys after) row)
      ≡ is_gt (row_order order keys (values_of keys row) after)
is_true-seek order row keys after h = ground (
  arith,
  truth_of-seek order row keys after h,
  is_true_iff (truth_of order (seek keys after) row),
  is_gt_iff (row_order order keys (values_of keys row) after),
  Bool-cases (is_true (truth_of order (seek keys after) row)),
  Bool-cases (is_gt (row_order order keys (values_of keys row) after)),
)

lead-bound :
    {F : Type 0} (expr : Text) (dir : Dir) (v : Value F) (keys : List (Text × Dir))
    (after : List (Value F)) (f : Frag F)
    → lead expr dir v f ≡ behind_bound (seek_bound ((expr, dir) ∷ keys) (v ∷ after)) f
unfolding lead render_term
lead-bound expr asc null keys after (s, p) = refl
lead-bound expr desc null keys after (s, p) = refl
lead-bound expr asc (integer n) keys after (s, p) = simp append_assoc
lead-bound expr asc (real x) keys after (s, p) = simp append_assoc
lead-bound expr asc (text t) keys after (s, p) = simp append_assoc
lead-bound expr asc (blob b) keys after (s, p) = simp append_assoc
lead-bound expr desc (integer n) keys after (s, p) = refl
lead-bound expr desc (real x) keys after (s, p) = refl
lead-bound expr desc (text t) keys after (s, p) = refl
lead-bound expr desc (blob b) keys after (s, p) = refl

-- `seek_predicate` writes the predicate `seek`.
pub seek_predicate-render :
    {F : Type 0} (keys : List (Text × Dir)) (after : List (Value F))
    → length after ≡ length keys
    → 1 ≤ length keys
    → seek_predicate keys after ≡ some (render (seek keys after))
unfolding seek_predicate render
seek_predicate-render [] after h n = absurd (omega arith)
seek_predicate-render (key ∷ keys) [] h n = absurd (omega arith)
seek_predicate-render ((expr, dir) ∷ keys) (v ∷ after) h n =
    rw
      (
        alternatives-render [] ((expr, dir) ∷ keys) (v ∷ after) h,
        lead-bound expr dir v keys after
            (chain (render_alts (seek_alts [] ((expr, dir) ∷ keys) (v ∷ after)))),
      )
      refl

-- The seek predicate of a cursor is built, and a row meets it just when ORDER BY puts the row behind
-- the cursor.
pub seek_predicate-Selects :
    {F : Type 0} (order : Value F → Value F → Ordering) (keys : List (Text × Dir))
    (after : List (Value F))
    → length after ≡ length keys
    → 1 ≤ length keys
    → (p : Pred F) × (seek_predicate keys after ≡ some (render p))
      × ((row : Text → Value F)
          → (truth_of order p row ≡ holds)
            ↔ (row_order order keys (values_of keys row) after ≡ Ordering.gt))
seek_predicate-Selects order keys after h n = (
  seek keys after,
  seek_predicate-render keys after h n,
  λ row. truth_of-seek order row keys after h,
)
