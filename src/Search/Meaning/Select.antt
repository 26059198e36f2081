-- ===== src/Search/Meaning/Select.antt =====
-- crates/pkdump-db/src/search.rs: `seek_predicate` selects the rows behind the cursor.
use pokedumpster.Base.{Text, ◌≡◌, refl, Option, none, some, List, [], ◌∷◌, ◌++◌, map, length, arith}
use pokedumpster.Search.Value.{Value, null, integer, real, text, blob}
use pokedumpster.Search.Flag.{Dir, asc, desc}
use pokedumpster.Search.Seek.{tie, beyond, alternatives}
use pokedumpster.Search.Meaning.{
  Term, is_null, is_not_null, never, equals, greater, at_least, less_or_null, Pred, render_term,
  render_alts,
}

module _ {F : Type 0} where
  abbrev pub tie_term : Text → Value F → Term F
  tie_term expr null = is_null expr
  tie_term expr v = equals expr v

  abbrev pub beyond_term : Text → Dir → Value F → Term F
  beyond_term expr asc null = is_not_null expr
  beyond_term expr desc null = never
  beyond_term expr asc v = greater expr v
  beyond_term expr desc v = less_or_null expr v

  abbrev pub seek_alts : List (Term F) → List (Text × Dir) → List (Value F) → List (List (Term F))
  seek_alts ties [] after = []
  seek_alts ties (key ∷ keys) [] = []
  seek_alts ties ((expr, dir) ∷ keys) (v ∷ after) =
      (ties ++ beyond_term expr dir v ∷ []) ∷ seek_alts (ties ++ tie_term expr v ∷ []) keys after

  abbrev pub seek_bound : List (Text × Dir) → List (Value F) → Option (Term F)
  seek_bound ((expr, asc) ∷ keys) (null ∷ after) = none
  seek_bound ((expr, asc) ∷ keys) (v ∷ after) = some (at_least expr v)
  seek_bound _ _ = none

  -- The predicate that `seek_predicate` writes.
  abbrev pub seek : List (Text × Dir) → List (Value F) → Pred F
  seek keys after = record { bound = seek_bound keys after; alts = seek_alts [] keys after }

  render-tie_term : (expr : Text) (v : Value F) → render_term (tie_term expr v) ≡ tie expr v
  unfolding render_term
  render-tie_term expr null = refl
  render-tie_term expr (integer n) = refl
  render-tie_term expr (real x) = refl
  render-tie_term expr (text s) = refl
  render-tie_term expr (blob b) = refl

  render-beyond_term :
      (expr : Text) (dir : Dir) (v : Value F)
      → render_term (beyond_term expr dir v) ≡ beyond expr dir v
  unfolding render_term
  render-beyond_term expr asc null = refl
  render-beyond_term expr desc null = refl
  render-beyond_term expr asc (integer n) = refl
  render-beyond_term expr asc (real x) = refl
  render-beyond_term expr asc (text s) = refl
  render-beyond_term expr asc (blob b) = refl
  render-beyond_term expr desc (integer n) = refl
  render-beyond_term expr desc (real x) = refl
  render-beyond_term expr desc (text s) = refl
  render-beyond_term expr desc (blob b) = refl

  map-snoc :
      (ts : List (Term F)) (t : Term F)
      → map render_term (ts ++ t ∷ []) ≡ map render_term ts ++ render_term t ∷ []
  map-snoc [] t = refl
  map-snoc (u ∷ ts) t = rw (map-snoc ts t) refl

  pub alternatives-render :
      (ties : List (Term F)) (keys : List (Text × Dir)) (after : List (Value F))
      → length after ≡ length keys
      → alternatives (map render_term ties) keys after
        ≡ some (render_alts (seek_alts ties keys after))
  unfolding alternatives render_alts
  alternatives-render ties [] after h = refl
  alternatives-render ties (key ∷ keys) [] h = absurd (omega arith)
  alternatives-render ties ((expr, dir) ∷ keys) (v ∷ after) h =
      rw
        (
          ← (render-tie_term expr v),
          ← (render-beyond_term expr dir v),
          ← (map-snoc ties (tie_term expr v)),
          ← (map-snoc ties (beyond_term expr dir v)),
          alternatives-render (ties ++ tie_term expr v ∷ []) keys after (omega arith),
        )
        refl
