-- ===== src/Backup/Prune/Safe.antt =====
-- crates/pkdump-lakejobs/src/nessie_backup.rs: what `prune` keeps and what it removes.
use Prim.Native.Nat.{Ordering}
use pokedumpster.Base.{
  Text, equal, equal_iff, includes, ℕ, ◌≡◌, refl, subst, inl, inr, Option, none, some, List, [],
  ◌∷◌, Bool, true, false, ◌&&◌, ◌||◌, not, arith, Bool-cases,
}
use pokedumpster.Base.Order.{lex}
use pokedumpster.Backup.Ids.{key_parts, id_is_valid, three, insert, placed, text_order}
use pokedumpster.Backup.Prune.{last, older_than, too_many, is_doomed}

-- The ids that a pruning is to remove: those that are too many, and the incomplete ones before the newest
-- complete one.
abbrev pub condemned : List Text → ℕ → Text → Bool
condemned ids keep id =
    includes (too_many ids keep) id || (not (includes ids id) && older_than id (last ids))

abbrev pub part_condemned : List Text → ℕ → Option (Text × Text) → Bool
part_condemned ids keep none = false
part_condemned ids keep (some (id, name)) = id_is_valid id && condemned ids keep id

abbrev pub key_condemned : List Text → ℕ → Text → Bool
key_condemned ids keep k = part_condemned ids keep (three (key_parts k))

-- `cmp` is equal only on equal texts.
text_order-eq : (x y : Text) → text_order x y ≡ Ordering.eq → x ≡ y
unfolding lex
text_order-eq [] [] h = refl
text_order-eq [] (y ∷ ys) h = cc
text_order-eq (x ∷ xs) [] h = cc
text_order-eq (x ∷ xs) (y ∷ ys) h = ground (arith, text_order-eq xs ys)

placed-includes :
    (x y z : Text) (ys later : List Text) (o : Ordering)
    → (o ≡ Ordering.eq → x ≡ y)
    → (includes later z ≡ (equal x z || includes ys z))
    → includes (placed o x y ys later) z ≡ (equal x z || includes (y ∷ ys) z)
unfolding includes
placed-includes x y z ys later Ordering.lt e h = refl
placed-includes x y z ys later Ordering.eq e h = rw (e refl) (ground arith)
placed-includes x y z ys later Ordering.gt e h = rw h ground arith

insert-includes :
    (x z : Text) (ys : List Text) → includes (insert x ys) z ≡ (equal x z || includes ys z)
unfolding includes insert lex
insert-includes x z [] = refl
insert-includes x z (y ∷ ys) =
    placed-includes x y z ys (insert x ys) (text_order x y) (text_order-eq x y)
      (insert-includes x z ys)

-- Every id that the loop takes for doomed is condemned.
abbrev pub AreCondemned : List Text → ℕ → List Text → Type 0
AreCondemned ids keep doomed =
    (id : Text) → includes doomed id ≡ true → condemned ids keep id ≡ true

-- The doomed ids on the way: those that are too many at least, condemned ones at most.
pub record IsDoomed (ids : List Text) (keep : ℕ) (doomed : List Text) : Type 0 where
  pub at_least : (id : Text) → includes (too_many ids keep) id ≡ true → includes doomed id ≡ true
  pub at_most : (id : Text) → includes doomed id ≡ true → condemned ids keep id ≡ true

module _ (ids : List Text) (keep : ℕ) where
  pub start-IsDoomed : IsDoomed ids keep (too_many ids keep)
  start-IsDoomed = record { at_least = λ id h. h; at_most = λ id h. rw h refl }

  pub insert-IsDoomed :
      (x : Text) (doomed : List Text)
      → condemned ids keep x ≡ true
      → IsDoomed ids keep doomed
      → IsDoomed ids keep (insert x doomed)
  insert-IsDoomed x doomed c h = record {
    at_least = λ id a. rw (insert-includes x id doomed, h.at_least id a) (ground arith);
    at_most = λ id a. elim (Bool-cases (equal x id)) [
      | inl e ↦ subst (λ y. condemned ids keep y ≡ true) ((equal_iff x id).0 e) c
      | inr n ↦ h.at_most id (ground (arith, insert-includes x id doomed))
    ];
  }

  pub is_doomed-condemned :
      (doomed : List Text) (id : Text)
      → IsDoomed ids keep doomed
      → is_doomed ids doomed id ≡ condemned ids keep id
  is_doomed-condemned doomed id h = ground (arith, h.at_least id, h.at_most id)
