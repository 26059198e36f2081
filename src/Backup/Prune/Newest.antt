-- ===== src/Backup/Prune/Newest.antt =====
-- crates/pkdump-lakejobs/src/nessie_backup.rs: `prune` as a whole, and that the newest complete
-- backups survive it.
use Prim.Native.Nat.{Ordering}
use pokedumpster.Base.{
  Text, equal, equal_iff, includes, ℕ, zero, suc, ◌-◌, ◌≡◌, refl, sym, ap, ◌∙◌, subst, inl, inr,
  Option, none, some, List, [], ◌∷◌, true, false, ◌&&◌, arith, Bool-cases, length, take, drop, ltb,
}
use pokedumpster.Base.Order.{lex, compare-IsOrder, lex-IsOrder}
use pokedumpster.Backup.Store.{Store, IsStore, ok, ◌>>=◌, Bytes}
use pokedumpster.Backup.Ids.{
  prefix, key_parts, id_is_valid, manifest, three, insert, placed, text_order, complete_id,
  collect_ids, backup_ids,
}
use pokedumpster.Backup.Prune.{too_many, prune_keys, prune_listed, prune_ids, prune}
use pokedumpster.Backup.Prune.Safe.{condemned, start-IsDoomed}
use pokedumpster.Backup.Prune.Loop.{Ends, prune_keys-Ends}

-- In the order of the texts, each once: the first is before all others.
abbrev pub IsBefore : Text → List Text → Type 0
IsBefore x [] = Unit
IsBefore x (y ∷ ys) = (text_order x y ≡ Ordering.lt) × IsBefore x ys

abbrev pub IsSorted : List Text → Type 0
IsSorted [] = Unit
IsSorted (x ∷ xs) = IsBefore x xs × IsSorted xs

IsBefore-below :
    (x y : Text) (ys : List Text) → text_order x y ≡ Ordering.lt → IsBefore y ys → IsBefore x ys
IsBefore-below x y [] h b = tt
IsBefore-below x y (z ∷ zs) h b =
    ((lex-IsOrder compare-IsOrder).cmp_trans x y z h b.0, IsBefore-below x y zs h b.1)

placed-IsBefore :
    (z x y : Text) (ys later : List Text) (o : Ordering)
    → text_order z x ≡ Ordering.lt
    → IsBefore z (y ∷ ys)
    → IsBefore z later
    → IsBefore z (placed o x y ys later)
placed-IsBefore z x y ys later Ordering.lt h b l = (h, b)
placed-IsBefore z x y ys later Ordering.eq h b l = b
placed-IsBefore z x y ys later Ordering.gt h b l = (b.0, l)

insert-IsBefore :
    (z x : Text) (ys : List Text)
    → text_order z x ≡ Ordering.lt
    → IsBefore z ys
    → IsBefore z (insert x ys)
unfolding insert lex
insert-IsBefore z x [] h b = (h, tt)
insert-IsBefore z x (y ∷ ys) h b =
    placed-IsBefore z x y ys (insert x ys) (text_order x y) h b (insert-IsBefore z x ys h b.1)

placed-IsSorted :
    (x y : Text) (ys : List Text) (o : Ordering)
    → text_order x y ≡ o
    → IsSorted (y ∷ ys)
    → IsSorted (insert x ys)
    → IsSorted (placed o x y ys (insert x ys))
placed-IsSorted x y ys Ordering.lt e s later = ((e, IsBefore-below x y ys e s.0), s)
placed-IsSorted x y ys Ordering.eq e s later = s
placed-IsSorted x y ys Ordering.gt e s later =
    (insert-IsBefore y x ys (rw ((lex-IsOrder compare-IsOrder).cmp_flip x y, e) refl) s.0, later)

insert-IsSorted : (x : Text) (ys : List Text) → IsSorted ys → IsSorted (insert x ys)
unfolding insert lex
insert-IsSorted x [] s = (tt, tt)
insert-IsSorted x (y ∷ ys) s =
    placed-IsSorted x y ys (text_order x y) refl s (insert-IsSorted x ys s.1)

IsBefore-includes : (x : Text) (ys : List Text) → IsBefore x ys → includes ys x ≡ false
unfolding includes
IsBefore-includes x [] b = refl
IsBefore-includes x (y ∷ ys) b = elim (Bool-cases (equal y x)) [
  | inl e ↦ absurd (
      let f : Ordering.lt ≡ Ordering.eq =
        sym b.0
        ∙ ap (text_order x) ((equal_iff y x).0 e)
        ∙ (lex-IsOrder compare-IsOrder).cmp_refl x in
      cc)
  | inr e ↦ rw e (IsBefore-includes x ys b.1)
]

includes-drop :
    (n : ℕ) (xs : List Text) (x : Text) → includes (drop n xs) x ≡ true → includes xs x ≡ true
unfolding includes
includes-drop zero xs x h = h
includes-drop (suc n) [] x h = h
includes-drop (suc n) (y ∷ xs) x h = rw (includes-drop n xs x h) (ground arith)

take-drop :
    (n : ℕ) (xs : List Text) (x : Text)
    → IsSorted xs
    → includes (drop n xs) x ≡ true
    → includes (take n xs) x ≡ false
unfolding includes
take-drop zero xs x s h = refl
take-drop (suc n) [] x s h = refl
take-drop (suc n) (y ∷ xs) x s h = elim (Bool-cases (equal y x)) [
  | inl e ↦ absurd (
      let t : true ≡ false =
        sym (includes-drop n xs x h)
        ∙ subst (λ z. includes xs z ≡ false) ((equal_iff y x).0 e) (IsBefore-includes y xs s.0) in
      cc)
  | inr e ↦ rw e (take-drop n xs x s.1 h)
]

collect_ids-IsSorted : (ks ids : List Text) → IsSorted ids → IsSorted (collect_ids ks ids)
unfolding collect_ids
collect_ids-IsSorted [] ids s = s
collect_ids-IsSorted (k ∷ ks) ids s =
    collect_ids-IsSorted ks _ (complete_id-IsSorted (three (key_parts k)) ids s)
  where
    complete_id-IsSorted :
        (part : Option (Text × Text)) (ids : List Text)
        → IsSorted ids
        → IsSorted (complete_id part ids)
    complete_id-IsSorted none ids s = s
    complete_id-IsSorted (some (id, name)) ids s =
        elim (Bool-cases (equal name manifest && id_is_valid id)) [
          | inl e ↦ rw e (insert-IsSorted id ids s)
          | inr e ↦ rw e s
        ]

-- The newest complete backups are not condemned.
newest-condemned :
    (ids : List Text) (keep : ℕ) (id : Text)
    → IsSorted ids
    → includes (drop (length ids - keep) ids) id ≡ true
    → condemned ids keep id ≡ false
unfolding too_many includes
newest-condemned ids keep id s h = elim (Bool-cases (ltb keep (length ids))) [
  | inl e ↦
      rw (e, take-drop (length ids - keep) ids id s h, includes-drop (length ids - keep) ids id h)
        refl
  | inr e ↦ rw (e, includes-drop (length ids - keep) ids id h) refl
]

module _ {S : Type 0} (store : Store S) (holds : S → Text → Option Bytes)
    (laws : IsStore store holds) (s : S) (ks : List Text) (keep : ℕ)
    (listed : store.keys s prefix ≡ ok ks) where
  prune_listed_lem :
      prune store s keep
      ≡ prune_keys store (collect_ids ks []) ks (ok (too_many (collect_ids ks []) keep), s)
  unfolding prune backup_ids
  prune_listed_lem =
      ap (λ r. prune_ids store keep s (r >>= λ ks'. ok (collect_ids ks' []))) listed
      ∙ ap (prune_listed store (collect_ids ks []) (too_many (collect_ids ks []) keep) s) listed

  -- About every object: it is what it was after `prune` unless its backup is one of the complete ones
  -- that are too many, or an incomplete one before the newest; and when `prune` succeeds, an object of
  -- such a backup is gone if its key was listed.
  pub prune-Ends : Ends store holds (collect_ids ks []) keep ks s (prune store s keep)
  prune-Ends = subst (Ends store holds (collect_ids ks []) keep ks s) (sym prune_listed_lem) (
      prune_keys-Ends store holds (collect_ids ks []) keep laws ks
        (too_many (collect_ids ks []) keep) s (start-IsDoomed (collect_ids ks []) keep))

  -- An object of one of the `keep` newest complete backups is what it was after `prune`, however that
  -- ends.
  pub prune-newest :
      (k id name : Text)
      → three (key_parts k) ≡ some (id, name)
      → includes (drop (length (collect_ids ks []) - keep) (collect_ids ks [])) id ≡ true
      → holds (prune store s keep).1 k ≡ holds s k
  prune-newest k id name e h = (prune-Ends k).0 (
      rw (e, newest-condemned (collect_ids ks []) keep id (collect_ids-IsSorted ks [] tt) h)
        (ground arith))
