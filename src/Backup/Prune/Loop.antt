-- ===== src/Backup/Prune/Loop.antt =====
-- crates/pkdump-lakejobs/src/nessie_backup.rs: what is left of the objects, however `prune` ends.
use pokedumpster.Base.{
  Text, equal, equal_iff, includes, ℕ, ◌≡◌, ◌≢◌, refl, sym, ap, ◌∙◌, subst, inl, inr, Option, none,
  some, List, [], ◌∷◌, Bool, true, false, ◌&&◌, if◌then◌else◌, arith, Bool-cases,
}
use pokedumpster.Backup.Store.{Store, IsStore, Result, ok, err, Bytes}
use pokedumpster.Backup.Ids.{key_parts, id_is_valid, three, insert}
use pokedumpster.Backup.Prune.{Pruning, deleted, prune_part, prune_keys}
use pokedumpster.Backup.Prune.Safe.{
  condemned, part_condemned, key_condemned, IsDoomed, insert-IsDoomed, is_doomed-condemned,
}

apart : (k other : Text) → equal k other ≡ false → other ≢ k
apart k other n e = absurd (let t : true ≡ false = sym ((equal_iff k other).1 (sym e)) ∙ n in cc)

none_anyway : (b : Bool) (o : Option Bytes) → o ≡ none → (if b then none else o) ≡ none
none_anyway true o h = refl
none_anyway false o h = h

module _ {S : Type 0} (store : Store S) (holds : S → Text → Option Bytes) (ids : List Text)
    (keep : ℕ) where
  -- What a run over some keys makes of one object: it stands unless it is condemned, and when the run
  -- succeeds it is gone if it is condemned and was among the keys.
  abbrev pub Ends : List Text → S → Pruning store → Type 0
  Ends ks s r =
      (k : Text)
      → (key_condemned ids keep k ≡ false → holds r.1 k ≡ holds s k)
        × ((gone : List Text)
            → r.0 ≡ ok gone
            → holds r.1 k ≡ (if includes ks k && key_condemned ids keep k then none else holds s k))

  skipped :
      (k : Text) (ks : List Text) (s : S) (r : Pruning store)
      → key_condemned ids keep k ≡ false
      → Ends ks s r
      → Ends (k ∷ ks) s r
  unfolding includes
  skipped k ks s r c h other = elim (Bool-cases (equal k other)) [
    | inl e ↦
        let c' : key_condemned ids keep other ≡ false =
          subst (λ i. key_condemned ids keep i ≡ false) ((equal_iff k other).0 e) c in
        ((h other).0, λ gone q. (h other).1 gone q ∙ rw c' (ground arith))
    | inr n ↦ rw n (h other)
  ]

  removed :
      (k : Text) (ks : List Text) (s s' : S) (r : Pruning store)
      → key_condemned ids keep k ≡ true
      → holds s' k ≡ none
      → ((other : Text) → other ≢ k → holds s' other ≡ holds s other)
      → Ends ks s' r
      → Ends (k ∷ ks) s r
  unfolding includes
  removed k ks s s' r c gone kept h other = elim (Bool-cases (equal k other)) [
    | inl e ↦
        let f : k ≡ other = (equal_iff k other).0 e in
        let c' : key_condemned ids keep other ≡ true =
          subst (λ i. key_condemned ids keep i ≡ true) f c in
        (
          λ d. absurd (let t : true ≡ false = sym c' ∙ d in cc),
          λ left q.
              (h other).1 left q
              ∙ none_anyway _ (holds s' other) (subst (λ i. holds s' i ≡ none) f gone)
              ∙ rw (e, c') refl,
        )
    | inr n ↦ rw (n, sym (kept other (apart k other n))) (h other)
  ]

  failed :
      (k : Text) (ks : List Text) (s s' : S) (e : Text)
      → key_condemned ids keep k ≡ true
      → ((other : Text) → other ≢ k → holds s' other ≡ holds s other)
      → Ends (k ∷ ks) s (err e, s')
  unfolding includes
  failed k ks s s' e c kept other = (
    λ d. kept other (λ p.
        absurd (let t : true ≡ false = sym c ∙ ap (key_condemned ids keep) (sym p) ∙ d in cc)),
    λ gone q. absurd (let t : err e ≡ ok gone = q in cc),
  )

  ended : (ks : List Text) (s : S) (m : Text) → prune_keys store ids ks (err m, s) ≡ (err m, s)
  unfolding prune_keys
  ended [] s m = refl
  ended (k ∷ ks) s m = refl

module _ {S : Type 0} (store : Store S) (holds : S → Text → Option Bytes) (ids : List Text)
    (keep : ℕ) (laws : IsStore store holds) where
  -- One deletion, and the rest of the loop after it.
  deleted-Ends :
      (k id : Text) (ks doomed : List Text) (s : S) (r : Result (Unit {0}))
      → (store.delete s k).0 ≡ r
      → key_condemned ids keep k ≡ true
      → condemned ids keep id ≡ true
      → IsDoomed ids keep doomed
      → ((d : List Text) (s' : S)
          → IsDoomed ids keep d
          → Ends store holds ids keep ks s' (prune_keys store ids ks (ok d, s')))
      → Ends store holds ids keep
          (k ∷ ks)
          s
          (prune_keys store ids ks (deleted store id doomed (r, (store.delete s k).1)))
  deleted-Ends k id ks doomed s (ok tt) e c c' h rest =
      removed store holds ids keep k ks s (store.delete s k).1 _ c (laws.holds-deleted s k e)
        (laws.holds-delete s k)
        (rest (insert id doomed) (store.delete s k).1 (insert-IsDoomed ids keep id doomed c' h))
  deleted-Ends k id ks doomed s (err m) e c c' h rest =
      subst (Ends store holds ids keep (k ∷ ks) s)
        (sym (ended store holds ids keep ks (store.delete s k).1 m))
        (failed store holds ids keep k ks s (store.delete s k).1 m c (laws.holds-delete s k))

  part-Ends :
      (k : Text) (ks doomed : List Text) (s : S) (part : Option (Text × Text))
      → key_condemned ids keep k ≡ part_condemned ids keep part
      → IsDoomed ids keep doomed
      → ((d : List Text) (s' : S)
          → IsDoomed ids keep d
          → Ends store holds ids keep ks s' (prune_keys store ids ks (ok d, s')))
      → Ends store holds ids keep
          (k ∷ ks)
          s
          (prune_keys store ids ks (prune_part store ids doomed k s part))
  part-Ends k ks doomed s none e h rest = skipped store holds ids keep k ks s _ e (rest doomed s h)
  part-Ends k ks doomed s (some (id, name)) e h rest =
      rw (is_doomed-condemned ids keep doomed id h)
        (elim (Bool-cases (id_is_valid id && condemned ids keep id)) [
          | inl c ↦ rw c (
              deleted-Ends k id ks doomed s (store.delete s k).0 refl (e ∙ c) (ground arith) h rest)
          | inr c ↦ rw c (skipped store holds ids keep k ks s _ (e ∙ c) (rest doomed s h))
        ])

  pub prune_keys-Ends :
      (ks doomed : List Text) (s : S)
      → IsDoomed ids keep doomed
      → Ends store holds ids keep ks s (prune_keys store ids ks (ok doomed, s))
  unfolding prune_keys
  prune_keys-Ends [] doomed s h = λ k. (λ c. refl, λ gone q. refl)
  prune_keys-Ends (k ∷ ks) doomed s h =
      part-Ends k ks doomed s (three (key_parts k)) refl h (prune_keys-Ends ks)
