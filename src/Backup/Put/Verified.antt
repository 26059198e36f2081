-- ===== src/Backup/Put/Verified.antt =====
-- crates/pkdump-lakejobs/src/nessie_backup.rs: a backup that `put_backup` has made verifies.
use pokedumpster.Base.{
  Text, codes, equal, equal_refl, includes, ==_refl, ℕ, ◌-◌, ◌≡◌, ◌≢◌, refl, sym, ap, ◌∙◌, subst,
  Bool-cases, inl, inr, Option, some, List, [], true, false, length, is_empty, drop, ltb,
}
use pokedumpster.Backup.Store.{Store, IsStore, ok, ◌>>=◌, Bytes}
use pokedumpster.Backup.Ids.{
  backup_ids, prefix, export, manifest, id_is_valid, key_parts, collect_ids,
}
use pokedumpster.Backup.Prune.{prune, last}
use pokedumpster.Backup.Prune.Newest.{prune-newest}
use pokedumpster.Backup.Verify.{
  Codec, Manifest, TableEntry, object_key, parse_id, verify_export, load_manifest, verify_backup,
}
use pokedumpster.Backup.Alarm.{Hours, judge, check}
use pokedumpster.Backup.Put.{manifest_of, read_back, upload, publish, put_backup}
use pokedumpster.Backup.Put.Keys.{object_key-three}
use pokedumpster.Backup.Put.Steps.{
  and_then-ok, bound-ok, ok-injective, unguarded, object_key-differ, parse_id-ok,
}

module _ {Date : Type 0} (codec : Codec Date) {S : Type 0} (store : Store S)
    (holds : S → Text → Option Bytes) where
  read_back-same : (m : Manifest) (back : Bytes) (s : S) → (read_back codec store m back s).1 ≡ s
  read_back-same m back s = elim (Bool-cases (equal (codec.sha256_hex back) m.exported.sha256)) [
    | inl e ↦ rw e refl
    | inr e ↦ rw e refl
  ]

  upload-holds :
      (laws : IsStore store holds) (m : Manifest) (data' : Bytes) (s : S)
      → m.exported.key ≢ object_key m.id manifest
      → (upload codec store m data' s).0 ≡ ok tt
      → (holds (upload codec store m data' s).1 m.exported.key ≡ some data')
        × (holds (upload codec store m data' s).1 (object_key m.id manifest)
            ≡ some (codec.to_python_json m))
  upload-holds laws m data' s apart h =
      let (u, e1, q1) = and_then-ok (store.put s m.exported.key data') _ tt h in
      let (back, e2, q2) =
        and_then-ok
          (
            store.get (store.put s m.exported.key data').1 m.exported.key,
            (store.put s m.exported.key data').1,
          )
          _ tt (ap (λ r. r.0) (sym q1) ∙ h) in
      let (v, e3, q3) =
        and_then-ok (read_back codec store m back (store.put s m.exported.key data').1) _ tt
          (ap (λ r. r.0) (sym (q1 ∙ q2)) ∙ h) in
      let total : upload codec store m data' s
          ≡ store.put (store.put s m.exported.key data').1 (object_key m.id manifest)
              (codec.to_python_json m) =
        q1
        ∙ q2
        ∙ q3
        ∙ ap (λ t. store.put t (object_key m.id manifest) (codec.to_python_json m))
            (read_back-same m back (store.put s m.exported.key data').1) in
      subst
        (λ r.
          (holds r.1 m.exported.key ≡ some data')
          × (holds r.1 (object_key m.id manifest) ≡ some (codec.to_python_json m)))
        (sym total)
        (
          laws.holds-put (store.put s m.exported.key data').1 (object_key m.id manifest)
                (codec.to_python_json m) m.exported.key apart
              ∙ laws.holds-written s m.exported.key data' e1,
          laws.holds-written (store.put s m.exported.key data').1 (object_key m.id manifest)
              (codec.to_python_json m) (ap (λ r. r.0) (sym total) ∙ h),
        )

  -- What the two objects of a backup have to hold for it to verify.
  verify_backup-holds :
      (reads : (s : S) (k : Text) (b : Bytes) → holds s k ≡ some b → store.get s k ≡ ok b) (s : S)
      (data' : Bytes) (tables : List TableEntry) (id version : Text) (n : ℕ)
      → codec.from_slice (codec.to_python_json (manifest_of codec data' tables id version))
        ≡ ok (manifest_of codec data' tables id version)
      → holds s (object_key id export) ≡ some data'
      → holds s (object_key id manifest)
        ≡ some (codec.to_python_json (manifest_of codec data' tables id version))
      → verify_export codec data' ≡ ok n
      → is_empty tables ≡ false
      → verify_backup codec store s id ≡ ok (manifest_of codec data' tables id version, data')
  unfolding verify_backup load_manifest
  verify_backup-holds reads s data' tables id version n back he hm hv ht =
      rw
        (
          reads s (object_key id manifest) _ hm,
          back,
          equal_refl id,
          reads s (object_key id export) data' he,
          ==_refl (length data'),
          equal_refl (codec.sha256_hex data'),
          hv,
          ht,
        )
        refl

  publish-holds :
      (laws : IsStore store holds) (s : S) (data' : Bytes) (tables : List TableEntry)
      (id version : Text) (keep : ℕ) (m : Manifest)
      → (publish codec store s data' tables id version keep).0 ≡ ok m
      → (m ≡ manifest_of codec data' tables id version)
        × (id_is_valid id ≡ true)
        × ((n : ℕ) × (verify_export codec data' ≡ ok n))
        × (holds (publish codec store s data' tables id version keep).1 (object_key id export)
            ≡ some data')
        × (holds (publish codec store s data' tables id version keep).1 (object_key id manifest)
            ≡ some (codec.to_python_json (manifest_of codec data' tables id version)))
  unfolding publish
  publish-holds laws s data' tables id version keep m h =
      let made = manifest_of codec data' tables id version in
      let q0 = unguarded (ltb keep 1) (codes "--keep must be at least 1") s _ m h in
      let (n, e1, q1) =
        and_then-ok (parse_id codec id >>= λ d. verify_export codec data', s) _ m
          (ap (λ r. r.0) (sym q0) ∙ h) in
      let (d, pd, vn) = bound-ok (parse_id codec id) (λ d. verify_export codec data') n e1 in
      let (u, e2, q2) =
        and_then-ok (upload codec store made data' s) _ m (ap (λ r. r.0) (sym (q0 ∙ q1)) ∙ h) in
      let valid = parse_id-ok codec id d pd in
      let (he, hm) = upload-holds laws made data' s (object_key-differ id valid) e2 in
      let total = q0 ∙ q1 ∙ q2 in
      (
        sym (ok-injective made m (ap (λ r. r.0) (sym total) ∙ h)),
        valid,
        (n, vn),
        subst (λ r. holds r.1 (object_key id export) ≡ some data') (sym total) he,
        subst (λ r. holds r.1 (object_key id manifest) ≡ some (codec.to_python_json made))
            (sym total) hm,
      )

-- The store answers with what it holds, and serde_json reads the manifest back that it has written.
module _ {Date : Type 0} (codec : Codec Date) {S : Type 0} (store : Store S)
    (holds : S → Text → Option Bytes) (laws : IsStore store holds)
    (reads : (s : S) (k : Text) (b : Bytes) → holds s k ≡ some b → store.get s k ≡ ok b) (s : S)
    (data' : Bytes) (tables : List TableEntry) (id version : Text) (keep : ℕ) (m : Manifest)
    (ks : List Text)
    (back : codec.from_slice (codec.to_python_json (manifest_of codec data' tables id version))
      ≡ ok (manifest_of codec data' tables id version))
    (made : (put_backup codec store s data' tables id version keep).0 ≡ ok m)
    (filled : is_empty tables ≡ false)
    (listed : store.keys (publish codec store s data' tables id version keep).1 prefix ≡ ok ks)
    (newest : includes (drop (length (collect_ids ks []) - keep) (collect_ids ks [])) id
      ≡ true) where
  -- A backup that `put_backup` has made verifies, and is what was given, when it has tables and is one of
  -- the newest that are kept of the complete ones.
  pub put_backup-verify_backup :
      verify_backup codec store (put_backup codec store s data' tables id version keep).1 id
      ≡ ok (m, data')
  unfolding put_backup key_parts
  put_backup-verify_backup =
      let (m', e1, q1) =
        and_then-ok (publish codec store s data' tables id version keep) _ m made in
      let (gone, e2, q2) =
        and_then-ok (prune store (publish codec store s data' tables id version keep).1 keep) _ m
          (ap (λ r. r.0) (sym q1) ∙ made) in
      let (f, valid, (n, vn), he, hm) =
        publish-holds codec store holds laws s data' tables id version keep m' e1 in
      let total = q1 ∙ q2 in
      let same = ok-injective m' m (ap (λ r. r.0) (sym total) ∙ made) in
      let kept =
        prune-newest store holds laws (publish codec store s data' tables id version keep).1 ks keep
          listed in
      subst (λ r. verify_backup codec store r.1 id ≡ ok (m, data')) (sym total)
        (verify_backup-holds codec store holds reads _ data' tables id version n back
            (kept (object_key id export) id export (object_key-three id export valid refl) newest
              ∙ he)
            (kept (object_key id manifest) id manifest (object_key-three id manifest valid refl)
                newest
              ∙ hm)
            vn filled
          ∙ ap (λ x. ok (x, data')) (sym f ∙ same))

  -- The alarm, over a store whose newest complete backup is one that `put_backup` has made, only judges
  -- its age.
  pub put_backup-check :
      {F : Type 0} (hours : Hours Date F) (limit : F) (ks' : List Text)
      → store.keys (put_backup codec store s data' tables id version keep).1 prefix ≡ ok ks'
      → last (collect_ids ks' []) ≡ some id
      → check codec hours limit store (put_backup codec store s data' tables id version keep).1
        ≡ (parse_id codec id >>= λ date. ok (judge codec hours limit id date))
  unfolding check backup_ids
  put_backup-check hours limit ks' listed' e = rw (listed', e, put_backup-verify_backup) refl
