-- ===== src/Backup/Put.antt =====
-- crates/pkdump-lakejobs/src/nessie_backup.rs: `put_backup` and `check`.
use Prim.Native.Nat.{Ordering}
use pokedumpster.Base.{
  Text, codes, equal, ℕ, ◌≡◌, Option, none, some, List, [], ◌∷◌, ◌++◌, Bool, true, false, not,
  length, ltb, if◌then◌else◌,
}
use pokedumpster.Backup.Store.{Store, Result, ok, err, ◌>>=◌, Bytes}
use pokedumpster.Backup.Ids.{export, manifest, backup_ids}
use pokedumpster.Backup.Prune.{last, prune}
use pokedumpster.Backup.Verify.{
  Codec, Manifest, TableEntry, manifest_format, object_key, parse_id, verify_export, verify_backup,
}
pub mod Keys
pub mod Steps
pub mod Verified

module _ {S : Type 0} where
  -- `?` in a function that writes to the store.
  abbrev pub and_then : {A B : Type 0} → Result A × S → (A → S → Result B × S) → Result B × S
  and_then (ok a, s) f = f a s
  and_then (err e, s) f = (err e, s)

module _ {Date : Type 0} (codec : Codec Date) where
  abbrev pub manifest_of : Bytes → List TableEntry → Text → Text → Manifest
  manifest_of data' tables id version = record {
    exported = record {
      bytes = length data';
      key = object_key id export;
      sha256 = codec.sha256_hex data';
    };
    format = manifest_format;
    id = id;
    nessie_version = version;
    tables = tables;
  }

  module _ {S : Type 0} (store : Store S) where
    -- What has been read back, held to what was written.
    abbrev pub read_back : Manifest → Bytes → S → Result (Unit {0}) × S
    read_back m back s =
        if not (equal (codec.sha256_hex back) m.exported.sha256)
        then (err (codes "uploaded export does not read back identically"), s)
        else (ok tt, s)

    -- The export, read back, and then the manifest.
    abbrev pub upload : Manifest → Bytes → S → Result (Unit {0}) × S
    upload m data' s = and_then (store.put s m.exported.key data') λ u s1.
        and_then (store.get s1 m.exported.key, s1)
          λ back s2.
            and_then (read_back m back s2)
              λ u s3. store.put s3 (object_key m.id manifest) (codec.to_python_json m)

    -- `put_backup` up to its pruning.
    unfoldable pub publish : S → Bytes → List TableEntry → Text → Text → ℕ → Result Manifest × S
    unfolding parse_id verify_export equal
    publish s data' tables id version keep =
        if ltb keep 1
        then (err (codes "--keep must be at least 1"), s)
        else and_then (parse_id codec id >>= λ d. verify_export codec data', s)
            λ n s.
              and_then (upload (manifest_of data' tables id version) data' s)
                λ u s. (ok (manifest_of data' tables id version), s)

    unfoldable pub put_backup : S → Bytes → List TableEntry → Text → Text → ℕ → Result Manifest × S
    unfolding publish prune
    put_backup s data' tables id version keep =
        and_then (publish s data' tables id version keep)
          λ m s. and_then (prune store s keep) λ gone s. (ok m, s)
