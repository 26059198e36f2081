-- ===== src/Tests/Backup.antt =====
-- The backups of crates/pkdump-lakejobs/src/nessie_backup.rs at fixed inputs.
use pokedumpster.Base.{
  Text, ℕ, true, codes, equal, equal_iff, equal_refl, includes, is_some, ◌≡◌, ◌≢◌, refl, Option,
  none, some, List, [], ◌∷◌, false, if◌then◌else◌, Bool-cases, inl, inr, ltb,
}
use pokedumpster.Backup.Store.{Store, IsStore, ok, err, ◌>>=◌, Bytes}
use pokedumpster.Backup.Ids.{export, manifest, key_parts, collect_ids}
use pokedumpster.Card.{pos}
use pokedumpster.Backup.Verify.{
  Codec, Manifest, TableEntry, readable, object_key, parse_id, verify_backup,
}
use pokedumpster.Backup.Put.{put_backup}
use pokedumpster.Backup.Put.Verified.{put_backup-verify_backup, put_backup-check}
use pokedumpster.Backup.Alarm.{Hours, judge, check}
use pokedumpster.Backup.Prune.{prune}
use pokedumpster.Backup.Prune.Loop.{Ends}
use pokedumpster.Backup.Prune.Newest.{prune-Ends, prune-newest}

abbrev Objects : Type 0
Objects = Text → Option Bytes

abbrev first_manifest : Text
first_manifest = codes "nessie/20260101T000000Z/manifest.json"

abbrev second_manifest : Text
second_manifest = codes "nessie/20260102T000000Z/manifest.json"

abbrev orphan : Text
orphan = codes "nessie/20260101T120000Z/export.zip"

abbrev note : Text
note = codes "nessie/README"

abbrev existing : List Text
existing = second_manifest ∷ first_manifest ∷ orphan ∷ note ∷ []

abbrev third : Text
third = codes "20260103T000000Z"

abbrev known : List Text
known = object_key third export ∷ object_key third manifest ∷ existing

abbrev filled : List Text → Objects → List Text
filled [] s = []
filled (k ∷ ks) s = if is_some (s k) then k ∷ filled ks s else filled ks s

-- The known keys that hold something.
abbrev memory : Store Objects
memory = record {
  put = λ s k b. (ok tt, λ other. if equal other k then some b else s other);
  get = λ s k. elim (s k) [ none ↦ err (codes "missing") | some b ↦ ok b ];
  keys = λ s p. ok (filled known s);
  delete = λ s k. (ok tt, λ other. if equal other k then none else s other);
}

differ : (other k : Text) → other ≢ k → equal other k ≡ false
differ other k h = elim (Bool-cases (equal other k)) [
  | inl e ↦ absurd (h ((equal_iff other k).0 e))
  | inr e ↦ e
]

memory-IsStore : IsStore memory λ s k. s k
memory-IsStore = record {
  holds-delete = λ s k other h. rw (differ other k h) refl;
  holds-deleted = λ s k e. rw (equal_refl k) refl;
  holds-written = λ s k b e. rw (equal_refl k) refl;
  holds-put = λ s k b other h. rw (differ other k h) refl;
}

abbrev objects : Objects
objects k = if includes existing k then some (1 ∷ []) else none

prune-removed :
    (prune memory objects 1).0 ≡ ok (codes "20260101T000000Z" ∷ codes "20260101T120000Z" ∷ [])
unfolding prune
prune-removed = refl

prune-Ends_example :
    Ends memory (λ s k. s k) (collect_ids existing []) 1 existing objects (prune memory objects 1)
unfolding includes
prune-Ends_example = prune-Ends memory (λ s k. s k) memory-IsStore objects existing 1 refl

prune-newest_example : (prune memory objects 1).1 second_manifest ≡ objects second_manifest
unfolding includes key_parts collect_ids
prune-newest_example =
    prune-newest memory (λ s k. s k) memory-IsStore objects existing 1 refl second_manifest
      (codes "20260102T000000Z") (codes "manifest.json") refl refl

reads : (s : Objects) (k : Text) (b : Bytes) → s k ≡ some b → memory.get s k ≡ ok b
reads s k b h = rw h refl

abbrev tables : List TableEntry
tables =
    record {
      identifier = codes "lake.prices";
      metadata_location = codes "s3://x";
      rows = pos 3;
      snapshot_id = none;
    }
    ∷ []

abbrev exported : Bytes
exported = 80 ∷ 75 ∷ []

abbrev expected : Manifest
expected = record {
  exported = record { bytes = 2; key = object_key third export; sha256 = codes "digest" };
  format = pos 1;
  id = third;
  nessie_version = codes "0.99";
  tables = tables;
}

abbrev codec : Codec ℕ
codec = record {
  sha256_hex = λ b. codes "digest";
  archive = λ b. some (readable (codes "a") true ∷ []);
  to_python_json = λ m. 123 ∷ 125 ∷ [];
  from_slice = λ b. ok expected;
  parse_date = λ id. some 20260103;
  debug = λ t. t;
  decimal = λ n. [];
}

abbrev hours : Hours ℕ ℕ
hours = record {
  since = λ date. 5;
  exceeds = λ a b. ltb b a;
  to_one_decimal = λ h. codes "5.0";
  shown = λ h. codes "26";
}

abbrev stored : Objects
stored = (put_backup codec memory objects exported tables third (codes "0.99") 2).1

check-put_backup :
    check codec hours 26 memory stored
    ≡ ok (0, codes "newest backup 20260103T000000Z is 5.0h old and verifies")
unfolding check put_backup
check-put_backup = refl

put_backup-verify_backup_example : verify_backup codec memory stored third ≡ ok (expected, exported)
unfolding put_backup
put_backup-verify_backup_example =
    put_backup-verify_backup codec memory (λ s k. s k) memory-IsStore reads objects exported tables
      third (codes "0.99") 2 expected known refl refl refl refl refl

put_backup-check_example :
    check codec hours 26 memory stored
    ≡ (parse_id codec third >>= λ date. ok (judge codec hours 26 third date))
unfolding put_backup
put_backup-check_example =
    put_backup-check codec memory (λ s k. s k) memory-IsStore reads objects exported tables third
      (codes "0.99") 2 expected known refl refl refl refl refl hours 26
      (object_key third export ∷ object_key third manifest ∷ second_manifest ∷ note ∷ []) refl refl
