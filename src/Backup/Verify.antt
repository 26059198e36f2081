-- ===== src/Backup/Verify.antt =====
-- crates/pkdump-lakejobs/src/nessie_backup.rs: a backup, its manifest, its verification and its alarm.
-- What zip, serde_json, sha2 and chrono answer is a parameter; an error keeps of its message the
-- wording, and a number in it is left to `Codec.decimal`.
use pokedumpster.Base.{
  Text, codes, equal, ℕ, suc, Option, none, some, List, [], ◌∷◌, ◌++◌, Bool, true, false, not, ◌||◌,
  ◌==◌, length, is_empty, if◌then◌else◌,
}
use pokedumpster.Card.{ℤ, pos, negsuc}
use pokedumpster.Backup.Store.{Store, Result, ok, err, ◌>>=◌, Bytes}
use pokedumpster.Backup.Ids.{prefix, manifest, id_is_valid}

pub record TableEntry : Type 0 where
  pub identifier : Text
  pub metadata_location : Text
  pub rows : ℤ
  pub snapshot_id : Option ℤ

pub record ExportRecord : Type 0 where
  pub bytes : ℕ
  pub key : Text
  pub sha256 : Text

pub record Manifest : Type 0 where
  pub exported : ExportRecord
  pub format : ℤ
  pub id : Text
  pub nessie_version : Text
  pub tables : List TableEntry

-- An entry of an archive: unreadable, or its name and whether its content is whole.
pub data Entry : Type 0 where
  unreadable : Text → Entry
  readable : Text → Bool → Entry

-- `archive` is `ZipArchive::new`, `debug` the format `{:?}` and `decimal` the format `{}` of a number;
-- `parse_date` is chrono's.
pub record Codec (Date : Type 0) : Type 0 where
  pub sha256_hex : Bytes → Text
  pub archive : Bytes → Option (List Entry)
  pub to_python_json : Manifest → Bytes
  pub from_slice : Bytes → Result Manifest
  pub parse_date : Text → Option Date
  pub debug : Text → Text
  pub decimal : ℕ → Text

abbrev pub manifest_format : ℤ
manifest_format = pos 1

abbrev pub is_format : ℤ → Bool
is_format (pos n) = n == 1
is_format (negsuc n) = false

-- `{PREFIX}/{backup_id}/{name}`.
abbrev pub object_key : Text → Text → Text
object_key id name = prefix ++ (codes "/" ++ (id ++ (codes "/" ++ name)))

module _ {Date : Type 0} (codec : Codec Date) where
  abbrev pub date_or : Text → Option Date → Result Date
  date_or id none = err (codes "bad backup id " ++ codec.debug id)
  date_or id (some d) = ok d

  unfoldable pub parse_id : Text → Result Date
  unfolding id_is_valid
  parse_id id =
      if not (id_is_valid id)
      then err (codes "bad backup id " ++ codec.debug id)
      else date_or id (codec.parse_date id)

  -- The entries from the `i`-th on are read to their end.
  abbrev pub read_entries : ℕ → List Entry → Result (Unit {0})
  read_entries i [] = ok tt
  read_entries i (unreadable e ∷ es) =
      err (codes "export entry " ++ codec.decimal i ++ codes " is unreadable: " ++ e)
  read_entries i (readable name false ∷ es) =
      err (codes "export entry " ++ codec.debug name ++ codes " fails its CRC")
  read_entries i (readable name true ∷ es) = read_entries (suc i) es

  abbrev pub verify_archive : Option (List Entry) → Result ℕ
  verify_archive none = err (codes "export is not a zip archive")
  verify_archive (some []) = err (codes "export archive has no entries")
  verify_archive (some (e ∷ es)) = do u ← read_entries 0 (e ∷ es); ok (length (e ∷ es))

  unfoldable pub verify_export : Bytes → Result ℕ
  verify_export [] = err (codes "export is empty")
  verify_export (b ∷ bs) = verify_archive (codec.archive (b ∷ bs))

  abbrev pub unreadable_manifest : Text → Result Manifest → Result Manifest
  unreadable_manifest id (ok m) = ok m
  unreadable_manifest id (err e) = err (codes "manifest of " ++ id ++ codes " is unreadable: " ++ e)

  -- The tests of `load_manifest` on what it has read.
  abbrev pub manifest_for : Text → Manifest → Result Manifest
  manifest_for id m =
      if not (is_format m.format) || not (equal m.id id)
      then err (codes "manifest of " ++ id ++ codes " is not format 1 for that id")
      else ok m

  -- The tests of `verify_backup` on what it has read.
  abbrev pub held_to : Text → Manifest → Bytes → Result (Manifest × Bytes)
  held_to id m data' =
      if not (length data' == m.exported.bytes)
      then err (
          id
          ++ codes ": export is "
          ++ codec.decimal (length data')
          ++ codes " bytes, manifest says "
          ++ codec.decimal m.exported.bytes)
      else if not (equal (codec.sha256_hex data') m.exported.sha256)
      then err (id ++ codes ": export sha256 does not match its manifest")
      else do
        n ← verify_export data'
        if is_empty m.tables
            then err (id ++ codes ": manifest inventories no tables")
            else ok (m, data')

  module _ {S : Type 0} (store : Store S) where
    unfoldable pub load_manifest : S → Text → Result Manifest
    unfolding equal
    load_manifest s id = do
      raw ← store.get s (object_key id manifest)
      m ← unreadable_manifest id (codec.from_slice raw)
      manifest_for id m

    unfoldable pub verify_backup : S → Text → Result (Manifest × Bytes)
    unfolding load_manifest verify_export equal
    verify_backup s id = do
      m ← load_manifest s id
      data' ← store.get s m.exported.key
      held_to id m data'
