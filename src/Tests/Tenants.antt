-- ===== src/Tests/Tenants.antt =====
-- The moves of crates/pkdump-db/src/tenants.rs at a fixed disk.
use pokedumpster.Base.{
  Option, List, [], ◌++◌, Text, codes, equal, rsplit_once, ℕ, ◌+◌, ◌≡◌, refl, false, none, some,
  if◌then◌else◌,
}
use pokedumpster.Tenants.Disk.{
  Result, write, ok, System, Disk, rename, remove, litestream_dir, sidecar,
}
use pokedumpster.Tenants.Names.{IsApart}
use pokedumpster.Tenants.Kept.{Ensures}
use pokedumpster.Tenants.Migrate.{migrate_one, unmigrate_one}
use pokedumpster.Tenants.Migrated.{IsTogether, migrate_one-IsTogether, unmigrate_one-IsTogether}
use pokedumpster.Tenants.Moves.{relocate-Ensures, revert-adopt}
use pokedumpster.Tenants.Provision.{World}
use pokedumpster.Tenants.Registry.{Registry, User, active, detached}
use pokedumpster.Tenants.Relocate.{
  reset, relocate, adopt, revert, move_file, settle, remove_sidecars, try_remove,
  checkpoint_and_close, checkpointed, move_back, remove_partly,
}

abbrev sound : System ℕ
sound = record {
  create_dir_fails = λ p. false;
  rename_fails = λ p q. false;
  remove_dir_fails = λ p. false;
  remove_file_fails = λ p. false;
  wal_checkpoint = λ p. ok 0;
  dir_left = λ p b. some b;
  folded = λ p b log. b + 10;
  log_left = λ p b log. none;
  shm_left = λ p b o. none;
  metadata = λ p b. some 0;
}

abbrev old_path : Text
old_path = codes "/p/ann.sqlite"

abbrev new_path : Text
new_path = codes "/p/tenants/ann.sqlite"

abbrev old_dir : Text
old_dir = codes "/p/.ann.sqlite-litestream"

abbrev disk : Disk ℕ
disk p = if equal p old_path then some 1 else if equal p old_dir then some 2 else none

IsApart-adopt : IsApart old_path new_path
unfolding equal sidecar litestream_dir rsplit_once
IsApart-adopt = ((refl, refl), (refl, refl), refl, refl)

IsApart-revert : IsApart new_path old_path
unfolding equal sidecar litestream_dir rsplit_once
IsApart-revert = ((refl, refl), (refl, refl), refl, refl)

adopted : (adopt sound old_path new_path disk).0 ≡ ok new_path
unfolding adopt relocate move_file settle rename remove remove_sidecars try_remove
    checkpoint_and_close checkpointed move_back remove_partly litestream_dir sidecar equal
    rsplit_once
adopted = refl

reverted : (revert sound old_path new_path (adopt sound old_path new_path disk).1).0 ≡ ok old_path
unfolding adopt revert relocate move_file settle rename remove remove_sidecars try_remove
    checkpoint_and_close checkpointed move_back remove_partly litestream_dir sidecar equal
    rsplit_once
reverted = refl

there : disk old_path ≡ some 1
unfolding equal
there = refl

relocate-Ensures_example :
    Ensures sound old_path new_path disk 1 reset (relocate sound reset old_path new_path disk)
relocate-Ensures_example = relocate-Ensures sound old_path new_path disk 1 IsApart-adopt reset there

revert-adopt_example :
    ((revert sound old_path new_path (adopt sound old_path new_path disk).1).1 old_path ≡ some 21)
    × ((revert sound old_path new_path (adopt sound old_path new_path disk).1).1
          (litestream_dir old_path)
        ≡ disk (litestream_dir old_path))
    × ((revert sound old_path new_path (adopt sound old_path new_path disk).1).1 new_path ≡ none)
    × ((revert sound old_path new_path (adopt sound old_path new_path disk).1).1
          (litestream_dir new_path)
        ≡ none)
revert-adopt_example =
    revert-adopt sound old_path new_path new_path old_path disk 1 IsApart-adopt IsApart-revert there
      adopted reverted

-- A registry of one row at most, whose user is called by the id.
abbrev one_row : Registry (Option User)
one_row = record {
  validate_tenant_name = λ h. ok tt;
  tenant_db_path_for_id = λ i. ok (codes "/p/tenants/" ++ (i ++ codes ".sqlite"));
  tenant_db_path = λ h. ok (codes "/p/tenants/" ++ (h ++ codes ".sqlite"));
  legacy_user_db_path = λ h. ok (codes "/p/" ++ (h ++ codes ".sqlite"));
  lookup = λ r h. ok none;
  find = λ r i. ok r;
  list = λ r. ok [];
  insert = λ r h. insert_row h;
  rename = λ r h k. insert_row k;
  detach = λ r h. insert_row h;
  delete = λ r i. ok (record { database_id = i; handle = i; state = detached }, none);
  unregister = λ r i. ok none;
}
  where
    insert_row : Text → Result (User × Option User)
    insert_row h =
        let user : User = record { database_id = codes "01" ++ h; handle = h; state = active } in
        ok (user, some user)

abbrev open_file : Text → Disk ℕ → Result Unit × Disk ℕ
open_file p d = (ok tt, write p (some 0) d)

abbrev no_files : Disk ℕ → Result (List Text)
no_files d = ok []

abbrev empty_world : World (Option User) ℕ
empty_world = record { rows = none; disk = λ p. none }

abbrev detached_world : World (Option User) ℕ
detached_world = record {
  rows = some (record { database_id = codes "01"; handle = codes "ann"; state = detached });
  disk = λ p. some 1;
}

abbrev on_handle : World (Option User) ℕ
on_handle = record {
  rows = none;
  disk = λ p. if equal p (codes "/p/tenants/ann.sqlite") then some 1 else none;
}

abbrev ann : User
ann = record { database_id = codes "01ann"; handle = codes "ann"; state = active }

IsApart-migrate : IsApart (codes "/p/tenants/ann.sqlite") (codes "/p/tenants/01ann.sqlite")
unfolding equal sidecar litestream_dir rsplit_once
IsApart-migrate = ((refl, refl), (refl, refl), refl, refl)

ann-there : on_handle.disk (codes "/p/tenants/ann.sqlite") ≡ some 1
unfolding equal
ann-there = refl

migrate_one-IsTogether_example :
    IsTogether sound
      (codes "/p/tenants/ann.sqlite")
      (codes "/p/tenants/01ann.sqlite")
      1
      on_handle
      (some ann)
      (migrate_one sound one_row false (codes "ann") on_handle)
migrate_one-IsTogether_example =
    migrate_one-IsTogether sound one_row on_handle (codes "/p/tenants/ann.sqlite")
      (codes "/p/tenants/01ann.sqlite") 1 false (codes "ann") ann (some ann) refl refl refl
      IsApart-migrate ann-there

abbrev on_id : World (Option User) ℕ
on_id = record {
  rows = some ann;
  disk = λ p. if equal p (codes "/p/tenants/01ann.sqlite") then some 1 else none;
}

IsApart-unmigrate : IsApart (codes "/p/tenants/01ann.sqlite") (codes "/p/tenants/ann.sqlite")
unfolding equal sidecar litestream_dir rsplit_once
IsApart-unmigrate = ((refl, refl), (refl, refl), refl, refl)

id-there : on_id.disk (codes "/p/tenants/01ann.sqlite") ≡ some 1
unfolding equal
id-there = refl

unmigrate_one-IsTogether_example :
    IsTogether sound
      (codes "/p/tenants/01ann.sqlite")
      (codes "/p/tenants/ann.sqlite")
      1
      on_id
      none
      (unmigrate_one sound one_row ann on_id)
unmigrate_one-IsTogether_example =
    unmigrate_one-IsTogether sound one_row on_id (codes "/p/tenants/01ann.sqlite")
      (codes "/p/tenants/ann.sqlite") 1 ann none refl refl (λ x e. cc) IsApart-unmigrate id-there
