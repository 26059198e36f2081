-- ===== src/Tenants/Provision.antt =====
-- crates/pkdump-db/src/tenants.rs: `create`, `rename`, `detach`, `purge` and `resolve`, over the rows of
-- the registry and the disk.
use pokedumpster.Base.{
  Text, codes, ends_with, is_empty, Bool, true, false, not, ◌&&◌, Option, none, some, List, [], ◌∷◌,
  if◌then◌else◌,
}
use pokedumpster.Tenants.Disk.{
  sqlite, env, not_found, conflict, Result, ok, err, ◌>>=◌, System, Disk, exists, remove,
  litestream_dir,
}
use pokedumpster.Tenants.Registry.{Registry, User, UserState, active, detached}
use pokedumpster.Tenants.Relocate.{remove_sidecars, try_remove_dir}

pub record Tenant : Type 0 where
  pub user : User
  pub path : Text
  pub present : Bool

pub data Storage : Type 0 where
  registered : User → Storage
  unmigrated : Storage

pub record Collection : Type 0 where
  pub path : Text
  pub storage : Storage

-- The rows and the disk.
pub record World (R B : Type 0) : Type 0 where
  pub rows : R
  pub disk : Disk B

-- A result with what the operation leaves behind.
abbrev pub Run : Type 0 → Type 0 → Type 0 → Type 0
Run R B A = Result A × World R B

-- `databases_on_disk` is not empty exactly if some name ends in `.sqlite`.
unfoldable pub has_database : List Text → Bool
unfolding ends_with
has_database [] = false
has_database (f ∷ fs) =
    let rest = has_database fs in if ends_with (codes ".sqlite") f then true else rest

module _ {R B : Type 0} where
  abbrev pub created : Run R B Tenant → Run R B Collection
  created (err e, w) = (err e, w)
  created (ok tenant, w) = (ok (record { path = tenant.path; storage = registered tenant.user }), w)

  -- The row goes last.
  abbrev pub deleted : World R B → Result (User × R) → Run R B User
  deleted w (err e) = (err e, w)
  deleted w (ok (user, rows)) = (ok user, record w { rows = rows })

  -- A row whose database is missing.
  abbrev pub drift : World R B → Text → Result Text → Run R B Collection
  drift w path (err e) = (err e, w)
  drift w path (ok legacy) =
      if exists w.disk legacy then (err (env legacy), w) else (err (env path), w)

module _ {R B : Type 0} (registry : Registry R) where
  -- `Tenant::of`.
  unfoldable pub tenant_of : Disk B → User → Result Tenant
  tenant_of d user = registry.tenant_db_path_for_id user.database_id >>= λ path.
      ok (record { user = user; path = path; present = exists d path })

  -- What a change of the rows gives, without a change of the disk.
  abbrev pub on_rows : World R B → Result (User × R) → Run R B Tenant
  on_rows w (err e) = (err e, w)
  on_rows w (ok (user, rows)) = (tenant_of w.disk user, record w { rows = rows })

  unfoldable pub rename : Text → Text → World R B → Run R B Tenant
  unfolding tenant_of
  rename from to w = on_rows w (registry.rename w.rows from to)

  unfoldable pub detach : Text → World R B → Run R B Tenant
  unfolding tenant_of
  detach handle w = on_rows w (registry.detach w.rows handle)

  module _ (sys : System B) where
    unfoldable pub delete_files : Text → Disk B → Disk B
    unfolding remove_sidecars try_remove_dir litestream_dir
    delete_files path d = try_remove_dir sys (litestream_dir path) (remove_sidecars sys path d)

    -- Of a user that was found, behind the check of its state.
    unfoldable pub purge_files : Text → Text → World R B → Run R B User
    unfolding delete_files remove
    purge_files id path w =
        if exists w.disk path && sys.remove_file_fails path
        then (err (env path), w)
        else (let d = delete_files path (remove path w.disk) in
            deleted (record w { disk = d }) (registry.delete w.rows id))

    abbrev pub purge_user : Text → Text → World R B → User → UserState → Run R B User
    purge_user id path w user active = (err (conflict user.handle), w)
    purge_user id path w user detached = purge_files id path w

    abbrev pub purge_found : Text → Text → World R B → Result (Option User) → Run R B User
    purge_found id path w (err e) = (err e, w)
    purge_found id path w (ok none) = (err (not_found id), w)
    purge_found id path w (ok (some user)) = purge_user id path w user user.state

    abbrev pub purge_at : Text → World R B → Result Text → Run R B User
    purge_at id w (err e) = (err e, w)
    purge_at id w (ok path) = purge_found id path w (registry.find w.rows id)

    unfoldable pub purge : Text → World R B → Run R B User
    unfolding purge_files
    purge id w = purge_at id w (registry.tenant_db_path_for_id id)

  -- Whether this is a fresh data directory.
  unfoldable pub is_fresh : (Disk B → Result (List Text)) → World R B → Result Bool
  unfolding has_database
  is_fresh read_dir w = registry.list w.rows >>= λ users.
      (if is_empty users
        then (read_dir w.disk >>= λ files. ok (not (has_database files)))
        else ok false)

  -- `open_user` and the commit of the registry's transaction are parameters; `registry::open` is taken
  -- to succeed.
  module _ (open_user : Text → Disk B → Result Unit × Disk B) (commit_fails : Bool) where
    -- The transaction of `create`: the row is there only if the database is.
    abbrev pub commit : World R B → Tenant → R → Result Unit × Disk B → Run R B Tenant
    commit w tenant rows (err e, d) = (err e, record w { disk = d })
    commit w tenant rows (ok t, d) =
        if commit_fails
        then (err (sqlite tenant.path), record w { disk = d })
        else (ok (record tenant { present = true }), record { rows = rows; disk = d })

    abbrev pub provision : World R B → R → Result Tenant → Run R B Tenant
    provision w rows (err e) = (err e, w)
    provision w rows (ok tenant) = commit w tenant rows (open_user tenant.path w.disk)

    abbrev pub inserted : World R B → Result (User × R) → Run R B Tenant
    inserted w (err e) = (err e, w)
    inserted w (ok (user, rows)) = provision w rows (tenant_of w.disk user)

    unfoldable pub create : Text → World R B → Run R B Tenant
    unfolding tenant_of
    create handle w = inserted w (registry.insert w.rows handle)

    module _ (read_dir : Disk B → Result (List Text)) where
      abbrev pub fresh_or_missing : Text → World R B → Result Bool → Run R B Collection
      fresh_or_missing handle w (err e) = (err e, w)
      fresh_or_missing handle w (ok true) = created (create handle w)
      fresh_or_missing handle w (ok false) = (err (not_found handle), w)

      -- Below the branch of the database that is named by its handle.
      unfoldable pub resolve_legacy : Text → World R B → Result Text → Run R B Collection
      unfolding is_fresh create
      resolve_legacy handle w (err e) = (err e, w)
      resolve_legacy handle w (ok legacy) =
          if exists w.disk legacy
          then (err (env legacy), w)
          else fresh_or_missing handle w (is_fresh read_dir w)

      unfoldable pub resolve_unregistered : Text → World R B → Result Text → Run R B Collection
      unfolding resolve_legacy
      resolve_unregistered handle w (err e) = (err e, w)
      resolve_unregistered handle w (ok by_handle) =
          if exists w.disk by_handle
          then (ok (record { path = by_handle; storage = unmigrated }), w)
          else resolve_legacy handle w (registry.legacy_user_db_path handle)

      unfoldable pub resolve_registered : Text → User → World R B → Result Text → Run R B Collection
      resolve_registered handle user w (err e) = (err e, w)
      resolve_registered handle user w (ok path) =
          if exists w.disk path
          then (ok (record { path = path; storage = registered user }), w)
          else drift w path (registry.legacy_user_db_path handle)

      abbrev pub resolve_found : Text → World R B → Result (Option User) → Run R B Collection
      resolve_found handle w (err e) = (err e, w)
      resolve_found handle w (ok (some user)) =
          resolve_registered handle user w (registry.tenant_db_path_for_id user.database_id)
      resolve_found handle w (ok none) =
          resolve_unregistered handle w (registry.tenant_db_path handle)

      abbrev pub validated : Text → World R B → Result Unit → Run R B Collection
      validated handle w (err e) = (err e, w)
      validated handle w (ok t) = resolve_found handle w (registry.lookup w.rows handle)

      unfoldable pub resolve : Text → World R B → Run R B Collection
      unfolding resolve_registered resolve_unregistered
      resolve handle w = validated handle w (registry.validate_tenant_name handle)
