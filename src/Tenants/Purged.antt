-- ===== src/Tenants/Purged.antt =====
-- crates/pkdump-db/src/tenants.rs: what `purge` leaves behind.
use pokedumpster.Base.{Text, ◌≡◌, ◌⊎◌, none, some}
use pokedumpster.Tenants.Disk.{ok, err, System, Disk}
use pokedumpster.Tenants.Provision.{World, Run}
use pokedumpster.Tenants.Registry.{Registry, User, detached}

module _ {R B : Type 0} (registry : Registry R) (sys : System B) (id : Text) (w : World R B) where
  -- The database of the user that has the id.
  abbrev IsGone : World R B → Type 0
  IsGone v = (path : Text) × ((registry.tenant_db_path_for_id id ≡ ok path) × (v.disk path ≡ none))

  abbrev IsReleased : Type 0
  IsReleased =
      (user : User) × ((registry.find w.rows id ≡ ok (some user)) × (user.state ≡ detached))

  abbrev pub IsPurged : Run R B User → Type 0
  IsPurged (ok user, v) = IsReleased × IsGone v
  IsPurged (err e, v) = (v.rows ≡ w.rows) × ((v ≡ w) ⊎ (IsReleased × IsGone v))
