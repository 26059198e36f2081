-- ===== src/Tenants/Served.antt =====
-- crates/pkdump-db/src/tenants.rs: what `create`, `resolve` and `purge` leave behind.
use pokedumpster.Base.{Text, ◌≡◌, ◌⊎◌, Bool, true, List}
use pokedumpster.Tenants.Disk.{Result, ok, err, Disk, exists}
use pokedumpster.Tenants.Provision.{Tenant, Collection, World, Run, is_fresh}
use pokedumpster.Tenants.Registry.{Registry}

-- What `open_user` promises: a path that it opened has a database.
abbrev pub Opens : {B : Type 0} → (Text → Disk B → Result Unit × Disk B) → Type 0
Opens open_user = (p : Text) (d : _) → (open_user p d).0 ≡ ok tt → exists (open_user p d).1 p ≡ true

module _ {R B : Type 0} (registry : Registry R) (open_user : Text → Disk B → Result Unit × Disk B)
    (commit_fails : Bool) (read_dir : Disk B → Result (List Text)) (opens : Opens open_user)
    (w : World R B) where
  -- A tenant that was created has a database; a failure leaves no row.
  abbrev IsCreated : Run R B Tenant → Type 0
  IsCreated (ok t, v) = exists v.disk t.path ≡ true
  IsCreated (err e, v) = v.rows ≡ w.rows

  -- A collection that is served has a database, and no row changes on a failure. Nothing at all changes
  -- unless the data directory was fresh.
  abbrev pub IsServed : Run R B Collection → Type 0
  IsServed (ok c, v) =
      (exists v.disk c.path ≡ true) × ((v ≡ w) ⊎ (is_fresh registry read_dir w ≡ ok true))
  IsServed (err e, v) = (v.rows ≡ w.rows) × ((v ≡ w) ⊎ (is_fresh registry read_dir w ≡ ok true))
