-- ===== src/Tenants/Migrate.antt =====
-- crates/pkdump-db/src/tenants.rs: `migrate` and `unmigrate`, which put databases on the ids of the
-- registry and back on their handles.
use pokedumpster.Base.{Text, Bool, true, false, Option, none, some, List, [], ◌∷◌, if◌then◌else◌}
use pokedumpster.Tenants.Disk.{sqlite, env, not_found, conflict, Result, ok, err, System, exists}
use pokedumpster.Tenants.Provision.{World, Run}
use pokedumpster.Tenants.Registry.{Registry, User, active, detached}
use pokedumpster.Tenants.Relocate.{reset, MoveResult, relocate, move_back}

pub record Moved : Type 0 where
  pub handle : Text
  pub database_id : Text
  pub from : Text
  pub to : Text

abbrev pub nameable : Text → Result Unit → Result Unit
nameable handle (err e) = err (env handle)
nameable handle (ok t) = ok tt

abbrev pub untaken : Text → Option User → Result Unit
untaken handle none = ok tt
untaken handle (some existing) = err (conflict handle)

abbrev pub found_at : Text → Bool → Result Unit
found_at from true = ok tt
found_at from false = err (not_found from)

-- The users of one state, in order.
unfoldable pub active_of : List User → List User
active_of [] = []
active_of (user ∷ users) =
    let rest = active_of users in elim (user.state) [ active ↦ user ∷ rest | detached ↦ rest ]

unfoldable pub detached_of : List User → List User
detached_of [] = []
detached_of (user ∷ users) =
    let rest = detached_of users in elim (user.state) [ active ↦ rest | detached ↦ user ∷ rest ]

module _ {R B : Type 0} where
  -- The `?` operator: an error ends the run with what is there.
  abbrev pub and_then : {A C : Type 0} → Run R B A → (A → World R B → Run R B C) → Run R B C
  and_then (err e, w) f = (err e, w)
  and_then (ok a, w) f = f a w

  module _ (sys : System B) where
    -- The database is moved, and then its row: where the row fails, the database is put back.
    abbrev pub settle_row : Moved → World R B → MoveResult B → Result R → Run R B Moved
    settle_row m w (err e, d) rows = (err e, record w { disk = d })
    settle_row m w (ok p, d) (err e) = (err e, record w { disk = move_back sys m.from m.to d })
    settle_row m w (ok p, d) (ok rows) = (ok m, record { rows = rows; disk = d })

    module _ (registry : Registry R) where
      -- From the path of the handle on. `commit_fails` is whether the transaction's commit fails.
      unfoldable pub register : Bool → Text → World R B → Run R B Moved
      unfolding relocate move_back
      register commit_fails handle w =
          and_then (registry.tenant_db_path handle, w)
            (λ from w1.
              and_then (registry.insert w1.rows handle, w1)
                (λ (user, rows) w2.
                  and_then (registry.tenant_db_path_for_id user.database_id, w2)
                    (λ to w3.
                      settle_row
                        (record {
                          handle = handle;
                          database_id = user.database_id;
                          from = from;
                          to = to;
                        })
                        w3 (relocate sys reset from to w3.disk)
                        (if commit_fails then err (sqlite to) else ok rows))))

      -- One turn of the loop of `migrate`.
      unfoldable pub migrate_one : Bool → Text → World R B → Run R B Moved
      unfolding register
      migrate_one commit_fails handle w =
          and_then (nameable handle (registry.validate_tenant_name handle), w)
            (λ t w1.
              and_then (registry.lookup w1.rows handle, w1)
                (λ existing w2.
                  and_then (untaken handle existing, w2)
                    (λ t' w3. register commit_fails handle w3)))

      unfoldable pub migrate : (Text → Bool) → List Text → World R B → Run R B (List Moved)
      unfolding migrate_one
      migrate commit_fails [] w = (ok [], w)
      migrate commit_fails (handle ∷ handles) w =
          and_then (migrate_one (commit_fails handle) handle w)
            (λ m w1. and_then (migrate commit_fails handles w1) (λ ms w2. (ok (m ∷ ms), w2)))

      -- One turn of the loop of `unmigrate`, for an active user.
      unfoldable pub unmigrate_one : User → World R B → Run R B Moved
      unfolding relocate move_back
      unmigrate_one user w =
          and_then (registry.tenant_db_path_for_id user.database_id, w)
            (λ from w1.
              and_then (registry.tenant_db_path user.handle, w1)
                (λ to w2.
                  and_then (found_at from (exists w2.disk from), w2)
                    (λ t w3.
                      settle_row
                        (record {
                          handle = user.handle;
                          database_id = user.database_id;
                          from = from;
                          to = to;
                        })
                        w3 (relocate sys reset from to w3.disk)
                        (registry.unregister w3.rows user.database_id))))

      unfoldable pub unmigrate_all : List User → World R B → Run R B (List Moved)
      unfolding unmigrate_one
      unmigrate_all [] w = (ok [], w)
      unmigrate_all (user ∷ users) w =
          and_then (unmigrate_one user w)
            (λ m w1. and_then (unmigrate_all users w1) (λ ms w2. (ok (m ∷ ms), w2)))

      unfoldable pub unmigrate : World R B → Run R B (List Moved × List User)
      unfolding unmigrate_all active_of detached_of
      unmigrate w =
          and_then (registry.list w.rows, w)
            (λ users w1.
              and_then (unmigrate_all (active_of users) w1)
                (λ ms w2. (ok (ms, detached_of users), w2)))
