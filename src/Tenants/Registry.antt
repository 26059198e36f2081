-- ===== src/Tenants/Registry.antt =====
-- The interface of the user registry, which is another repository's (`dumpster_kit_tenancy`), and of
-- its paths. crates/pkdump-db/src/tenants.rs works over it.
use pokedumpster.Base.{Text, Option, List}
use pokedumpster.Tenants.Disk.{Result}

pub data UserState : Type 0 where
  active detached : UserState

pub record User : Type 0 where
  pub database_id : Text
  pub handle : Text
  pub state : UserState

-- The registry over its rows, and the paths of a tenant.
pub record Registry (R : Type 0) : Type 0 where
  pub validate_tenant_name : Text → Result Unit
  pub tenant_db_path_for_id : Text → Result Text
  pub tenant_db_path : Text → Result Text
  pub legacy_user_db_path : Text → Result Text
  pub lookup : R → Text → Result (Option User)
  pub find : R → Text → Result (Option User)
  pub list : R → Result (List User)
  pub insert : R → Text → Result (User × R)
  pub rename : R → Text → Text → Result (User × R)
  pub detach : R → Text → Result (User × R)
  pub delete : R → Text → Result (User × R)
  pub unregister : R → Text → Result R
