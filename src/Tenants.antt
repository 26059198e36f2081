-- ===== src/Tenants.antt =====
-- crates/pkdump-db/src/tenants.rs: the moves of a collection database between two names.
pub mod Disk
pub mod Relocate
pub mod Names
pub mod Kept
pub mod Settle
pub mod Moves
pub mod Registry
pub mod Provision
pub mod Served
pub mod Purged
pub mod Migrate
pub mod Migrated
