-- ===== src/Backup.antt =====
-- crates/pkdump-lakejobs/src/nessie_backup.rs: the backups of the catalog, their retention and their
-- alarm.
pub mod Store
pub mod Ids
pub mod Prune
pub mod Verify
pub mod Put
pub mod Alarm
