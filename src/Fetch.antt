-- ===== src/Fetch.antt =====
-- crates/pkdump-ingest/src/retry.rs and landing.rs: how hard a fetch tries, and what is kept of it.
pub mod Retry
pub mod Attempt
pub mod Loop
pub mod Runs
pub mod Budget
