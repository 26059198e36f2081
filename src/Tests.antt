-- ===== src/Tests.antt =====
-- Runs of the model at fixed inputs, and the theorems at inputs that meet their hypotheses.
mod Query
mod Natural
mod Import
mod Variant
mod Card
mod Tenants
mod Search
mod SearchPage
mod Fetch
mod Backup
