-- ===== src/Import.antt =====
-- crates/pkdump-core/src/import: CSV import files, parsed into one row for each physical card.
pub mod Unicode
pub mod Rows
pub mod Values
pub mod Manabox
pub mod Tcgplayer
pub mod Pokedumpster
pub mod Collectr
pub mod Placed
pub mod Complete
pub mod Canonical
pub mod Split
pub mod Surfaced
pub mod Totals
