-- ===== src/Lib.antt =====
-- PokeDumpster: a model of the program's own logic, with its theorems.
--
-- The program keeps a collection of cards in SQLite. The crate crates/pkdump-core is its pure part: it
-- parses search queries, orders names, normalises collector numbers and variant codes and parses import
-- files; the other crates store, download and serve what it computes.
--
-- Base          names shared by all files; characters and texts as lists of code points, with the
--               operations of Rust's `char` and `str`; comparisons; runs of digits; `str::parse`
-- Natural       crates/pkdump-core/src/natural.rs: `chunks`, `natural_cmp`
-- Query         crates/pkdump-core/src/query: `Ast` (ast.rs), `Outcome` (error.rs), `Lexer` (lexer.rs),
--               `Parser` (parser.rs), `Registry` (registry.rs), each with its proofs below it;
--               `Correct` is about `parse` as a whole
-- Import        crates/pkdump-core/src/import: `Rows` and `Values` (mod.rs, and what the parsers repeat),
--               `Manabox`, `Tcgplayer`, `Pokedumpster`, `Collectr` (the file of each name); `Placed`,
--               `Complete`, `Split`, `Surfaced`, `Canonical` and `Totals` are about what they give
-- Card          crates/pkdump-core/src/card.rs: `number_sortable`
-- Variant       crates/pkdump-core/src/variant.rs: `variant_from_product_name`, `treatment_for`,
--               `parse_product_card_name`, `OverrideMatch::matches`; `Stamps` is `parse_stamp_tag`
-- Tenants       crates/pkdump-db/src/tenants.rs: `Disk` (the file system and the names derived from a
--               path), `Relocate` (`relocate`, `adopt`, `revert`), with `Names`, `Kept`, `Settle` and
--               `Moves` about them;
--               `Registry` (the interface of the user registry), `Provision` (`create`, `rename`,
--               `detach`, `purge`, `resolve`), with `Served` and `Purged` about them; `Migrate`
--               (`migrate`, `unmigrate`), with `Migrated` about it
-- Search        crates/pkdump-db/src/search.rs: `Value`, `Sql` and `Fragment` (bound values, the text of SQL
--               and fragments), `Flag` (search_meta.rs), `Keyword` and `Compile` (`compile`), `Order`
--               (`order_sql`, the ORDER BY), `Seek` (`seek_predicate`), `Statement` (`build_sql`), `Cursor`
--               (`SearchCursor`), `Row` (`row_from`, `attach_copies`), `Page` (`search_page`, the entry
--               points); `Fits`, `Meaning` and `Alike` are about the statements
-- Fetch         crates/pkdump-ingest/src: `Retry` (retry.rs), `Attempt` and `Loop` (landing.rs,
--               `fetch_bytes`), with `Runs` and `Budget` about them
-- Backup        crates/pkdump-lakejobs/src/nessie_backup.rs: `Store` (its trait), `Ids` (`backup_ids`),
--               `Prune` (`prune`), `Verify` (`verify_backup` and what it reads), `Put` (`put_backup`) and
--               `Alarm` (`check`), with the proofs below them
-- Tests         runs at fixed inputs, and the theorems at inputs that meet their hypotheses
--
-- The parsers of Import, and the collector numbers and variant codes of Card and Variant, feed the
-- catalog's lookups: the importer resolves a row by its set and its normalised number, and orders cards
-- by `number_sortable`. Search compiles the tree that Query parses to one statement of SQL, and pages
-- through its rows by a cursor. Tenants is independent of them: it moves the database files that hold the
-- results; so are Fetch, by which the catalog is downloaded, and Backup, which keeps the lake's catalog.
--
-- A text is a list of code points and a byte offset into it is a cursor, the offset with the text
-- that stands from it on; `byte_len` and `len_utf8` count the bytes. What Rust's standard library
-- takes from the Unicode tables beyond White_Space (`char::is_alphabetic`, `to_lowercase`,
-- `to_uppercase`) is an argument of the definitions; of `str::to_lowercase` it is assumed that it
-- is the ASCII one on ASCII text. A `HashMap` is an association list, the newest binding first. The
-- csv crate is a parameter, as the header and the records that it reads; so is the parser of `f64`,
-- whose values are a type of their own. An `i64` sum wraps round as in a release build. In Tenants,
-- which call of the file system or of SQLite fails is a parameter, and so are what a checkpoint
-- makes of a database and its sidecars, what a `remove_dir_all` that fails leaves, and `open_user`;
-- directories that are made are not recorded; opening the registry succeeds, and an error keeps of
-- its message only the path or the name that it is about. In Search the database is a function from
-- a statement and its bound values to rows, which reads the text of a comparison as that
-- comparison, and the parser of `f64`, serde_json, the digest of a query and the clock are
-- parameters; that serde_json reads a cursor back as it was written is a condition on the table,
-- since it does not promise it of every `f64`. In Fetch what the HTTP client answers to each
-- attempt is one, and a delay is a number of nanoseconds; that the request can be built is assumed.
-- In Backup the store is an interface whose laws are hypotheses, and zip, serde_json, sha2, chrono
-- and the hours in `f64` are parameters.
--
-- Fuel: the loop of `tokenize` has a unit for each character, and the recursive descent four for each
-- token and four more; the loop of `variant_from_product_name` has a unit for each character.
-- The loop of `fetch_bytes` has a unit for each attempt of its policy, and the digits of a number as
-- many as the number itself. `Outcome.out_of_fuel` and `Ended.out_of_fuel` have no counterpart in the
-- program.
--
-- Not modelled: the statements of the database crate other than those of search.rs, and the input and
-- output of the database, ingest, lake, server and command line crates, which is most of them; the user
-- registry, which is another repository's, behind its interface; of tenants.rs the listings, from which
-- `migrate` has its list of handles, and the cloning of a collection; of nessie_backup.rs the inventory
-- of the catalog and the drill.
mod Base
pub mod Import
pub mod Card
pub mod Natural
pub mod Fetch
pub mod Backup
pub mod Query
pub mod Search
pub mod Tenants
pub mod Variant
mod Tests
