-- ===== src/Query/Registry.antt =====
-- crates/pkdump-core/src/query/registry.rs: keyword definitions and the alias table. The
-- `HashMap` is an association list with the newest binding in front.
pub mod Resolve
use pokedumpster.Base.{
  Text, equal, to_ascii_lowercase, ℕ, Bool, Option, none, some, List, [], ◌∷◌, length, is_empty,
  if◌then◌else◌,
}

pub record KeywordDef : Type 0 where
  pub canonical : Text
  pub aliases : List Text
  pub operators : List Text
  pub kind : Text
  pub target : Option Text
  pub value_enum : Option Text
  pub semantics : Option Text
  pub help : Option Text

-- `KeywordDef::new`.
unfoldable pub def_new : Text → List Text → KeywordDef
def_new canonical aliases = record {
  canonical = canonical;
  aliases = aliases;
  operators = [];
  kind = [];
  target = none;
  value_enum = none;
  semantics = none;
  help = none;
}

abbrev pub AliasMap : Type 0
AliasMap = List (Text × Text)

-- `HashMap::get`.
unfoldable pub lookup : Text → AliasMap → Option Text
lookup k [] = none
lookup k ((j, v) ∷ m) = if equal j k then some v else lookup k m

-- `HashMap::insert`: the newest binding hides the others.
unfoldable pub insert : Text → Text → AliasMap → AliasMap
insert k v m = (k, v) ∷ m

-- The inner loop of `KeywordRegistry::new`.
unfoldable pub insert_aliases : Text → List Text → AliasMap → AliasMap
unfolding insert
insert_aliases canonical [] m = m
insert_aliases canonical (alias ∷ aliases) m =
    insert_aliases canonical aliases (insert (to_ascii_lowercase alias) canonical m)

-- The outer loop.
unfoldable pub insert_defs : List KeywordDef → AliasMap → AliasMap
unfolding insert insert_aliases
insert_defs [] m = m
insert_defs (d ∷ ds) m =
    insert_defs ds
      (insert_aliases d.canonical d.aliases (insert (to_ascii_lowercase d.canonical) d.canonical m))

pub record KeywordRegistry : Type 0 where
  pub defs : List KeywordDef
  pub alias_to_canonical : AliasMap

-- `KeywordRegistry::new`.
unfoldable pub registry_new : List KeywordDef → KeywordRegistry
unfolding insert_defs
registry_new defs = record { defs = defs; alias_to_canonical = insert_defs defs [] }

-- `KeywordRegistry::resolve`.
unfoldable pub resolve : KeywordRegistry → Text → Option Text
unfolding lookup
resolve r raw = lookup (to_ascii_lowercase raw) r.alias_to_canonical

-- The search of `KeywordRegistry::get`.
unfoldable pub find_def : Text → List KeywordDef → Option KeywordDef
find_def canonical [] = none
find_def canonical (d ∷ ds) = if equal d.canonical canonical then some d else find_def canonical ds

-- `KeywordRegistry::get`.
unfoldable pub get : KeywordRegistry → Text → Option KeywordDef
unfolding find_def
get r canonical = find_def canonical r.defs

-- `KeywordRegistry::is_empty`.
unfoldable pub registry_is_empty : KeywordRegistry → Bool
registry_is_empty r = is_empty r.defs

-- `KeywordRegistry::len`.
unfoldable pub registry_len : KeywordRegistry → ℕ
registry_len r = length r.defs
