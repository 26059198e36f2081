-- ===== src/Search/Order.antt =====
-- crates/pkdump-db/src/search.rs: the ORDER BY terms and the WHERE clause of a compiled query.
use pokedumpster.Base.{
  Text, codes, equal, includes, to_ascii_lowercase, unwrap_or, Option, none, some, List, [], ◌∷◌,
  ◌++◌, Bool, false, ◌||◌, if◌then◌else◌,
}
use pokedumpster.Search.Value.{arms}
use pokedumpster.Search.Sql.{market_price_expr, owned_count_subq}
use pokedumpster.Search.Flag.{Dir, asc, desc}
use pokedumpster.Search.Compile.{CompiledSearch}

unfoldable pub sql : Dir → Text
sql asc = codes "ASC"
sql desc = codes "DESC"

abbrev pub sort_keys : List Text
sort_keys =
    codes "name"
    ∷ codes "number"
    ∷ codes "set"
    ∷ codes "rarity"
    ∷ codes "type"
    ∷ codes "etype"
    ∷ codes "hp"
    ∷ codes "price"
    ∷ codes "qty"
    ∷ codes "added"
    ∷ codes "dex"
    ∷ codes "pokedex"
    ∷ []

unfoldable pub is_sortable : Text → Bool
unfolding includes to_ascii_lowercase
is_sortable key = includes sort_keys (to_ascii_lowercase key)

abbrev pub order_arms : List (Text × Text)
order_arms =
    (codes "number", codes "cd.number_sortable")
    ∷ (codes "set", codes "s.release_date")
    ∷ (codes "rarity", codes "(SELECT rank FROM rarities WHERE name = cd.rarity)")
    ∷ (codes "hp", codes "cd.hp")
    ∷ (codes "price", codes "(" ++ market_price_expr ++ codes ")")
    ∷ (
      codes "added",
      codes "(SELECT MAX(c.acquired_at) FROM collection c WHERE c.printing_id = p.printing_id)",
    )
    ∷ (
      codes "dex",
      codes "(SELECT MIN(CAST(value AS INTEGER)) FROM json_each(cd.national_pokedex_numbers))",
    )
    ∷ (
      codes "pokedex",
      codes "(SELECT MIN(CAST(value AS INTEGER)) FROM json_each(cd.national_pokedex_numbers))",
    )
    ∷ (codes "qty", codes "(" ++ owned_count_subq ++ codes ")")
    ∷ (codes "type", codes "cd.supertype")
    ∷ (codes "etype", codes "cd.types")
    ∷ (codes "name", codes "cd.name")
    ∷ []

unfoldable pub order_sql : Option Text → Text
unfolding arms market_price_expr owned_count_subq
order_sql order_by = arms order_arms (codes "cd.name") (unwrap_or order_by (codes "name"))

-- `as_deref() == Some(s)`.
abbrev pub is_text : Text → Option Text → Bool
is_text s none = false
is_text s (some t) = equal t s

module _ {F : Type 0} where
  unfoldable pub where_clause : CompiledSearch F → Text
  where_clause c =
      if c.catalog_wide || c.has_status_filter
      then c.where_sql
      else codes "EXISTS (SELECT 1 FROM collection c WHERE c.printing_id = p.printing_id "
        ++ codes "AND c.status IN ('owned', 'ordered')) AND ("
        ++ c.where_sql
        ++ codes ")"

  -- The `keys` of `order_keys` before the two pushes.
  abbrev pub sort_terms : CompiledSearch F → List (Text × Dir)
  sort_terms c =
      if is_text (codes "set") c.order_by
      then (codes "s.release_date", c.order_dir) ∷ (codes "s.set_code", c.order_dir) ∷ []
      else (order_sql c.order_by, c.order_dir) ∷ []

  unfoldable pub order_keys : CompiledSearch F → List (Text × Dir)
  unfolding equal order_sql
  order_keys c =
      sort_terms c ++ (codes "cd.number_sortable", asc) ∷ (codes "p.printing_id", asc) ∷ []
