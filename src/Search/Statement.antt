-- ===== src/Search/Statement.antt =====
-- crates/pkdump-db/src/search.rs: the row query and the totals query as SQL text.
use pokedumpster.Base.{
  Text, codes, ℕ, zero, suc, ◌+◌, ◌/◌, ◌%◌, Option, none, some, List, [], ◌∷◌, ◌++◌, ltb,
  if◌then◌else◌,
}
use pokedumpster.Card.{pos}
use pokedumpster.Search.Value.{Value, integer, Frag, join}
use pokedumpster.Search.Sql.{
  market_price_expr, owned_count_subq, owned_value_subq, attack_costs_expr, from_clause,
}
use pokedumpster.Search.Flag.{Dir}
use pokedumpster.Search.Compile.{CompiledSearch}
use pokedumpster.Search.Order.{sql, where_clause, order_keys}
use pokedumpster.Search.Seek.{seek_predicate}

pub data Bound (F : Type 0) : Type 0 where
  unbounded : Bound F
  offset : ℕ → Bound F
  keyset : Option (List (Value F)) → Bound F

-- The decimal digits of a number, with enough fuel in the number itself.
unfoldable pub digits : ℕ → ℕ → Text
digits zero n = []
digits (suc fuel) n =
    let front = digits fuel (n / 10) in
    if ltb n 10 then (b'0' + n) ∷ [] else front ++ (b'0' + n % 10) ∷ []

unfoldable pub order_terms : List (Text × Dir) → List Text
unfolding sql
order_terms [] = []
order_terms ((expr, dir) ∷ keys) = (expr ++ codes " " ++ sql dir) ∷ order_terms keys

-- The columns that hand the sort values back, counted from `i`.
unfoldable pub key_cols : ℕ → List (Text × Dir) → Text
unfolding digits
key_cols i [] = []
key_cols i ((expr, dir) ∷ keys) =
    codes ", " ++ expr ++ codes " AS _k" ++ digits (suc i) i ++ key_cols (suc i) keys

module _ {F : Type 0} where
  abbrev pub row_sql : CompiledSearch F → Text → Text → Text → Text
  row_sql c cols where_text paging =
      codes "SELECT p.printing_id, cd.card_id, cd.set_code, s.name AS set_name, s.ptcgo_code, "
      ++ codes "s.symbol_url, cd.number, cd.name, cd.rarity, cd.supertype, cd.subtypes, cd.types, "
      ++ attack_costs_expr
      ++ codes " AS attack_costs, "
      ++ market_price_expr
      ++ codes " AS market_price, cd.image_small, p.variant, ("
      ++ owned_count_subq
      ++ codes ") AS owned_count"
      ++ cols
      ++ codes " "
      ++ from_clause
      ++ codes " WHERE "
      ++ where_text
      ++ codes " ORDER BY "
      ++ join (codes ", ") (order_terms (order_keys c))
      ++ paging

  -- `i64::from` on a `u32`.
  abbrev pub integer_of : ℕ → Value F
  integer_of n = integer (pos n)

  abbrev pub seek_sql : CompiledSearch F → ℕ → Option (Frag F) → Option (Frag F)
  seek_sql c limit none = none
  seek_sql c limit (some (pred, params)) = some (
    row_sql c (key_cols 0 (order_keys c)) (codes "(" ++ where_clause c ++ codes ") AND " ++ pred)
        (codes " LIMIT ?"),
    params ++ integer_of limit ∷ [],
  )

  -- `none` where `seek_predicate` reads out of range.
  unfoldable pub build_sql : CompiledSearch F → Bound F → ℕ → Option (Frag F)
  unfolding key_cols where_clause seek_predicate
  build_sql c unbounded limit = some (row_sql c [] (where_clause c) [], [])
  build_sql c (offset n) limit = some (
    row_sql c [] (where_clause c) (codes " LIMIT ? OFFSET ?"),
    integer_of limit ∷ integer_of n ∷ [],
  )
  build_sql c (keyset none) limit = some (
    row_sql c (key_cols 0 (order_keys c)) (where_clause c) (codes " LIMIT ?"),
    integer_of limit ∷ [],
  )
  build_sql c (keyset (some after)) limit = seek_sql c limit (seek_predicate (order_keys c) after)

  unfoldable pub totals_sql : CompiledSearch F → Text
  unfolding owned_value_subq from_clause where_clause
  totals_sql c =
      codes "SELECT COUNT(*), SUM(("
      ++ owned_value_subq
      ++ codes ")) "
      ++ from_clause
      ++ codes " WHERE "
      ++ where_clause c
