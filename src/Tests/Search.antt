-- ===== src/Tests/Search.antt =====
-- The search compiler of crates/pkdump-db/src/search.rs at fixed inputs. Here `f64` is ℕ, and a number
-- is a text of digits.
use pokedumpster.Base.{
  Text, codes, equal, ℕ, ◌≡◌, refl, Option, none, some, [], ◌∷◌, ◌++◌, true, false, if◌then◌else◌,
  to_ascii_lowercase, length,
}
use pokedumpster.Card.{pos}
use pokedumpster.Query.Ast.{Ast, and, comparison, nil, cons, contains, ge, eq}
use pokedumpster.Search.Value.{Value, text, integer, real, null, blob, pct, arms}
use pokedumpster.Search.Flag.{SearchFlag, asc, find_flag}
use pokedumpster.Search.Compile.{compile, compile_node}
use pokedumpster.Search.Order.{order_keys, where_clause}
use pokedumpster.Search.Statement.{keyset, build_sql}
use pokedumpster.Search.Value.{marks, Frag}
use pokedumpster.Search.Fits.Statement.{build_sql-compile}
use pokedumpster.Search.Alike.Tree.{AreAlike, where_clause-compile}

-- `str::parse::<f64>` on the texts used here.
abbrev parse_f64 : Text → Option ℕ
parse_f64 s =
    if equal s (codes "100") then some 100 else if equal s (codes "90") then some 90 else none

abbrev query : Ast
query = and (
    cons (comparison (codes "hp") ge (codes "100")) (
      cons (comparison (codes "order") eq (codes "SET"))
        (cons (Ast.not (comparison (codes "is_flag") contains (codes "Owned"))) nil)))

abbrev owned : SearchFlag
owned = record {
  flag = codes "owned";
  kind = codes "computed";
  match_str = none;
  predicate = some (codes "owned");
  help = none;
}

compile-query : compile parse_f64 query (owned ∷ []) ≡ record {
  where_sql =
      codes "((cd.hp IS NOT NULL AND cd.hp >= ?)) AND "
      ++ codes
          "(NOT ((SELECT COUNT(*) FROM collection c WHERE c.printing_id = p.printing_id) > 0))";
  params = real 100 ∷ [];
  has_status_filter = false;
  catalog_wide = true;
  order_by = some (codes "set");
  order_dir = asc;
}
unfolding compile compile_node pokedumpster.Search.Value.join
compile-query = refl

abbrev other_query : Ast
other_query = and (
    cons (comparison (codes "hp") ge (codes "90")) (
      cons (comparison (codes "order") eq (codes "RARITY"))
        (cons (Ast.not (comparison (codes "is_flag") contains (codes "OWNED"))) nil)))

where_clause-compile_example :
    where_clause (compile parse_f64 query (owned ∷ []))
    ≡ where_clause (compile parse_f64 other_query (owned ∷ []))
unfolding AreAlike find_flag to_ascii_lowercase arms equal
where_clause-compile_example = where_clause-compile parse_f64 (owned ∷ []) query other_query (
  (refl, refl, record { numbers = refl; stars = refl; is_flags = refl; has_flags = refl }),
  (
    (refl, refl, record { numbers = refl; stars = refl; is_flags = refl; has_flags = refl }),
    ((refl, refl, record { numbers = refl; stars = refl; is_flags = refl; has_flags = refl }), tt),
  ),
)

build_sql-compile_example :
    (f : Frag ℕ) × (build_sql
        (compile parse_f64 query (owned ∷ []))
        (keyset (
          some (
            text (codes "2023/09/22")
            ∷ text (codes "sv3pt5")
            ∷ integer (pos 6)
            ∷ text (codes "sv3pt5-6")
            ∷ [])))
        251
      ≡ some f)
    × (marks f.0 ≡ length ((compile parse_f64 query (owned ∷ [])).params ++ f.1))
unfolding compile order_keys compile_node
build_sql-compile_example =
    build_sql-compile parse_f64 query (owned ∷ [])
      (keyset (
        some (
          text (codes "2023/09/22")
          ∷ text (codes "sv3pt5")
          ∷ integer (pos 6)
          ∷ text (codes "sv3pt5-6")
          ∷ [])))
      251 refl
