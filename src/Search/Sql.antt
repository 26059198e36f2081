-- ===== src/Search/Sql.antt =====
-- crates/pkdump-db/src/search.rs and prices.rs: the constant SQL texts.
use pokedumpster.Base.{Text, codes, ◌++◌}

unfoldable pub market_price_expr_from : Text → Text → Text
market_price_expr_from feed manual_cutoff =
    codes "COALESCE( (SELECT lp.price FROM "
    ++ feed
    ++ codes " lp WHERE lp.tcgplayer_product_id = p.tcgplayer_product_id "
    ++ codes "AND lp.sub_type_name = p.sub_type_name AND lp.price_type = 'market' LIMIT 1), "
    ++ codes "(SELECT o.price FROM catalog_price_overrides o WHERE o.printing_id = p.printing_id), "
    ++ codes "(SELECT mp.price FROM manual_prices mp WHERE mp.printing_id = p.printing_id "
    ++ codes "AND EXISTS (SELECT 1 FROM user_printings up WHERE up.printing_id = mp.printing_id) "
    ++ manual_cutoff
    ++ codes " ORDER BY mp.observed_at DESC LIMIT 1) )"

unfoldable pub market_price_expr : Text
unfolding market_price_expr_from
market_price_expr = market_price_expr_from (codes "latest_prices") (codes "")

unfoldable pub owned_count_subq : Text
owned_count_subq = codes "SELECT COUNT(*) FROM collection c WHERE c.printing_id = p.printing_id"

unfoldable pub owned_value_subq : Text
unfolding market_price_expr
owned_value_subq =
    codes "CASE WHEN EXISTS (SELECT 1 FROM collection c "
    ++ codes "WHERE c.printing_id = p.printing_id AND c.status = 'owned') THEN ("
    ++ market_price_expr
    ++ codes ") * (SELECT SUM(COALESCE(cond.multiplier, 1.0)) FROM collection c "
    ++ codes "LEFT JOIN conditions cond ON cond.name = c.condition "
    ++ codes "WHERE c.printing_id = p.printing_id AND c.status = 'owned') END"

unfoldable pub attack_costs_expr : Text
attack_costs_expr =
    codes "CASE WHEN cd.attacks IS NULL THEN NULL ELSE ( "
    ++ codes "SELECT json_group_array(json_object( 'name', json_extract(value, '$.name'), "
    ++ codes "'cost', json(json_extract(value, '$.cost')))) FROM json_each(cd.attacks)) END"

unfoldable pub from_clause : Text
from_clause =
    codes "FROM ( SELECT printing_id, card_id, variant, tcgplayer_product_id, sub_type_name, "
    ++ codes "NULL AS variant_description FROM printings UNION ALL "
    ++ codes "SELECT printing_id, card_id, variant, NULL AS tcgplayer_product_id, "
    ++ codes "NULL AS sub_type_name, description AS variant_description FROM user_printings ) p "
    ++ codes "JOIN cards cd ON p.card_id = cd.card_id JOIN sets s ON cd.set_code = s.set_code"
