-- ===== src/Search/Keyword.antt =====
-- crates/pkdump-db/src/search.rs: `compile_comparison`, one arm for each keyword.
use pokedumpster.Base.{
  Text, codes, to_ascii_lowercase, Option, none, some, List, [], ◌∷◌, ◌++◌, true, if◌then◌else◌,
}
use pokedumpster.Query.Ast
use pokedumpster.Query.Ast.{Op}
use pokedumpster.Search.Value.{text, Frag, pct, negate, arms}
use pokedumpster.Search.Sql.{market_price_expr, owned_count_subq}
use pokedumpster.Search.Fragment.{
  is_ne, num_op, quoted, exists_copy, condition_value, like_contains, json_contains, json_array,
  enum_eq, rarity, set, variant_match, container, has_flag, numeric, pokedex,
}
use pokedumpster.Search.Flag.{SearchFlag, Ctx, Compiled, is_flag}

module _ {F : Type 0} where
  module _ (parse_f64 : Text → Option F) where
    -- A number of the copies, such as the price paid.
    abbrev pub copy_number : Text → Op → Text → Frag F
    copy_number column op value =
        let f = numeric parse_f64 column op value (some (column ++ codes " IS NOT NULL")) in
        (exists_copy f.0, f.1)

    abbrev pub named : Op → Text → Frag F
    named Ast.eq value = (codes "cd.name = ? COLLATE NOCASE", text value ∷ [])
    named Ast.ne value = (codes "(cd.name IS NULL OR cd.name != ? COLLATE NOCASE)", text value ∷ [])
    named _ value = like_contains (codes "cd.name") value

    -- A text that some copy's column contains.
    abbrev pub copy_like : Text → Text → Frag F
    copy_like column pattern =
        (exists_copy (codes "c." ++ column ++ codes " LIKE ? COLLATE NOCASE"), text pattern ∷ [])

    -- The arms of `compile_comparison` over the catalog's columns.
    unfoldable pub catalog_arms : Op → Text → List (Text × Frag F)
    unfolding json_array json_contains like_contains enum_eq numeric pokedex pct rarity set
        to_ascii_lowercase variant_match negate has_flag market_price_expr owned_count_subq
    catalog_arms op value =
        (codes "name", named op value)
        ∷ (codes "energy_type", json_array op (codes "cd.types") value)
        ∷ (codes "weakness", json_contains (codes "cd.weaknesses") value)
        ∷ (codes "resistance", json_contains (codes "cd.resistances") value)
        ∷ (codes "subtype", json_array op (codes "cd.subtypes") value)
        ∷ (codes "supertype", enum_eq (codes "cd.supertype") op value)
        ∷ (codes "regulation", enum_eq (codes "cd.regulation_mark") op value)
        ∷ (
          codes "hp",
          numeric parse_f64 (codes "cd.hp") op value (some (codes "cd.hp IS NOT NULL")),
        )
        ∷ (
          codes "damage",
          numeric parse_f64
              (codes "(SELECT MAX(CAST(json_extract(value, '$.damage') AS INTEGER)) "
                ++ codes "FROM json_each(cd.attacks))")
              op value none,
        )
        ∷ (
          codes "retreat",
          numeric parse_f64 (codes "json_array_length(cd.retreat_cost)") op value
              (some (codes "cd.retreat_cost IS NOT NULL")),
        )
        ∷ (
          codes "year",
          numeric parse_f64 (codes "CAST(SUBSTR(s.release_date, 1, 4) AS INTEGER)") op value none,
        )
        ∷ (codes "pokedex", pokedex parse_f64 op value)
        ∷ (codes "artist", like_contains (codes "cd.artist") value)
        ∷ (codes "flavor", like_contains (codes "cd.flavor_text") value)
        ∷ (codes "ability", like_contains (codes "cd.abilities") value)
        ∷ (codes "attack", like_contains (codes "cd.attacks") value)
        ∷ (
          codes "oracle",
          (
            codes "(cd.abilities LIKE ? COLLATE NOCASE OR cd.attacks LIKE ? COLLATE NOCASE)",
            text (pct value) ∷ text (pct value) ∷ [],
          ),
        )
        ∷ (codes "rarity", rarity op value)
        ∷ (codes "set", set op value)
        ∷ (
          codes "legality",
          (
            codes "json_extract(cd.legalities, '$.' || ?) = 'Legal' COLLATE NOCASE",
            text (to_ascii_lowercase value) ∷ [],
          ),
        )
        ∷ (
          codes "banned",
          (
            codes "json_extract(cd.legalities, '$.' || ?) = 'Banned' COLLATE NOCASE",
            text (to_ascii_lowercase value) ∷ [],
          ),
        )
        ∷ (codes "variant", if is_ne op then negate (variant_match value) else variant_match value)
        ∷ (codes "has_flag", has_flag value)
        ∷ (
          codes "price",
          numeric parse_f64 (codes "(" ++ market_price_expr ++ codes ")") op value none,
        )
        ∷ (
          codes "qty",
          numeric parse_f64 (codes "(" ++ owned_count_subq ++ codes ")") op value none,
        )
        ∷ []

    -- The arms over the copies of the printing.
    unfoldable pub copy_arms : Op → Text → List (Text × Frag F)
    unfolding numeric pct exists_copy condition_value num_op quoted container
    copy_arms op value =
        (
          codes "condition",
          (
            exists_copy (
                if is_ne op
                then codes "c.condition != ? COLLATE NOCASE"
                else codes "c.condition = ? COLLATE NOCASE"),
            text (condition_value value) ∷ [],
          ),
        )
        ∷ (codes "grade", copy_number (codes "c.grade_value") op value)
        ∷ (codes "grader", copy_like (codes "grade_company") (pct value))
        ∷ (codes "paid", copy_number (codes "c.purchase_price") op value)
        ∷ (codes "sale_price", copy_number (codes "c.sale_price") op value)
        ∷ (
          codes "added",
          (
            exists_copy (codes "SUBSTR(c.acquired_at, 1, 10) " ++ num_op op ++ codes " ?"),
            text value ∷ [],
          ),
        )
        ∷ (codes "language", copy_like (codes "language") (pct value))
        ∷ (codes "source", copy_like (codes "source") (pct value))
        ∷ (codes "tag", copy_like (codes "tags") (quoted value))
        ∷ (codes "note", copy_like (codes "notes") (pct value))
        ∷ (codes "deck", container op value (codes "deck_id") (codes "decks"))
        ∷ (codes "binder", container op value (codes "binder_id") (codes "binders"))
        ∷ []

    -- The arms whose keyword leaves the context as it is.
    abbrev pub plain_arms : Op → Text → List (Text × Frag F)
    plain_arms op value = catalog_arms op value ++ copy_arms op value

    -- The arms of `compile_comparison` that change the context.
    abbrev pub noting_arms : Op → Text → List SearchFlag → Ctx → List (Text × Compiled F)
    noting_arms op value flags ctx =
        (codes "is_flag", is_flag value flags ctx)
        ∷ (
          codes "status",
          (
            (
              exists_copy (
                  if is_ne op
                  then codes "c.status != ? COLLATE NOCASE"
                  else codes "c.status = ? COLLATE NOCASE"),
              text value ∷ [],
            ),
            record ctx { has_status_filter = true },
          ),
        )
        ∷ []

    unfoldable pub compile_comparison : Text → Op → Text → List SearchFlag → Ctx → Compiled F
    unfolding arms catalog_arms copy_arms is_flag exists_copy
    compile_comparison keyword op value flags ctx =
        arms (noting_arms op value flags ctx)
          (arms (plain_arms op value) (codes "1=0 /* unsupported keyword */", []) keyword, ctx)
          keyword
