-- ===== src/Search/Fits/Compile.antt =====
-- crates/pkdump-db/src/search.rs: placeholders and values of a compiled query.
use pokedumpster.Base.{
  Text, codes, ◌≡◌, refl, Option, none, some, List, [], ◌++◌, if◌then◌else◌, unwrap_or,
  to_ascii_lowercase, All, All-append,
}
use pokedumpster.Query.Ast
use pokedumpster.Query.Ast.{Ast, Asts, Op, and, or, comparison, name_search, exact_name, nil, cons}
use pokedumpster.Search.Value.{pct, arms, arms-cases, marks, marks-append, Fits, if-cases, ◌&◌}
use pokedumpster.Search.Sql.{market_price_expr, owned_count_subq}
use pokedumpster.Search.Fragment.{is_ne, exists_copy, quoted, like_contains, variant_match}
use pokedumpster.Search.Flag.{
  SearchFlag, Ctx, Compiled, is_flag, flagged, computed_arms, flag_arms, computed_flag, find_flag,
  variant_flag,
}
use pokedumpster.Search.Keyword.{
  copy_number, copy_like, named, catalog_arms, copy_arms, plain_arms, noting_arms,
  compile_comparison,
}
use pokedumpster.Search.Fits.{
  marks-exists_copy, marks-num_op, marks-negate, like_contains-Fits, json_contains-Fits,
  json_array-Fits, enum_eq-Fits, rarity-Fits, set-Fits, variant_match-Fits, has_flag-Fits,
  container-Fits, numeric-Fits, pokedex-Fits,
}

module _ (F : Type 0) where
  -- The fragment of a compiled part.
  abbrev Sound : Compiled F → Type 0
  Sound c = Fits c.0

  computed_flag-Fits : (p : Option Text) (ctx : Ctx) → Sound (computed_flag p ctx)
  unfolding Fits marks exists_copy owned_count_subq
  computed_flag-Fits none ctx = refl
  computed_flag-Fits (some p) ctx =
      arms-cases Sound (computed_arms ctx) ((codes "1=0 /* unknown computed flag */", []), ctx) p
        (refl & refl & refl & refl & tt) refl

  variant_flag-Fits : (m : Text) → Fits {F = F} (variant_flag m)
  unfolding Fits marks
  variant_flag-Fits m = refl

  flagged-Fits : (f : Option SearchFlag) (ctx : Ctx) → Sound (flagged f ctx)
  unfolding Fits marks
  flagged-Fits none ctx = refl
  flagged-Fits (some f) ctx =
      arms-cases Sound (flag_arms f ctx) ((codes "1=0 /* unknown flag kind */", []), ctx) f.kind
        (computed_flag-Fits f.predicate ctx & variant_flag-Fits (unwrap_or f.match_str []) & tt)
        refl

pub op_cases :
    (P : Op → Type 0) (op : Op)
    → P Ast.contains
    → P Ast.eq
    → P Ast.ne
    → P Ast.lt
    → P Ast.gt
    → P Ast.le
    → P Ast.ge
    → P op
op_cases P Ast.contains c e n l g m k = c
op_cases P Ast.eq c e n l g m k = e
op_cases P Ast.ne c e n l g m k = n
op_cases P Ast.lt c e n l g m k = l
op_cases P Ast.gt c e n l g m k = g
op_cases P Ast.le c e n l g m k = m
op_cases P Ast.ge c e n l g m k = k

module _ {F : Type 0} (parse_f64 : Text → Option F) (op : Op) (value : Text) where
  copy_number-Fits :
      (column : Text) → marks column ≡ 0 → Fits (copy_number parse_f64 column op value)
  unfolding Fits marks
  copy_number-Fits column h = rw marks-exists_copy (
      numeric-Fits parse_f64 column op value (some (column ++ codes " IS NOT NULL")) h
        (simp (marks-append, h)))

  copy_like-Fits :
      (column pattern : Text) → marks column ≡ 0 → Fits (copy_like parse_f64 column pattern)
  unfolding Fits marks
  copy_like-Fits column pattern h = simp (marks-exists_copy, marks-append, h)

  named-Fits : Fits (named parse_f64 op value)
  unfolding Fits marks like_contains
  named-Fits = op_cases (λ o. Fits (named parse_f64 o value)) op refl refl refl refl refl refl refl

  marks-status_test :
      (is eq' : Text) → marks is ≡ 1 → marks eq' ≡ 1 → marks (if is_ne op then is else eq') ≡ 1
  marks-status_test is eq' = if-cases (λ s. marks s ≡ 1) (is_ne op)

  catalog_arms-Fits : All (λ arm. Fits arm.1) (catalog_arms parse_f64 op value)
  unfolding catalog_arms Fits marks market_price_expr owned_count_subq
  catalog_arms-Fits =
      named-Fits
      & json_array-Fits F (codes "cd.types") value refl op
      & json_contains-Fits F (codes "cd.weaknesses") value refl
      & json_contains-Fits F (codes "cd.resistances") value refl
      & json_array-Fits F (codes "cd.subtypes") value refl op
      & enum_eq-Fits F (codes "cd.supertype") value refl op
      & enum_eq-Fits F (codes "cd.regulation_mark") value refl op
      & numeric-Fits parse_f64 (codes "cd.hp") op value (some (codes "cd.hp IS NOT NULL")) refl refl
      & numeric-Fits parse_f64
          (codes "(SELECT MAX(CAST(json_extract(value, '$.damage') AS INTEGER)) "
            ++ codes "FROM json_each(cd.attacks))")
          op value none refl refl
      & numeric-Fits parse_f64 (codes "json_array_length(cd.retreat_cost)") op value
          (some (codes "cd.retreat_cost IS NOT NULL")) refl refl
      & numeric-Fits parse_f64 (codes "CAST(SUBSTR(s.release_date, 1, 4) AS INTEGER)") op value none
          refl refl
      & pokedex-Fits parse_f64 op value
      & like_contains-Fits F (codes "cd.artist") value refl
      & like_contains-Fits F (codes "cd.flavor_text") value refl
      & like_contains-Fits F (codes "cd.abilities") value refl
      & like_contains-Fits F (codes "cd.attacks") value refl
      & refl
      & rarity-Fits F value op
      & set-Fits F value op
      & refl
      & refl
      & if-cases Fits (is_ne op)
          (marks-negate {F = F} (variant_match value) (variant_match-Fits F value))
          (variant_match-Fits F value)
      & has_flag-Fits F value
      & numeric-Fits parse_f64 (codes "(" ++ market_price_expr ++ codes ")") op value none refl refl
      & numeric-Fits parse_f64 (codes "(" ++ owned_count_subq ++ codes ")") op value none refl refl
      & tt

  copy_arms-Fits : All (λ arm. Fits arm.1) (copy_arms parse_f64 op value)
  unfolding copy_arms Fits marks
  copy_arms-Fits =
      (rw marks-exists_copy (marks-status_test _ _ refl refl))
      & copy_number-Fits (codes "c.grade_value") refl
      & copy_like-Fits (codes "grade_company") (pct value) refl
      & copy_number-Fits (codes "c.purchase_price") refl
      & copy_number-Fits (codes "c.sale_price") refl
      & (simp (marks-exists_copy, marks-append, marks-num_op))
      & copy_like-Fits (codes "language") (pct value) refl
      & copy_like-Fits (codes "source") (pct value) refl
      & copy_like-Fits (codes "tags") (quoted value) refl
      & copy_like-Fits (codes "notes") (pct value) refl
      & container-Fits F value (codes "deck_id") (codes "decks") refl refl op
      & container-Fits F value (codes "binder_id") (codes "binders") refl refl op
      & tt

  pub compile_comparison-Fits :
      (keyword : Text) (flags : List SearchFlag) (ctx : Ctx)
      → Sound F (compile_comparison parse_f64 keyword op value flags ctx)
  unfolding compile_comparison Fits marks is_flag
  compile_comparison-Fits keyword flags ctx =
      arms-cases (Sound F) (noting_arms parse_f64 op value flags ctx)
        (
          arms (plain_arms parse_f64 op value) (codes "1=0 /* unsupported keyword */", []) keyword,
          ctx,
        )
        keyword
        (flagged-Fits F (find_flag (to_ascii_lowercase value) flags) ctx
          & rw marks-exists_copy (marks-status_test _ _ refl refl)
          & tt)
        (arms-cases Fits (plain_arms parse_f64 op value) (codes "1=0 /* unsupported keyword */", [])
          keyword
          (All-append (λ arm. Fits arm.1) (catalog_arms parse_f64 op value)
            (copy_arms parse_f64 op value) catalog_arms-Fits copy_arms-Fits)
          refl)
