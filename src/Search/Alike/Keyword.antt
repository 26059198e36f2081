-- ===== src/Search/Alike/Keyword.antt =====
-- crates/pkdump-db/src/search.rs: alike values of a keyword compile to the same SQL.
use pokedumpster.Base.{
  Text, codes, equal, to_ascii_lowercase, ◌≡◌, refl, Option, none, some, List, [], ◌∷◌, ◌++◌, Bool,
  true, false, if◌then◌else◌, is_some, ap,
}
use pokedumpster.Query.Ast.{Op}
use pokedumpster.Search.Value.{Frag, negate, arms, ◌&◌}
use pokedumpster.Search.Sql.{market_price_expr, owned_count_subq}
use pokedumpster.Search.Fragment.{
  is_ne, compared, numeric, pokedex, pokedex_number, container, in_container, json_array,
  json_contains, like_contains, enum_eq, rarity, set, variant_match, has_flag, exists_copy,
}
use pokedumpster.Search.Flag.{SearchFlag, Ctx, is_flag, find_flag}
use pokedumpster.Search.Keyword.{
  catalog_arms, copy_arms, plain_arms, noting_arms, compile_comparison, named, copy_number,
}
use pokedumpster.Search.Fits.Compile.{op_cases}
use pokedumpster.Search.Alike.{
  IsAlike, SameFlags, Related, arms-related, SameSql, SameCompiled, flagged-alike,
}

Related-append :
    {A : Type 0} (R : A → A → Type 0) (s t u v : List (Text × A))
    → Related R s t
    → Related R u v
    → Related R (s ++ u) (t ++ v)
Related-append R [] [] u v h k = k
Related-append R [] (y ∷ t) u v h k = absurd h
Related-append R (x ∷ s) [] u v h k = absurd h
Related-append R ((n, a) ∷ s) ((m, b) ∷ t) u v h k = (h.0, Related-append R s t u v h.1 k)

if-same :
    {F : Type 0} (b : Bool) (f g k : Frag F)
    → SameSql f g
    → SameSql (if b then k else f) (if b then k else g)
if-same true f g k h = refl
if-same false f g k h = h

module _ {F : Type 0} (parse_f64 : Text → Option F) where
  compared-alike :
      (expr : Text) (op : Op) (extra : Option Text) (m n : Option F)
      → is_some m ≡ is_some n
      → SameSql (compared parse_f64 expr op extra m) (compared parse_f64 expr op extra n)
  compared-alike expr op extra none none h = refl
  compared-alike expr op none (some x) (some y) h = refl
  compared-alike expr op (some e) (some x) (some y) h = refl
  compared-alike expr op extra none (some y) h = cc
  compared-alike expr op extra (some x) none h = cc

  pokedex-alike :
      (op : Op) (m n : Option F)
      → is_some m ≡ is_some n
      → SameSql (pokedex_number parse_f64 op m) (pokedex_number parse_f64 op n)
  pokedex-alike op none none h = refl
  pokedex-alike op (some x) (some y) h = refl
  pokedex-alike op none (some y) h = cc
  pokedex-alike op (some x) none h = cc

  module _ (flags : List SearchFlag) (op : Op) (v w : Text) (h : IsAlike parse_f64 flags v w) where
    numeric-alike :
        (expr : Text) (extra : Option Text)
        → SameSql (numeric parse_f64 expr op v extra) (numeric parse_f64 expr op w extra)
    unfolding numeric
    numeric-alike expr extra = compared-alike expr op extra (parse_f64 v) (parse_f64 w) h.numbers

    copy_number-alike :
        (column : Text)
        → SameSql (copy_number parse_f64 column op v) (copy_number parse_f64 column op w)
    copy_number-alike column =
        ap exists_copy (numeric-alike column (some (column ++ codes " IS NOT NULL")))

    catalog-alike : Related SameSql (catalog_arms parse_f64 op v) (catalog_arms parse_f64 op w)
    unfolding catalog_arms json_array json_contains negate like_contains enum_eq rarity set
        variant_match has_flag pokedex
    catalog-alike =
        (
          refl,
          op_cases (λ o. SameSql (named parse_f64 o v) (named parse_f64 o w)) op refl refl refl refl
              refl refl refl,
        )
        & (
          refl,
          op_cases
              (λ o.
                SameSql {F = F} (json_array o (codes "cd.types") v)
                  (json_array o (codes "cd.types") w))
              op refl refl refl refl refl refl refl,
        )
        & (refl, refl)
        & (refl, refl)
        & (
          refl,
          op_cases
              (λ o.
                SameSql {F = F} (json_array o (codes "cd.subtypes") v)
                  (json_array o (codes "cd.subtypes") w))
              op refl refl refl refl refl refl refl,
        )
        & (
          refl,
          op_cases
              (λ o.
                SameSql {F = F} (enum_eq (codes "cd.supertype") o v)
                  (enum_eq (codes "cd.supertype") o w))
              op refl refl refl refl refl refl refl,
        )
        & (
          refl,
          op_cases
              (λ o.
                SameSql {F = F} (enum_eq (codes "cd.regulation_mark") o v)
                  (enum_eq (codes "cd.regulation_mark") o w))
              op refl refl refl refl refl refl refl,
        )
        & (refl, numeric-alike (codes "cd.hp") (some (codes "cd.hp IS NOT NULL")))
        & (
          refl,
          numeric-alike
              (codes "(SELECT MAX(CAST(json_extract(value, '$.damage') AS INTEGER)) "
                ++ codes "FROM json_each(cd.attacks))")
              none,
        )
        & (
          refl,
          numeric-alike (codes "json_array_length(cd.retreat_cost)")
              (some (codes "cd.retreat_cost IS NOT NULL")),
        )
        & (refl, numeric-alike (codes "CAST(SUBSTR(s.release_date, 1, 4) AS INTEGER)") none)
        & (refl, pokedex-alike op (parse_f64 v) (parse_f64 w) h.numbers)
        & (refl, refl)
        & (refl, refl)
        & (refl, refl)
        & (refl, refl)
        & (refl, refl)
        & (
          refl,
          op_cases (λ o. SameSql {F = F} (rarity o v) (rarity o w)) op refl refl refl refl refl refl
              refl,
        )
        & (
          refl,
          op_cases (λ o. SameSql {F = F} (set o v) (set o w)) op refl refl refl refl refl refl refl,
        )
        & (refl, refl)
        & (refl, refl)
        & (
          refl,
          op_cases
              (λ o.
                SameSql {F = F} (if is_ne o then negate (variant_match v) else variant_match v)
                  (if is_ne o then negate (variant_match w) else variant_match w))
              op refl refl refl refl refl refl refl,
        )
        & (refl, h.has_flags)
        & (refl, numeric-alike (codes "(" ++ market_price_expr ++ codes ")") none)
        & (refl, numeric-alike (codes "(" ++ owned_count_subq ++ codes ")") none)
        & tt

    container-alike :
        (fk table : Text) → SameSql {F = F} (container op v fk table) (container op w fk table)
    unfolding container
    container-alike fk table = rw h.stars (
        if-same (equal w (codes "*")) (in_container op v fk table) (in_container op w fk table)
          (
            exists_copy
                (codes "c." ++ fk ++ (if is_ne op then codes " IS NULL" else codes " IS NOT NULL")),
            [],
          )
          (op_cases (λ o. SameSql {F = F} (in_container o v fk table) (in_container o w fk table))
            op refl refl refl refl refl refl refl))

    copies-alike : Related SameSql (copy_arms parse_f64 op v) (copy_arms parse_f64 op w)
    unfolding copy_arms
    copies-alike =
        (refl, refl)
        & (refl, copy_number-alike (codes "c.grade_value"))
        & (refl, refl)
        & (refl, copy_number-alike (codes "c.purchase_price"))
        & (refl, copy_number-alike (codes "c.sale_price"))
        & (refl, refl)
        & (refl, refl)
        & (refl, refl)
        & (refl, refl)
        & (refl, refl)
        & (refl, container-alike (codes "deck_id") (codes "decks"))
        & (refl, container-alike (codes "binder_id") (codes "binders"))
        & tt

    pub compile_comparison-alike :
        (keyword : Text) (c d : Ctx)
        → SameFlags c d
        → SameCompiled
            (compile_comparison parse_f64 keyword op v flags c)
            (compile_comparison parse_f64 keyword op w flags d)
    unfolding compile_comparison is_flag
    compile_comparison-alike keyword c d s =
        arms-related SameCompiled (noting_arms parse_f64 op v flags c)
          (noting_arms parse_f64 op w flags d)
          (arms (plain_arms parse_f64 op v) (codes "1=0 /* unsupported keyword */", []) keyword, c)
          (arms (plain_arms parse_f64 op w) (codes "1=0 /* unsupported keyword */", []) keyword, d)
          keyword
          ((refl, rw h.is_flags (flagged-alike F (find_flag (to_ascii_lowercase w) flags) c d s))
            & (refl, (refl, (refl, s.1)))
            & tt)
          (
            arms-related SameSql (plain_arms parse_f64 op v) (plain_arms parse_f64 op w)
                (codes "1=0 /* unsupported keyword */", [])
                (codes "1=0 /* unsupported keyword */", []) keyword
                (Related-append SameSql (catalog_arms parse_f64 op v) (catalog_arms parse_f64 op w)
                  (copy_arms parse_f64 op v) (copy_arms parse_f64 op w) catalog-alike copies-alike)
                refl,
            s,
          )
