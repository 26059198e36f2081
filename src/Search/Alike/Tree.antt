-- ===== src/Search/Alike/Tree.antt =====
-- crates/pkdump-db/src/search.rs: trees whose values are alike compile to the same WHERE clause.
use pokedumpster.Base.{
  Text, codes, equal, ◌≡◌, refl, Option, none, some, List, ◌∷◌, ◌++◌, ap, ◌∙◌, Bool-cases, inl, inr,
}
use pokedumpster.Query.Ast.{Ast, Asts, Op, and, or, comparison, name_search, exact_name, nil, cons}
use pokedumpster.Search.Value.{Value, negate, join}
use pokedumpster.Search.Fragment.{like_contains}
use pokedumpster.Search.Keyword.{compile_comparison}
use pokedumpster.Search.Flag.{SearchFlag, Ctx, Compiled, no_ctx}
use pokedumpster.Search.Compile.{
  compile_node, compile_children, joined, conjunction, cons_kept, extract_modifiers,
  extract_children, compile_stripped, compile, with_ctx,
}
use pokedumpster.Search.Order.{where_clause}
use pokedumpster.Search.Alike.{IsAlike, SameFlags, SameSql, SameCompiled}
use pokedumpster.Search.Alike.Keyword.{compile_comparison-alike}

module _ {F : Type 0} (parse_f64 : Text → Option F) (flags : List SearchFlag) where
  -- The same tree, keywords and operators, with values that are alike.
  unfoldable mutual
    pub AreAlike : Ast → Ast → Type 0
    AreAlike (and cs) (and ds) = AllAlike cs ds
    AreAlike (or cs) (or ds) = AllAlike cs ds
    AreAlike (Ast.not a) (Ast.not b) = AreAlike a b
    AreAlike (comparison k o v) (comparison l p w) = (k ≡ l) × (o ≡ p) × IsAlike parse_f64 flags v w
    AreAlike (name_search s) (name_search t) = Unit
    AreAlike (exact_name s) (exact_name t) = Unit
    AreAlike _ _ = ⊥

    pub AllAlike : Asts → Asts → Type 0
    AllAlike nil nil = Unit
    AllAlike (cons a as') (cons b bs) = AreAlike a b × AllAlike as' bs
    AllAlike _ _ = ⊥

  abbrev SameParts :
      (List Text × List (Value F)) × Ctx → (List Text × List (Value F)) × Ctx → Type 0
  SameParts p q = (p.0.0 ≡ q.0.0) × SameFlags p.1 q.1

  joined-alike :
      (sep : Text) (p q : (List Text × List (Value F)) × Ctx)
      → SameParts p q
      → SameCompiled (joined sep p) (joined sep q)
  joined-alike sep p q h = (ap (join sep) h.0, h.1)

  comparison-alike :
      (k l : Text) (o p : Op) (v w : Text) (c d : Ctx)
      → k ≡ l
      → o ≡ p
      → IsAlike parse_f64 flags v w
      → SameFlags c d
      → SameCompiled
          (compile_comparison parse_f64 k o v flags c)
          (compile_comparison parse_f64 l p w flags d)
  comparison-alike k l o p v w c d e f h s =
      rw (e, f) (compile_comparison-alike parse_f64 flags p v w h l c d s)

  -- The parts of the children, the first one's in parentheses.
  part : Text → List Text → List Text
  part sql parts = (codes "(" ++ sql ++ codes ")") ∷ parts

  mutual
    unfolding compile_node AreAlike part negate like_contains

    compile_node-alike :
        (a b : Ast) (c d : Ctx)
        → AreAlike a b
        → SameFlags c d
        → SameCompiled (compile_node parse_f64 a flags c) (compile_node parse_f64 b flags d)
    compile_node-alike (and cs) (and ds) c d h s =
        joined-alike (codes " AND ") (compile_children parse_f64 cs flags c)
          (compile_children parse_f64 ds flags d) (compile_children-alike cs ds c d h s)
    compile_node-alike (or cs) (or ds) c d h s =
        joined-alike (codes " OR ") (compile_children parse_f64 cs flags c)
          (compile_children parse_f64 ds flags d) (compile_children-alike cs ds c d h s)
    compile_node-alike (Ast.not a) (Ast.not b) c d h s =
        let (e, s') = compile_node-alike a b c d h s in
        (ap (λ sql. codes "NOT (" ++ sql ++ codes ")") e, s')
    compile_node-alike (comparison k o v) (comparison l p w) c d h s =
        comparison-alike k l o p v w c d h.0 h.1 h.2 s
    compile_node-alike (name_search x) (name_search y) c d h s = (refl, s)
    compile_node-alike (exact_name x) (exact_name y) c d h s = (refl, s)
    compile_node-alike _ _ c d h s = absurd h

    compile_children-alike :
        (as' bs : Asts) (c d : Ctx)
        → AllAlike as' bs
        → SameFlags c d
        → SameParts (compile_children parse_f64 as' flags c) (compile_children parse_f64 bs flags d)
    compile_children-alike nil nil c d h s = (refl, s)
    compile_children-alike (cons a as') (cons b bs) c d h s =
        let (e, s') = compile_node-alike a b c d h.0 s in
        let (es, s'') =
          compile_children-alike as' bs (compile_node parse_f64 a flags c).1
            (compile_node parse_f64 b flags d).1 h.1 s' in
        (
          ap
                (λ sql.
                  part sql
                    (compile_children parse_f64 as' flags (compile_node parse_f64 a flags c).1).0.0)
                e
              ∙ ap (part (compile_node parse_f64 b flags d).0.0) es,
          s'',
        )
    compile_children-alike _ _ c d h s = absurd h

  -- The parts of the query that `extract_modifiers` leaves.
  abbrev OptionAlike : Option Ast → Option Ast → Type 0
  OptionAlike none none = Unit
  OptionAlike (some a) (some b) = AreAlike a b
  OptionAlike _ _ = ⊥

  conjunction-alike :
      (as' bs : Asts) → AllAlike as' bs → OptionAlike (conjunction as') (conjunction bs)
  unfolding AreAlike
  conjunction-alike nil nil h = tt
  conjunction-alike (cons a nil) (cons b nil) h = h.0
  conjunction-alike (cons a (cons x xs)) (cons b (cons y ys)) h = h
  conjunction-alike nil (cons b bs) h = absurd h
  conjunction-alike (cons a as') nil h = absurd h
  conjunction-alike (cons a nil) (cons b (cons y ys)) h = absurd h.1
  conjunction-alike (cons a (cons x xs)) (cons b nil) h = absurd h.1

  cons_kept-alike :
      (a b : Option Ast) (as' bs : Asts)
      → OptionAlike a b
      → AllAlike as' bs
      → AllAlike (cons_kept a as') (cons_kept b bs)
  unfolding AreAlike
  cons_kept-alike none none as' bs h k = k
  cons_kept-alike (some a) (some b) as' bs h k = (h, k)
  cons_kept-alike none (some b) as' bs h k = absurd h
  cons_kept-alike (some a) none as' bs h k = absurd h

  extract_comparison-alike :
      (k l : Text) (o p : Op) (v w : Text) (c d : Ctx)
      → k ≡ l
      → o ≡ p
      → IsAlike parse_f64 flags v w
      → SameFlags c d
      → OptionAlike
          (extract_modifiers (comparison k o v) c).0
          (extract_modifiers (comparison l p w) d).0
        × SameFlags
            (extract_modifiers (comparison k o v) c).1
            (extract_modifiers (comparison l p w) d).1
  unfolding extract_modifiers AreAlike
  extract_comparison-alike k l o p v w c d e f h s = elim (Bool-cases (equal l (codes "order"))) [
    | inl a ↦ rw (e, a) (tt, s)
    | inr n ↦ elim (Bool-cases (equal l (codes "direction"))) [
      | inl a ↦ rw (e, n, a) (tt, s)
      | inr m ↦ rw (e, n, m) ((refl, f, h), s)
    ]
  ]

  mutual
    unfolding extract_modifiers AreAlike

    extract_modifiers-alike :
        (a b : Ast) (c d : Ctx)
        → AreAlike a b
        → SameFlags c d
        → OptionAlike (extract_modifiers a c).0 (extract_modifiers b d).0
          × SameFlags (extract_modifiers a c).1 (extract_modifiers b d).1
    extract_modifiers-alike (and cs) (and ds) c d h s =
        let (k, s') = extract_children-alike cs ds c d h s in
        (conjunction-alike (extract_children cs c).0 (extract_children ds d).0 k, s')
    extract_modifiers-alike (or cs) (or ds) c d h s = (h, s)
    extract_modifiers-alike (Ast.not a) (Ast.not b) c d h s = (h, s)
    extract_modifiers-alike (comparison k o v) (comparison l p w) c d h s =
        extract_comparison-alike k l o p v w c d h.0 h.1 h.2 s
    extract_modifiers-alike (name_search x) (name_search y) c d h s = (tt, s)
    extract_modifiers-alike (exact_name x) (exact_name y) c d h s = (tt, s)
    extract_modifiers-alike _ _ c d h s = absurd h

    extract_children-alike :
        (as' bs : Asts) (c d : Ctx)
        → AllAlike as' bs
        → SameFlags c d
        → AllAlike (extract_children as' c).0 (extract_children bs d).0
          × SameFlags (extract_children as' c).1 (extract_children bs d).1
    extract_children-alike nil nil c d h s = (tt, s)
    extract_children-alike (cons a as') (cons b bs) c d h s =
        let (k, s') = extract_modifiers-alike a b c d h.0 s in
        let (ks, s'') =
          extract_children-alike as' bs (extract_modifiers a c).1 (extract_modifiers b d).1 h.1
            s' in
        (
          cons_kept-alike (extract_modifiers a c).0 (extract_modifiers b d).0
              (extract_children as' (extract_modifiers a c).1).0
              (extract_children bs (extract_modifiers b d).1).0 k ks,
          s'',
        )
    extract_children-alike _ _ c d h s = absurd h

  compile_stripped-alike :
      (x y : Option Ast × Ctx)
      → OptionAlike x.0 y.0
      → SameFlags x.1 y.1
      → SameCompiled (compile_stripped parse_f64 x flags) (compile_stripped parse_f64 y flags)
  compile_stripped-alike (none, c) (none, d) h s = (refl, s)
  compile_stripped-alike (some a, c) (some b, d) h s = compile_node-alike a b c d h s
  compile_stripped-alike (none, c) (some b, d) h s = absurd h
  compile_stripped-alike (some a, c) (none, d) h s = absurd h

  where_clause-with_ctx :
      (x y : Compiled F)
      → SameSql x.0 y.0
      → SameFlags x.1 y.1
      → where_clause (with_ctx x) ≡ where_clause (with_ctx y)
  unfolding where_clause
  where_clause-with_ctx ((sql, ps), c) ((sql', qs), d) e s = rw (e, s.0, s.1) refl

  -- Queries that differ only in alike values have the same WHERE clause.
  pub where_clause-compile :
      (a b : Ast)
      → AreAlike a b
      → where_clause (compile parse_f64 a flags) ≡ where_clause (compile parse_f64 b flags)
  unfolding compile
  where_clause-compile a b h =
      let (k, s) = extract_modifiers-alike a b no_ctx no_ctx h (refl, refl) in
      let (e, s') =
        compile_stripped-alike (extract_modifiers a no_ctx) (extract_modifiers b no_ctx) k s in
      where_clause-with_ctx (compile_stripped parse_f64 (extract_modifiers a no_ctx) flags)
        (compile_stripped parse_f64 (extract_modifiers b no_ctx) flags) e s'
