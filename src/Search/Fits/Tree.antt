-- ===== src/Search/Fits/Tree.antt =====
-- crates/pkdump-db/src/search.rs: placeholders and values of `compile_node` and of `compile`.
use pokedumpster.Base.{
  Text, codes, ℕ, ◌+◌, ◌≡◌, refl, Option, none, some, List, [], ◌∷◌, length, length-append, arith,
}
use pokedumpster.Query.Ast.{Ast, Asts, and, or, comparison, name_search, exact_name, nil, cons}
use pokedumpster.Search.Value.{marks, marks-append, Fits, join}
use pokedumpster.Search.Fragment.{like_contains}
use pokedumpster.Search.Flag.{SearchFlag, Ctx, no_ctx}
use pokedumpster.Search.Compile.{
  compile_node, compile_children, compile, compile_stripped, extract_modifiers, CompiledSearch,
}
use pokedumpster.Search.Fits.{marks-negate, like_contains-Fits}
use pokedumpster.Search.Fits.Compile.{compile_comparison-Fits}

abbrev pub all_marks : List Text → ℕ
all_marks [] = 0
all_marks (p ∷ ps) = marks p + all_marks ps

pub marks-join :
    (sep : Text) (parts : List Text) → marks sep ≡ 0 → marks (join sep parts) ≡ all_marks parts
unfolding join marks
marks-join sep [] h = refl
marks-join sep (p ∷ []) h = omega arith
marks-join sep (p ∷ q ∷ rest) h =
    rw (marks-append, marks-append, h) (omega (arith, marks-join sep (q ∷ rest) h))

module _ {F : Type 0} (parse_f64 : Text → Option F) where
  mutual
    unfolding Fits marks compile_node like_contains

    pub compile_node-Fits :
        (ast : Ast) (flags : List SearchFlag) (ctx : Ctx)
        → Fits (compile_node parse_f64 ast flags ctx).0
    compile_node-Fits (and cs) flags ctx =
        rw (marks-join (codes " AND ") (compile_children parse_f64 cs flags ctx).0.0 refl)
          (compile_children-Fits cs flags ctx)
    compile_node-Fits (or cs) flags ctx =
        rw (marks-join (codes " OR ") (compile_children parse_f64 cs flags ctx).0.0 refl)
          (compile_children-Fits cs flags ctx)
    compile_node-Fits (Ast.not inner) flags ctx =
        marks-negate (compile_node parse_f64 inner flags ctx).0 (compile_node-Fits inner flags ctx)
    compile_node-Fits (name_search term) flags ctx =
        like_contains-Fits F (codes "cd.name") term refl
    compile_node-Fits (exact_name name) flags ctx = refl
    compile_node-Fits (comparison keyword op value) flags ctx =
        compile_comparison-Fits parse_f64 op value keyword flags ctx

    compile_children-Fits :
        (cs : Asts) (flags : List SearchFlag) (ctx : Ctx)
        → all_marks (compile_children parse_f64 cs flags ctx).0.0
          ≡ length (compile_children parse_f64 cs flags ctx).0.1
    compile_children-Fits nil flags ctx = refl
    compile_children-Fits (cons c cs) flags ctx =
        rw (marks-append, marks-append, length-append)
          (omega (
            arith,
            compile_node-Fits c flags ctx,
            compile_children-Fits cs flags (compile_node parse_f64 c flags ctx).1,
          ))

  compile_stripped-Fits :
      (stripped : Option Ast × Ctx) (flags : List SearchFlag)
      → Fits (compile_stripped parse_f64 stripped flags).0
  unfolding Fits marks
  compile_stripped-Fits (none, ctx) flags = refl
  compile_stripped-Fits (some ast, ctx) flags = compile_node-Fits ast flags ctx

  -- A compiled query has as many placeholders as bound values.
  pub compile-Fits :
      (ast : Ast) (flags : List SearchFlag)
      → let c : CompiledSearch F = compile parse_f64 ast flags in Fits (c.where_sql, c.params)
  unfolding compile
  compile-Fits ast flags = compile_stripped-Fits (extract_modifiers ast no_ctx) flags
