-- ===== src/Search/Compile.antt =====
-- crates/pkdump-db/src/search.rs: from a syntax tree to a compiled query.
use pokedumpster.Base.{
  Text, codes, equal, contains, to_ascii_lowercase, Option, none, some, List, [], ◌∷◌, ◌++◌, Bool,
  true, not, if◌then◌else◌,
}
use pokedumpster.Query.Ast.{Ast, Asts, and, or, comparison, name_search, exact_name, nil, cons}
use pokedumpster.Search.Value.{Value, text, negate, join}
use pokedumpster.Search.Fragment.{like_contains}
use pokedumpster.Search.Flag.{SearchFlag, Dir, Ctx, no_ctx, dir_of, Compiled}
use pokedumpster.Search.Keyword.{compile_comparison}

module _ {F : Type 0} where
  -- The end of `combine`, behind its loop.
  abbrev pub joined : Text → (List Text × List (Value F)) × Ctx → Compiled F
  joined sep ((parts, params), ctx) = ((join sep parts, params), ctx)

  module _ (parse_f64 : Text → Option F) where
    unfoldable mutual
      unfolding compile_comparison like_contains negate

      pub compile_node : Ast → List SearchFlag → Ctx → Compiled F
      compile_node (and children) flags ctx =
          joined (codes " AND ") (compile_children children flags ctx)
      compile_node (or children) flags ctx =
          joined (codes " OR ") (compile_children children flags ctx)
      compile_node (Ast.not inner) flags ctx =
          let (f, ctx') = compile_node inner flags ctx in (negate f, ctx')
      compile_node (name_search term) flags ctx = (like_contains (codes "cd.name") term, ctx)
      compile_node (exact_name name) flags ctx =
          ((codes "cd.name = ? COLLATE NOCASE", text name ∷ []), ctx)
      compile_node (comparison keyword op value) flags ctx =
          compile_comparison parse_f64 keyword op value flags ctx

      -- The loop of `combine`: the parts in parentheses and the values of all of them.
      pub compile_children : Asts → List SearchFlag → Ctx → (List Text × List (Value F)) × Ctx
      compile_children nil flags ctx = (([], []), ctx)
      compile_children (cons child rest) flags ctx =
          let ((sql, p), ctx') = compile_node child flags ctx in
          let ((parts, params), ctx'') = compile_children rest flags ctx' in
          (((codes "(" ++ sql ++ codes ")") ∷ parts, p ++ params), ctx'')

-- `match kept.len()`: none, the one, or all of them.
abbrev pub conjunction : Asts → Option Ast
conjunction nil = none
conjunction (cons a nil) = some a
conjunction (cons a (cons b rest)) = some (and (cons a (cons b rest)))

abbrev pub cons_kept : Option Ast → Asts → Asts
cons_kept none kept = kept
cons_kept (some a) kept = cons a kept

-- The query without its `order:` and `direction:`, which go to the context.
unfoldable mutual
  unfolding to_ascii_lowercase dir_of equal

  pub extract_modifiers : Ast → Ctx → Option Ast × Ctx
  extract_modifiers (comparison keyword op value) ctx =
      if equal keyword (codes "order")
      then (none, record ctx { order_by = some (to_ascii_lowercase value) })
      else if equal keyword (codes "direction")
      then (none, record ctx { order_dir = dir_of value })
      else (some (comparison keyword op value), ctx)
  extract_modifiers (and children) ctx =
      let (kept, ctx') = extract_children children ctx in (conjunction kept, ctx')
  extract_modifiers other ctx = (some other, ctx)

  pub extract_children : Asts → Ctx → Asts × Ctx
  extract_children nil ctx = (nil, ctx)
  extract_children (cons child rest) ctx =
      let (kept, ctx') = extract_modifiers child ctx in
      let (others, ctx'') = extract_children rest ctx' in (cons_kept kept others, ctx'')

pub record CompiledSearch (F : Type 0) : Type 0 where
  pub where_sql : Text
  pub params : List (Value F)
  pub has_status_filter : Bool
  pub catalog_wide : Bool
  pub order_by : Option Text
  pub order_dir : Dir

module _ {F : Type 0} where
  abbrev pub with_ctx : Compiled F → CompiledSearch F
  with_ctx ((sql, params), ctx) = record {
    where_sql = sql;
    params = params;
    has_status_filter = ctx.has_status_filter;
    catalog_wide = ctx.catalog_wide;
    order_by = ctx.order_by;
    order_dir = ctx.order_dir;
  }

  unfoldable pub compile_all : CompiledSearch F
  compile_all = with_ctx ((codes "1=1", []), no_ctx)

  unfoldable pub is_supported : CompiledSearch F → Bool
  unfolding contains
  is_supported c = not (contains (codes "1=0") c.where_sql)

  unfoldable pub set_catalog_wide : Bool → CompiledSearch F → CompiledSearch F
  set_catalog_wide on c = if on then record c { catalog_wide = true } else c

  abbrev pub override_by : Option Text → CompiledSearch F → CompiledSearch F
  override_by none c = c
  override_by (some s) c = record c { order_by = some (to_ascii_lowercase s) }

  abbrev pub override_dir : Option Text → CompiledSearch F → CompiledSearch F
  override_dir none c = c
  override_dir (some d) c = record c { order_dir = dir_of d }

  unfoldable pub override_order : Option Text → Option Text → CompiledSearch F → CompiledSearch F
  override_order sort dir c = override_dir dir (override_by sort c)

  module _ (parse_f64 : Text → Option F) where
    abbrev pub compile_stripped : Option Ast × Ctx → List SearchFlag → Compiled F
    compile_stripped (none, ctx) flags = ((codes "1=1", []), ctx)
    compile_stripped (some stripped, ctx) flags = compile_node parse_f64 stripped flags ctx

    unfoldable pub compile : Ast → List SearchFlag → CompiledSearch F
    unfolding extract_modifiers
    compile ast flags = with_ctx (compile_stripped (extract_modifiers ast no_ctx) flags)
