-- ===== src/Search/Fits/Statement.antt =====
-- crates/pkdump-db/src/search.rs: placeholders and values of the row query.
use pokedumpster.Base.{
  Text, codes, ℕ, zero, suc, ◌+◌, ◌≡◌, refl, Option, none, some, List, [], ◌∷◌, ◌++◌, length,
  length-append, append-nil, arith, ltb, ◌/◌, ◌%◌, ◌<◌, Bool-cases, inl, inr,
}
use pokedumpster.Search.Value.{Frag, marks, marks-append, Fits}
use pokedumpster.Search.Sql.{market_price_expr, owned_count_subq, attack_costs_expr, from_clause}
use pokedumpster.Query.Ast.{Ast}
use pokedumpster.Search.Flag.{Dir, asc, desc, SearchFlag}
use pokedumpster.Search.Compile.{CompiledSearch, compile}
use pokedumpster.Search.Order.{order_keys, sql}
use pokedumpster.Search.Statement.{
  Bound, unbounded, offset, keyset, digits, order_terms, key_cols, row_sql, seek_sql, build_sql,
}
use pokedumpster.Search.Fits.Tree.{all_marks, marks-join, compile-Fits}
use pokedumpster.Search.Fits.Seek.{
  ArePlain, order_keys-ArePlain, where_clause-marks, seek_predicate-Fits, order_keys-pos,
}

marks-digit : (d : ℕ) → d < 10 → marks ((b'0' + d) ∷ []) ≡ 0
unfolding marks
marks-digit d h = ground arith

marks-digits : (fuel n : ℕ) → marks (digits fuel n) ≡ 0
unfolding digits marks
marks-digits zero n = refl
marks-digits (suc fuel) n = elim (Bool-cases (ltb n 10)) [
  | inl small ↦ rw small (marks-digit n (ground arith))
  | inr large ↦
      rw (large, marks-append)
        (omega (arith, marks-digits fuel (n / 10), marks-digit (n % 10) (omega arith)))
]

key_cols-plain : (i : ℕ) (keys : List (Text × Dir)) → ArePlain keys → marks (key_cols i keys) ≡ 0
unfolding key_cols marks
key_cols-plain i [] p = refl
key_cols-plain i ((expr, dir) ∷ keys) p =
    rw (marks-append, marks-append, marks-append, marks-append, p.0, marks-digits (suc i) i)
      (omega (arith, key_cols-plain (suc i) keys p.1))

order_terms-plain : (keys : List (Text × Dir)) → ArePlain keys → all_marks (order_terms keys) ≡ 0
unfolding order_terms marks sql
order_terms-plain [] p = refl
order_terms-plain ((expr, asc) ∷ keys) p =
    rw (marks-append, marks-append, p.0) (omega (arith, order_terms-plain keys p.1))
order_terms-plain ((expr, desc) ∷ keys) p =
    rw (marks-append, marks-append, p.0) (omega (arith, order_terms-plain keys p.1))

module _ {F : Type 0} where
  row_sql-marks :
      (c : CompiledSearch F) (cols where_text paging : Text)
      → marks (row_sql c cols where_text paging) ≡ marks cols + marks where_text + marks paging
  unfolding marks market_price_expr owned_count_subq attack_costs_expr from_clause
  row_sql-marks c cols where_text paging =
      simp
        (
          marks-append,
          marks-join (codes ", ") (order_terms (order_keys c)) refl,
          order_terms-plain (order_keys c) (order_keys-ArePlain c),
        )
        (omega arith)

  -- What a bound asks of the cursor's values.
  abbrev pub IsFor : CompiledSearch F → Bound F → Type 0
  IsFor c (keyset (some after)) = length after ≡ length (order_keys c)
  IsFor c _ = Unit

  seek_sql-Fits :
      (c : CompiledSearch F) (limit : ℕ) (f : Frag F)
      → Fits (c.where_sql, c.params)
      → Fits f
      → (g : Frag F) × (seek_sql c limit (some f) ≡ some g) × Fits (g.0, c.params ++ g.1)
  unfolding Fits marks
  seek_sql-Fits c limit (pred, params) h fits = (
    _,
    refl,
    rw
        (
          row_sql-marks c,
          marks-append,
          marks-append,
          marks-append,
          where_clause-marks c,
          length-append,
          length-append,
          key_cols-plain 0 (order_keys c) (order_keys-ArePlain c),
        )
        (omega (arith, h, fits)),
  )

  -- The row query is built for every bound that has a value for each sort key if it has any, and has as
  -- many placeholders as bound values: those of the query, then the seek's, then the paging's.
  pub build_sql-Fits :
      (c : CompiledSearch F) (bound : Bound F) (limit : ℕ)
      → Fits (c.where_sql, c.params)
      → IsFor c bound
      → (f : Frag F) × (build_sql c bound limit ≡ some f) × Fits (f.0, c.params ++ f.1)
  unfolding build_sql Fits marks
  build_sql-Fits c unbounded limit h b =
      (_, refl, rw (row_sql-marks c, where_clause-marks c, append-nil) (omega (arith, h)))
  build_sql-Fits c (offset n) limit h b =
      (_, refl, rw (row_sql-marks c, where_clause-marks c, length-append) (omega (arith, h)))
  build_sql-Fits c (keyset none) limit h b = (
    _,
    refl,
    rw
        (
          row_sql-marks c,
          where_clause-marks c,
          length-append,
          key_cols-plain 0 (order_keys c) (order_keys-ArePlain c),
        )
        (omega (arith, h)),
  )
  build_sql-Fits c (keyset (some after)) limit h b =
      let (f, e, fits) =
        seek_predicate-Fits (order_keys c) after (order_keys-ArePlain c) b (order_keys-pos c) in
      rw e (seek_sql-Fits c limit f h fits)

module _ {F : Type 0} (parse_f64 : Text → Option F) where
  -- For every query and sort, and every bound whose cursor, if it has one, has a value for each sort key,
  -- the row query is built without an index out of range, and has as many placeholders as bound values.
  pub build_sql-compile :
      (ast : Ast) (flags : List SearchFlag) (bound : Bound F) (limit : ℕ)
      → IsFor (compile parse_f64 ast flags) bound
      → (f : Frag F) × (build_sql (compile parse_f64 ast flags) bound limit ≡ some f)
        × (marks f.0 ≡ length ((compile parse_f64 ast flags).params ++ f.1))
  unfolding Fits
  build_sql-compile ast flags bound limit h =
      build_sql-Fits (compile parse_f64 ast flags) bound limit (compile-Fits parse_f64 ast flags) h
