-- ===== src/Search/Fits/Seek.antt =====
-- crates/pkdump-db/src/search.rs: placeholders and values of the seek predicate.
use pokedumpster.Base.{
  Text, codes, ◌≤◌, ◌≡◌, refl, Option, some, List, [], ◌∷◌, ◌++◌, length, length-append, arith, All,
  All-append, unwrap_or, ◌||◌,
}
use pokedumpster.Search.Value.{
  Value, null, integer, real, text, blob, Frag, marks, marks-append, Fits, arms-cases, if-cases,
  ◌&◌,
}
use pokedumpster.Search.Sql.{market_price_expr, owned_count_subq}
use pokedumpster.Search.Flag.{Dir, asc, desc}
use pokedumpster.Search.Compile.{CompiledSearch}
use pokedumpster.Search.Order.{order_arms, order_sql, is_text, where_clause, sort_terms, order_keys}
use pokedumpster.Search.Seek.{
  tie, beyond, concat_params, texts, alternative, alternatives, chain, lead, seek_predicate,
}
use pokedumpster.Search.Fits.Tree.{all_marks, marks-join}

-- No expression of the keys has a placeholder.
abbrev pub ArePlain : List (Text × Dir) → Type 0
ArePlain = All λ key. marks key.0 ≡ 0

order_sql-plain : (by : Option Text) → marks (order_sql by) ≡ 0
unfolding order_sql marks market_price_expr owned_count_subq
order_sql-plain by =
    arms-cases (λ s. marks s ≡ 0) order_arms (codes "cd.name") (unwrap_or by (codes "name"))
      (refl & refl & refl & refl & refl & refl & refl & refl & refl & refl & refl & refl & tt) refl

module _ {F : Type 0} where
  pub order_keys-ArePlain : (c : CompiledSearch F) → ArePlain (order_keys c)
  unfolding order_keys marks
  order_keys-ArePlain c =
      All-append (λ key. marks key.0 ≡ 0) (sort_terms c)
        ((codes "cd.number_sortable", asc) ∷ (codes "p.printing_id", asc) ∷ [])
        (if-cases ArePlain (is_text (codes "set") c.order_by) (refl & refl & tt)
          (order_sql-plain c.order_by & tt))
        (refl & refl & tt)

  pub where_clause-marks : (c : CompiledSearch F) → marks (where_clause c) ≡ marks c.where_sql
  unfolding where_clause marks
  where_clause-marks c =
      if-cases (λ s. marks s ≡ marks c.where_sql) (c.catalog_wide || c.has_status_filter) refl
        (rw (marks-append, marks-append) (omega arith))

  tie-Fits : (expr : Text) (v : Value F) → marks expr ≡ 0 → Fits (tie expr v)
  unfolding Fits marks
  tie-Fits expr null h = simp (marks-append, h)
  tie-Fits expr (integer n) h = simp (marks-append, h)
  tie-Fits expr (real x) h = simp (marks-append, h)
  tie-Fits expr (text s) h = simp (marks-append, h)
  tie-Fits expr (blob b) h = simp (marks-append, h)

  beyond-Fits : (expr : Text) (dir : Dir) (v : Value F) → marks expr ≡ 0 → Fits (beyond expr dir v)
  unfolding Fits marks
  beyond-Fits expr asc null h = simp (marks-append, h)
  beyond-Fits expr desc null h = refl
  beyond-Fits expr asc (integer n) h = simp (marks-append, h)
  beyond-Fits expr asc (real x) h = simp (marks-append, h)
  beyond-Fits expr asc (text s) h = simp (marks-append, h)
  beyond-Fits expr asc (blob b) h = simp (marks-append, h)
  beyond-Fits expr desc (integer n) h = simp (marks-append, h)
  beyond-Fits expr desc (real x) h = simp (marks-append, h)
  beyond-Fits expr desc (text s) h = simp (marks-append, h)
  beyond-Fits expr desc (blob b) h = simp (marks-append, h)

  texts-Fits : (fs : List (Frag F)) → All Fits fs → all_marks (texts fs) ≡ length (concat_params fs)
  unfolding Fits texts concat_params
  texts-Fits [] h = refl
  texts-Fits ((s, p) ∷ fs) h = rw length-append (omega (arith, h.0, texts-Fits fs h.1))

  alternative-Fits : (fs : List (Frag F)) → All Fits fs → Fits (alternative fs)
  unfolding alternative Fits marks
  alternative-Fits fs h =
      rw (marks-append, marks-append, marks-join (codes " AND ") (texts fs) refl)
        (omega (arith, texts-Fits fs h))

  chain-Fits : (fs : List (Frag F)) → All Fits fs → Fits (chain fs)
  unfolding chain Fits marks
  chain-Fits fs h =
      rw (marks-append, marks-append, marks-join (codes " OR ") (texts fs) refl)
        (omega (arith, texts-Fits fs h))

  -- The loops stay in range, and each alternative has its values.
  alternatives-Fits :
      (ties : List (Frag F)) (keys : List (Text × Dir)) (after : List (Value F))
      → All Fits ties
      → ArePlain keys
      → length after ≡ length keys
      → (alts : List (Frag F)) × (alternatives ties keys after ≡ some alts) × All Fits alts
  unfolding alternatives
  alternatives-Fits ties [] after t p h = ([], refl, tt)
  alternatives-Fits ties (key ∷ keys) [] t p h = absurd (omega arith)
  alternatives-Fits ties ((expr, dir) ∷ keys) (v ∷ after) t p h =
      let (alts, e, fits) =
        alternatives-Fits (ties ++ tie expr v ∷ []) keys after
          (All-append Fits ties (tie expr v ∷ []) t (tie-Fits expr v p.0, tt)) p.1 (omega arith) in
      (
        alternative (ties ++ beyond expr dir v ∷ []) ∷ alts,
        rw e refl,
        (
          alternative-Fits (ties ++ beyond expr dir v ∷ [])
              (All-append Fits ties (beyond expr dir v ∷ []) t (beyond-Fits expr dir v p.0, tt)),
          fits,
        ),
      )

  lead-Fits :
      (expr : Text) (dir : Dir) (v : Value F) (f : Frag F)
      → marks expr ≡ 0
      → Fits f
      → Fits (lead expr dir v f)
  unfolding lead Fits marks
  lead-Fits expr asc null (s, p) h fits = fits
  lead-Fits expr desc null (s, p) h fits = fits
  lead-Fits expr asc (integer n) (s, p) h fits =
      rw (marks-append, marks-append, h) (omega (arith, fits))
  lead-Fits expr asc (real x) (s, p) h fits =
      rw (marks-append, marks-append, h) (omega (arith, fits))
  lead-Fits expr asc (text t) (s, p) h fits =
      rw (marks-append, marks-append, h) (omega (arith, fits))
  lead-Fits expr asc (blob b) (s, p) h fits =
      rw (marks-append, marks-append, h) (omega (arith, fits))
  lead-Fits expr desc (integer n) (s, p) h fits = fits
  lead-Fits expr desc (real x) (s, p) h fits = fits
  lead-Fits expr desc (text t) (s, p) h fits = fits
  lead-Fits expr desc (blob b) (s, p) h fits = fits

  -- For a cursor with a value for each of the keys, one at least.
  pub seek_predicate-Fits :
      (keys : List (Text × Dir)) (after : List (Value F))
      → ArePlain keys
      → length after ≡ length keys
      → 1 ≤ length keys
      → (f : Frag F) × (seek_predicate keys after ≡ some f) × Fits f
  unfolding seek_predicate
  seek_predicate-Fits [] after p h n = absurd (omega arith)
  seek_predicate-Fits (key ∷ keys) [] p h n = absurd (omega arith)
  seek_predicate-Fits ((expr, dir) ∷ keys) (v ∷ after) p h n =
      let (alts, e, fits) = alternatives-Fits [] ((expr, dir) ∷ keys) (v ∷ after) tt p h in
      (
        lead expr dir v (chain alts),
        rw e refl,
        lead-Fits expr dir v (chain alts) p.0 (chain-Fits alts fits),
      )

  pub order_keys-pos : (c : CompiledSearch F) → 1 ≤ length (order_keys c)
  unfolding order_keys
  order_keys-pos c = rw length-append (omega arith)
