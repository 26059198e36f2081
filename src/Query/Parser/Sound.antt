-- ===== src/Query/Parser/Sound.antt =====
-- What the parser returns is a phrase of the grammar, its fuel suffices, and an error stands
-- inside the query.
use pokedumpster.Base.{
  Text, codes, ℕ, zero, suc, ◌+◌, ◌*◌, ◌≤◌, ◌<◌, ◌≡◌, refl, true, false, [], ◌∷◌, arith, length,
  All, Option-cases, inl, inr,
}
use pokedumpster.Query.Ast.{Op, Ast, Asts, nil, cons, push}
use pokedumpster.Query.Lexer.{Tok, lparen, rparen, negate, keyword, value, word, Token, Tokens}
use pokedumpster.Query.Outcome.{
  QueryError, Ensures, holds, rejected, Ensures-bind, Ensures-map, Ensures-if,
}
use pokedumpster.Query.Parser.{
  is_word, ends_and, join_or, join_and, skip, close_group, parse_comparison, parse_or, or_loop,
  parse_and, and_loop, parse_atom,
}
use pokedumpster.Query.Parser.Grammar.{
  IsAtom, IsAndTail, IsAnd, IsOrTail, IsOr, negated, group, exact, bare, lone_value, compares,
  and_end, and_word, and_atom, and_of, or_end, or_word, or_of,
}
use pokedumpster.Query.Registry.{KeywordRegistry, resolve}

-- Every token starts at or before the end of the query.
abbrev pub IsWithin : ℕ → Tokens → Type 0
IsWithin eof ts = All (λ (t : Token). t.1 ≤ eof) ts

abbrev pub IsPlaced : ℕ → QueryError → Type 0
IsPlaced eof e = e.position ≤ eof

ends_and-false : (ts : Tokens) → ends_and ts ≡ false → 1 ≤ length ts
unfolding ends_and
ends_and-false [] h = cc
ends_and-false (t ∷ ts) h = omega arith

pub is_word-true :
    (kw : Text) (ts : Tokens) → is_word kw ts ≡ true → length ts ≡ suc (length (skip ts))
unfolding is_word
is_word-true kw [] h = cc
is_word-true kw (t ∷ ts) h = refl

skip-IsWithin : (eof : ℕ) (ts : Tokens) → IsWithin eof ts → IsWithin eof (skip ts)
skip-IsWithin eof [] h = h
skip-IsWithin eof (t ∷ ts) h = h.1

module _ (g : KeywordRegistry) (eof : ℕ) where
  -- The value is a phrase read off `ts`, and what is left is in the query and shorter than `n`.
  abbrev Reads : ℕ → (Ast → Tokens → Type 0) → Ast × Tokens → Type 0
  Reads n P (a, r) = P a r × (length r < n) × IsWithin eof r

  comparison-Ensures :
      (raw : Text) (op : Op) (p : ℕ) (ts : Tokens)
      → p ≤ eof
      → IsWithin eof ts
      → Ensures
          (Reads (suc (length ts)) (IsAtom g ((keyword raw op, p) ∷ ts)))
          (IsPlaced eof)
          (parse_comparison g raw op p ts)
  unfolding parse_comparison
  comparison-Ensures raw op p ((value v, q) ∷ ts) hp hw = elim (Option-cases (resolve g raw)) [
    | inl e ↦ rw e (rejected hp)
    | inr (k, e) ↦ rw e (holds (compares op e, omega arith, hw.1))
  ]
  comparison-Ensures raw op p _ hp hw = rejected hp

  close_group-Ensures :
      (p n : ℕ) (ts : Tokens) (r : Ast × Tokens)
      → p ≤ eof
      → Reads n (IsOr g ts) r
      → Ensures (Reads n (IsAtom g ((lparen, p) ∷ ts))) (IsPlaced eof) (close_group p r)
  unfolding close_group
  close_group-Ensures p n ts (a, (rparen, q) ∷ r) hp h =
      holds (group h.0, omega (arith, h.1), h.2.1)
  close_group-Ensures p n ts (a, _) hp h = rejected hp

  mutual
    unfolding parse_or

    pub IsAtom-Ensures :
        (f : ℕ) (ts : Tokens)
        → 4 * length ts + 1 ≤ f
        → IsWithin eof ts
        → Ensures (Reads (length ts) (IsAtom g ts)) (IsPlaced eof) (parse_atom g eof f ts)
    IsAtom-Ensures zero ts h w = absurd (omega arith)
    IsAtom-Ensures (suc f) [] h w = rejected (omega arith)
    IsAtom-Ensures (suc f) ((negate, p) ∷ ts) h w =
        Ensures-bind (IsAtom-Ensures f ts (omega arith) w.1)
          λ (a, r) (d, l, w'). holds (negated d, omega arith, w')
    IsAtom-Ensures (suc f) ((lparen, p) ∷ ts) h w =
        Ensures-bind (IsOr-Ensures f ts (omega arith) w.1)
          λ (a, r) (d, l, w'). close_group-Ensures p _ ts (a, r) w.0 (d, omega arith, w')
    IsAtom-Ensures (suc f) ((Tok.exact_name n, p) ∷ ts) h w = holds (exact, omega arith, w.1)
    IsAtom-Ensures (suc f) ((keyword raw op, p) ∷ ts) h w = comparison-Ensures raw op p ts w.0 w.1
    IsAtom-Ensures (suc f) ((word n, p) ∷ ts) h w = holds (bare, omega arith, w.1)
    IsAtom-Ensures (suc f) ((value v, p) ∷ ts) h w = holds (lone_value, omega arith, w.1)
    IsAtom-Ensures (suc f) ((rparen, p) ∷ ts) h w = rejected w.0

    IsAnd-Ensures :
        (f : ℕ) (ts : Tokens)
        → 4 * length ts + 2 ≤ f
        → IsWithin eof ts
        → Ensures (Reads (length ts) (IsAnd g ts)) (IsPlaced eof) (parse_and g eof f ts)
    IsAnd-Ensures zero ts h w = absurd (omega arith)
    IsAnd-Ensures (suc f) ts h w =
        Ensures-bind (IsAtom-Ensures f ts (omega arith) w) λ (a, m) (d, l, w').
          Ensures-map (IsAndTail-Ensures f (cons a nil) m (omega arith) w')
            λ (b, r) ((ds, q, t), l', w''). (and_of d t q, omega arith, w'')

    IsAndTail-Ensures :
        (f : ℕ) (cs : Asts) (ts : Tokens)
        → 4 * length ts + 2 ≤ f
        → IsWithin eof ts
        → Ensures
            (Reads
              (suc (length ts))
              (λ b r. (ds : Asts) × (b ≡ join_and ds) × IsAndTail g cs ts ds r))
            (IsPlaced eof)
            (and_loop g eof f cs ts)
    IsAndTail-Ensures zero cs ts h w = absurd (omega arith)
    IsAndTail-Ensures (suc f) cs ts h w =
        Ensures-if (ends_and ts) (λ e. holds ((cs, refl, and_end e), omega arith, w))
          λ e.
            Ensures-if (is_word (codes "and") ts)
              (λ e'.
                let l : length ts ≡ suc (length (skip ts)) = is_word-true _ ts e' in
                Ensures-map
                  (IsAndTail-Ensures f cs (skip ts) (omega arith) (skip-IsWithin eof ts w))
                  λ (b, r) ((ds, q, d), l', w'). ((ds, q, and_word e e' d), omega arith, w'))
              λ e'. Ensures-bind (IsAtom-Ensures f ts (omega arith) w) λ (a, m) (d, l, w').
                Ensures-map (IsAndTail-Ensures f (push cs a) m (omega arith) w')
                  λ (b, r) ((ds, q, t), l', w''). ((ds, q, and_atom e e' d t), omega arith, w'')

    IsOrTail-Ensures :
        (f : ℕ) (a : Ast) (ts : Tokens)
        → 4 * length ts + 1 ≤ f
        → IsWithin eof ts
        → Ensures (Reads (suc (length ts)) (IsOrTail g a ts)) (IsPlaced eof) (or_loop g eof f a ts)
    IsOrTail-Ensures zero a ts h w = absurd (omega arith)
    IsOrTail-Ensures (suc f) a ts h w =
        Ensures-if (is_word (codes "or") ts)
          (λ e.
            let l : length ts ≡ suc (length (skip ts)) = is_word-true _ ts e in
            Ensures-bind (IsAnd-Ensures f (skip ts) (omega arith) (skip-IsWithin eof ts w))
              λ (b, m) (d, l', w').
                Ensures-map (IsOrTail-Ensures f (join_or a b) m (omega arith) w')
                  λ (c, r) (t, l'', w''). (or_word e d t, omega arith, w''))
          λ e. holds (or_end e, omega arith, w)

    pub IsOr-Ensures :
        (f : ℕ) (ts : Tokens)
        → 4 * length ts + 3 ≤ f
        → IsWithin eof ts
        → Ensures (Reads (length ts) (IsOr g ts)) (IsPlaced eof) (parse_or g eof f ts)
    IsOr-Ensures zero ts h w = absurd (omega arith)
    IsOr-Ensures (suc f) ts h w =
        Ensures-bind (IsAnd-Ensures f ts (omega arith) w) λ (a, m) (d, l, w').
          Ensures-map (IsOrTail-Ensures f a m (omega arith) w')
            λ (b, r) (t, l', w''). (or_of d t, omega arith, w'')
