-- ===== src/Query/Parser/Complete.antt =====
-- Every phrase of the grammar is read by the parser.
use pokedumpster.Base.{ℕ, zero, suc, ◌+◌, ◌*◌, ◌≤◌, ◌<◌, ◌≡◌, refl, [], ◌∷◌, arith, length}
use pokedumpster.Query.Ast.{Ast, Asts}
use pokedumpster.Query.Lexer.{Tokens}
use pokedumpster.Query.Outcome.{ok}
use pokedumpster.Query.Parser.{
  join_and, skip, close_group, parse_comparison, parse_or, or_loop, parse_and, and_loop, parse_atom,
  Parsed,
}
use pokedumpster.Query.Parser.Grammar.{
  IsAtom, IsAndTail, IsAnd, IsOrTail, IsOr, negated, group, exact, bare, lone_value, compares,
  and_end, and_word, and_atom, and_of, or_end, or_word, or_of,
}
use pokedumpster.Query.Parser.Sound.{is_word-true}
use pokedumpster.Query.Registry.{KeywordRegistry}

length-skip : (ts : Tokens) → length (skip ts) ≤ length ts
length-skip [] = omega arith
length-skip (t ∷ ts) = omega arith

module _ {g : KeywordRegistry} where
  mutual
    length-IsAtom : {ts r : Tokens} {a : Ast} → IsAtom g ts a r → length r < length ts
    length-IsAtom (negated d) = omega (arith, length-IsAtom d)
    length-IsAtom (group d) = omega (arith, length-IsOr d)
    length-IsAtom exact = omega arith
    length-IsAtom bare = omega arith
    length-IsAtom lone_value = omega arith
    length-IsAtom (compares op e) = omega arith

    length-IsAndTail :
        {cs ds : Asts} {ts r : Tokens} → IsAndTail g cs ts ds r → length r ≤ length ts
    length-IsAndTail (and_end e) = omega arith
    length-IsAndTail (and_word {ts = ts} e e' d) = omega (arith, length-IsAndTail d, length-skip ts)
    length-IsAndTail (and_atom e e' d t) = omega (arith, length-IsAtom d, length-IsAndTail t)

    length-IsAnd : {ts r : Tokens} {a : Ast} → IsAnd g ts a r → length r < length ts
    length-IsAnd (and_of d t e) = omega (arith, length-IsAtom d, length-IsAndTail t)

    length-IsOrTail : {ts r : Tokens} {a b : Ast} → IsOrTail g a ts b r → length r ≤ length ts
    length-IsOrTail (or_end e) = omega arith
    length-IsOrTail (or_word {ts = ts} e d t) =
        omega (arith, length-IsAnd d, length-IsOrTail t, length-skip ts)

    pub length-IsOr : {ts r : Tokens} {a : Ast} → IsOr g ts a r → length r < length ts
    length-IsOr (or_of d t) = omega (arith, length-IsAnd d, length-IsOrTail t)

-- Fuel at or above a positive bound is a successor.
spend {ℓ} : (n : ℕ) (P : ℕ → Type ℓ) → ((f : ℕ) → n ≤ f → P (suc f)) → (f : ℕ) → suc n ≤ f → P f
spend n P k zero h = absurd (omega arith)
spend n P k (suc f) h = k f (omega arith)

-- With fuel above `n`, `run` returns `a` and leaves `r`.
abbrev Returns : (ℕ → Parsed) → ℕ → Ast → Tokens → Type 0
Returns run n a r = (f : ℕ) → suc n ≤ f → run f ≡ ok (a, r)

module _ {g : KeywordRegistry} (eof : ℕ) where
  mutual
    unfolding parse_or parse_comparison close_group

    atom-Returns :
        {ts r : Tokens} {a : Ast}
        → IsAtom g ts a r
        → Returns (λ f. parse_atom g eof f ts) (4 * length ts) a r
    atom-Returns (negated d) = spend _ _ λ f h. rw (atom-Returns d f (omega arith))
    atom-Returns (group d) = spend _ _ λ f h. rw (or-Returns d f (omega arith))
    atom-Returns exact = spend _ _ λ f h. refl
    atom-Returns bare = spend _ _ λ f h. refl
    atom-Returns lone_value = spend _ _ λ f h. refl
    atom-Returns (compares op e) = spend _ _ λ f h. rw e

    and_loop-Returns :
        {cs ds : Asts} {ts r : Tokens}
        → IsAndTail g cs ts ds r
        → Returns (λ f. and_loop g eof f cs ts) (4 * length ts + 1) (join_and ds) r
    and_loop-Returns (and_end e) = spend _ _ λ f h. rw e
    and_loop-Returns (and_word {ts = ts} e e' d) =
        spend _ _ λ f h. rw (e, e') (and_loop-Returns d f (omega (arith, is_word-true _ ts e')))
    and_loop-Returns (and_atom e e' d t) = spend _ _ λ f h.
        rw (e, e', atom-Returns d f (omega arith))
          (and_loop-Returns t f (omega (arith, length-IsAtom d)))

    and-Returns :
        {ts r : Tokens} {a : Ast}
        → IsAnd g ts a r
        → Returns (λ f. parse_and g eof f ts) (4 * length ts + 1) a r
    and-Returns (and_of d t e) = spend _ _ λ f h.
        rw (e, atom-Returns d f (omega arith))
          (and_loop-Returns t f (omega (arith, length-IsAtom d)))

    or_loop-Returns :
        {a b : Ast} {ts r : Tokens}
        → IsOrTail g a ts b r
        → Returns (λ f. or_loop g eof f a ts) (4 * length ts) b r
    or_loop-Returns (or_end e) = spend _ _ λ f h. rw e
    or_loop-Returns (or_word {ts = ts} e d t) = spend _ _ λ f h.
        let l : length ts ≡ suc (length (skip ts)) = is_word-true _ ts e in
        rw (e, and-Returns d f (omega arith)) (or_loop-Returns t f (omega (arith, length-IsAnd d)))

    pub or-Returns :
        {ts r : Tokens} {a : Ast}
        → IsOr g ts a r
        → Returns (λ f. parse_or g eof f ts) (4 * length ts + 2) a r
    or-Returns (or_of d t) = spend _ _ λ f h.
        rw (and-Returns d f (omega arith)) (or_loop-Returns t f (omega (arith, length-IsAnd d)))
