-- ===== src/Query/Parser/Grammar.antt =====
-- The grammar of crates/pkdump-core/src/query/parser.rs as a relation: a phrase is read off the
-- front of `ts` as the tree `a`, and leaves `r`. No fuel and no order of evaluation is in it.
use pokedumpster.Base.{Text, codes, ℕ, ◌≡◌, true, false, some, ◌∷◌}
use pokedumpster.Query.Ast.{
  Ast, Asts, and, or, not, comparison, name_search, exact_name, nil, cons, push,
}
use pokedumpster.Query.Lexer.{Tok, lparen, rparen, negate, keyword, value, word, Tokens}
use pokedumpster.Query.Parser.{is_word, ends_and, join_or, join_and, skip}
use pokedumpster.Query.Registry.{KeywordRegistry, resolve}

mutual
  -- An atom: a negated atom, a group, a comparison with a known keyword, or a name.
  pub data IsAtom (g : KeywordRegistry) : Tokens → Ast → Tokens → Type 0 where
    negated :
        {p : ℕ} {ts r : Tokens} {a : Ast} → IsAtom g ts a r → IsAtom g ((negate, p) ∷ ts) (not a) r
    group :
        {p q : ℕ} {ts r : Tokens} {a : Ast}
        → IsOr g ts a ((rparen, q) ∷ r)
        → IsAtom g ((lparen, p) ∷ ts) a r
    exact : {p : ℕ} {n : Text} {r : Tokens} → IsAtom g ((Tok.exact_name n, p) ∷ r) (exact_name n) r
    bare : {p : ℕ} {w : Text} {r : Tokens} → IsAtom g ((word w, p) ∷ r) (name_search w) r
    lone_value : {p : ℕ} {v : Text} {r : Tokens} → IsAtom g ((value v, p) ∷ r) (name_search v) r
    compares :
        {p q : ℕ} {raw canonical v : Text} {r : Tokens} (op : pokedumpster.Query.Ast.Op)
        → resolve g raw ≡ some canonical
        → IsAtom g ((keyword raw op, p) ∷ (value v, q) ∷ r) (comparison canonical op v) r

  -- What follows the first atoms of a conjunction: the children so far, and all of them.
  pub data IsAndTail (g : KeywordRegistry) : Asts → Tokens → Asts → Tokens → Type 0 where
    and_end : {cs : Asts} {ts : Tokens} → ends_and ts ≡ true → IsAndTail g cs ts cs ts
    and_word :
        {cs ds : Asts} {ts r : Tokens}
        → ends_and ts ≡ false
        → is_word (codes "and") ts ≡ true
        → IsAndTail g cs (skip ts) ds r
        → IsAndTail g cs ts ds r
    and_atom :
        {cs ds : Asts} {ts m r : Tokens} {a : Ast}
        → ends_and ts ≡ false
        → is_word (codes "and") ts ≡ false
        → IsAtom g ts a m
        → IsAndTail g (push cs a) m ds r
        → IsAndTail g cs ts ds r

  -- A conjunction: adjacent atoms, with words `and` between them or not.
  pub data IsAnd (g : KeywordRegistry) : Tokens → Ast → Tokens → Type 0 where
    and_of :
        {ts m r : Tokens} {a b : Ast} {cs : Asts}
        → IsAtom g ts a m
        → IsAndTail g (cons a nil) m cs r
        → b ≡ join_and cs
        → IsAnd g ts b r

  -- What follows the first conjunctions of a disjunction: the tree so far, and the whole tree.
  pub data IsOrTail (g : KeywordRegistry) : Ast → Tokens → Ast → Tokens → Type 0 where
    or_end : {a : Ast} {ts : Tokens} → is_word (codes "or") ts ≡ false → IsOrTail g a ts a ts
    or_word :
        {a b c : Ast} {ts m r : Tokens}
        → is_word (codes "or") ts ≡ true
        → IsAnd g (skip ts) b m
        → IsOrTail g (join_or a b) m c r
        → IsOrTail g a ts c r

  -- A disjunction: conjunctions with the word `or` between them.
  pub data IsOr (g : KeywordRegistry) : Tokens → Ast → Tokens → Type 0 where
    or_of : {ts m r : Tokens} {a b : Ast} → IsAnd g ts a m → IsOrTail g a m b r → IsOr g ts b r
