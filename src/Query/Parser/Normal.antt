-- ===== src/Query/Parser/Normal.antt =====
-- The shape of the trees that crates/pkdump-core/src/query/parser.rs builds.
use pokedumpster.Base.{Text, suc, ◌≤◌, ◌≡◌, refl, Bool, true, false, some, ◌∙◌, arith}
use pokedumpster.Query.Ast.{
  Op, Ast, Asts, and, or, not, comparison, name_search, exact_name, nil, cons, push, len,
}
use pokedumpster.Query.Lexer.{Tokens}
use pokedumpster.Query.Parser.{join_or, join_and}
use pokedumpster.Query.Parser.Grammar.{
  IsAtom, IsAndTail, IsAnd, IsOrTail, IsOr, negated, group, exact, bare, lone_value, compares,
  and_end, and_word, and_atom, and_of, or_end, or_word, or_of,
}
use pokedumpster.Query.Registry.{KeywordRegistry, resolve}

-- Whether the first tree is a disjunction.
abbrev pub is_or : Ast → Bool
is_or (or cs) = true
is_or _ = false

abbrev pub leads_with_or : Asts → Bool
leads_with_or nil = false
leads_with_or (cons a rest) = is_or a

-- Conjunctions and disjunctions join two trees at least, a disjunction does not begin with one, and
-- every keyword is one that the registry resolves to.
mutual
  pub data IsNormal (g : KeywordRegistry) : Ast → Type 0 where
    and_normal : {cs : Asts} → 2 ≤ len cs → AllNormal g cs → IsNormal g (and cs)
    or_normal :
        {cs : Asts} → 2 ≤ len cs → leads_with_or cs ≡ false → AllNormal g cs → IsNormal g (or cs)
    not_normal : {a : Ast} → IsNormal g a → IsNormal g (not a)
    comparison_normal :
        {k v : Text} {op : Op} (raw : Text)
        → resolve g raw ≡ some k
        → IsNormal g (comparison k op v)
    name_normal : {w : Text} → IsNormal g (name_search w)
    exact_normal : {n : Text} → IsNormal g (exact_name n)

  pub data AllNormal (g : KeywordRegistry) : Asts → Type 0 where
    none_normal : AllNormal g nil
    more_normal : {a : Ast} {cs : Asts} → IsNormal g a → AllNormal g cs → AllNormal g (cons a cs)

len-push : (cs : Asts) (a : Ast) → len (push cs a) ≡ suc (len cs)
unfolding push len
len-push nil a = refl
len-push (cons c cs) a = omega (arith, len-push cs a)

leads-push : (cs : Asts) (a : Ast) → 1 ≤ len cs → leads_with_or (push cs a) ≡ leads_with_or cs
unfolding push len
leads-push nil a h = absurd (omega arith)
leads-push (cons c cs) a h = refl

module _ {g : KeywordRegistry} where
  push-AllNormal : {cs : Asts} {a : Ast} → AllNormal g cs → IsNormal g a → AllNormal g (push cs a)
  unfolding push
  push-AllNormal none_normal h = more_normal h none_normal
  push-AllNormal (more_normal k ks) h = more_normal k (push-AllNormal ks h)

  join_and-IsNormal : {cs : Asts} → 1 ≤ len cs → AllNormal g cs → IsNormal g (join_and cs)
  unfolding join_and len
  join_and-IsNormal h none_normal = absurd (omega arith)
  join_and-IsNormal h (more_normal k none_normal) = k
  join_and-IsNormal h (more_normal k (more_normal l ks)) =
      and_normal (omega arith) (more_normal k (more_normal l ks))

  two-IsNormal :
      {a b : Ast}
      → is_or a ≡ false
      → IsNormal g a
      → IsNormal g b
      → IsNormal g (or (cons a (cons b nil)))
  unfolding len
  two-IsNormal e h k = or_normal (omega arith) e (more_normal h (more_normal k none_normal))

  join_or-IsNormal : {a b : Ast} → IsNormal g a → IsNormal g b → IsNormal g (join_or a b)
  unfolding join_or
  join_or-IsNormal (or_normal {cs = cs} n l ks) k =
      or_normal (omega (arith, len-push)) (leads-push cs _ (omega arith) ∙ l) (push-AllNormal ks k)
  join_or-IsNormal (and_normal n ks) k = two-IsNormal refl (and_normal n ks) k
  join_or-IsNormal (not_normal h) k = two-IsNormal refl (not_normal h) k
  join_or-IsNormal (comparison_normal r e) k = two-IsNormal refl (comparison_normal r e) k
  join_or-IsNormal name_normal k = two-IsNormal refl name_normal k
  join_or-IsNormal exact_normal k = two-IsNormal refl exact_normal k

  mutual
    unfolding len

    atom-IsNormal : {ts r : Tokens} {a : Ast} → IsAtom g ts a r → IsNormal g a
    atom-IsNormal (negated d) = not_normal (atom-IsNormal d)
    atom-IsNormal (group d) = or-IsNormal d
    atom-IsNormal exact = exact_normal
    atom-IsNormal bare = name_normal
    atom-IsNormal lone_value = name_normal
    atom-IsNormal (compares {raw = raw} op e) = comparison_normal raw e

    and_tail-AllNormal :
        {cs ds : Asts} {ts r : Tokens}
        → IsAndTail g cs ts ds r
        → 1 ≤ len cs
        → AllNormal g cs
        → AllNormal g ds × (1 ≤ len ds)
    and_tail-AllNormal (and_end e) n h = (h, n)
    and_tail-AllNormal (and_word e e' d) n h = and_tail-AllNormal d n h
    and_tail-AllNormal (and_atom {cs = cs} {a = a} e e' d t) n h =
        and_tail-AllNormal t (omega (arith, len-push cs a)) (push-AllNormal h (atom-IsNormal d))

    and-IsNormal : {ts r : Tokens} {a : Ast} → IsAnd g ts a r → IsNormal g a
    and-IsNormal (and_of d t e) =
        let (h, n) =
          and_tail-AllNormal t (omega arith) (more_normal (atom-IsNormal d) none_normal) in
        rw e (join_and-IsNormal n h)

    or_tail-IsNormal :
        {ts r : Tokens} {a b : Ast} → IsOrTail g a ts b r → IsNormal g a → IsNormal g b
    or_tail-IsNormal (or_end e) h = h
    or_tail-IsNormal (or_word e d t) h = or_tail-IsNormal t (join_or-IsNormal h (and-IsNormal d))

    pub or-IsNormal : {ts r : Tokens} {a : Ast} → IsOr g ts a r → IsNormal g a
    or-IsNormal (or_of d t) = or_tail-IsNormal t (and-IsNormal d)
