-- ===== src/Query/Parser/Print.antt =====
-- Trees written as tokens, and crates/pkdump-core/src/query/parser.rs reading them back.
use pokedumpster.Base.{
  codes, eq_ignore_ascii_case, ap, ℕ, ◌+◌, ◌≤◌, ◌≡◌, refl, true, false, List, some, [], ◌∷◌, arith,
}
use pokedumpster.Query.Ast.{
  Ast, Asts, and, or, not, comparison, name_search, exact_name, nil, cons, push, len,
}
use pokedumpster.Query.Lexer.{Tok, lparen, rparen, negate, keyword, value, word, Tokens}
use pokedumpster.Query.Lexer.Render.{IsQuotable, IsName, IsRenderable, place, past}
use pokedumpster.Query.Parser.{is_word, ends_and, join_or, join_and}
use pokedumpster.Query.Parser.Grammar.{
  IsAtom, IsAndTail, IsAnd, IsOrTail, IsOr, negated, group, exact, bare, compares, and_end,
  and_atom, and_of, or_end, or_word, or_of,
}
use pokedumpster.Query.Parser.Normal.{is_or, leads_with_or}
use pokedumpster.Query.Registry.{KeywordRegistry, resolve}

abbrev pub Toks : Type 0
Toks = List Tok

-- The tokens of a tree in front of `ks`. An operand is an atom: a conjunction or a disjunction
-- there stands in parentheses, and so does what is negated.
abbrev mutual
  pub operand : Ast → Toks → Toks
  operand (and cs) ks = lparen ∷ conjuncts cs (rparen ∷ ks)
  operand (or cs) ks = lparen ∷ disjuncts cs (rparen ∷ ks)
  operand (not a) ks = negate ∷ lparen ∷ operand a (rparen ∷ ks)
  operand (comparison k op v) ks = keyword k op ∷ value v ∷ ks
  operand (name_search w) ks = word w ∷ ks
  operand (exact_name n) ks = Tok.exact_name n ∷ ks

  pub conjuncts : Asts → Toks → Toks
  conjuncts nil ks = ks
  conjuncts (cons a as') ks = operand a (conjuncts as' ks)

  pub disjuncts : Asts → Toks → Toks
  disjuncts nil ks = ks
  disjuncts (cons a as') ks = operand a (more_disjuncts as' ks)

  pub more_disjuncts : Asts → Toks → Toks
  more_disjuncts nil ks = ks
  more_disjuncts (cons a as') ks = word (codes "or") ∷ operand a (more_disjuncts as' ks)

-- The trees that can be written: the shapes that the parser builds, over keywords that resolve to
-- themselves, texts without quotes, and names that are not connectors.
module _ (g : KeywordRegistry) where
  abbrev mutual
    pub IsPrintable : Ast → Type 0
    IsPrintable (and cs) = (2 ≤ len cs) × AllPrintable cs
    IsPrintable (or cs) = (2 ≤ len cs) × (leads_with_or cs ≡ false) × AllPrintable cs
    IsPrintable (not a) = IsPrintable a
    IsPrintable (comparison k op v) = (resolve g k ≡ some k) × IsName k × IsQuotable v
    IsPrintable (name_search w) =
        IsQuotable w
        × (eq_ignore_ascii_case w (codes "or") ≡ false)
        × (eq_ignore_ascii_case w (codes "and") ≡ false)
    IsPrintable (exact_name n) = IsQuotable n

    pub AllPrintable : Asts → Type 0
    AllPrintable nil = Unit
    AllPrintable (cons a as') = IsPrintable a × AllPrintable as'

  mutual
    operand-IsRenderable :
        (a : Ast) (ks : Toks) → IsPrintable a → IsRenderable ks → IsRenderable (operand a ks)
    operand-IsRenderable (and cs) ks h r = conjuncts-IsRenderable cs (rparen ∷ ks) h.1 r
    operand-IsRenderable (or cs) ks h r = disjuncts-IsRenderable cs (rparen ∷ ks) h.2 r
    operand-IsRenderable (not a) ks h r = operand-IsRenderable a (rparen ∷ ks) h r
    operand-IsRenderable (comparison k op v) ks h r = (h.1, h.2, r)
    operand-IsRenderable (name_search w) ks h r = (h.0, r)
    operand-IsRenderable (exact_name n) ks h r = (h, r)

    conjuncts-IsRenderable :
        (cs : Asts) (ks : Toks) → AllPrintable cs → IsRenderable ks → IsRenderable (conjuncts cs ks)
    conjuncts-IsRenderable nil ks h r = r
    conjuncts-IsRenderable (cons a cs) ks h r =
        operand-IsRenderable a (conjuncts cs ks) h.0 (conjuncts-IsRenderable cs ks h.1 r)

    disjuncts-IsRenderable :
        (cs : Asts) (ks : Toks) → AllPrintable cs → IsRenderable ks → IsRenderable (disjuncts cs ks)
    disjuncts-IsRenderable nil ks h r = r
    disjuncts-IsRenderable (cons a cs) ks h r =
        operand-IsRenderable a (more_disjuncts cs ks) h.0 (more_disjuncts-IsRenderable cs ks h.1 r)

    more_disjuncts-IsRenderable :
        (cs : Asts) (ks : Toks)
        → AllPrintable cs
        → IsRenderable ks
        → IsRenderable (more_disjuncts cs ks)
    more_disjuncts-IsRenderable nil ks h r = r
    more_disjuncts-IsRenderable (cons a cs) ks h r = (
      (refl, (refl, tt)),
      operand-IsRenderable a (more_disjuncts cs ks) h.0 (more_disjuncts-IsRenderable cs ks h.1 r),
    )

  operand_starts :
      (a : Ast) (i : ℕ) (ks : Toks)
      → IsPrintable a
      → (ends_and (place i (operand a ks)) ≡ false)
        × (is_word (codes "and") (place i (operand a ks)) ≡ false)
  unfolding ends_and
  operand_starts (and cs) i ks h = (refl, refl)
  operand_starts (name_search w) i ks h = (h.1, h.2)
  operand_starts _ i ks h = (refl, refl)

-- The second list behind the first.
abbrev append : Asts → Asts → Asts
append nil bs = bs
append (cons a as') bs = cons a (append as' bs)

append-push : (as' : Asts) (b : Ast) (bs : Asts) → append (push as' b) bs ≡ append as' (cons b bs)
unfolding push
append-push nil b bs = refl
append-push (cons a as') b bs = ap (cons a) (append-push as' b bs)

append-nil_lem : (as' : Asts) → append as' nil ≡ as'
append-nil_lem nil = refl
append-nil_lem (cons a as') = ap (cons a) (append-nil_lem as')

join_or-two : (a b : Ast) → is_or a ≡ false → join_or a b ≡ or (cons a (cons b nil))
unfolding join_or
join_or-two (or cs) b h = cc
join_or-two (and cs) b h = refl
join_or-two _ b h = refl

or_is_word : (p : ℕ) (ts : Tokens) → is_word (codes "or") ((word (codes "or"), p) ∷ ts) ≡ true
unfolding is_word eq_ignore_ascii_case
or_is_word p ts = refl

-- A further operand of a disjunction, or its closing parenthesis, ends a conjunction.
more-ends_and :
    (bs : Asts) (j : ℕ) (ks : Toks) → ends_and (place j (more_disjuncts bs (rparen ∷ ks))) ≡ true
unfolding ends_and eq_ignore_ascii_case
more-ends_and nil j ks = refl
more-ends_and (cons b bs) j ks = refl

module _ (g : KeywordRegistry) where
  mutual
    unfolding ends_and join_and join_or len

    -- An operand written at `i` is read as an atom, up to some place `j`.
    operand-reads :
        (a : Ast) (i : ℕ) (ks : Toks)
        → IsPrintable g a
        → (j : ℕ) × IsAtom g (place i (operand a ks)) a (place j ks)
    operand-reads (and cs) i ks h =
        let (j, d) = group-and cs (i + 1) ks h.0 h.1 in (j + 1, group (or_of d (or_end refl)))
    operand-reads (or cs) i ks h =
        let (j, d) = group-or cs (i + 1) ks h.0 h.1 h.2 in (j + 1, group d)
    operand-reads (not a) i ks h =
        let (j, d) = operand-reads a (i + 1 + 1) (rparen ∷ ks) h in
        (j + 1, negated (group (or_of (and_of d (and_end refl) refl) (or_end refl))))
    operand-reads (comparison k op v) i ks h = (_, compares op h.0)
    operand-reads (name_search w) i ks h = (_, bare)
    operand-reads (exact_name n) i ks h = (_, exact)

    group-and :
        (cs : Asts) (i : ℕ) (ks : Toks)
        → 2 ≤ len cs
        → AllPrintable g cs
        → (j : ℕ) × IsAnd g (place i (conjuncts cs (rparen ∷ ks))) (and cs) (place j (rparen ∷ ks))
    group-and nil i ks n h = absurd (omega arith)
    group-and (cons a nil) i ks n h = absurd (omega arith)
    group-and (cons a (cons b cs)) i ks n h =
        let (j, d) = operand-reads a i (conjuncts (cons b cs) (rparen ∷ ks)) h.0 in
        let (k, t) = conjuncts-read (cons a nil) (cons b cs) j ks h.1 in (k, and_of d t refl)

    conjuncts-read :
        (as' bs : Asts) (i : ℕ) (ks : Toks)
        → AllPrintable g bs
        → (j : ℕ) × IsAndTail g as'
            (place i (conjuncts bs (rparen ∷ ks)))
            (append as' bs)
            (place j (rparen ∷ ks))
    conjuncts-read as' nil i ks h = (i, rw append-nil_lem (and_end refl))
    conjuncts-read as' (cons b bs) i ks h =
        let (j, d) = operand-reads b i (conjuncts bs (rparen ∷ ks)) h.0 in
        let (k, t) = conjuncts-read (push as' b) bs j ks h.1 in
        let (e, e') = operand_starts g b i (conjuncts bs (rparen ∷ ks)) h.0 in
        (k, and_atom e e' d (rw append-push at t))

    group-or :
        (cs : Asts) (i : ℕ) (ks : Toks)
        → 2 ≤ len cs
        → leads_with_or cs ≡ false
        → AllPrintable g cs
        → (j : ℕ) × IsOr g (place i (disjuncts cs (rparen ∷ ks))) (or cs) (place j (rparen ∷ ks))
    group-or nil i ks n l h = absurd (omega arith)
    group-or (cons a nil) i ks n l h = absurd (omega arith)
    group-or (cons a (cons b cs)) i ks n l h =
        let (j, d) = operand-reads a i (more_disjuncts (cons b cs) (rparen ∷ ks)) h.0 in
        let (k, d') = operand-reads b _ (more_disjuncts cs (rparen ∷ ks)) h.1.0 in
        let (m, t) = disjuncts-read (cons a (cons b nil)) cs k ks h.1.1 in
        (
          m,
          or_of (and_of d (and_end (more-ends_and (cons b cs) j ks)) refl) (
              or_word
                (or_is_word j (
                  place (past j (word (codes "or"))) (operand b (more_disjuncts cs (rparen ∷ ks)))))
                (and_of d' (and_end (more-ends_and cs k ks)) refl) (rw (join_or-two a b l) t)),
        )

    disjuncts-read :
        (as' bs : Asts) (i : ℕ) (ks : Toks)
        → AllPrintable g bs
        → (j : ℕ) × IsOrTail g
            (or as')
            (place i (more_disjuncts bs (rparen ∷ ks)))
            (or (append as' bs))
            (place j (rparen ∷ ks))
    disjuncts-read as' nil i ks h = (i, rw append-nil_lem (or_end refl))
    disjuncts-read as' (cons b bs) i ks h =
        let (j, d) = operand-reads b _ (more_disjuncts bs (rparen ∷ ks)) h.0 in
        let (k, t) = disjuncts-read (push as' b) bs j ks h.1 in
        (
          k,
          or_word
              (or_is_word i
                (place (past i (word (codes "or"))) (operand b (more_disjuncts bs (rparen ∷ ks)))))
              (and_of d (and_end (more-ends_and bs j ks)) refl) (rw append-push at t),
        )

  -- The whole text of a tree is a phrase of the grammar.
  pub print-IsOr : (a : Ast) → IsPrintable g a → IsOr g (place 0 (operand a [])) a []
  unfolding ends_and join_and
  print-IsOr a h =
      let (j, d) = operand-reads a 0 [] h in
      or_of (and_of d (and_end refl) refl) (or_end (unfold is_word in refl))

  pub print-IsRenderable : (a : Ast) → IsPrintable g a → IsRenderable (operand a [])
  print-IsRenderable a h = operand-IsRenderable g a [] h tt
