-- ===== src/Query/Lexer/Places.antt =====
-- The tokens of crates/pkdump-core/src/query/lexer.rs lie in the query in their order, and keywords
-- and values come in pairs.
use pokedumpster.Base.{
  Text, byte_len, is_whitespace, is_ascii_alphabetic, is_ascii_alphanumeric, len_utf8, len_utf8_pos,
  ℕ, zero, suc, ◌+◌, ◌≤◌, ◌<◌, ◌≡◌, refl, Bool, true, Option, none, some, [], ◌∷◌, ◌++◌, drop,
  length, arith, ◌==◌,
}
use pokedumpster.Query.Ast.{Op}
use pokedumpster.Query.Lexer.{
  Tok, lparen, rparen, negate, keyword, value, word, Tokens, Scan, is_ident, is_unbroken,
  read_ident_end, read_until_break, match_op, scan_word, scan_exact, scan_operator, scan_ident,
  scan, tokenize_from, tokenize,
}
use pokedumpster.Query.Lexer.Cursor.{
  Moves, Moves-refl, Moves-trans, Moves-char, Moves-ascii, Reads, IsInside, read_while-Moves,
  read_while-first, match_op-Moves, match_op-pos, quoted-Ensures, read_value-Ensures,
}
use pokedumpster.Query.Outcome.{Ensures, holds, Ensures-bind, Ensures-if, Ensures-map, Ensures-imp}

-- Where the next token may start: only a value may be empty.
abbrev pub next_from : Tok → ℕ → ℕ
next_from (value v) p = p
next_from _ p = p + 1

-- The tokens start in increasing order, from `lo` on and up to `hi`.
abbrev pub IsLaid : ℕ → Tokens → ℕ → Type 0
IsLaid lo [] hi = lo ≤ hi
IsLaid lo ((k, p) ∷ ts) hi = (lo ≤ p) × IsLaid (next_from k p) ts hi

-- Each keyword has its value behind it, and each value its keyword in front.
abbrev pub IsPaired : Tokens → Type 0
IsPaired [] = Unit
IsPaired ((keyword n op, p) ∷ (value v, q) ∷ ts) = IsPaired ts
IsPaired ((keyword n op, p) ∷ ts) = ⊥
IsPaired ((value v, p) ∷ ts) = ⊥
IsPaired (t ∷ ts) = IsPaired ts

-- One turn, from the cursor `(i, c ∷ cs)`.
record Turns (i c : ℕ) (cs : Text) (s : Scan) : Type 0 where
  moves : Moves (i + len_utf8 c) cs s.1.0 s.1.1
  laid : IsLaid i s.0 s.1.0
  paired : (ts : Tokens) → IsPaired ts → IsPaired (s.0 ++ ts)

len_utf8_ascii : (c : ℕ) → c < 128 → len_utf8 c ≡ 1
unfolding len_utf8
len_utf8_ascii c h = ground arith

scan_word-Turns : (i c : ℕ) (cs : Text) → is_unbroken c ≡ true → Turns i c cs (scan_word i (c ∷ cs))
unfolding scan_word
scan_word-Turns i c cs e =
    let m = read_while-first is_unbroken i c cs e in
    record { moves = m; laid = omega (arith, len_utf8_pos c, m.forward); paired = λ ts h. h }

scan_operator-Ensures :
    (i c : ℕ) (cs : Text) (name : Text) (j : ℕ) (rest : Text) (o : Option (Op × ℕ))
    → is_unbroken c ≡ true
    → Moves (i + len_utf8 c) cs j rest
    → match_op rest ≡ o
    → Ensures (Turns i c cs) (IsInside i (c ∷ cs)) (scan_operator i (c ∷ cs) name j rest o)
unfolding scan_operator
scan_operator-Ensures i c cs name j rest none u m e = holds (scan_word-Turns i c cs u)
scan_operator-Ensures i c cs name j rest (some (op, n)) u m e =
    let m' = Moves-trans m (match_op-Moves j rest op n e) in
    Ensures-bind
      (Ensures-imp (read_value-Ensures (j + n) (drop n rest)) (λ _ r. r)
        λ e' p. omega (arith, m'.same_end, Moves-char i c cs))
      λ (v, (k, rest')) r. holds (record {
        moves = Moves-trans m' r;
        laid = omega (arith, len_utf8_pos c, m'.forward, r.forward, match_op-pos rest op n e);
        paired = λ ts h. h;
      })

scan_ident-Ensures :
    (i c : ℕ) (cs : Text)
    → is_ascii_alphabetic c ≡ true
    → is_unbroken c ≡ true
    → Ensures
        (Turns i c cs)
        (IsInside i (c ∷ cs))
        (scan_ident i (c ∷ cs) (read_ident_end i (c ∷ cs)))
unfolding scan_ident read_ident_end
scan_ident-Ensures i c cs e u =
    scan_operator-Ensures i c cs _ _ _ _ u
      (read_while-first is_ident i c cs (unfold is_ascii_alphanumeric in ground arith)) refl

scan_exact-Ensures :
    (i : ℕ) (cs : Text) → Ensures (Reads i cs) (λ e. e.position < i + byte_len cs) (scan_exact i cs)
unfolding scan_exact read_until_break
scan_exact-Ensures i [] = holds (read_while-Moves is_unbroken i [])
scan_exact-Ensures i (c ∷ cs) =
    Ensures-if (c == b'"')
      (λ e.
        Ensures-map (quoted-Ensures i c cs e)
          λ (w, (j, rest)) m. Moves-trans (Moves-ascii i c cs (ground arith)) m)
      λ e. holds (read_while-Moves is_unbroken i (c ∷ cs))

-- One ASCII character as a token.
one-Turns :
    (k : Tok) (i c : ℕ) (cs : Text)
    → c < 128
    → next_from k i ≡ i + 1
    → ((ts : Tokens) → IsPaired ts → IsPaired ((k, i) ∷ ts))
    → Turns i c cs ((k, i) ∷ [], (i + 1, cs))
one-Turns k i c cs h e p = record {
  moves = omega (arith, len_utf8_ascii c h);
  laid = omega (arith, e);
  paired = p;
}

-- An ASCII character, and the text read behind it, as a token.
read-Turns :
    (k : Tok) (i c : ℕ) (cs : Text) (j : ℕ) (rest : Text)
    → c < 128
    → next_from k i ≡ i + 1
    → ((ts : Tokens) → IsPaired ts → IsPaired ((k, i) ∷ ts))
    → Moves (i + 1) cs j rest
    → Turns i c cs ((k, i) ∷ [], (j, rest))
read-Turns k i c cs j rest h e p m = record {
  moves = omega (arith, len_utf8_ascii c h);
  laid = omega (arith, e, m.forward);
  paired = p;
}

module _ (is_alphabetic : ℕ → Bool) where
  scan-Ensures :
      (i c : ℕ) (cs : Text)
      → Ensures (Turns i c cs) (IsInside i (c ∷ cs)) (scan is_alphabetic i c cs)
  unfolding scan
  scan-Ensures i c cs =
      Ensures-if (is_whitespace c)
        (λ _. holds (record {
          moves = Moves-refl (i + len_utf8 c) cs;
          laid = omega (arith, len_utf8_pos c);
          paired = λ ts h. h;
        }))
        λ w.
          Ensures-if (c == b'(')
            (λ e. holds (one-Turns lparen i c cs (ground arith) refl λ ts h. h))
            λ l.
              Ensures-if (c == b')')
                (λ e. holds (one-Turns rparen i c cs (ground arith) refl λ ts h. h))
                λ r.
                  Ensures-if (c == b'!')
                    (λ e.
                      Ensures-bind
                        (Ensures-imp (scan_exact-Ensures (i + 1) cs) (λ _ m. m)
                          λ _ p. omega (arith, Moves-ascii i c cs (ground arith)))
                        λ (v, (j, rest)) m. holds (
                          read-Turns (Tok.exact_name v) i c cs j rest (ground arith) refl
                            (λ ts h. h) m))
                    λ x.
                      Ensures-if (c == b'-')
                        (λ e.
                          Ensures-if _
                            (λ _. holds (one-Turns negate i c cs (ground arith) refl λ ts h. h))
                            λ _. holds (scan_word-Turns i c cs (simp (w, l, r))))
                        λ y.
                          Ensures-if (c == b'"')
                            (λ e. Ensures-bind (quoted-Ensures i c cs e) λ (v, (j, rest)) m.
                              holds (
                                read-Turns (word v) i c cs j rest (ground arith) refl (λ ts h. h)
                                  m))
                            λ z.
                              Ensures-if (is_ascii_alphabetic c)
                                (λ e. scan_ident-Ensures i c cs e (simp (w, l, r)))
                                λ _. holds (scan_word-Turns i c cs (simp (w, l, r)))

  IsLaid-weaken : (a b : ℕ) (ts : Tokens) (hi : ℕ) → a ≤ b → IsLaid b ts hi → IsLaid a ts hi
  IsLaid-weaken a b [] hi h l = omega arith
  IsLaid-weaken a b ((k, p) ∷ ts) hi h l = (omega (arith, l.0), l.1)

  IsLaid-append :
      (lo mid hi : ℕ) (xs ys : Tokens)
      → IsLaid lo xs mid
      → IsLaid mid ys hi
      → IsLaid lo (xs ++ ys) hi
  IsLaid-append lo mid hi [] ys h l = IsLaid-weaken lo mid ys hi h l
  IsLaid-append lo mid hi ((k, p) ∷ xs) ys h l =
      (h.0, IsLaid-append (next_from k p) mid hi xs ys h.1 l)

  tokenize_from-Ensures :
      (fuel i : ℕ) (text : Text)
      → length text ≤ fuel
      → Ensures
          (λ ts. IsLaid i ts (i + byte_len text) × IsPaired ts)
          (IsInside i text)
          (tokenize_from is_alphabetic fuel i text)
  unfolding tokenize_from
  tokenize_from-Ensures fuel i [] h = holds {a = []} (unfold byte_len in omega arith, tt)
  tokenize_from-Ensures zero i (c ∷ cs) h = absurd (omega arith)
  tokenize_from-Ensures (suc fuel) i (c ∷ cs) h =
      Ensures-bind (scan-Ensures i c cs) λ (toks, (j, rest)) t.
        let end : j + byte_len rest ≡ i + byte_len (c ∷ cs) =
          omega (arith, t.moves.same_end, (Moves-char i c cs).same_end) in
        Ensures-bind
          (Ensures-imp (tokenize_from-Ensures fuel j rest (omega (arith, t.moves.shorter)))
            (λ _ p. p) λ _ p. omega arith)
          λ more (l, q).
            holds (IsLaid-append i j _ toks more t.laid (rw (← end) l), t.paired more q)

  -- The tokens of a query start in increasing order within it, and pair keywords and values.
  pub tokenize-Ensures :
      (s : Text)
      → Ensures
          (λ ts. IsLaid 0 ts (byte_len s) × IsPaired ts)
          (λ e. e.position < byte_len s)
          (tokenize is_alphabetic s)
  unfolding tokenize
  tokenize-Ensures s =
      Ensures-imp (tokenize_from-Ensures (length s) 0 s (omega arith))
        (λ ts p. let e : 0 + byte_len s ≡ byte_len s = omega arith in (rw e at p.0, p.1))
        λ e p. omega arith
