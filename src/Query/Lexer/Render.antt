-- ===== src/Query/Lexer/Render.antt =====
-- Token lists written as text, and crates/pkdump-core/src/query/lexer.rs reading them back. Words,
-- values and exact names are quoted; nothing stands between two tokens.
use pokedumpster.Base.{
  Text, byte_len, len_utf8, is_whitespace, is_ascii_alphabetic, is_ascii_alphanumeric, ℕ, zero, suc,
  ◌+◌, ◌≤◌, ◌≡◌, refl, Bool, true, false, List, some, [], ◌∷◌, ◌++◌, length, length-append, arith,
  All, drop, ◌==◌,
}
use pokedumpster.Query.Ast.{Op, as_str, contains, eq, ne, lt, gt, le, ge}
use pokedumpster.Query.Lexer.{
  Tok, lparen, rparen, negate, exact_name, keyword, value, word, Tokens, is_ident, is_unquoted,
  read_while, match_op, read_quoted, read_value, scan_exact, scan_operator, scan_ident, scan,
  read_ident_end, tokenize_from, tokenize,
}
use pokedumpster.Query.Outcome.{ok}

-- A text that can stand between quotes.
abbrev pub IsQuotable : Text → Type 0
IsQuotable w = All (λ c. is_unquoted c ≡ true) w

-- A keyword as the tokenizer reads one.
abbrev pub IsName : Text → Type 0
IsName [] = ⊥
IsName (c ∷ cs) = (is_ascii_alphabetic c ≡ true) × All (λ d. is_ident d ≡ true) cs

abbrev pub quote : Text → Text → Text
quote w rest = b'"' ∷ (w ++ (b'"' ∷ rest))

abbrev pub render : List Tok → Text
render [] = []
render (lparen ∷ ks) = b'(' ∷ render ks
render (rparen ∷ ks) = b')' ∷ render ks
render (negate ∷ ks) = b'-' ∷ render ks
render (exact_name n ∷ ks) = b'!' ∷ quote n (render ks)
render (keyword k op ∷ ks) = k ++ (as_str op ++ render ks)
render (value v ∷ ks) = quote v (render ks)
render (word w ∷ ks) = quote w (render ks)

-- A `-` stands before a group, and a keyword before its value.
abbrev pub IsRenderable : List Tok → Type 0
IsRenderable [] = Unit
IsRenderable (lparen ∷ ks) = IsRenderable ks
IsRenderable (rparen ∷ ks) = IsRenderable ks
IsRenderable (negate ∷ lparen ∷ ks) = IsRenderable ks
IsRenderable (exact_name n ∷ ks) = IsQuotable n × IsRenderable ks
IsRenderable (keyword k op ∷ value v ∷ ks) = IsName k × IsQuotable v × IsRenderable ks
IsRenderable (word w ∷ ks) = IsQuotable w × IsRenderable ks
IsRenderable _ = ⊥

-- The offset behind a quoted text that begins at `i`.
abbrev pub past_quote : ℕ → Text → ℕ
past_quote i w = i + 1 + byte_len w + 1

-- The offset behind a token that begins at `i`.
abbrev pub past : ℕ → Tok → ℕ
past i (exact_name n) = past_quote (i + 1) n
past i (keyword k op) = i + byte_len k + length (as_str op)
past i (value v) = past_quote i v
past i (word w) = past_quote i w
past i _ = i + 1

-- The tokens with the offsets at which they are written.
abbrev pub place : ℕ → List Tok → Tokens
place i [] = []
place i (k ∷ ks) = (k, i) ∷ place (past i k) ks

read_while-append :
    (go : ℕ → Bool) (j : ℕ) (w : Text) (d : ℕ) (rest : Text)
    → All (λ c. go c ≡ true) w
    → go d ≡ false
    → read_while go j (w ++ (d ∷ rest)) ≡ (w, (j + byte_len w, d ∷ rest))
unfolding read_while byte_len
read_while-append go j [] d rest h e = rw e (ground arith)
read_while-append go j (c ∷ w) d rest h e =
    rw (h.0, read_while-append go (j + len_utf8 c) w d rest h.1 e) (ground arith)

read_quoted-quote :
    (i : ℕ) (w rest : Text)
    → IsQuotable w
    → read_quoted i (w ++ (b'"' ∷ rest)) ≡ ok (w, (past_quote i w, rest))
unfolding read_quoted
read_quoted-quote i w rest h = rw (read_while-append is_unquoted (i + 1) w b'"' rest h refl)

-- An operator is matched where it is written, if a quote follows.
match_op-as_str :
    (op : Op) (rest : Text) → match_op (as_str op ++ (b'"' ∷ rest)) ≡ some (op, length (as_str op))
unfolding match_op as_str
match_op-as_str contains rest = refl
match_op-as_str _ rest = refl

read_ident_end-as_str :
    (i : ℕ) (k : Text) (op : Op) (rest : Text)
    → All (λ c. is_ident c ≡ true) k
    → read_ident_end i (k ++ (as_str op ++ rest)) ≡ (k, (i + byte_len k, as_str op ++ rest))
unfolding read_ident_end as_str is_ascii_alphanumeric
read_ident_end-as_str i k contains rest h = read_while-append is_ident i k b':' rest h refl
read_ident_end-as_str i k eq rest h = read_while-append is_ident i k b'=' rest h refl
read_ident_end-as_str i k ne rest h = read_while-append is_ident i k b'!' (b'=' ∷ rest) h refl
read_ident_end-as_str i k lt rest h = read_while-append is_ident i k b'<' rest h refl
read_ident_end-as_str i k gt rest h = read_while-append is_ident i k b'>' rest h refl
read_ident_end-as_str i k le rest h = read_while-append is_ident i k b'<' (b'=' ∷ rest) h refl
read_ident_end-as_str i k ge rest h = read_while-append is_ident i k b'>' (b'=' ∷ rest) h refl

drop-append {ℓ} : {A : Type ℓ} (xs ys : List A) → drop (length xs) (xs ++ ys) ≡ ys
drop-append [] ys = refl
drop-append (x ∷ xs) ys = drop-append xs ys

alphabetic-is_ident : (c : ℕ) → is_ascii_alphabetic c ≡ true → is_ident c ≡ true
unfolding is_ascii_alphanumeric
alphabetic-is_ident c h = ground arith

alphabetic-is_whitespace : (c : ℕ) → is_ascii_alphabetic c ≡ true → is_whitespace c ≡ false
unfolding is_whitespace is_ascii_alphabetic
alphabetic-is_whitespace c h = ground arith

alphabetic-others :
    (c : ℕ)
    → is_ascii_alphabetic c ≡ true
    → (c == b'(' ≡ false)
      × (c == b')' ≡ false)
      × (c == b'!' ≡ false)
      × (c == b'-' ≡ false)
      × (c == b'"' ≡ false)
unfolding is_ascii_alphabetic
alphabetic-others c h = ground arith

module _ (is_alphabetic : ℕ → Bool) where
  scan-alphabetic :
      (i c : ℕ) (cs : Text)
      → is_ascii_alphabetic c ≡ true
      → scan is_alphabetic i c cs ≡ scan_ident i (c ∷ cs) (read_ident_end i (c ∷ cs))
  unfolding scan
  scan-alphabetic i c cs h =
      let t = alphabetic-others c h in rw (alphabetic-is_whitespace c h, t.0, t.1, t.2, t.3, t.4, h)

  scan-quote :
      (i : ℕ) (w rest : Text)
      → IsQuotable w
      → scan is_alphabetic i b'"' (w ++ (b'"' ∷ rest))
        ≡ ok ((word w, i) ∷ [], (past_quote i w, rest))
  unfolding scan is_whitespace
  scan-quote i w rest h = rw (read_quoted-quote i w rest h)

  scan-exact :
      (i : ℕ) (w rest : Text)
      → IsQuotable w
      → scan is_alphabetic i b'!' (quote w rest)
        ≡ ok ((exact_name w, i) ∷ [], (past_quote (i + 1) w, rest))
  unfolding scan is_whitespace scan_exact
  scan-exact i w rest h = rw (read_quoted-quote (i + 1) w rest h)

  scan-keyword :
      (i : ℕ) (c : ℕ) (k : Text) (op : Op) (v rest : Text)
      → IsName (c ∷ k)
      → IsQuotable v
      → scan is_alphabetic i c (k ++ (as_str op ++ quote v rest))
        ≡ ok (
          (keyword (c ∷ k) op, i) ∷ (value v, past i (keyword (c ∷ k) op)) ∷ [],
          (past_quote (past i (keyword (c ∷ k) op)) v, rest),
        )
  unfolding scan_ident scan_operator read_value
  scan-keyword i c k op v rest n q = rw (
    scan-alphabetic i c (k ++ (as_str op ++ quote v rest)) n.0,
    read_ident_end-as_str i (c ∷ k) op (quote v rest) (alphabetic-is_ident c n.0, n.1),
    match_op-as_str op (v ++ (b'"' ∷ rest)),
    drop-append (as_str op) (quote v rest),
    read_quoted-quote (i + byte_len (c ∷ k) + length (as_str op)) v rest q,
  )

  scan-negate :
      (i : ℕ) (cs : Text)
      → scan is_alphabetic i b'-' (b'(' ∷ cs) ≡ ok ((negate, i) ∷ [], (i + 1, b'(' ∷ cs))
  unfolding scan is_whitespace
  scan-negate i cs = ground arith

  -- One turn, then the rest, with fuel for the whole text.
  turn :
      (f i c j : ℕ) (cs rest : Text) {toks more : Tokens}
      → suc (length rest) ≤ f
      → scan is_alphabetic i c cs ≡ ok (toks, (j, rest))
      → ((f' : ℕ) → length rest ≤ f' → tokenize_from is_alphabetic f' j rest ≡ ok more)
      → tokenize_from is_alphabetic f i (c ∷ cs) ≡ ok (toks ++ more)
  unfolding tokenize_from
  turn zero i c j cs rest h e k = absurd (omega arith)
  turn (suc f) i c j cs rest h e k = rw (e, k f (omega arith))

  tokenize_from-render :
      (ks : List Tok) (i : ℕ)
      → IsRenderable ks
      → (f : ℕ) → length (render ks) ≤ f
      → tokenize_from is_alphabetic f i (render ks) ≡ ok (place i ks)
  unfolding scan is_whitespace
  tokenize_from-render [] i r f h = unfold tokenize_from in refl
  tokenize_from-render (lparen ∷ ks) i r f h =
      turn f i b'(' (i + 1) (render ks) (render ks) h refl (tokenize_from-render ks (i + 1) r)
  tokenize_from-render (rparen ∷ ks) i r f h =
      turn f i b')' (i + 1) (render ks) (render ks) h refl (tokenize_from-render ks (i + 1) r)
  tokenize_from-render (negate ∷ lparen ∷ ks) i r f h =
      turn f i b'-' (i + 1) (b'(' ∷ render ks) (b'(' ∷ render ks) h (scan-negate i (render ks))
        λ f' h'.
          turn f' (i + 1) b'(' (i + 1 + 1) (render ks) (render ks) h' refl
            (tokenize_from-render ks (i + 1 + 1) r)
  tokenize_from-render (exact_name n ∷ ks) i r f h =
      turn f i b'!' _ (quote n (render ks)) (render ks)
        (omega (arith, length-append n (b'"' ∷ render ks))) (scan-exact i n (render ks) r.0)
        (tokenize_from-render ks _ r.1)
  tokenize_from-render (keyword (c ∷ k) op ∷ value v ∷ ks) i r f h =
      turn f i c _ (k ++ (as_str op ++ quote v (render ks))) (render ks)
        (omega (
          arith,
          length-append k (as_str op ++ quote v (render ks)),
          length-append (as_str op) (quote v (render ks)),
          length-append v (b'"' ∷ render ks),
        ))
        (scan-keyword i c k op v (render ks) r.0 r.1) (tokenize_from-render ks _ r.2)
  tokenize_from-render (word w ∷ ks) i r f h =
      turn f i b'"' _ (w ++ (b'"' ∷ render ks)) (render ks)
        (omega (arith, length-append w (b'"' ∷ render ks))) (scan-quote i w (render ks) r.0)
        (tokenize_from-render ks _ r.1)
  tokenize_from-render (keyword [] op ∷ value v ∷ ks) i r f h = absurd r.0
  tokenize_from-render _ i r f h = absurd r

  -- Text written from a token list is read back as those tokens, at the places of their texts.
  pub tokenize-render :
      (ks : List Tok) → IsRenderable ks → tokenize is_alphabetic (render ks) ≡ ok (place 0 ks)
  unfolding tokenize
  tokenize-render ks r = tokenize_from-render ks 0 r (length (render ks)) (omega arith)
