-- ===== src/Query/Lexer.antt =====
-- crates/pkdump-core/src/query/lexer.rs: the tokenizer. A byte offset `i` into the query `s` is a
-- cursor here: the offset with the text `&s[i..]` that stands from it on.
pub mod Cursor
pub mod Places
pub mod Render
use pokedumpster.Base.{
  Text, codes, strip_prefix, is_whitespace, is_ascii_alphabetic, is_ascii_alphanumeric, len_utf8, ℕ,
  zero, suc, ◌+◌, Bool, not, ◌||◌, Option, none, some, List, [], ◌∷◌, ◌++◌, drop, length, is_some,
  ◌==◌, if◌then◌else◌,
}
use pokedumpster.Query.Ast.{Op, contains, eq, ne, lt, gt, le, ge}
use pokedumpster.Query.Outcome.{Outcome, ok, out_of_fuel, fail, ◌>>=◌}

pub data Tok : Type 0 where
  lparen rparen negate : Tok
  exact_name : Text → Tok
  keyword : Text → Op → Tok
  value : Text → Tok
  word : Text → Tok

-- `Token`: the fields `kind` and `pos`.
abbrev pub Token : Type 0
Token = Tok × ℕ

abbrev pub Tokens : Type 0
Tokens = List Token

abbrev pub Cursor : Type 0
Cursor = ℕ × Text

-- `char_at`, at a cursor.
abbrev pub char_at : Text → Option ℕ
char_at [] = none
char_at (c ∷ cs) = some c

-- The `while let Some(ch) = char_at(s, j)` loops: what is read up to the first character that
-- stops the loop, and the cursor there.
unfoldable pub read_while : (ℕ → Bool) → ℕ → Text → Text × Cursor
read_while go j [] = ([], (j, []))
read_while go j (c ∷ cs) =
    let later = read_while go (j + len_utf8 c) cs in
    if go c then (c ∷ later.0, later.1) else ([], (j, c ∷ cs))

abbrev pub is_ident : ℕ → Bool
is_ident c = is_ascii_alphanumeric c || c == b'_'

abbrev pub is_unbroken : ℕ → Bool
is_unbroken c = not (is_whitespace c || c == b'(' || c == b')')

abbrev pub is_value : ℕ → Bool
is_value c = not (is_whitespace c || c == b')')

abbrev pub is_unquoted : ℕ → Bool
is_unquoted c = not (c == b'"')

unfoldable pub read_ident_end : ℕ → Text → Text × Cursor
unfolding read_while
read_ident_end = read_while is_ident

unfoldable pub read_until_break : ℕ → Text → Text × Cursor
unfolding read_while
read_until_break = read_while is_unbroken

unfoldable pub match_op : Text → Option (Op × ℕ)
unfolding strip_prefix
match_op rest =
    if is_some (strip_prefix (codes "!=") rest)
    then some (ne, 2)
    else if is_some (strip_prefix (codes "<=") rest)
    then some (le, 2)
    else if is_some (strip_prefix (codes ">=") rest)
    then some (ge, 2)
    else if is_some (strip_prefix (codes ":") rest)
    then some (contains, 1)
    else if is_some (strip_prefix (codes "=") rest)
    then some (eq, 1)
    else if is_some (strip_prefix (codes "<") rest)
    then some (lt, 1)
    else if is_some (strip_prefix (codes ">") rest)
    then some (gt, 1)
    else none

-- The end of `read_quoted`: at the closing quote, or at the end of the text.
unfoldable pub close_quote : ℕ → Text × Cursor → Outcome (Text × Cursor)
close_quote i (inside, (j, [])) = fail (codes "unterminated quoted string") i
close_quote i (inside, (j, c ∷ cs)) = ok (inside, (j + 1, cs))

-- `read_quoted` at offset `i`, with `after` the text behind the opening quote.
unfoldable pub read_quoted : ℕ → Text → Outcome (Text × Cursor)
unfolding close_quote read_while
read_quoted i after = close_quote i (read_while is_unquoted (i + 1) after)

unfoldable pub read_value : ℕ → Text → Outcome (Text × Cursor)
unfolding read_quoted read_while
read_value start [] = ok ([], (start, []))
read_value start (c ∷ cs) =
    if c == b'"' then read_quoted start cs else ok (read_while is_value start (c ∷ cs))

-- What one turn of the loop of `tokenize` pushes, and the cursor that it leaves.
abbrev pub Scan : Type 0
Scan = Tokens × Cursor

-- `read_until_break` as a bare word.
unfoldable pub scan_word : ℕ → Text → Scan
unfolding read_until_break
scan_word i text = let (w, next) = read_until_break i text in ((word w, i) ∷ [], next)

-- `!`: a quoted or unquoted exact name behind it.
unfoldable pub scan_exact : ℕ → Text → Outcome (Text × Cursor)
unfolding read_quoted read_until_break
scan_exact i [] = ok (read_until_break i [])
scan_exact i (c ∷ cs) = if c == b'"' then read_quoted i cs else ok (read_until_break i (c ∷ cs))

-- The keyword branch, with the identifier read and the operator matched or not.
unfoldable pub scan_operator : ℕ → Text → Text → ℕ → Text → Option (Op × ℕ) → Outcome Scan
unfolding scan_word read_value
scan_operator i text name ident_end rest none = ok (scan_word i text)
scan_operator i text name ident_end rest (some (op, op_len)) =
    let val_start = ident_end + op_len in
    read_value val_start (drop op_len rest) >>= λ (v, next).
    ok ((keyword name op, i) ∷ (value v, val_start) ∷ [], next)

unfoldable pub scan_ident : ℕ → Text → Text × Cursor → Outcome Scan
unfolding scan_operator match_op
scan_ident i text (name, (ident_end, rest)) =
    scan_operator i text name ident_end rest (match_op rest)

-- `char::is_alphabetic` is the Unicode property, of which the tokenizer needs nothing.
module _ (is_alphabetic : ℕ → Bool) where
  -- Whether a `-` with `next` behind it negates.
  unfoldable pub negates : Option ℕ → Bool
  negates none = Bool.false
  negates (some ch) = is_alphabetic ch || ch == b'(' || ch == b'"'

  -- One turn of the loop, at the character `c` with `cs` behind it.
  unfoldable pub scan : ℕ → ℕ → Text → Outcome Scan
  unfolding scan_word scan_exact scan_ident read_quoted read_ident_end negates
  scan i c cs =
      if is_whitespace c
      then ok ([], (i + len_utf8 c, cs))
      else if c == b'('
      then ok ((lparen, i) ∷ [], (i + 1, cs))
      else if c == b')'
      then ok ((rparen, i) ∷ [], (i + 1, cs))
      else if c == b'!'
      then (scan_exact (i + 1) cs >>= λ (val, next). ok ((exact_name val, i) ∷ [], next))
      else if c == b'-'
      then (if negates (char_at cs)
          then ok ((negate, i) ∷ [], (i + 1, cs))
          else ok (scan_word i (c ∷ cs)))
      else if c == b'"'
      then (read_quoted i cs >>= λ (val, next). ok ((word val, i) ∷ [], next))
      else if is_ascii_alphabetic c
      then scan_ident i (c ∷ cs) (read_ident_end i (c ∷ cs))
      else ok (scan_word i (c ∷ cs))

  -- The loop. Each turn reads a character at least, so the length of the text is fuel enough.
  unfoldable pub tokenize_from : ℕ → ℕ → Text → Outcome Tokens
  tokenize_from fuel i [] = ok []
  tokenize_from zero i (c ∷ cs) = out_of_fuel
  tokenize_from (suc fuel) i (c ∷ cs) =
      scan i c cs >>= λ (toks, (j, rest)). tokenize_from fuel j rest >>= λ more. ok (toks ++ more)

  unfoldable pub tokenize : Text → Outcome Tokens
  unfolding tokenize_from scan
  tokenize s = tokenize_from (length s) 0 s
