-- ===== src/Query/Lexer/Cursor.antt =====
-- The readers of crates/pkdump-core/src/query/lexer.rs move the cursor by what they read.
use pokedumpster.Base.{
  Text, byte_len, strip_prefix, len_utf8, len_utf8_pos, ℕ, ◌+◌, ◌≤◌, ◌<◌, ◌≡◌, refl, Bool, true,
  false, some, [], ◌∷◌, drop, length, arith, Bool-cases, inl, inr, ◌==◌,
}
use pokedumpster.Query.Ast.{Op}
use pokedumpster.Query.Lexer.{
  Cursor, read_while, is_unquoted, is_value, match_op, close_quote, read_quoted, read_value,
}
use pokedumpster.Query.Outcome.{
  QueryError, Ensures, holds, rejected, Ensures-if, Ensures-map, Ensures-imp,
}

-- From the cursor `(i, text)` to the cursor `(j, rest)`: the end of the query stays where it is.
pub record Moves (i : ℕ) (text : Text) (j : ℕ) (rest : Text) : Type 0 where
  pub forward : i ≤ j
  pub same_end : j + byte_len rest ≡ i + byte_len text
  pub shorter : length rest ≤ length text

pub Moves-refl : (i : ℕ) (text : Text) → Moves i text i text
Moves-refl i text = omega arith

pub Moves-trans : {i j k : ℕ} {s t u : Text} → Moves i s j t → Moves j t k u → Moves i s k u
Moves-trans m n = omega arith

pub Moves-char : (i c : ℕ) (cs : Text) → Moves i (c ∷ cs) (i + len_utf8 c) cs
unfolding byte_len
Moves-char i c cs = omega arith

-- A character below 128 is one byte.
pub Moves-ascii : (i c : ℕ) (cs : Text) → c < 128 → Moves i (c ∷ cs) (i + 1) cs
unfolding byte_len len_utf8
Moves-ascii i c cs h = ground arith

pub read_while-Moves :
    (go : ℕ → Bool) (j : ℕ) (text : Text)
    → Moves j text (read_while go j text).1.0 (read_while go j text).1.1
unfolding read_while
read_while-Moves go j [] = Moves-refl j []
read_while-Moves go j (c ∷ cs) = elim (Bool-cases (go c)) [
  | inl e ↦ rw e (Moves-trans (Moves-char j c cs) (read_while-Moves go (j + len_utf8 c) cs))
  | inr e ↦ rw e (Moves-refl j (c ∷ cs))
]

-- Where the first character is read, the cursor has moved past it.
pub read_while-first :
    (go : ℕ → Bool) (j c : ℕ) (cs : Text)
    → go c ≡ true
    → Moves (j + len_utf8 c) cs (read_while go j (c ∷ cs)).1.0 (read_while go j (c ∷ cs)).1.1
unfolding read_while
read_while-first go j c cs e = rw e (read_while-Moves go (j + len_utf8 c) cs)

pub match_op-pos : (rest : Text) (op : Op) (n : ℕ) → match_op rest ≡ some (op, n) → 1 ≤ n
unfolding match_op strip_prefix
match_op-pos rest op n h = ground arith

pub match_op-Moves :
    (j : ℕ) (rest : Text) (op : Op) (n : ℕ)
    → match_op rest ≡ some (op, n)
    → Moves j rest (j + n) (drop n rest)
unfolding match_op strip_prefix byte_len len_utf8
match_op-Moves j [] op n h = ground arith
match_op-Moves j (c ∷ []) op n h = ground arith
match_op-Moves j (c ∷ d ∷ r) op n h = ground arith

-- Where a loop has stopped: at the end, or at a character that it does not read.
abbrev Stops : (ℕ → Bool) → Text → Type 0
Stops go [] = Unit
Stops go (c ∷ cs) = go c ≡ false

read_while-Stops : (go : ℕ → Bool) (j : ℕ) (text : Text) → Stops go (read_while go j text).1.1
unfolding read_while
read_while-Stops go j [] = tt
read_while-Stops go j (c ∷ cs) = elim (Bool-cases (go c)) [
  | inl e ↦ rw e (read_while-Stops go (j + len_utf8 c) cs)
  | inr e ↦ rw (e, read_while) e
]

-- A read that moves the cursor on from `(i, text)`.
abbrev pub Reads : ℕ → Text → Text × Cursor → Type 0
Reads i text (w, (j, rest)) = Moves i text j rest

close_quote-Ensures :
    (i k : ℕ) (after w : Text) (j : ℕ) (rest : Text)
    → Moves k after j rest
    → Stops is_unquoted rest
    → Ensures (Reads k after) (λ e. e.position ≡ i) (close_quote i (w, (j, rest)))
unfolding close_quote
close_quote-Ensures i k after w j [] m s = rejected refl
close_quote-Ensures i k after w j (c ∷ cs) m s =
    holds (Moves-trans m (Moves-ascii j c cs (ground arith)))

-- A quoted text ends behind its closing quote; the only error stands at the opening one.
pub read_quoted-Ensures :
    (i : ℕ) (after : Text)
    → Ensures (Reads (i + 1) after) (λ e. e.position ≡ i) (read_quoted i after)
unfolding read_quoted
read_quoted-Ensures i after =
    close_quote-Ensures i (i + 1) after _ _ _ (read_while-Moves is_unquoted (i + 1) after)
      (read_while-Stops is_unquoted (i + 1) after)

-- An error of a reader at the cursor `(i, text)` stands in front of the end of the query.
abbrev pub IsInside : ℕ → Text → QueryError → Type 0
IsInside i text e = e.position < i + byte_len text

pub byte_len-pos : (c : ℕ) (cs : Text) → 0 < byte_len (c ∷ cs)
unfolding byte_len
byte_len-pos c cs = omega (arith, len_utf8_pos c)

-- From an opening quote on.
pub quoted-Ensures :
    (i c : ℕ) (cs : Text)
    → c == b'"' ≡ true
    → Ensures (Reads (i + 1) cs) (IsInside i (c ∷ cs)) (read_quoted i cs)
quoted-Ensures i c cs e =
    Ensures-imp (read_quoted-Ensures i cs) (λ _ m. m) λ _ e'. omega (arith, byte_len-pos c cs)

pub read_value-Ensures :
    (start : ℕ) (text : Text)
    → Ensures (Reads start text) (IsInside start text) (read_value start text)
unfolding read_value
read_value-Ensures start [] = holds (Moves-refl start [])
read_value-Ensures start (c ∷ cs) =
    Ensures-if (c == b'"')
      (λ e.
        Ensures-map (quoted-Ensures start c cs e)
          λ (w, (j, rest)) m. Moves-trans (Moves-ascii start c cs (ground arith)) m)
      λ e. holds (read_while-Moves is_value start (c ∷ cs))
