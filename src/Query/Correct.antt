-- ===== src/Query/Correct.antt =====
-- crates/pkdump-core/src/query/parser.rs: `parse` as a whole, from the text of a query.
use pokedumpster.Base.{
  Text, byte_len, ℕ, ◌+◌, ◌*◌, ◌≤◌, ◌≡◌, ◌↔◌, refl, subst, Bool, [], ◌∷◌, arith, length,
}
use pokedumpster.Query.Ast.{Ast}
use pokedumpster.Query.Lexer.{Tokens, tokenize, value}
use pokedumpster.Query.Lexer.Places.{IsLaid, tokenize-Ensures}
use pokedumpster.Query.Lexer.Render.{render, place, tokenize-render}
use pokedumpster.Query.Outcome.{
  Outcome, QueryError, ok, ◌>>=◌, bind-eq-ok, Ensures, holds, rejected, Ensures-bind, Ensures-map,
  Ensures-imp,
}
use pokedumpster.Query.Parser.{parse_or, finish, parse_tokens, parse}
use pokedumpster.Query.Parser.Complete.{or-Returns, length-IsOr}
use pokedumpster.Query.Parser.Grammar.{IsOr}
use pokedumpster.Query.Parser.Normal.{IsNormal, or-IsNormal}
use pokedumpster.Query.Parser.Print.{operand, IsPrintable, print-IsOr, print-IsRenderable}
use pokedumpster.Query.Parser.Sound.{IsWithin, IsOr-Ensures}
use pokedumpster.Query.Registry.{KeywordRegistry}

IsLaid-bound : (lo : ℕ) (ts : Tokens) (hi : ℕ) → IsLaid lo ts hi → lo ≤ hi
IsLaid-bound lo [] hi l = l
IsLaid-bound lo ((value v, p) ∷ ts) hi l = omega (arith, l.0, IsLaid-bound p ts hi l.1)
IsLaid-bound lo ((k, p) ∷ ts) hi l = omega (arith, l.0, IsLaid-bound (p + 1) ts hi l.1)

IsLaid-IsWithin : (lo : ℕ) (ts : Tokens) (hi : ℕ) → IsLaid lo ts hi → IsWithin hi ts
IsLaid-IsWithin lo [] hi l = tt
IsLaid-IsWithin lo ((value v, p) ∷ ts) hi l =
    (IsLaid-bound p ts hi l.1, IsLaid-IsWithin p ts hi l.1)
IsLaid-IsWithin lo ((k, p) ∷ ts) hi l =
    (omega (arith, IsLaid-bound (p + 1) ts hi l.1), IsLaid-IsWithin (p + 1) ts hi l.1)

module _ (g : KeywordRegistry) (eof : ℕ) where
  finish-Ensures :
      (ts : Tokens) (a : Ast) (r : Tokens)
      → IsOr g ts a r
      → IsWithin eof r
      → Ensures (λ b. IsOr g ts b []) (λ e. e.position ≤ eof) (finish (a, r))
  unfolding finish
  finish-Ensures ts a [] d w = holds d
  finish-Ensures ts a ((k, p) ∷ r) d w = rejected w.0

  parse_tokens-Ensures :
      (ts : Tokens)
      → IsWithin eof ts
      → Ensures (λ a. IsOr g ts a []) (λ e. e.position ≤ eof) (parse_tokens g eof ts)
  unfolding parse_tokens
  parse_tokens-Ensures [] w = rejected (omega arith)
  parse_tokens-Ensures (t ∷ ts) w =
      Ensures-bind (IsOr-Ensures g eof _ (t ∷ ts) (omega arith) w)
        λ (a, r) (d, _, w'). finish-Ensures (t ∷ ts) a r d w'

  IsOr-cons :
      (ts : Tokens) {a : Ast} {r : Tokens}
      → IsOr g ts a r
      → parse_tokens g eof ts ≡ (parse_or g eof (4 * length ts + 4) ts >>= finish)
  unfolding parse_tokens
  IsOr-cons [] d = absurd (omega (arith, length-IsOr d))
  IsOr-cons (t ∷ ts) d = refl

  parse_tokens-IsOr : (ts : Tokens) (a : Ast) → IsOr g ts a [] → parse_tokens g eof ts ≡ ok a
  unfolding finish
  parse_tokens-IsOr ts a d = rw (IsOr-cons ts d, or-Returns eof d (4 * length ts + 4) (omega arith))

ok-Ensures :
    {A : Type 0} {P : A → Type 0} {E : QueryError → Type 0} {r : Outcome A} (a : A)
    → Ensures P E r
    → r ≡ ok a
    → P a
ok-Ensures {P = P} a (holds h) e = subst P (cc) h
ok-Ensures a (rejected h) e = cc

module _ (is_alphabetic : ℕ → Bool) (input : Text) (g : KeywordRegistry) where
  -- `parse` returns a tree exactly when the tokens of the query are a phrase of the grammar for
  -- that tree, with nothing left behind it.
  pub parse-eq-ok_iff :
      (a : Ast)
      → (parse is_alphabetic input g ≡ ok a)
        ↔ ((ts : Tokens) × (tokenize is_alphabetic input ≡ ok ts) × IsOr g ts a [])
  unfolding parse
  parse-eq-ok_iff a = (
    (λ e.
        let (ts, e', e'') = bind-eq-ok (tokenize is_alphabetic input) _ e in
        let laid = ok-Ensures ts (tokenize-Ensures is_alphabetic input) e' in
        let w = IsLaid-IsWithin 0 ts (byte_len input) laid.0 in
        (ts, e', ok-Ensures a (parse_tokens-Ensures g (byte_len input) ts w) e'')),
    λ (ts, e, d). rw e (parse_tokens-IsOr g (byte_len input) ts a d),
  )

  -- `parse` always ends, with a tree of the normal shape or with an error that stands in the query
  -- or at its end.
  pub parse-Ensures :
      Ensures (IsNormal g) (λ e. e.position ≤ byte_len input) (parse is_alphabetic input g)
  unfolding parse
  parse-Ensures =
      Ensures-bind
        (Ensures-imp (tokenize-Ensures is_alphabetic input) (λ _ l. l) λ _ p. omega arith)
        λ ts l.
          Ensures-map
            (parse_tokens-Ensures g (byte_len input) ts (IsLaid-IsWithin 0 ts (byte_len input) l.0))
            λ a d. or-IsNormal d

-- A tree that is written out is read back as itself.
pub parse-render :
    (is_alphabetic : ℕ → Bool) (g : KeywordRegistry) (a : Ast)
    → IsPrintable g a
    → parse is_alphabetic (render (operand a [])) g ≡ ok a
parse-render is_alphabetic g a h = (parse-eq-ok_iff is_alphabetic (render (operand a [])) g a).1 (
  place 0 (operand a []),
  tokenize-render is_alphabetic (operand a []) (print-IsRenderable g a h),
  print-IsOr g a h,
)
