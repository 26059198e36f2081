-- ===== src/Query/Parser.antt =====
-- crates/pkdump-core/src/query/parser.rs: recursive descent over the tokens. The `Parser`'s `pos`
-- is the list of the tokens from it on; `registry` and `eof` do not change.
pub mod Grammar
pub mod Sound
pub mod Complete
pub mod Normal
pub mod Print
use pokedumpster.Base.{
  Text, codes, eq_ignore_ascii_case, byte_len, ℕ, zero, suc, ◌+◌, ◌*◌, Bool, true, false, Option,
  none, some, [], ◌∷◌, ◌++◌, length, if◌then◌else◌,
}
use pokedumpster.Query.Ast.{
  Op, as_str, Ast, Asts, and, or, not, comparison, name_search, exact_name, nil, cons, push,
}
use pokedumpster.Query.Lexer.{Tok, lparen, rparen, negate, keyword, value, word, Tokens, tokenize}
use pokedumpster.Query.Outcome.{Outcome, ok, out_of_fuel, fail, ◌>>=◌}
use pokedumpster.Query.Registry.{KeywordRegistry, resolve}

-- `Parser::is_word`.
unfoldable pub is_word : Text → Tokens → Bool
is_word kw ((word w, pos) ∷ ts) = eq_ignore_ascii_case w kw
is_word kw _ = false

-- Where the loop of `parse_and` breaks.
unfoldable pub ends_and : Tokens → Bool
unfolding is_word
ends_and [] = true
ends_and ((rparen, pos) ∷ ts) = true
ends_and ts = is_word (codes "or") ts

-- The tree that `parse_or` makes of `left` and the next operand.
unfoldable pub join_or : Ast → Ast → Ast
unfolding push
join_or (or children) right = or (push children right)
join_or left right = or (cons left (cons right nil))

-- The result of `parse_and`.
unfoldable pub join_and : Asts → Ast
join_and (cons a nil) = a
join_and children = and children

unfoldable pub tok_text : Tok → Text
unfolding as_str
tok_text lparen = codes "("
tok_text rparen = codes ")"
tok_text negate = codes "-"
tok_text (Tok.exact_name s) = codes "!" ++ s
tok_text (keyword name op) = name ++ as_str op
tok_text (value s) = s
tok_text (word s) = s

-- What follows a token's consumption: `self.pos += 1`.
abbrev pub skip : Tokens → Tokens
skip [] = []
skip (t ∷ ts) = ts

abbrev pub Parsed : Type 0
Parsed = Outcome (Ast × Tokens)

-- The closing of a group that was opened at `pos`.
unfoldable pub close_group : ℕ → Ast × Tokens → Parsed
close_group pos (inner, (rparen, p) ∷ ts) = ok (inner, ts)
close_group pos (inner, ts) = fail (codes "missing closing parenthesis") pos

module _ (registry : KeywordRegistry) where
  abbrev finish_comparison : Text → Op → ℕ → Text → Tokens → Option Text → Parsed
  finish_comparison raw op kw_pos v ts none =
      fail (codes "unknown keyword: '" ++ (raw ++ codes "'")) kw_pos
  finish_comparison raw op kw_pos v ts (some canonical) = ok (comparison canonical op v, ts)

  -- `Parser::parse_comparison`, behind the keyword token.
  unfoldable pub parse_comparison : Text → Op → ℕ → Tokens → Parsed
  unfolding as_str
  parse_comparison raw op kw_pos ((value v, p) ∷ ts) =
      finish_comparison raw op kw_pos v ts (resolve registry raw)
  parse_comparison raw op kw_pos _ =
      fail (codes "expected a value after '" ++ (raw ++ (as_str op ++ codes "'"))) kw_pos

  module _ (eof : ℕ) where
    -- Each call costs a unit of fuel. `and_loop` and `or_loop` are the loops of `parse_and` and
    -- `parse_or`, over the children and the tree so far.
    unfoldable mutual
      pub parse_or : ℕ → Tokens → Parsed
      parse_or zero ts = out_of_fuel
      parse_or (suc f) ts = parse_and f ts >>= λ (left, rest). or_loop f left rest

      pub or_loop : ℕ → Ast → Tokens → Parsed
      or_loop zero left ts = out_of_fuel
      or_loop (suc f) left ts =
          let more =
            parse_and f (skip ts) >>= λ (right, rest). or_loop f (join_or left right) rest in
          if is_word (codes "or") ts then more else ok (left, ts)

      pub parse_and : ℕ → Tokens → Parsed
      parse_and zero ts = out_of_fuel
      parse_and (suc f) ts = parse_atom f ts >>= λ (a, rest). and_loop f (cons a nil) rest

      pub and_loop : ℕ → Asts → Tokens → Parsed
      and_loop zero children ts = out_of_fuel
      and_loop (suc f) children ts =
          let connector = and_loop f children (skip ts) in
          let more = parse_atom f ts >>= λ (a, rest). and_loop f (push children a) rest in
          if ends_and ts
          then ok (join_and children, ts)
          else if is_word (codes "and") ts
          then connector
          else more

      pub parse_atom : ℕ → Tokens → Parsed
      parse_atom zero ts = out_of_fuel
      parse_atom (suc f) [] = fail (codes "unexpected end of query") eof
      parse_atom (suc f) ((negate, pos) ∷ ts) = parse_atom f ts >>= λ (a, rest). ok (not a, rest)
      parse_atom (suc f) ((lparen, pos) ∷ ts) = parse_or f ts >>= close_group pos
      parse_atom (suc f) ((Tok.exact_name name, pos) ∷ ts) = ok (exact_name name, ts)
      parse_atom (suc f) ((keyword name op, pos) ∷ ts) = parse_comparison name op pos ts
      parse_atom (suc f) ((word w, pos) ∷ ts) = ok (name_search w, ts)
      parse_atom (suc f) ((value v, pos) ∷ ts) = ok (name_search v, ts)
      parse_atom (suc f) ((rparen, pos) ∷ ts) = fail (codes "unexpected ')'") pos

-- The end of `parse`: nothing may be left.
unfoldable pub finish : Ast × Tokens → Outcome Ast
unfolding tok_text
finish (ast, []) = ok ast
finish (ast, (kind, pos) ∷ ts) =
    fail (codes "unexpected token near '" ++ (tok_text kind ++ codes "'")) pos

-- The part of `parse` behind `tokenize`, with fuel for the recursion.
unfoldable pub parse_tokens : KeywordRegistry → ℕ → Tokens → Outcome Ast
unfolding finish
parse_tokens registry eof [] = fail (codes "empty search query") 0
parse_tokens registry eof (t ∷ ts) =
    parse_or registry eof (4 * length (t ∷ ts) + 4) (t ∷ ts) >>= finish

unfoldable pub parse : (ℕ → Bool) → Text → KeywordRegistry → Outcome Ast
parse is_alphabetic input registry =
    tokenize is_alphabetic input >>= parse_tokens registry (byte_len input)
