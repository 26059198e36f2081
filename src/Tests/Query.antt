-- ===== src/Tests/Query.antt =====
-- The query language of crates/pkdump-core/src/query at fixed inputs.
use pokedumpster.Base.{
  Text, codes, byte_len, len_utf8, is_ascii_alphabetic, is_whitespace, is_ascii_alphanumeric, equal,
  to_ascii_lowercase, eq_ignore_ascii_case, ◌≤◌, ◌<◌, ◌≡◌, ◌↔◌, refl, true, none, some, List, [],
  ◌∷◌, arith, is_some,
}
use pokedumpster.Query.Ast.{
  Ast, and, or, not, comparison, name_search, exact_name, nil, cons, contains, ge, len,
}
use pokedumpster.Query.Correct.{parse-eq-ok_iff, parse-Ensures, parse-render}
use pokedumpster.Query.Lexer.{Tok, Tokens, tokenize, lparen, rparen, word}
use pokedumpster.Query.Lexer.Places.{IsLaid, IsPaired, tokenize-Ensures}
use pokedumpster.Query.Lexer.Render.{render, place, tokenize-render}
use pokedumpster.Query.Outcome.{ok, fail, Ensures}
use pokedumpster.Query.Parser.{parse, parse_tokens, is_word, ends_and, join_or, join_and}
use pokedumpster.Query.Parser.Grammar.{IsOr}
use pokedumpster.Query.Parser.Normal.{IsNormal}
use pokedumpster.Query.Parser.Print.{operand}
use pokedumpster.Query.Registry.{KeywordDef, KeywordRegistry, def_new, registry_new, resolve, get}
use pokedumpster.Query.Registry.Resolve.{last_named, resolve-registry_new, resolve-get, get-resolve}

abbrev defs : List KeywordDef
defs =
    def_new (codes "energy_type") (codes "t" ∷ codes "type" ∷ [])
    ∷ def_new (codes "hp") (codes "hp" ∷ [])
    ∷ []

abbrev keywords : KeywordRegistry
keywords = registry_new defs

abbrev query : Text
query = codes "(t:fire or -TYPE:water) hp>=100"

abbrev fire : Ast
fire = comparison (codes "energy_type") contains (codes "fire")

abbrev water : Ast
water = comparison (codes "energy_type") contains (codes "water")

abbrev tree : Ast
tree = and (
    cons (or (cons fire (cons (not water) nil)))
      (cons (comparison (codes "hp") ge (codes "100")) nil))

parse-query : parse is_ascii_alphabetic query keywords ≡ ok tree
unfolding parse tokenize parse_tokens is_ascii_alphabetic is_whitespace is_ascii_alphanumeric
    len_utf8 resolve registry_new def_new equal to_ascii_lowercase is_word ends_and join_or join_and
    eq_ignore_ascii_case byte_len pokedumpster.Query.Parser.parse_or
    pokedumpster.Query.Parser.close_group pokedumpster.Query.Parser.parse_comparison
parse-query = refl

unknown_keyword :
    parse is_ascii_alphabetic (codes "t:fire bogus:1") keywords
    ≡ fail (codes "unknown keyword: 'bogus'") 7
unfolding parse tokenize parse_tokens is_ascii_alphabetic is_whitespace is_ascii_alphanumeric
    len_utf8 resolve registry_new def_new equal to_ascii_lowercase is_word ends_and join_or join_and
    eq_ignore_ascii_case byte_len pokedumpster.Query.Parser.parse_or
    pokedumpster.Query.Parser.close_group pokedumpster.Query.Parser.parse_comparison
unknown_keyword = refl

-- A `-` in front of an exact name does not negate it.
negated_exact_name :
    parse is_ascii_alphabetic (codes "-!pikachu") keywords ≡ ok (name_search (codes "-!pikachu"))
unfolding parse tokenize parse_tokens is_ascii_alphabetic is_whitespace is_ascii_alphanumeric
    len_utf8 is_word ends_and join_or join_and eq_ignore_ascii_case byte_len
    pokedumpster.Query.Parser.parse_or
negated_exact_name = refl

parse-eq-ok_iff_example :
    (parse is_ascii_alphabetic query keywords ≡ ok tree)
    ↔ ((ts : Tokens) × (tokenize is_ascii_alphabetic query ≡ ok ts) × IsOr keywords ts tree [])
parse-eq-ok_iff_example = parse-eq-ok_iff is_ascii_alphabetic query keywords tree

parse-Ensures_example :
    Ensures
      (IsNormal keywords)
      (λ e. e.position ≤ byte_len query)
      (parse is_ascii_alphabetic query keywords)
parse-Ensures_example = parse-Ensures is_ascii_alphabetic query keywords

abbrev printed : Ast
printed = and (
    cons (or (cons (name_search (codes "ho-oh")) (cons (exact_name (codes "Mew ex")) nil)))
      (cons (not (comparison (codes "hp") ge (codes "100"))) nil))

parse-render_example : parse is_ascii_alphabetic (render (operand printed [])) keywords ≡ ok printed
unfolding resolve registry_new def_new equal to_ascii_lowercase eq_ignore_ascii_case
    is_ascii_alphabetic is_ascii_alphanumeric len
parse-render_example = parse-render is_ascii_alphabetic keywords printed (ground arith)

tokenize-Ensures_example :
    Ensures
      (λ ts. IsLaid 0 ts (byte_len query) × IsPaired ts)
      (λ e. e.position < byte_len query)
      (tokenize is_ascii_alphabetic query)
tokenize-Ensures_example = tokenize-Ensures is_ascii_alphabetic query

abbrev toks : List Tok
toks = lparen ∷ word (codes "a b") ∷ rparen ∷ []

tokenize-render_example : tokenize is_ascii_alphabetic (render toks) ≡ ok (place 0 toks)
tokenize-render_example = tokenize-render is_ascii_alphabetic toks (ground arith)

resolve-registry_new_example :
    resolve (registry_new defs) (codes "TYPE") ≡ last_named (codes "TYPE") defs none
resolve-registry_new_example = resolve-registry_new defs (codes "TYPE")

resolve-get_example :
    (d : KeywordDef) × (get (registry_new defs) (codes "hp") ≡ some d) × (d.canonical ≡ codes "hp")
unfolding resolve registry_new def_new equal to_ascii_lowercase
resolve-get_example = resolve-get defs (codes "HP") (codes "hp") refl

get-resolve_example :
    (resolve (registry_new defs) (codes "hp") ≡ some (codes "hp"))
    × (is_some (get (registry_new defs) (codes "hp")) ≡ true)
unfolding def_new
get-resolve_example =
    get-resolve (def_new (codes "energy_type") (codes "t" ∷ codes "type" ∷ []) ∷ [])
      (def_new (codes "hp") (codes "hp" ∷ [])) [] refl
