-- ===== src/Tests/Natural.antt =====
-- The natural order of crates/pkdump-core/src/natural.rs at fixed inputs.
use Prim.Native.Nat.{compare, Ordering}
use pokedumpster.Base.{
  Text, codes, is_ascii_digit, to_ascii_lowercase_char, ℕ, ◌≡◌, refl, [], ◌∷◌, ◌++◌, arith,
}
use pokedumpster.Base.Digits.{value, strip_zeros, compare_digits}
use pokedumpster.Base.Order.{IsOrder, lex}
use pokedumpster.Natural.{natural_cmp, compare_chunk, zip_compare, chunks}
use pokedumpster.Natural.Laws.{natural_cmp-IsOrder, natural_cmp-numbers}

abbrev lowercase : ℕ → Text
lowercase c = to_ascii_lowercase_char c ∷ []

packs : natural_cmp lowercase (codes "pack 2") (codes "Pack 10") ≡ Ordering.lt
unfolding natural_cmp zip_compare compare_chunk chunks compare_digits strip_zeros lex is_ascii_digit
    to_ascii_lowercase_char
packs = refl

natural_cmp-IsOrder_example : IsOrder (natural_cmp lowercase)
natural_cmp-IsOrder_example = natural_cmp-IsOrder lowercase

natural_cmp-numbers_example :
    natural_cmp lowercase (codes "Pack " ++ codes "02") (codes "Pack " ++ codes "10")
    ≡ compare (value (codes "02")) (value (codes "10"))
unfolding is_ascii_digit
natural_cmp-numbers_example =
    natural_cmp-numbers lowercase (codes "Pack") b' ' (codes "02") (codes "10") refl
      (refl, (refl, tt)) (refl, (refl, tt)) (omega arith) (omega arith)
