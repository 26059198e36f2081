-- ===== src/Tests/Card.antt =====
-- The sortable numbers of crates/pkdump-core/src/card.rs at fixed inputs.
use pokedumpster.Base.{
  codes, trim, trim_start, trim_end, is_whitespace, strip_prefix, to_ascii_uppercase,
  to_ascii_uppercase_char, filter, is_ascii_digit, ◌≡◌, refl, ◌++◌, ◌+◌, arith,
}
use pokedumpster.Base.Digits.{value}
use pokedumpster.Base.Parse.{parse_below, parse_digits}
use pokedumpster.Card.{pos, neg, negsuc, number_sortable, find_namespace, parse_i64, add_i64}
use pokedumpster.Card.Order.{number_sortable-value, number_sortable-prefix_of, tg, prefix_of}

lowercase_prefix : number_sortable (codes " svp7") ≡ pos 10007
unfolding number_sortable find_namespace parse_i64 add_i64 parse_below parse_digits trim trim_start
    trim_end is_whitespace strip_prefix to_ascii_uppercase to_ascii_uppercase_char filter
    is_ascii_digit neg
lowercase_prefix = refl

unknown : number_sortable (codes "XY-P7") ≡ pos 900007
unfolding number_sortable find_namespace parse_i64 add_i64 parse_below parse_digits trim trim_start
    trim_end is_whitespace strip_prefix to_ascii_uppercase to_ascii_uppercase_char filter
    is_ascii_digit neg
unknown = refl

past_unknown : number_sortable (codes "SWSH999999") ≡ pos 1008999
unfolding number_sortable find_namespace parse_i64 add_i64 parse_below parse_digits trim trim_start
    trim_end is_whitespace strip_prefix to_ascii_uppercase to_ascii_uppercase_char filter
    is_ascii_digit neg
past_unknown = refl

wrapped : number_sortable (codes "SWSH9223372036854775807") ≡ negsuc 9223372036854766808
unfolding number_sortable find_namespace parse_i64 add_i64 parse_below parse_digits trim trim_start
    trim_end is_whitespace strip_prefix to_ascii_uppercase to_ascii_uppercase_char filter
    is_ascii_digit neg
wrapped = refl

number_sortable-value_example : number_sortable (codes "019") ≡ pos (value (codes "019"))
unfolding is_ascii_digit
number_sortable-value_example =
    number_sortable-value (codes "019") (refl, (refl, (refl, tt))) (omega arith) (omega arith)

number_sortable-prefix_of_example :
    number_sortable (prefix_of tg ++ codes "30") ≡ pos (2000 + value (codes "30"))
unfolding is_ascii_digit
number_sortable-prefix_of_example =
    number_sortable-prefix_of tg (codes "30") (refl, (refl, tt)) (omega arith) (omega arith)
