-- ===== src/Card.antt =====
-- crates/pkdump-core/src/card.rs: collector numbers as sortable integers. `str::parse::<i64>` and
-- `i64`'s `+` are the standard library's, the sum with the wrap-around of a release build.
use pokedumpster.Base.{
  Text, codes, trim, strip_prefix, to_ascii_uppercase, filter, is_ascii_digit, unwrap_or, ℕ, zero,
  suc, ◌+◌, ◌-◌, ◌*◌, ◌^◌, Bool, true, false, Option, none, some, List, [], ◌∷◌, ltb, leb, ◌==◌,
  if◌then◌else◌,
}
use pokedumpster.Base.Parse.{parse_below}
pub mod Order

pub data ℤ : Type 0 where
  pos : ℕ → ℤ
  negsuc : ℕ → ℤ

unfoldable pub neg : ℕ → ℤ
neg zero = pos 0
neg (suc n) = negsuc n

abbrev pub signed : (ℕ → ℤ) → Option ℕ → Option ℤ
signed f none = none
signed f (some n) = some (f n)

-- `str::parse::<i64>`, with its optional sign.
unfoldable pub parse_i64 : Text → Option ℤ
unfolding parse_below neg
parse_i64 [] = none
parse_i64 (c ∷ cs) =
    if c == b'-'
    then signed neg (parse_below (2 ^ 63) cs)
    else if c == b'+'
    then signed pos (parse_below (2 ^ 63 - 1) cs)
    else signed pos (parse_below (2 ^ 63 - 1) (c ∷ cs))

-- `base + v` on `i64`, for a base that is not negative.
unfoldable pub add_i64 : ℕ → ℤ → ℤ
add_i64 base (pos v) =
    if leb (base + v) (2 ^ 63 - 1) then pos (base + v) else negsuc (2 ^ 64 - 1 - (base + v))
add_i64 base (negsuc n) = if ltb n base then pos (base - suc n) else negsuc (n - base)

abbrev namespaces : List (Text × ℕ)
namespaces =
    (codes "SWSH", 9000) ∷ (codes "SVP", 10000) ∷ (codes "TG", 2000) ∷ (codes "GG", 1000) ∷ []

-- The number of the digits behind a prefix, if the prefix is there and the digits are a number.
abbrev pub offset : ℕ → Option ℤ → Option ℤ
offset base none = none
offset base (some v) = some (add_i64 base v)

abbrev pub numbered : ℕ → Option Text → Option ℤ
numbered base none = none
numbered base (some rest) = offset base (parse_i64 (filter is_ascii_digit rest))

abbrev pub or_next : Option ℤ → Option ℤ → Option ℤ
or_next none next = next
or_next (some v) next = some v

-- The loop over the prefixes.
unfoldable pub find_namespace : List (Text × ℕ) → Text → Option ℤ
unfolding parse_i64 add_i64
find_namespace [] upper = none
find_namespace ((prefix, base) ∷ rest) upper =
    or_next (numbered base (strip_prefix prefix upper)) (find_namespace rest upper)

unfoldable pub number_sortable : Text → ℤ
unfolding find_namespace parse_i64 add_i64
number_sortable number =
    let n = trim number in
    unwrap_or (parse_i64 n) (
      unwrap_or (find_namespace namespaces (to_ascii_uppercase n))
        (add_i64 900000 (unwrap_or (parse_i64 (filter is_ascii_digit n)) (pos 0))))
