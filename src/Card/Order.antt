-- ===== src/Card/Order.antt =====
-- crates/pkdump-core/src/card.rs: where the sortable integers of the namespaces lie.
use pokedumpster.Base.{
  Text, codes, trim, trim-IsSolid, IsSolid, All-append, to_ascii_uppercase, to_ascii_uppercase_char,
  filter, is_ascii_digit, ℕ, ◌+◌, ◌^◌, ◌-◌, ◌≤◌, ◌<◌, ◌≡◌, refl, some, [], ◌∷◌, ◌++◌, length, arith,
  strip_prefix, is_whitespace,
}
use pokedumpster.Base.Digits.{AreDigits, AreDigits-IsSolid, value, digit_bounds}
use pokedumpster.Base.Parse.{parse_below-value}
use pokedumpster.Card.{pos, parse_i64, add_i64, find_namespace, number_sortable}

parse_i64-value :
    (s : Text) → AreDigits s → 1 ≤ length s → value s < 2 ^ 63 → parse_i64 s ≡ some (pos (value s))
unfolding parse_i64
parse_i64-value [] h l b = absurd (omega arith)
parse_i64-value (c ∷ s) h l b =
    let d = digit_bounds c h.0 in
    let p = parse_below-value (2 ^ 63 - 1) (c ∷ s) h l (omega (arith, b)) in ground arith

filter-AreDigits : (s : Text) → AreDigits s → filter is_ascii_digit s ≡ s
unfolding filter
filter-AreDigits [] h = refl
filter-AreDigits (c ∷ s) h = rw (h.0, filter-AreDigits s h.1) refl

upper-AreDigits : (s : Text) → AreDigits s → to_ascii_uppercase s ≡ s
unfolding to_ascii_uppercase to_ascii_uppercase_char is_ascii_digit
upper-AreDigits [] h = refl
upper-AreDigits (c ∷ s) h = ground (arith, upper-AreDigits s h.1)

-- A number of digits whose value is below 2^63 is sorted by its value.
pub number_sortable-value :
    (d : Text) → AreDigits d → 1 ≤ length d → value d < 2 ^ 63 → number_sortable d ≡ pos (value d)
unfolding number_sortable
number_sortable-value d h l b =
    rw (number_sortable, trim-IsSolid d (AreDigits-IsSolid d h), parse_i64-value d h l b) refl

-- The namespaces of the table.
pub data Namespace : Type 0 where
  swsh svp tg gg : Namespace

abbrev pub prefix_of : Namespace → Text
prefix_of swsh = codes "SWSH"
prefix_of svp = codes "SVP"
prefix_of tg = codes "TG"
prefix_of gg = codes "GG"

abbrev pub base_of : Namespace → ℕ
base_of swsh = 9000
base_of svp = 10000
base_of tg = 2000
base_of gg = 1000

prefix_of-IsSolid : (n : Namespace) → IsSolid (prefix_of n)
unfolding is_whitespace
prefix_of-IsSolid swsh = (refl, (refl, (refl, (refl, tt))))
prefix_of-IsSolid svp = (refl, (refl, (refl, tt)))
prefix_of-IsSolid tg = (refl, (refl, tt))
prefix_of-IsSolid gg = (refl, (refl, tt))

add_i64-value : (base v : ℕ) → base + v < 2 ^ 63 → add_i64 base (pos v) ≡ pos (base + v)
unfolding add_i64
add_i64-value base v h = ground arith

sortable :
    (n : Namespace) (d : Text)
    → AreDigits d
    → parse_i64 d ≡ some (pos (value d))
    → base_of n + value d < 2 ^ 63
    → trim (prefix_of n ++ d) ≡ prefix_of n ++ d
    → number_sortable (prefix_of n ++ d) ≡ pos (base_of n + value d)
unfolding number_sortable find_namespace strip_prefix to_ascii_uppercase to_ascii_uppercase_char
    is_ascii_digit parse_i64 add_i64
sortable swsh d h e b t =
    rw (number_sortable, t, upper-AreDigits d h, filter-AreDigits d h, e)
      (add_i64-value _ (value d) b)
sortable svp d h e b t =
    rw (number_sortable, t, upper-AreDigits d h, filter-AreDigits d h, e)
      (add_i64-value _ (value d) b)
sortable tg d h e b t =
    rw (number_sortable, t, upper-AreDigits d h, filter-AreDigits d h, e)
      (add_i64-value _ (value d) b)
sortable gg d h e b t =
    rw (number_sortable, t, upper-AreDigits d h, filter-AreDigits d h, e)
      (add_i64-value _ (value d) b)

-- A prefix of the table and digits are sorted by the prefix's base and the digits' value, as long as
-- the sum is an `i64`.
pub number_sortable-prefix_of :
    (n : Namespace) (d : Text)
    → AreDigits d
    → 1 ≤ length d
    → base_of n + value d < 2 ^ 63
    → number_sortable (prefix_of n ++ d) ≡ pos (base_of n + value d)
number_sortable-prefix_of n d h l b = sortable n d h (parse_i64-value d h l (omega arith)) b (
    trim-IsSolid (prefix_of n ++ d)
      (All-append _ (prefix_of n) d (prefix_of-IsSolid n) (AreDigits-IsSolid d h)))
