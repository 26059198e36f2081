-- ===== src/Base/Chars.antt =====
-- Characters as code points, with the tests of Rust's `char` that the program uses.
use Prim.Native.Nat.{ℕ, ◌+◌, ◌-◌, ◌≤◌}
use mathlib.Core.Path.{◌≡◌}
use mathlib.Core.Bool.{Bool, ◌&&◌, ◌||◌}
use native.Mathlib.Omega.{arith}
use pokedumpster.Base.Tests.{leb, ltb, ◌==◌, if◌then◌else◌}

abbrev within : ℕ → ℕ → ℕ → Bool
within lo hi c = leb lo c && leb c hi

-- `char::is_ascii_digit` and its companions.
unfoldable pub is_ascii_digit : ℕ → Bool
is_ascii_digit c = within b'0' b'9' c

unfoldable pub is_ascii_alphabetic : ℕ → Bool
is_ascii_alphabetic c = within b'a' b'z' c || within b'A' b'Z' c

unfoldable pub is_ascii_alphanumeric : ℕ → Bool
unfolding is_ascii_digit is_ascii_alphabetic
is_ascii_alphanumeric c = is_ascii_alphabetic c || is_ascii_digit c

unfoldable pub to_ascii_lowercase_char : ℕ → ℕ
to_ascii_lowercase_char c = if within b'A' b'Z' c then c + 32 else c

unfoldable pub to_ascii_uppercase_char : ℕ → ℕ
to_ascii_uppercase_char c = if within b'a' b'z' c then c - 32 else c

-- `char::is_whitespace`: the code points with the Unicode property White_Space.
unfoldable pub is_whitespace : ℕ → Bool
is_whitespace c =
    within 9 13 c
    || c == 32
    || c == 0x85
    || c == 0xa0
    || c == 0x1680
    || within 0x2000 0x200a c
    || c == 0x2028
    || c == 0x2029
    || c == 0x202f
    || c == 0x205f
    || c == 0x3000

-- `char::len_utf8`.
unfoldable pub len_utf8 : ℕ → ℕ
len_utf8 c = if ltb c 0x80 then 1 else if ltb c 0x800 then 2 else if ltb c 0x10000 then 3 else 4

pub len_utf8_pos : (c : ℕ) → 1 ≤ len_utf8 c
unfolding len_utf8
len_utf8_pos c = ground arith

pub to_ascii_lowercase_char_idem :
    (c : ℕ) → to_ascii_lowercase_char (to_ascii_lowercase_char c) ≡ to_ascii_lowercase_char c
unfolding to_ascii_lowercase_char
to_ascii_lowercase_char_idem c = ground arith

pub to_ascii_lowercase_char-to_ascii_uppercase_char :
    (c : ℕ) → to_ascii_lowercase_char (to_ascii_uppercase_char c) ≡ to_ascii_lowercase_char c
unfolding to_ascii_lowercase_char to_ascii_uppercase_char
to_ascii_lowercase_char-to_ascii_uppercase_char c = ground arith
