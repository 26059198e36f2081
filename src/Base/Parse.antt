-- ===== src/Base/Parse.antt =====
-- `str::parse` for whole numbers.
use Prim.Native.Nat.{ℕ, ◌+◌, ◌-◌, ◌*◌, ◌^◌, ◌≤◌}
use mathlib.Core.Path.{◌≡◌, ap}
use mathlib.Core.Option.{Option, none, some}
use mathlib.Core.List.{[], ◌∷◌}
use native.Mathlib.Omega.{arith}
use pokedumpster.Base.Tests.{◌==◌, leb, if◌then◌else◌}
use pokedumpster.Base.Chars.{is_ascii_digit}
use pokedumpster.Base.Lists.{length}
use pokedumpster.Base.Strings.{Text}
use pokedumpster.Base.Digits.{AreDigits, value, pow10}

-- The digits of a number, from the left; `none` at a character that is no digit.
unfoldable pub parse_digits : ℕ → Text → Option ℕ
parse_digits n [] = some n
parse_digits n (c ∷ cs) =
    let rest = parse_digits (n * 10 + (c - 48)) cs in if is_ascii_digit c then rest else none

abbrev at_most : ℕ → Option ℕ → Option ℕ
at_most limit none = none
at_most limit (some n) = if leb n limit then some n else none

-- A number of at most `limit`, of one digit at least.
unfoldable pub parse_below : ℕ → Text → Option ℕ
unfolding parse_digits
parse_below limit [] = none
parse_below limit (c ∷ cs) = at_most limit (parse_digits 0 (c ∷ cs))

-- `str::parse::<u32>`: a sign `+` may stand in front.
unfoldable pub parse_u32 : Text → Option ℕ
unfolding parse_below
parse_u32 [] = none
parse_u32 (c ∷ cs) =
    if c == b'+' then parse_below (2 ^ 32 - 1) cs else parse_below (2 ^ 32 - 1) (c ∷ cs)

parse_digits-value :
    (n : ℕ) (s : Text) → AreDigits s → parse_digits n s ≡ some (n * pow10 (length s) + value s)
unfolding parse_digits
parse_digits-value n [] h = ap some (omega arith)
parse_digits-value n (c ∷ s) h =
    rw (h.0, parse_digits-value (n * 10 + (c - 48)) s h.1) (ap some (grind arith))

pub parse_below-value :
    (limit : ℕ) (s : Text)
    → AreDigits s
    → 1 ≤ length s
    → value s ≤ limit
    → parse_below limit s ≡ some (value s)
unfolding parse_below
parse_below-value limit [] h l b = absurd (omega arith)
parse_below-value limit (c ∷ s) h l b =
    rw (parse_below, parse_digits-value 0 (c ∷ s) h) (ground arith)
