-- ===== src/Base/Digits.antt =====
-- Runs of ASCII digits: their value, their padding with zeros, and their comparison.
use Prim.Native.Nat.{ℕ, zero, suc, ◌+◌, ◌-◌, ◌*◌, ◌≤◌, ◌<◌, compare, Ordering}
use mathlib.Core.Path.{◌≡◌, refl, ◌∙◌}
use mathlib.Core.Logic.{◌⊎◌, inl, inr}
use mathlib.Core.Bool.{true, false}
use mathlib.Core.List.{[], ◌∷◌}
use native.Mathlib.Omega.{arith}
use pokedumpster.Base.Tests.{◌==◌, if◌then◌else◌, Bool-cases}
use pokedumpster.Base.Chars.{is_ascii_digit, is_whitespace}
use pokedumpster.Base.Lists.{length, All}
use pokedumpster.Base.Strings.{Text, IsSolid}
use pokedumpster.Base.Order.{lex, then_with}

-- All characters are digits.
abbrev pub AreDigits : Text → Type 0
AreDigits s = All (λ c. is_ascii_digit c ≡ true) s

abbrev pub pow10 : ℕ → ℕ
pow10 zero = 1
pow10 (suc n) = 10 * pow10 n

-- The number that a run of digits stands for.
abbrev pub value : Text → ℕ
value [] = 0
value (d ∷ ds) = (d - 48) * pow10 (length ds) + value ds

-- `trim_start_matches('0')`.
unfoldable pub strip_zeros : Text → Text
strip_zeros [] = []
strip_zeros (c ∷ cs) = let rest = strip_zeros cs in if c == b'0' then rest else c ∷ cs

pub pow10_pos : (n : ℕ) → 0 < pow10 n
pow10_pos zero = omega arith
pow10_pos (suc n) = omega (arith, pow10_pos n)

pub digit_bounds : (c : ℕ) → is_ascii_digit c ≡ true → (48 ≤ c) × (c ≤ 57)
unfolding is_ascii_digit
digit_bounds c h = ground arith

digit-space : (c : ℕ) → is_ascii_digit c ≡ true → is_whitespace c ≡ false
unfolding is_whitespace is_ascii_digit
digit-space c h = ground arith

pub AreDigits-IsSolid : (s : Text) → AreDigits s → IsSolid s
AreDigits-IsSolid [] h = tt
AreDigits-IsSolid (c ∷ s) h = (digit-space c h.0, AreDigits-IsSolid s h.1)

pub value-lt-pow10 : (s : Text) → AreDigits s → value s < pow10 (length s)
value-lt-pow10 [] h = omega arith
value-lt-pow10 (d ∷ ds) h =
    let b = digit_bounds d h.0 in grind (arith, value-lt-pow10 ds h.1, pow10_pos (length ds))

pub value-strip_zeros : (s : Text) → value (strip_zeros s) ≡ value s
unfolding strip_zeros
value-strip_zeros [] = refl
value-strip_zeros (c ∷ cs) = elim (Bool-cases (c == b'0')) [
  | inl e ↦ rw e (value-strip_zeros cs ∙ (let z : c ≡ 48 = ground arith in rw z (omega arith)))
  | inr e ↦ rw e
]

pub strip_zeros-AreDigits : (s : Text) → AreDigits s → AreDigits (strip_zeros s)
unfolding strip_zeros
strip_zeros-AreDigits [] h = tt
strip_zeros-AreDigits (c ∷ cs) h = elim (Bool-cases (c == b'0')) [
  | inl e ↦ rw e (strip_zeros-AreDigits cs h.1)
  | inr e ↦ rw e h
]

-- No leading zero.
abbrev pub IsUnpadded : Text → Type 0
IsUnpadded [] = Unit
IsUnpadded (c ∷ cs) = c == b'0' ≡ false

pub strip_zeros-IsUnpadded : (s : Text) → IsUnpadded (strip_zeros s)
unfolding strip_zeros
strip_zeros-IsUnpadded [] = tt
strip_zeros-IsUnpadded (c ∷ cs) = elim (Bool-cases (c == b'0')) [
  | inl e ↦ rw e (strip_zeros-IsUnpadded cs)
  | inr e ↦ rw (e, strip_zeros) e
]

-- A run without a leading zero has the value of its length at least.
pub pow10-le-value :
    (c : ℕ) (cs : Text)
    → AreDigits (c ∷ cs)
    → IsUnpadded (c ∷ cs)
    → pow10 (length cs) ≤ value (c ∷ cs)
pow10-le-value c cs h u =
    let b = digit_bounds c h.0 in
    let n : 1 ≤ c - 48 = ground arith in grind (arith, pow10_pos (length cs))

-- How natural.rs compares two runs: without their leading zeros, the shorter first, then by text.
unfoldable pub compare_digits : Text → Text → Ordering
unfolding lex
compare_digits p q = then_with (compare (length p) (length q)) (lex compare p q)

digit_lt : (a b P v w : ℕ) → a < b → v < P → a * P + v < b * P + w
digit_lt a b P v w h k = let m : (a + 1) * P ≤ b * P = grind arith in omega arith

compare_trichotomy : (a b : ℕ) → (a < b) ⊎ ((a ≡ b) ⊎ (b < a))
compare_trichotomy a b = grind arith

lt→compare : (a b : ℕ) → a < b → compare a b ≡ Ordering.lt
lt→compare a b h = ground arith

gt→compare : (a b : ℕ) → b < a → compare a b ≡ Ordering.gt
gt→compare a b h = ground arith

compare-add_left : (k a b : ℕ) → compare (k + a) (k + b) ≡ compare a b
compare-add_left k a b = ground arith

leading_digit :
    (c d P v w : ℕ)
    → 48 ≤ c
    → 48 ≤ d
    → v < P
    → w < P
    → then_with (compare c d) (compare v w) ≡ compare ((c - 48) * P + v) ((d - 48) * P + w)
leading_digit c d P v w hc hd hv hw = elim (compare_trichotomy c d) [
  | inl lt ↦
      rw (lt→compare c d lt, lt→compare _ _ (digit_lt (c - 48) (d - 48) P v w (omega arith) hv))
  | inr (inl e) ↦ rw (e, compare-add_left) (ground arith)
  | inr (inr gt) ↦
      rw (gt→compare c d gt, gt→compare _ _ (digit_lt (d - 48) (c - 48) P w v (omega arith) hw))
]

lex-value :
    (p q : Text)
    → AreDigits p
    → AreDigits q
    → length p ≡ length q
    → lex compare p q ≡ compare (value p) (value q)
unfolding lex
lex-value [] [] hp hq e = refl
lex-value [] (d ∷ q) hp hq e = absurd (omega arith)
lex-value (c ∷ p) [] hp hq e = absurd (omega arith)
lex-value (c ∷ p) (d ∷ q) hp hq e =
    let same : length p ≡ length q = omega arith in
    let w : value q < pow10 (length p) = rw same (value-lt-pow10 q hq.1) in
    rw (lex-value p q hp.1 hq.1 same, ← same)
      (leading_digit c d (pow10 (length p)) (value p) (value q) (digit_bounds c hp.0).0
        (digit_bounds d hq.0).0 (value-lt-pow10 p hp.1) w)

pow10_mono : (m n : ℕ) → m ≤ n → pow10 m ≤ pow10 n
pow10_mono zero n h = pow10_pos n
pow10_mono (suc m) zero h = absurd (omega arith)
pow10_mono (suc m) (suc n) h = omega (arith, pow10_mono m n (omega arith))

-- Of two runs without leading zeros, the shorter has the smaller value.
shorter-value :
    (p q : Text)
    → AreDigits p
    → AreDigits q
    → IsUnpadded q
    → length p < length q
    → value p < value q
shorter-value p [] hp hq u h = absurd (omega arith)
shorter-value p (d ∷ q) hp hq u h = omega (
  arith,
  value-lt-pow10 p hp,
  pow10_mono (length p) (length q) (omega arith),
  pow10-le-value d q hq u,
)

-- Without leading zeros, the order by length and then by text is the order by value.
pub compare_digits-value :
    (p q : Text)
    → AreDigits p
    → AreDigits q
    → IsUnpadded p
    → IsUnpadded q
    → compare_digits p q ≡ compare (value p) (value q)
unfolding compare_digits
compare_digits-value p q hp hq up uq = elim (compare_trichotomy (length p) (length q)) [
  | inl lt ↦
      rw (lt→compare (length p) (length q) lt, lt→compare _ _ (shorter-value p q hp hq uq lt))
  | inr (inl e) ↦ rw (lex-value p q hp hq e) (ground arith)
  | inr (inr gt) ↦
      rw (gt→compare (length p) (length q) gt, gt→compare _ _ (shorter-value q p hq hp up gt))
]

lex-eq : (p q : Text) → lex compare p q ≡ Ordering.eq → p ≡ q
unfolding lex
lex-eq [] [] h = refl
lex-eq [] (d ∷ q) h = cc
lex-eq (c ∷ p) [] h = cc
lex-eq (c ∷ p) (d ∷ q) h = ground (arith, lex-eq p q)

-- A number has one writing without leading zeros.
pub value-injective :
    (p q : Text)
    → AreDigits p
    → AreDigits q
    → IsUnpadded p
    → IsUnpadded q
    → value p ≡ value q
    → p ≡ q
unfolding compare_digits
value-injective p q hp hq up uq e =
    lex-eq p q (ground (arith, compare_digits-value p q hp hq up uq))
