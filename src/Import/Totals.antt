-- ===== src/Import/Totals.antt =====
-- crates/pkdump-core/src/import/collectr.rs: collector numbers that are written `number/total`.
use pokedumpster.Base.{
  Text, trim, trim_start, trim_end, IsSolid, trim-IsSolid, before_first, rsplit_once, is_whitespace,
  is_ascii_digit, ◌≡◌, refl, true, false, none, [], ◌∷◌, ◌++◌, arith, ◌==◌,
}
use pokedumpster.Base.Digits.{AreDigits, AreDigits-IsSolid}
use pokedumpster.Import.Collectr.{normalize_number}
use pokedumpster.Import.Values.{normalize_collector_number}

slash-solid : is_whitespace b'/' ≡ false
unfolding is_whitespace
slash-solid = refl

trim_end-slash : (d x : Text) → IsSolid d → trim_end (d ++ (b'/' ∷ x)) ≡ d ++ (b'/' ∷ trim_end x)
unfolding trim_end
trim_end-slash [] x h = rw slash-solid refl
trim_end-slash (c ∷ d) x h = rw (h.0, trim_end-slash d x h.1) refl

trim_start-slash : (d x : Text) → IsSolid d → trim_start (d ++ (b'/' ∷ x)) ≡ d ++ (b'/' ∷ x)
unfolding trim_start
trim_start-slash [] x h = rw slash-solid refl
trim_start-slash (c ∷ d) x h = rw (h.0) refl

trim-slash : (d x : Text) → IsSolid d → trim (d ++ (b'/' ∷ x)) ≡ d ++ (b'/' ∷ trim_end x)
unfolding trim
trim-slash d x h = rw (trim_start-slash d x h) (trim_end-slash d x h)

digit-slash : (c : _) → is_ascii_digit c ≡ true → (c == b'/') ≡ false
unfolding is_ascii_digit
digit-slash c h = ground arith

digit-blank : (c : _) → is_ascii_digit c ≡ true → (c == b' ') ≡ false
unfolding is_ascii_digit
digit-blank c h = ground arith

before_first-digits : (d x : Text) → AreDigits d → before_first b'/' (d ++ (b'/' ∷ x)) ≡ d
unfolding before_first
before_first-digits [] x h = refl
before_first-digits (c ∷ d) x h = rw (digit-slash c h.0, before_first-digits d x h.1) refl

rsplit_once-digits : (d : Text) → AreDigits d → rsplit_once b' ' d ≡ none
unfolding rsplit_once
rsplit_once-digits [] h = refl
rsplit_once-digits (c ∷ d) h = rw (rsplit_once-digits d h.1, digit-blank c h.0) refl

-- A number of digits with a total behind it, whatever the total is, has the canonical form of the number.
pub normalize_number-total :
    (d total : Text)
    → AreDigits d
    → normalize_number (d ++ (b'/' ∷ total)) ≡ normalize_collector_number d
unfolding normalize_number
normalize_number-total d total h =
    let solid = AreDigits-IsSolid d h in
    rw
      (
        normalize_number,
        trim-slash d total solid,
        before_first-digits d (trim_end total) h,
        trim-IsSolid d solid,
        rsplit_once-digits d h,
      )
      (rw (trim-IsSolid d solid) refl)
