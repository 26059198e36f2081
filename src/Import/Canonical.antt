-- ===== src/Import/Canonical.antt =====
-- crates/pkdump-core/src/import/mod.rs: conditions and collector numbers have one canonical form.
use pokedumpster.Base.{
  Text, codes, trim-IsSolid, equal, trim, trim_start, trim_end, all, strip_suffix, is_ascii_digit,
  to_ascii_lowercase, to_ascii_lowercase_char, is_whitespace, ◌≤◌, ◌≡◌, refl, sym, ap, ◌∙◌, ◌↔◌,
  true, [], ◌∷◌, length, arith, ltb,
}
use pokedumpster.Base.Digits.{
  AreDigits, AreDigits-IsSolid, value, strip_zeros, value-strip_zeros, strip_zeros-AreDigits,
  strip_zeros-IsUnpadded, value-injective, IsUnpadded,
}
use pokedumpster.Import.Values.{or_zero}
use pokedumpster.Import.Unicode.{Unicode, IsAscii}
use pokedumpster.Import.Placed.{IsTier}
use pokedumpster.Import.Values.{
  one_of, condition_tier, map_condition, normalize_collector_number, underscored, without_foil,
}

-- A property of the five tiers holds of what `condition_tier` gives.
condition_tier-cases :
    (P : Text → Type 0)
    → P (codes "Near Mint")
    → P (codes "Lightly Played")
    → P (codes "Moderately Played")
    → P (codes "Heavily Played")
    → P (codes "Damaged")
    → (c : Text) → P (condition_tier c)
unfolding condition_tier
condition_tier-cases P n l m h d c = ground arith

pub map_condition-IsTier : (u : Unicode) (s : Text) → IsTier (map_condition u s)
unfolding map_condition one_of equal
map_condition-IsTier u s =
    condition_tier-cases IsTier refl refl refl refl refl
      (underscored (without_foil (u.lowercase (trim s))))

all-IsAscii : (s : Text) → all (λ c. ltb c 128) s ≡ true → IsAscii s
unfolding all
all-IsAscii [] h = tt
all-IsAscii (c ∷ s) h = (ground arith, all-IsAscii s (ground arith))

fixed :
    (u : Unicode) (t : Text)
    → all (λ c. ltb c 128) (trim t) ≡ true
    → condition_tier (underscored (without_foil (to_ascii_lowercase (trim t)))) ≡ t
    → map_condition u t ≡ t
unfolding map_condition
fixed u t a e = rw (u.lowercase_ascii (trim t) (all-IsAscii (trim t) a)) e

-- `map_condition` keeps what it gives.
pub map_condition-map_condition :
    (u : Unicode) (s : Text) → map_condition u (map_condition u s) ≡ map_condition u s
unfolding map_condition trim trim_start trim_end all condition_tier one_of equal underscored
    strip_suffix to_ascii_lowercase to_ascii_lowercase_char is_whitespace
map_condition-map_condition u s =
    condition_tier-cases (λ t. map_condition u t ≡ t) (fixed u (codes "Near Mint") refl refl)
      (fixed u (codes "Lightly Played") refl refl) (fixed u (codes "Moderately Played") refl refl)
      (fixed u (codes "Heavily Played") refl refl) (fixed u (codes "Damaged") refl refl)
      (underscored (without_foil (u.lowercase (trim s))))

all-AreDigits : (s : Text) → AreDigits s → all is_ascii_digit s ≡ true
unfolding all
all-AreDigits [] h = refl
all-AreDigits (c ∷ s) h = rw (h.0, all-AreDigits s h.1) refl

normalize-digits :
    (s : Text) → AreDigits s → 1 ≤ length s → normalize_collector_number s ≡ or_zero (strip_zeros s)
unfolding normalize_collector_number
normalize-digits [] h l = absurd (omega arith)
normalize-digits (c ∷ s) h l =
    rw (trim-IsSolid (c ∷ s) (AreDigits-IsSolid (c ∷ s) h), all-AreDigits (c ∷ s) h) refl

or_zero-value : (s : Text) → value (or_zero s) ≡ value s
or_zero-value [] = refl
or_zero-value (c ∷ s) = refl

or_zero-injective : (s t : Text) → IsUnpadded s → IsUnpadded t → or_zero s ≡ or_zero t → s ≡ t
or_zero-injective [] [] hs ht e = refl
or_zero-injective [] (c ∷ t) hs ht e = ground arith
or_zero-injective (c ∷ s) [] hs ht e = ground arith
or_zero-injective (c ∷ s) (d ∷ t) hs ht e = e

-- Two numbers of digits have one canonical form exactly if they have one value, whatever zeros stand
-- in front.
pub normalize_collector_number-eq_iff :
    (s t : Text)
    → AreDigits s
    → AreDigits t
    → 1 ≤ length s
    → 1 ≤ length t
    → (normalize_collector_number s ≡ normalize_collector_number t) ↔ (value s ≡ value t)
normalize_collector_number-eq_iff s t hs ht ls lt =
    rw (normalize-digits s hs ls, normalize-digits t ht lt)
      (
        λ e.
            sym (value-strip_zeros s)
            ∙ ap value (
                or_zero-injective (strip_zeros s) (strip_zeros t) (strip_zeros-IsUnpadded s)
                  (strip_zeros-IsUnpadded t) e)
            ∙ value-strip_zeros t,
        λ e. ap or_zero (
            value-injective (strip_zeros s) (strip_zeros t) (strip_zeros-AreDigits s hs)
              (strip_zeros-AreDigits t ht) (strip_zeros-IsUnpadded s) (strip_zeros-IsUnpadded t)
              (value-strip_zeros s ∙ e ∙ sym (value-strip_zeros t))),
      )
