-- ===== src/Variant.antt =====
-- crates/pkdump-core/src/variant.rs: variant codes from product names, and the overlay's predicates.
-- `str::to_lowercase` is the parameter that the import parsers have too.
use pokedumpster.Base.{
  Text, codes, trim, contains, split_once, equal, rsplit_once, any, all, byte_len, is_ascii_digit,
  is_empty, ℕ, zero, suc, ◌+◌, Bool, true, false, not, ◌&&◌, ◌||◌, Option, none, some, List, [],
  ◌∷◌, length, leb, ◌==◌, if◌then◌else◌,
}
use pokedumpster.Import.Unicode.{Unicode}
pub mod Stamps
pub mod Treatments
pub mod Overrides

-- The text inside one parenthesis, in lower case, to a treatment.
unfoldable pub treatment_for : Text → Option Text
unfolding contains
treatment_for inner =
    if contains (codes "master ball") inner
    then some (codes "masterball_rh")
    else if contains (codes "quick ball") inner
    then some (codes "quickball_rh")
    else if contains (codes "dusk ball") inner
    then some (codes "duskball_rh")
    else if contains (codes "love ball") inner
    then some (codes "loveball_rh")
    else if contains (codes "friend ball") inner
    then some (codes "friendball_rh")
    else if contains (codes "poke ball") inner || contains (codes "poké ball") inner
    then some (codes "pokeball_rh")
    else if contains (codes "energy symbol") inner
    then some (codes "energy_symbol_rh")
    else if contains (codes "team rocket") inner
    then some (codes "team_rocket_rh")
    else if contains (codes "reverse cosmos") inner
    then some (codes "reverse_cosmos_holo")
    else if contains (codes "pixel") inner
    then some (codes "pixel_holo")
    else if contains (codes "cosmo holo") inner || contains (codes "cosmos holo") inner
    then some (codes "cosmos_holo")
    else if contains (codes "cosmo foil") inner || contains (codes "cosmos foil") inner
    then some (codes "cosmos_foil")
    else if contains (codes "water web") inner
    then some (codes "water_web_holo")
    else if contains (codes "sheen holo") inner
    then some (codes "sheen_holo")
    else if contains (codes "mirage holo") inner
    then some (codes "mirage_holo")
    else if contains (codes "mirror holo") inner
    then some (codes "mirror_holo")
    else if contains (codes "line holo") inner
    then some (codes "line_holo")
    else if contains (codes "sparkle holo") inner
    then some (codes "sparkle_holo")
    else if contains (codes "energy holo") inner
    then some (codes "energy_holo")
    else if contains (codes "metal card") inner
    then some (codes "metal_card")
    else if contains (codes "cracked ice") inner
    then some (codes "cracked_ice_holo")
    else if contains (codes "peelable ditto") inner
    then some (codes "peelable_ditto")
    else if contains (codes "black dot error") inner
    then some (codes "black_dot_error")
    else none

abbrev pub or_rest : Option Text → Option Text → Option Text
or_rest none next = next
or_rest (some v) next = some v

-- The loop over the parentheses. Each round takes a shorter rest, so the length of the text is fuel
-- enough.
unfoldable pub scan_groups : ℕ → Text → Option Text
unfolding split_once treatment_for
scan_groups zero rest = none
scan_groups (suc fuel) rest = elim (split_once (codes "(") rest) [
  | none ↦ none
  | some (before, after) ↦ elim (split_once (codes ")") after) [
    | none ↦ none
    | some (inner, behind) ↦ or_rest (treatment_for (trim inner)) (scan_groups fuel behind)
  ]
]

unfoldable pub variant_from_product_name : Unicode → Text → Option Text
unfolding scan_groups
variant_from_product_name u name = let lower = u.lowercase name in scan_groups (length lower) lower

unfoldable pub is_collector_number_token : Text → Bool
unfolding contains any all
is_collector_number_token tok =
    let has_digit = any is_ascii_digit tok in
    let slash_or_all_digits = contains (codes "/") tok || all is_ascii_digit tok in
    has_digit && (slash_or_all_digits && not (is_empty tok))

-- What stands before the first occurrence of `p`, or all of the text.
abbrev before_of : Text → Option (Text × Text) → Text
before_of s none = s
before_of s (some (before, after)) = before

abbrev without_number : Text → Option (Text × Text) → Text
without_number name none = name
without_number name (some (head, last)) = if is_collector_number_token last then trim head else name

unfoldable pub parse_product_card_name : Text → Text
unfolding split_once is_collector_number_token
parse_product_card_name product_name =
    let dash = before_of product_name (split_once (codes " - ") product_name) in
    let paren = before_of product_name (split_once (codes " (") product_name) in
    let name = trim (if leb (byte_len dash) (byte_len paren) then dash else paren) in
    without_number name (rsplit_once b' ' name)

-- The predicate part of an overlay rule.
pub record OverrideMatch : Type 0 where
  pub set : Option Text
  pub rarity : Option (List Text)
  pub number : Option Text

pub record VariantOverride : Type 0 where
  pub match_ : OverrideMatch
  pub add : List Text
  pub remove : List Text
  pub comment : Option Text

abbrev pub matches_text : Option Text → Text → Bool
matches_text none t = true
matches_text (some s) t = equal s t

abbrev pub member : Text → List Text → Bool
member r [] = false
member r (x ∷ xs) = equal x r || member r xs

abbrev pub matches_rarity : Option (List Text) → Option Text → Bool
matches_rarity none rarity = true
matches_rarity (some rarities) none = false
matches_rarity (some rarities) (some r) = member r rarities

-- `OverrideMatch::matches`.
unfoldable pub matches : OverrideMatch → Text → Option Text → Text → Bool
unfolding equal
matches m set_code rarity number =
    if not (matches_text m.set set_code)
    then false
    else if not (matches_text m.number number)
    then false
    else matches_rarity m.rarity rarity
