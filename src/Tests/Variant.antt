-- ===== src/Tests/Variant.antt =====
-- The product names of crates/pkdump-core/src/variant.rs at fixed inputs.
use pokedumpster.Base.{
  codes, to_ascii_lowercase, to_ascii_lowercase_char, to_ascii_uppercase_char, trim, trim_start,
  trim_end, is_whitespace, contains, split_once, strip_prefix, strip_suffix, ends_with, after_last,
  is_ascii_alphanumeric, is_ascii_digit, is_ascii_alphabetic, equal, rsplit_once, any, all, ◌≡◌,
  refl, ◌↔◌, none, some, [], ◌∷◌, true, byte_len, len_utf8,
}
use pokedumpster.Import.Unicode.{Unicode}
use pokedumpster.Variant.{
  OverrideMatch, matches, variant_from_product_name, scan_groups, treatment_for,
  parse_product_card_name, is_collector_number_token,
}
use pokedumpster.Variant.Overrides.{matches_iff, Agrees, AgreesRarity}
use pokedumpster.Variant.Stamps.{
  parse_stamp_tag, base_tag, append_role, fold_accents, last_group, plain_tag, keyword_tag,
  event_tag, strip_stamp_suffix, strip_one, to_snake, split_on, nonempty_pieces, join,
}
use pokedumpster.Variant.Stamps.Snake.{to_snake-IsSnake, IsSnake, parse_stamp_tag-IsTag, IsTag}
use pokedumpster.Variant.Treatments.{variant_from_product_name_iff, Picks}

abbrev ascii : Unicode
ascii = record {
  lowercase = to_ascii_lowercase;
  uppercase_char = λ c. to_ascii_uppercase_char c ∷ [];
  lowercase_ascii = λ s h. refl;
}

second_group :
    variant_from_product_name ascii (codes "Gengar (Costco) (Reverse Cosmos Holo)")
    ≡ some (codes "reverse_cosmos_holo")
unfolding variant_from_product_name scan_groups treatment_for contains split_once strip_prefix trim
    trim_start trim_end is_whitespace to_ascii_lowercase to_ascii_lowercase_char
second_group = refl

staff_bracket :
    parse_stamp_tag ascii (codes "Buck's Training - 130/146 (Prerelease) [Staff]")
    ≡ some (codes "stamp_prerelease_staff", none)
unfolding parse_stamp_tag base_tag append_role fold_accents last_group plain_tag keyword_tag
    event_tag strip_stamp_suffix strip_one to_snake split_on nonempty_pieces join contains
    split_once strip_prefix strip_suffix ends_with after_last trim trim_start trim_end is_whitespace
    to_ascii_lowercase to_ascii_lowercase_char equal is_ascii_alphanumeric is_ascii_digit
    is_ascii_alphabetic
staff_bracket = refl

card_name : parse_product_card_name (codes "Gengar 094/165 (Cosmos Holo)") ≡ codes "Gengar"
unfolding parse_product_card_name is_collector_number_token split_once strip_prefix trim trim_start
    trim_end is_whitespace rsplit_once any all contains is_ascii_digit byte_len len_utf8
card_name = refl

variant_from_product_name_iff_example :
    (variant_from_product_name ascii (codes "Mew (Pixel Holo)") ≡ some (codes "pixel_holo"))
    ↔ Picks (to_ascii_lowercase (codes "Mew (Pixel Holo)")) (some (codes "pixel_holo"))
variant_from_product_name_iff_example =
    variant_from_product_name_iff ascii (codes "Mew (Pixel Holo)") (some (codes "pixel_holo"))

to_snake-IsSnake_example : IsSnake (to_snake (codes "black - bolt!"))
to_snake-IsSnake_example = to_snake-IsSnake (codes "black - bolt!")

parse_stamp_tag-IsTag_example : IsTag (parse_stamp_tag ascii (codes "Ditto (SDCC Stamp)"))
parse_stamp_tag-IsTag_example = parse_stamp_tag-IsTag ascii (codes "Ditto (SDCC Stamp)")

abbrev rare_in_sv1 : OverrideMatch
rare_in_sv1 = record { set = some (codes "sv1"); rarity = some (codes "Rare" ∷ []); number = none }

matches_iff_example :
    (matches rare_in_sv1 (codes "sv1") (some (codes "Rare")) (codes "4") ≡ true) ↔ (
      Agrees rare_in_sv1.set (codes "sv1")
      × Agrees rare_in_sv1.number (codes "4")
      × AgreesRarity rare_in_sv1.rarity (some (codes "Rare")))
matches_iff_example = matches_iff rare_in_sv1 (codes "sv1") (some (codes "Rare")) (codes "4")
