-- ===== src/Import/Values.antt =====
-- The cell values of crates/pkdump-core/src/import/mod.rs: conditions, languages, flags, numbers.
use pokedumpster.Base.{
  Text, codes, equal, trim, all, strip_suffix, unwrap_or, is_ascii_digit, is_empty, ℕ, Bool, false,
  not, ◌&&◌, ◌||◌, List, [], ◌∷◌, ◌++◌, map, ◌==◌, if◌then◌else◌,
}
use pokedumpster.Base.Digits.{strip_zeros}
use pokedumpster.Import.Unicode.{Unicode}

-- A `match` on string literals: whether `s` is one of them.
unfoldable pub one_of : Text → List Text → Bool
one_of s [] = false
one_of s (t ∷ ts) = equal s t || one_of s ts

-- `replace([' ', '-'], "_")`.
unfoldable pub underscored : Text → Text
underscored s = map (λ c. if c == b' ' || c == b'-' then b'_' else c) s

abbrev pub without_foil : Text → Text
without_foil c = unwrap_or (strip_suffix (codes " foil") c) c

-- The five-tier scale.
unfoldable pub condition_tier : Text → Text
condition_tier c =
    if one_of c (
      codes "excellent"
      ∷ codes "good"
      ∷ codes "light_played"
      ∷ codes "lightly_played"
      ∷ codes "lp"
      ∷ [])
    then codes "Lightly Played"
    else if one_of c (codes "played" ∷ codes "moderately_played" ∷ codes "mp" ∷ [])
    then codes "Moderately Played"
    else if one_of c (codes "heavily_played" ∷ codes "hp" ∷ [])
    then codes "Heavily Played"
    else if one_of c (codes "poor" ∷ codes "damaged" ∷ codes "dmg" ∷ [])
    then codes "Damaged"
    else codes "Near Mint"

-- The text behind the first letter, in upper case.
abbrev capitalise : (ℕ → Text) → Text → Text
capitalise upper [] = codes "English"
capitalise upper (f ∷ rest) = upper f ++ rest

-- A run of zeros keeps one.
abbrev pub or_zero : Text → Text
or_zero [] = codes "0"
or_zero s = s

unfoldable pub normalize_collector_number : Text → Text
unfolding all strip_zeros
normalize_collector_number raw =
    let s = trim raw in
    if not (is_empty s) && all is_ascii_digit s then or_zero (strip_zeros s) else s

-- `trim_start_matches('$')`.
unfoldable pub trim_dollars : Text → Text
trim_dollars [] = []
trim_dollars (c ∷ cs) = let rest = trim_dollars cs in if c == b'$' then rest else c ∷ cs

module _ (u : Unicode) where
  unfoldable pub map_condition : Text → Text
  unfolding condition_tier
  map_condition raw = condition_tier (underscored (without_foil (u.lowercase (trim raw))))

  unfoldable pub map_language : Text → Text
  unfolding one_of
  map_language raw =
      let other = u.lowercase (trim raw) in
      if one_of other ([] ∷ codes "en" ∷ codes "english" ∷ [])
      then codes "English"
      else capitalise u.uppercase_char other

  unfoldable pub is_true : Text → Bool
  unfolding one_of
  is_true s = one_of (u.lowercase (trim s)) (codes "true" ∷ codes "1" ∷ codes "yes" ∷ [])
