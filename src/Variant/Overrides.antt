-- ===== src/Variant/Overrides.antt =====
-- crates/pkdump-core/src/variant.rs: the predicate of an overlay rule is the conjunction of its fields.
use pokedumpster.Base.{
  Text, equal, equal_iff, ◌≡◌, refl, ◌↔◌, true, Option, none, some, List, [], ◌∷◌, arith,
  Bool-cases, inl, inr, ◌⊎◌,
}
use pokedumpster.Variant.{OverrideMatch, matches, matches_text, matches_rarity, member}

-- A field that is set holds of the card; one that is not set holds of all.
abbrev pub Agrees : Option Text → Text → Type 0
Agrees none t = Unit
Agrees (some s) t = s ≡ t

abbrev pub IsOneOf : Text → List Text → Type 0
IsOneOf r [] = ⊥
IsOneOf r (x ∷ xs) = (x ≡ r) ⊎ IsOneOf r xs

abbrev pub AgreesRarity : Option (List Text) → Option Text → Type 0
AgreesRarity none rarity = Unit
AgreesRarity (some rarities) none = ⊥
AgreesRarity (some rarities) (some r) = IsOneOf r rarities

matches_text_iff : (o : Option Text) (t : Text) → (matches_text o t ≡ true) ↔ Agrees o t
matches_text_iff none t = (λ h. tt, λ h. refl)
matches_text_iff (some s) t = equal_iff s t

member_iff : (r : Text) (xs : List Text) → (member r xs ≡ true) ↔ IsOneOf r xs
member_iff r [] = (λ h. absurd (ground arith), λ h. absurd h)
member_iff r (x ∷ xs) =
    let i = member_iff r xs in
    let e = equal_iff x r in
    (
      λ h. elim (Bool-cases (equal x r)) [ inl t ↦ inl (e.0 t) | inr f ↦ inr (i.0 (ground arith)) ],
      λ h. elim h [ inl t ↦ rw (e.1 t) refl | inr k ↦ (let m = i.1 k in ground arith) ],
    )

matches_rarity_iff :
    (o : Option (List Text)) (r : Option Text) → (matches_rarity o r ≡ true) ↔ AgreesRarity o r
matches_rarity_iff none r = (λ h. tt, λ h. refl)
matches_rarity_iff (some xs) none = (λ h. absurd (ground arith), λ h. absurd h)
matches_rarity_iff (some xs) (some r) = member_iff r xs

-- A predicate matches a card exactly if its set and its number, where they are given, are the card's, and
-- its rarities, where they are given, have the card's, which a card without one never has.
pub matches_iff :
    (m : OverrideMatch) (set_code : Text) (rarity : Option Text) (number : Text)
    → (matches m set_code rarity number ≡ true)
      ↔ (Agrees m.set set_code × Agrees m.number number × AgreesRarity m.rarity rarity)
unfolding matches
matches_iff m s r n =
    let a = matches_text_iff m.set s in
    let b = matches_text_iff m.number n in
    let c = matches_rarity_iff m.rarity r in
    (
      λ h. (a.0 (ground arith), b.0 (ground arith), c.0 (ground arith)),
      λ h. rw (a.1 h.0, b.1 h.1, c.1 h.2) refl,
    )
