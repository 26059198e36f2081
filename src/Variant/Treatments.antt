-- ===== src/Variant/Treatments.antt =====
-- crates/pkdump-core/src/variant.rs: which parenthesis of a product name gives the variant.
use pokedumpster.Base.{
  Text, trim, split_once, strip_prefix, ℕ, zero, suc, ◌≤◌, ◌≡◌, refl, ◌∙◌, sym, ap, ◌↔◌, ◌⊎◌, inl,
  inr, false, Option, none, some, [], ◌∷◌, ◌++◌, length, length-append, All, ◌==◌, arith,
  Bool-cases, subst,
}
use pokedumpster.Import.Unicode.{Unicode}
use pokedumpster.Variant.{treatment_for, scan_groups, variant_from_product_name, or_rest}

abbrev pub HasNo : ℕ → Text → Type 0
HasNo c s = All (λ x. c == x ≡ false) s

-- What a text in lower case gives: the treatment of the first parenthesis that has one. A parenthesis
-- that does not close ends the search.
pub data Picks : Text → Option Text → Type 0 where
  bare : (s : Text) → HasNo b'(' s → Picks s none
  unclosed : (a i : Text) → HasNo b'(' a → HasNo b')' i → Picks (a ++ (b'(' ∷ i)) none
  group :
      (a i r : Text) (o : Option Text)
      → HasNo b'(' a
      → HasNo b')' i
      → Picks r o
      → Picks (a ++ (b'(' ∷ (i ++ (b')' ∷ r)))) (or_rest (treatment_for (trim i)) o)

split_once-none : (c : ℕ) (s : Text) → HasNo c s → split_once (c ∷ []) s ≡ none
unfolding split_once strip_prefix
split_once-none c [] h = refl
split_once-none c (x ∷ s) h = rw (h.0, split_once-none c s h.1) refl

split_once-some :
    (c : ℕ) (a b : Text) → HasNo c a → split_once (c ∷ []) (a ++ (c ∷ b)) ≡ some (a, b)
unfolding split_once strip_prefix
split_once-some c [] b h = ground arith
split_once-some c (x ∷ a) b h = rw (h.0, split_once-some c a b h.1) refl

-- A text has the character or not.
first_of : (c : ℕ) (s : Text) → HasNo c s ⊎ ((a b : Text) × (HasNo c a × (s ≡ a ++ (c ∷ b))))
first_of c [] = inl tt
first_of c (x ∷ s) = elim (Bool-cases (c == x)) [
  | inl e ↦ inr ([], s, (tt, (let z : x ≡ c = ground arith in ap (λ y. y ∷ s) z)))
  | inr e ↦ elim (first_of c s) [
    | inl h ↦ inl (e, h)
    | inr (a, b, (h, q)) ↦ inr (x ∷ a, b, ((e, h), ap (◌∷◌ x) q))
  ]
]

-- With fuel for its length, the loop gives what the text gives, and nothing else.
Picks-scan_groups :
    (fuel : ℕ) {s : Text} {o : Option Text} → length s ≤ fuel → Picks s o → scan_groups fuel s ≡ o
unfolding scan_groups
Picks-scan_groups zero l (bare s h) = refl
Picks-scan_groups (suc fuel) l (bare s h) = rw (scan_groups, split_once-none b'(' s h) refl
Picks-scan_groups zero l (unclosed a i h k) = absurd (omega (arith, l, length-append a (b'(' ∷ i)))
Picks-scan_groups (suc fuel) l (unclosed a i h k) =
    rw (scan_groups, split_once-some b'(' a i h, split_once-none b')' i k) refl
Picks-scan_groups zero l (group a i r o h k p) =
    absurd (omega (arith, l, length-append a (b'(' ∷ (i ++ (b')' ∷ r)))))
Picks-scan_groups (suc fuel) l (group a i r o h k p) =
    let shorter : length r ≤ fuel =
      omega (arith, l, length-append a (b'(' ∷ (i ++ (b')' ∷ r))), length-append i (b')' ∷ r)) in
    rw (scan_groups, split_once-some b'(' a (i ++ (b')' ∷ r)) h, split_once-some b')' i r k)
      (ap (or_rest (treatment_for (trim i))) (Picks-scan_groups fuel shorter p))

some-Picks : (fuel : ℕ) (s : Text) → length s ≤ fuel → (o : Option Text) × Picks s o
some-Picks zero [] l = (none, bare [] tt)
some-Picks zero (c ∷ s) l = absurd (omega arith)
some-Picks (suc fuel) s l = elim (first_of b'(' s) [
  | inl h ↦ (none, bare s h)
  | inr (a, b, (h, q)) ↦ elim (first_of b')' b) [
    | inl k ↦ (none, subst (λ t. Picks t none) (sym q) (unclosed a b h k))
    | inr (i, r, (k, z)) ↦
        let t : s ≡ a ++ (b'(' ∷ (i ++ (b')' ∷ r))) = q ∙ ap (λ y. a ++ (b'(' ∷ y)) z in
        let shorter : length r ≤ fuel = omega (
          arith,
          l,
          ap length t,
          length-append a (b'(' ∷ (i ++ (b')' ∷ r))),
          length-append i (b')' ∷ r),
        ) in
        let (o, p) = some-Picks fuel r shorter in
        (
          or_rest (treatment_for (trim i)) o,
          subst (λ t. Picks t (or_rest (treatment_for (trim i)) o)) (sym t) (group a i r o h k p),
        )
  ]
]

-- `variant_from_product_name` gives what the name in lower case gives, for every name.
pub variant_from_product_name_iff :
    (u : Unicode) (name : Text) (o : Option Text)
    → (variant_from_product_name u name ≡ o) ↔ Picks (u.lowercase name) o
unfolding variant_from_product_name
variant_from_product_name_iff u name o =
    let n = length (u.lowercase name) in
    let (p, h) = some-Picks n (u.lowercase name) (omega arith) in
    let q = Picks-scan_groups n (omega arith) h in
    (λ e. subst (Picks (u.lowercase name)) (sym q ∙ e) h, λ k. Picks-scan_groups n (omega arith) k)
