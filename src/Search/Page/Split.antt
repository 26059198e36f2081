-- ===== src/Search/Page/Split.antt =====
-- Lists cut into pages.
use pokedumpster.Base.{
  ℕ, zero, suc, ◌≤◌, ◌<◌, ◌≡◌, refl, List, [], ◌∷◌, ◌++◌, Bool, take, drop, map, length, arith, All,
  ltb, ap,
}
use pokedumpster.Search.Page.Sorted.{keep}

module _ {ℓ} {A : Type ℓ} where
  pub take-take-suc : (n : ℕ) (xs : List A) → take n (take (suc n) xs) ≡ take n xs
  take-take-suc zero xs = refl
  take-take-suc (suc n) [] = refl
  take-take-suc (suc n) (x ∷ xs) = ap (λ ys. x ∷ ys) (take-take-suc n xs)

  pub ltb-length-take-suc :
      (n : ℕ) (xs : List A) → ltb n (length (take (suc n) xs)) ≡ ltb n (length xs)
  ltb-length-take-suc zero [] = refl
  ltb-length-take-suc zero (x ∷ xs) = ground arith
  ltb-length-take-suc (suc n) [] = refl
  ltb-length-take-suc (suc n) (x ∷ xs) = ground (arith, ltb-length-take-suc n xs)

  length-drop-le : (n : ℕ) (xs : List A) → length (drop n xs) ≤ length xs
  length-drop-le zero xs = omega arith
  length-drop-le (suc n) [] = omega arith
  length-drop-le (suc n) (x ∷ xs) = omega (arith, length-drop-le n xs)

  pub take_all : (n : ℕ) (xs : List A) → length xs ≤ n → take n xs ≡ xs
  take_all zero [] h = refl
  take_all zero (x ∷ xs) h = absurd (omega arith)
  take_all (suc n) [] h = refl
  take_all (suc n) (x ∷ xs) h = ap (λ ys. x ∷ ys) (take_all n xs (omega arith))

  pub take-append-drop : (n : ℕ) (xs : List A) → take n xs ++ drop n xs ≡ xs
  take-append-drop zero xs = refl
  take-append-drop (suc n) [] = refl
  take-append-drop (suc n) (x ∷ xs) = ap (λ ys. x ∷ ys) (take-append-drop n xs)

  pub length-drop-lt :
      (n : ℕ) (xs : List A) → 1 ≤ n → n < length xs → length (drop n xs) < length xs
  length-drop-lt zero xs h l = absurd (omega arith)
  length-drop-lt (suc n) [] h l = absurd (omega arith)
  length-drop-lt (suc n) (x ∷ xs) h l = omega (arith, length-drop-le n xs)

  pub last_split : (x : A) (xs : List A) → (front : List A) × (e : A) × (x ∷ xs ≡ front ++ e ∷ [])
  last_split x [] = ([], x, refl)
  last_split x (y ∷ ys) = let (front, e, h) = last_split y ys in (x ∷ front, e, ap (λ zs. x ∷ zs) h)

  pub keep_congr : (t u : A → Bool) (xs : List A) → ((x : A) → t x ≡ u x) → keep t xs ≡ keep u xs
  keep_congr t u [] h = refl
  keep_congr t u (x ∷ xs) h = rw (h x, keep_congr t u xs h) refl

module _ {ℓ κ} {A : Type ℓ} {B : Type κ} (f : A → B) where
  pub map-take : (n : ℕ) (xs : List A) → map f (take n xs) ≡ take n (map f xs)
  map-take zero xs = refl
  map-take (suc n) [] = refl
  map-take (suc n) (x ∷ xs) = ap (λ ys. f x ∷ ys) (map-take n xs)

  pub length-map : (xs : List A) → length (map f xs) ≡ length xs
  length-map [] = refl
  length-map (x ∷ xs) = ap suc (length-map xs)

module _ {ℓ κ} {A : Type ℓ} (P : A → Type κ) where
  pub All-middle : (front : List A) (e : A) (rest : List A) → All P (front ++ e ∷ rest) → P e
  All-middle [] e rest h = h.0
  All-middle (x ∷ front) e rest h = All-middle front e rest h.1
