-- ===== src/Base/Order.antt =====
-- Comparisons as Rust's `Ord::cmp` returns them, the lexicographic one on lists, and their laws.
use Prim.Native.Nat.{ℕ, compare, Ordering}
use mathlib.Core.Path.{◌≡◌, refl}
use mathlib.Core.List.{List, [], ◌∷◌}
use native.Mathlib.Omega.{arith}

-- `Ordering::reverse`.
abbrev pub reverse : Ordering → Ordering
reverse Ordering.lt = Ordering.gt
reverse Ordering.eq = Ordering.eq
reverse Ordering.gt = Ordering.lt

-- `Ordering::then_with`: the second comparison decides where the first does not.
abbrev pub then_with : Ordering → Ordering → Ordering
then_with Ordering.eq o = o
then_with o _ = o

-- A comparison that a sort can use: a total preorder.
pub record IsOrder {ℓ} {A : Type ℓ} (cmp : A → A → Ordering) : Type ℓ where
  pub cmp_refl : (a : A) → cmp a a ≡ Ordering.eq
  pub cmp_flip : (a b : A) → cmp b a ≡ reverse (cmp a b)
  pub cmp_trans :
      (a b c : A) → cmp a b ≡ Ordering.lt → cmp b c ≡ Ordering.lt → cmp a c ≡ Ordering.lt
  pub cmp_congr : (a b c : A) → cmp a b ≡ Ordering.eq → cmp a c ≡ cmp b c

compare_refl : (a : ℕ) → compare a a ≡ Ordering.eq
compare_refl a = ground arith

compare_flip : (a b : ℕ) → compare b a ≡ reverse (compare a b)
compare_flip a b = ground arith

compare_trans :
    (a b c : ℕ) → compare a b ≡ Ordering.lt → compare b c ≡ Ordering.lt → compare a c ≡ Ordering.lt
compare_trans a b c h k = ground arith

compare_congr : (a b c : ℕ) → compare a b ≡ Ordering.eq → compare a c ≡ compare b c
compare_congr a b c h = ground arith

pub compare-IsOrder : IsOrder compare
compare-IsOrder = record {
  cmp_refl = compare_refl;
  cmp_flip = compare_flip;
  cmp_trans = compare_trans;
  cmp_congr = compare_congr;
}

module _ {ℓ} {A : Type ℓ} (cmp : A → A → Ordering) where
  -- The comparison of two slices: by the first place where they differ, else the shorter first.
  unfoldable pub lex : List A → List A → Ordering
  lex [] [] = Ordering.eq
  lex [] (y ∷ ys) = Ordering.lt
  lex (x ∷ xs) [] = Ordering.gt
  lex (x ∷ xs) (y ∷ ys) = let rest = lex xs ys in then_with (cmp x y) rest

module _ {ℓ} {A : Type ℓ} {cmp : A → A → Ordering} (o : IsOrder cmp) where
  lex_refl : (xs : List A) → lex cmp xs xs ≡ Ordering.eq
  unfolding lex
  lex_refl [] = refl
  lex_refl (x ∷ xs) = ground (arith, o.cmp_refl x, lex_refl xs)

  lex_flip : (xs ys : List A) → lex cmp ys xs ≡ reverse (lex cmp xs ys)
  unfolding lex
  lex_flip [] [] = refl
  lex_flip [] (y ∷ ys) = refl
  lex_flip (x ∷ xs) [] = refl
  lex_flip (x ∷ xs) (y ∷ ys) = ground (arith, o.cmp_flip x y, lex_flip xs ys)

  lex_trans :
      (xs ys zs : List A)
      → lex cmp xs ys ≡ Ordering.lt
      → lex cmp ys zs ≡ Ordering.lt
      → lex cmp xs zs ≡ Ordering.lt
  unfolding lex
  lex_trans (x ∷ xs) (y ∷ ys) (z ∷ zs) h k = ground (
    arith,
    o.cmp_congr x y z,
    o.cmp_trans x y z,
    o.cmp_congr z y x,
    o.cmp_flip x y,
    o.cmp_flip y z,
    o.cmp_flip x z,
    lex_trans xs ys zs,
  )
  lex_trans [] (y ∷ ys) (z ∷ zs) h k = refl
  lex_trans [] [] zs h k = cc
  lex_trans xs [] [] h k = cc
  lex_trans (x ∷ xs) [] (z ∷ zs) h k = cc
  lex_trans [] (y ∷ ys) [] h k = cc
  lex_trans (x ∷ xs) (y ∷ ys) [] h k = cc

  lex_congr : (xs ys zs : List A) → lex cmp xs ys ≡ Ordering.eq → lex cmp xs zs ≡ lex cmp ys zs
  unfolding lex
  lex_congr [] [] zs h = refl
  lex_congr [] (y ∷ ys) zs h = cc
  lex_congr (x ∷ xs) [] zs h = cc
  lex_congr (x ∷ xs) (y ∷ ys) [] h = refl
  lex_congr (x ∷ xs) (y ∷ ys) (z ∷ zs) h = ground (arith, o.cmp_congr x y z, lex_congr xs ys zs)

  pub lex-IsOrder : IsOrder (lex cmp)
  lex-IsOrder = record {
    cmp_refl = lex_refl;
    cmp_flip = lex_flip;
    cmp_trans = lex_trans;
    cmp_congr = lex_congr;
  }
