-- ===== src/Search/Value.antt =====
-- crates/pkdump-db/src/search.rs: bound values and the compiled fragments. `rusqlite`'s `Value` is
-- written out, over the type `F` of `f64`.
use pokedumpster.Base.{
  Text, codes, ℕ, suc, ◌+◌, ◌≡◌, List, [], ◌∷◌, ◌++◌, ◌==◌, if◌then◌else◌, length, equal, arith,
  All, Bool, true, false,
}
use pokedumpster.Card.{ℤ}

pub data Value (F : Type 0) : Type 0 where
  null : Value F
  integer : ℤ → Value F
  real : F → Value F
  text : Text → Value F
  blob : List ℕ → Value F

-- SQL text with the values of its placeholders.
abbrev pub Frag : Type 0 → Type 0
Frag F = Text × List (Value F)

unfoldable pub pct : Text → Text
pct s = codes "%" ++ s ++ codes "%"

unfoldable pub negate : {F : Type 0} → Frag F → Frag F
negate (sql, params) = (codes "NOT (" ++ sql ++ codes ")", params)

-- `[String]::join`.
unfoldable pub join : Text → List Text → Text
join sep [] = []
join sep (p ∷ []) = p
join sep (p ∷ q ∷ rest) = p ++ sep ++ join sep (q ∷ rest)

-- A `match` on a string: the first arm of that name, else the last one.
unfoldable pub arms {ℓ} : {A : Type ℓ} → List (Text × A) → A → Text → A
unfolding equal
arms [] other s = other
arms ((name, a) ∷ rest) other s = let later = arms rest other s in if equal s name then a else later

-- A pair, for the nested tuples of `All`.
infixr 20 ◌&◌
abbrev pub ◌&◌ {ℓ κ} : {P : Type ℓ} {Q : Type κ} → P → Q → P × Q
p & q = (p, q)

pub if-cases {ℓ κ} :
    {A : Type ℓ} (P : A → Type κ) (b : Bool) {x y : A} → P x → P y → P (if b then x else y)
if-cases P true hx hy = hx
if-cases P false hx hy = hy

pub arms-cases {ℓ κ} :
    {A : Type ℓ} (P : A → Type κ) (table : List (Text × A)) (other : A) (s : Text)
    → All (λ arm. P arm.1) table
    → P other
    → P (arms table other s)
unfolding arms
arms-cases P [] other s h d = d
arms-cases P ((name, a) ∷ rest) other s h d =
    if-cases P (equal s name) h.0 (arms-cases P rest other s h.1 d)

-- The placeholders of an SQL text.
unfoldable pub marks : Text → ℕ
marks [] = 0
marks (c ∷ cs) = let n = marks cs in if c == b'?' then suc n else n

pub marks-append : (s t : Text) → marks (s ++ t) ≡ marks s + marks t
unfolding marks
marks-append [] t = omega arith
marks-append (c ∷ s) t = ground (arith, marks-append s t)

-- Every placeholder has its value and every value its placeholder.
unfoldable pub Fits : {F : Type 0} → Frag F → Type 0
unfolding marks
Fits f = marks f.0 ≡ length f.1
