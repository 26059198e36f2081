-- ===== src/Query/Outcome.antt =====
-- crates/pkdump-core/src/query/error.rs, and results that may fail. `out_of_fuel` has no
-- counterpart in the program; the parser is proved never to return it.
use pokedumpster.Base.{Text, ℕ, ◌≡◌, refl, Bool, true, false, if◌then◌else◌}

pub record QueryError : Type 0 where
  pub message : Text
  pub position : ℕ

pub data Outcome {ℓ} (A : Type ℓ) : Type ℓ where
  ok : A → Outcome A
  err : QueryError → Outcome A
  out_of_fuel : Outcome A

-- `QueryError::new`, as a failure.
abbrev pub fail {ℓ} : {A : Type ℓ} → Text → ℕ → Outcome A
fail message position = err (record { message = message; position = position })

-- The `?` operator.
infixl 5 ◌>>=◌
abbrev pub ◌>>=◌ {ℓ κ} : {A : Type ℓ} {B : Type κ} → Outcome A → (A → Outcome B) → Outcome B
ok a >>= f = f a
err e >>= f = err e
out_of_fuel >>= f = out_of_fuel

pub bind-eq-ok {ℓ κ} :
    {A : Type ℓ} {B : Type κ} (m : Outcome A) (f : A → Outcome B) {b : B}
    → (m >>= f) ≡ ok b
    → (a : A) × (m ≡ ok a) × (f a ≡ ok b)
bind-eq-ok (ok a) f h = (a, refl, h)
bind-eq-ok (err e) f h = cc
bind-eq-ok out_of_fuel f h = cc

-- The run kept within its fuel; `P` holds of its value, or `E` of its error.
pub data Ensures {ℓ κ} {A : Type ℓ} (P : A → Type κ) (E : QueryError → Type κ)
    : Outcome A → Type (ℓ ⊔ κ) where
  holds : {a : A} → P a → Ensures P E (ok a)
  rejected : {e : QueryError} → E e → Ensures P E (err e)

pub Ensures-bind {ℓ κ ℓ'} :
    {A : Type ℓ} {P : A → Type κ} {E : QueryError → Type κ} {B : Type ℓ'} {Q : B → Type κ}
    {r : Outcome A} {f : A → Outcome B}
    → Ensures P E r
    → ((a : A) → P a → Ensures Q E (f a))
    → Ensures Q E (r >>= f)
Ensures-bind (holds {a} h) k = k a h
Ensures-bind (rejected h) k = rejected h

pub Ensures-if {ℓ κ} :
    {A : Type ℓ} {P : A → Type κ} {E : QueryError → Type κ} (b : Bool) {x y : Outcome A}
    → (b ≡ true → Ensures P E x)
    → (b ≡ false → Ensures P E y)
    → Ensures P E (if b then x else y)
Ensures-if true hx hy = hx refl
Ensures-if false hx hy = hy refl

pub Ensures-map {ℓ κ} :
    {A : Type ℓ} {P : A → Type κ} {Q : A → Type κ} {E : QueryError → Type κ} {r : Outcome A}
    → Ensures P E r
    → ((a : A) → P a → Q a)
    → Ensures Q E r
Ensures-map (holds {a} h) k = holds (k a h)
Ensures-map (rejected h) k = rejected h

pub Ensures-imp {ℓ κ} :
    {A : Type ℓ} {P : A → Type κ} {Q : A → Type κ} {E F : QueryError → Type κ} {r : Outcome A}
    → Ensures P E r
    → ((a : A) → P a → Q a)
    → ((e : QueryError) → E e → F e)
    → Ensures Q F r
Ensures-imp (holds {a} h) k l = holds (k a h)
Ensures-imp (rejected {e} h) k l = rejected (l e h)
