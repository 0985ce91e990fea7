-- ===== src/Base/Results.antt =====
-- Fallible results over the program's error type, and what a successful chain gives.
use mathlib.Core.Path.{◌≡◌, refl}

pub data Result {ℓ κ} (A : Type ℓ) (E : Type κ) : Type (ℓ ⊔ κ) where
  ok : A → Result A E
  err : E → Result A E

infixl 5 ◌>>=◌
abbrev pub ◌>>=◌ {ℓ κ μ} :
    {A : Type ℓ} {B : Type κ} {E : Type μ} → Result A E → (A → Result B E) → Result B E
ok a >>= f = f a
err e >>= f = err e

abbrev pub map_err {ℓ κ μ} :
    {A : Type ℓ} {E : Type κ} {F : Type μ} → (E → F) → Result A E → Result A F
map_err g (err e) = err (g e)
map_err g (ok a) = ok a

-- Inversion of a successful bind.
abbrev pub Passed {ℓ κ μ} :
    {A : Type ℓ} {B : Type κ} {E : Type μ} → Result A E → (A → Result B E) → B → Type (ℓ ⊔ κ ⊔ μ)
Passed {A = A} step next last = (value : A) × (step ≡ ok value) × (next value ≡ ok last)

pub >>=-eq-ok {ℓ κ μ} :
    {A : Type ℓ} {B : Type κ} {E : Type μ} (step : Result A E) (next : A → Result B E) {last : B}
    → (step >>= next) ≡ ok last
    → Passed step next last
>>=-eq-ok (err e) next passed = cc
>>=-eq-ok (ok value) next passed = (value, refl, passed)

pub ok-injective {ℓ κ} :
    {A : Type ℓ} {E : Type κ} (x y : A) → (let a : Result A E = ok x in a ≡ ok y) → x ≡ y
ok-injective x y h = cc
