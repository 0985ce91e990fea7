-- ===== src/Base/Eq.antt =====
-- Equality tests as an interface, for the keys of maps.
use Prim.Native.Nat.{ℕ}
use mathlib.Core.Path.{◌≡◌, refl}
use mathlib.Core.Logic.{◌↔◌}
use mathlib.Core.Bool.{Bool, true, false, ◌&&◌}
use mathlib.Core.List.{List, [], ◌∷◌}
use native.Mathlib.Omega.{arith}
use cron_manager.Base.Tests.{eqb, eqb_iff}

-- A test that decides equality.
abbrev Decides {ℓ} : {K : Type ℓ} → (K → K → Bool) → Type ℓ
Decides {K = K} test = (x y : K) → (test x y ≡ true) ↔ (x ≡ y)

pub record Eq {ℓ} (K : Type ℓ) : Type ℓ where
  pub same : K → K → Bool
  pub decides : Decides same

module _ {ℓ} {K : Type ℓ} ⦃eq : Eq K⦄ where
  infix 50 ◌==◌
  abbrev pub ◌==◌ : K → K → Bool
  ◌==◌ x y = eq.same x y

  pub ==_iff : (x y : K) → ((x == y) ≡ true) ↔ (x ≡ y)
  ==_iff x y = eq.decides x y

  pub ==_self : (x : K) → (x == x) ≡ true
  ==_self x = (eq.decides x x).1 refl

instance abbrev pub nat_eq : Eq ℕ
nat_eq = record { same = eqb; decides = eqb_iff }

-- Texts are lists of code points.
abbrev pub list_beq : List ℕ → List ℕ → Bool
list_beq [] [] = true
list_beq [] (_ ∷ _) = false
list_beq (_ ∷ _) [] = false
list_beq (a ∷ s) (b ∷ t) = eqb a b && list_beq s t

pub list_beq_iff : (s t : List ℕ) → (list_beq s t ≡ true) ↔ (s ≡ t)
list_beq_iff [] [] = ground arith
list_beq_iff [] (_ ∷ _) = ground arith
list_beq_iff (_ ∷ _) [] = ground arith
list_beq_iff (a ∷ s) (b ∷ t) = ground (arith, list_beq_iff s t)

instance abbrev pub list_eq : Eq (List ℕ)
list_eq = record { same = list_beq; decides = list_beq_iff }
