-- ===== src/Base/Map.antt =====
-- Rust's maps as association lists without repeated keys, and their laws.
use mathlib.Core.Path.{◌≡◌, refl}
use mathlib.Core.Bool.{Bool, true, false}
use mathlib.Core.List.{List, [], ◌∷◌}
use mathlib.Core.Option.{Option, none, some}
use native.Mathlib.Omega.{arith}
use cron_manager.Base.Tests.{if◌then◌else◌, is_some}
use cron_manager.Base.Eq.{Eq, ◌==◌, ==_iff}

abbrev pub Map {ℓ κ} : Type ℓ → Type κ → Type (ℓ ⊔ κ)
Map K V = List (K × V)

module _ {ℓ κ} {K : Type ℓ} {V : Type κ} ⦃e : Eq K⦄ where
  unfoldable pub get : K → Map K V → Option V
  get k [] = none
  get k ((j, v) ∷ m) = if j == k then some v else get k m

  unfoldable pub contains_key : K → Map K V → Bool
  contains_key k [] = false
  contains_key k ((j, v) ∷ m) = if j == k then true else contains_key k m

  -- Replaces the value of a key in place, or adds the key at the end.
  unfoldable pub insert : K → V → Map K V → Map K V
  insert k v [] = (k, v) ∷ []
  insert k v ((j, w) ∷ m) = if j == k then (j, v) ∷ m else (j, w) ∷ insert k v m

  -- Drops every entry of the key.
  unfoldable pub remove : K → Map K V → Map K V
  remove k [] = []
  remove k ((j, v) ∷ m) = if j == k then remove k m else (j, v) ∷ remove k m

  pub get-insert :
      (k j : K) (v : V) (m : Map K V) → get j (insert k v m) ≡ (if k == j then some v else get j m)
  unfolding get insert
  get-insert k j v [] = refl
  get-insert k j v ((i, w) ∷ m) =
      ground (arith, ==_iff k j, ==_iff i k, ==_iff i j, get-insert k j v m)

  pub get-remove : (k j : K) (m : Map K V) → get j (remove k m) ≡ (if k == j then none else get j m)
  unfolding get remove
  get-remove k j [] = ground arith
  get-remove k j ((i, w) ∷ m) = ground (arith, ==_iff k j, ==_iff i k, ==_iff i j, get-remove k j m)

  pub contains_key-insert :
      (k j : K) (v : V) (m : Map K V)
      → contains_key j (insert k v m) ≡ (if k == j then true else contains_key j m)
  unfolding contains_key insert
  contains_key-insert k j v [] = refl
  contains_key-insert k j v ((i, w) ∷ m) =
      ground (arith, ==_iff k j, ==_iff i k, ==_iff i j, contains_key-insert k j v m)

  pub contains_key-remove :
      (k j : K) (m : Map K V)
      → contains_key j (remove k m) ≡ (if k == j then false else contains_key j m)
  unfolding contains_key remove
  contains_key-remove k j [] = ground arith
  contains_key-remove k j ((i, w) ∷ m) =
      ground (arith, ==_iff k j, ==_iff i k, ==_iff i j, contains_key-remove k j m)

  pub contains_key-get : (k : K) (m : Map K V) → contains_key k m ≡ is_some (get k m)
  unfolding get contains_key
  contains_key-get k [] = refl
  contains_key-get k ((j, v) ∷ m) = ground (arith, contains_key-get k m)
