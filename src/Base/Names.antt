-- ===== src/Base/Names.antt =====
-- Membership of a text in a list of names (`matches!` on literals, `contains`).
use mathlib.Core.Path.{◌≡◌}
use mathlib.Core.Logic.{◌↔◌, ◌⊎◌}
use mathlib.Core.Bool.{Bool, true, false, ◌||◌}
use mathlib.Core.List.{List, [], ◌∷◌}
use native.Mathlib.Omega.{arith}
use cron_manager.Base.Eq.{list_beq, list_beq_iff}
use cron_manager.Base.Text.{Text}

unfoldable pub one_of : List Text → Text → Bool
one_of [] s = false
one_of (n ∷ names) s = list_beq n s || one_of names s

abbrev pub IsOneOf : List Text → Text → Type 0
IsOneOf [] s = ⊥
IsOneOf (n ∷ names) s = (n ≡ s) ⊎ IsOneOf names s

pub one_of_iff : (names : List Text) (s : Text) → (one_of names s ≡ true) ↔ IsOneOf names s
unfolding one_of
one_of_iff [] s = ground arith
one_of_iff (n ∷ names) s = ground (arith, list_beq_iff n s, one_of_iff names s)
