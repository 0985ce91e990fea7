-- ===== src/Process/Signal.antt =====
-- src/signal.rs: when the process begins to shut down, on Unix. tokio's two listeners are given by
-- whether they could be installed and by the moment of their first signal; `select!` takes either of
-- two that are ready at once.
use cron_manager.Base.{
  ℕ, ◌≤◌, ◌≡◌, refl, Bool, true, false, Option, none, some, ltb, if◌then◌else◌, arith, Bool-cases,
  inl, inr,
}

pub record Listener : Type 0 where
  pub is_installed : Bool
  pub arrives : Option ℕ

pub data Cause : Type 0 where
  sigterm interrupt : Cause

-- A listener that could not be installed is pending for ever.
abbrev pub resolves : Listener → Option ℕ
resolves l = if l.is_installed then l.arrives else none

abbrev pub select : Bool → Option ℕ → Option ℕ → Option (Cause × ℕ)
select takes_first none none = none
select takes_first (some t) none = some (sigterm, t)
select takes_first none (some u) = some (interrupt, u)
select takes_first (some t) (some u) =
    if ltb t u
    then some (sigterm, t)
    else if ltb u t
    then some (interrupt, u)
    else if takes_first
    then some (sigterm, t)
    else some (interrupt, u)

unfoldable pub shutdown_signal : Bool → Listener → Listener → Option (Cause × ℕ)
shutdown_signal takes_first terminate ctrl_c =
    select takes_first (resolves terminate) (resolves ctrl_c)

-- No earlier than a moment.
abbrev pub NotAfter : ℕ → Option ℕ → Type 0
NotAfter t none = Unit
NotAfter t (some u) = t ≤ u

abbrev pub IsFirst : Option ℕ → Option ℕ → Option (Cause × ℕ) → Type 0
IsFirst term ctrl none = (term ≡ none) × (ctrl ≡ none)
IsFirst term ctrl (some (sigterm, t)) = (term ≡ some t) × NotAfter t ctrl
IsFirst term ctrl (some (interrupt, t)) = (ctrl ≡ some t) × NotAfter t term

select-IsFirst :
    (takes_first : Bool) (term ctrl : Option ℕ) → IsFirst term ctrl (select takes_first term ctrl)
select-IsFirst takes_first none none = (refl, refl)
select-IsFirst takes_first (some t) none = (refl, tt)
select-IsFirst takes_first none (some u) = (refl, tt)
select-IsFirst takes_first (some t) (some u) = elim (Bool-cases (ltb t u)) [
  | inl before ↦ rw before (refl, ground (arith, before))
  | inr later ↦ elim (Bool-cases (ltb u t)) [
    | inl after ↦ rw (later, after) (refl, ground (arith, after))
    | inr same ↦ tied takes_first later same
  ]
]
  where
    tied :
        (takes_first : Bool)
        → ltb t u ≡ false
        → ltb u t ≡ false
        → IsFirst (some t) (some u) (select takes_first (some t) (some u))
    tied true later same = rw (later, same) (refl, ground (arith, later, same))
    tied false later same = rw (later, same) (refl, ground (arith, later, same))

-- The process begins to shut down at the first signal of an installed listener, and never if
-- none is installed or none gets a signal.
pub shutdown_signal_lem :
    (takes_first : Bool) (terminate ctrl_c : Listener)
    → IsFirst (resolves terminate) (resolves ctrl_c) (shutdown_signal takes_first terminate ctrl_c)
unfolding shutdown_signal
shutdown_signal_lem takes_first terminate ctrl_c =
    select-IsFirst takes_first (resolves terminate) (resolves ctrl_c)
