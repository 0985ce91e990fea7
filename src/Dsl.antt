-- ===== src/Dsl.antt =====
-- src/dsl/mod.rs: the types that the loader, the scheduler and the executors share.
pub mod Loader
use cron_manager.Base.{
  ℕ, ◌≡◌, ◌↔◌, Bool, true, false, ◌&&◌, ◌||◌, not, Option, none, some, List, [], ◌∷◌, if◌then◌else◌,
  arith,
}
use cron_manager.Base.Int.{ℤ, ltbℤ, ◌≤ℤ◌}
use cron_manager.Base.Eq.{Eq, list_beq, list_beq_iff}
use cron_manager.Base.Text.{Text, codes, join}

pub record JobKey : Type 0 where
  pub group : Text
  pub name : Text

abbrev pub key_beq : JobKey → JobKey → Bool
key_beq a b = list_beq a.group b.group && list_beq a.name b.name

pub key_beq_iff : (a b : JobKey) → (key_beq a b ≡ true) ↔ (a ≡ b)
key_beq_iff a b = ground (arith, list_beq_iff a.group b.group, list_beq_iff a.name b.name)

instance abbrev pub key_eq : Eq JobKey
key_eq = record { same = key_beq; decides = key_beq_iff }

pub data Trigger : Type 0 where
  cron : Text → Trigger
  manual : Trigger

pub record TimeWindow : Type 0 where
  pub start_ms : Option ℤ
  pub end_ms : Option ℤ

-- The two guards of `allows`.
abbrev before_start : Option ℤ → ℤ → Bool
before_start none now_ms = false
before_start (some s) now_ms = ltbℤ now_ms s

abbrev after_end : Option ℤ → ℤ → Bool
after_end none now_ms = false
after_end (some e) now_ms = ltbℤ e now_ms

unfoldable pub allows : TimeWindow → ℤ → Bool
allows w now_ms =
    if before_start w.start_ms now_ms
    then false
    else if after_end w.end_ms now_ms
    then false
    else true

-- The delay is in milliseconds.
pub record RetryPolicy : Type 0 where
  pub count : ℕ
  pub delay : ℕ
  pub ignore_failures : Bool

pub data HeaderSource : Type 0 where
  literal env_var : Text → HeaderSource

pub record HttpHeader : Type 0 where
  pub name : Text
  pub source : HeaderSource

pub data JobKind : Type 0 where
  http : Text → Text → List HttpHeader → JobKind
  exec : List Text → List Text → JobKind

unfoldable pub exec_command_display : JobKind → Option Text
unfolding join
exec_command_display (http _ _ _) = none
exec_command_display (exec argv _) = some (join (codes " ") argv)

unfoldable pub type_label : JobKind → Text
type_label (http _ _ _) = codes "http"
type_label (exec _ _) = codes "exec"

pub record JobSpec : Type 0 where
  pub key : JobKey
  pub trigger : Trigger
  pub window : TimeWindow
  pub retry : RetryPolicy
  pub kind : JobKind

pub record LoadedJob : Type 0 where
  pub spec : JobSpec
  pub source_path : Text

-- A bound that is absent holds.
abbrev pub FromStart : Option ℤ → ℤ → Type 0
FromStart none now_ms = Unit
FromStart (some s) now_ms = s ≤ℤ now_ms

abbrev pub UntilEnd : Option ℤ → ℤ → Type 0
UntilEnd none now_ms = Unit
UntilEnd (some e) now_ms = now_ms ≤ℤ e

-- A window allows a moment exactly when both of its bounds do, the ends included.
pub allows_iff :
    (w : TimeWindow) (now_ms : ℤ)
    → (allows w now_ms ≡ true) ↔ (FromStart w.start_ms now_ms × UntilEnd w.end_ms now_ms)
unfolding allows
allows_iff w now_ms = ground arith
