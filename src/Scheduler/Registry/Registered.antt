-- ===== src/Scheduler/Registry/Registered.antt =====
-- src/scheduler.rs: what registering a list of specs, as `reload_from` does, registers, spawns and
-- leaves alone.
use cron_manager.Base.{
  ℕ, ◌+◌, ◌≡◌, refl, sym, ap, ◌∙◌, Option, none, some, List, [], ◌∷◌, ◌++◌, if◌then◌else◌, arith,
  length, length-append,
}
use mathlib.Core.List.{append-nil, append_assoc}
use cron_manager.Base.Eq.{◌==◌}
use cron_manager.Base.Map.{get, remove, get-insert, get-remove}
use cron_manager.Dsl.{JobKey, JobSpec, key_eq}
use cron_manager.Scheduler.{Task, entry_of, SchedulerInner, register, register_all, loops_of}

-- The last spec of a key in a list.
unfoldable pub last_of : JobKey → List JobSpec → Option JobSpec
last_of key [] = none
last_of key (spec ∷ specs) = elim (last_of key specs) [
  | some later ↦ some later
  | none ↦ if spec.key == key then some spec else none
]

abbrev pub registered : JobKey → SchedulerInner → Option JobSpec
registered key s = elim (get key s.jobs) [ none ↦ none | some entry ↦ some entry.spec ]

-- One loop for each cron job, in order.
unfoldable pub cron_loops : ℕ → List JobSpec → List Task
cron_loops n [] = []
cron_loops n (spec ∷ specs) = loops_of spec spec.trigger n ++ cron_loops (n + 1) specs

pub register_all-append :
    (specs : List JobSpec) (s : SchedulerInner)
    → (register_all s specs).tasks ≡ s.tasks ++ cron_loops (length s.cells) specs
unfolding register_all register cron_loops
register_all-append [] s = sym (append-nil s.tasks)
register_all-append (spec ∷ specs) s =
    register_all-append specs (register s spec)
    ∙ ap (λ n. (s.tasks ++ loops) ++ cron_loops n specs) (length-append s.cells (_ ∷ []))
    ∙ append_assoc s.tasks loops (cron_loops (length s.cells + 1) specs)
  where
    loops : List Task
    loops = loops_of spec spec.trigger (length s.cells)

pub register_all-running :
    (specs : List JobSpec) (s : SchedulerInner) → (register_all s specs).running ≡ s.running
unfolding register_all register
register_all-running [] s = refl
register_all-running (spec ∷ specs) s = register_all-running specs (register s spec)

pub register_all-signalled :
    (specs : List JobSpec) (s : SchedulerInner) → (register_all s specs).signalled ≡ s.signalled
unfolding register_all register
register_all-signalled [] s = refl
register_all-signalled (spec ∷ specs) s = register_all-signalled specs (register s spec)

registered-register :
    (spec : JobSpec) (s : SchedulerInner) (key : JobKey)
    → registered key (register s spec) ≡ (if spec.key == key then some spec else registered key s)
unfolding register
registered-register spec s key = ground (
  arith,
  get-insert spec.key key (entry_of spec s) (remove spec.key s.jobs),
  get-remove spec.key key s.jobs,
)

pub registered-register_all :
    (specs : List JobSpec) (s : SchedulerInner) (key : JobKey)
    → registered key (register_all s specs)
      ≡ elim (last_of key specs) [ some spec ↦ some spec | none ↦ registered key s ]
unfolding register_all last_of
registered-register_all [] s key = refl
registered-register_all (spec ∷ specs) s key =
    ground
      (arith, registered-register_all specs (register s spec) key, registered-register spec s key)
