-- ===== src/Scheduler/Tasks/Lock.antt =====
-- What the entry of a key in `running` promises: a lock with one holder, which gives it back.
use cron_manager.Base.{
  ℕ, suc, ◌≡◌, ◌≢◌, ◌⊎◌, true, false, Option, none, some, List, [], ◌∷◌, get_elem?,
}
use cron_manager.Base.Map.{contains_key}
use cron_manager.Dsl.{JobKey, key_eq}
use cron_manager.Scheduler.{
  Task, calling, starting, looping, sleeping, ready, begun, dispatching, recorded, replied,
  returned, panicked, SchedulerInner,
}
use cron_manager.Scheduler.Tasks.{Event, step, call, take_out, spawn, put_in, clear, notify}
use cron_manager.Scheduler.Tasks.Owners.{owns}

-- Held by a task, which has so many steps left before its last one.
pub data Lock : Type 0 where
  free : Lock
  held : ℕ → ℕ → Lock

-- One event, with the task that it steps: only a step of the holder changes a held lock; it uses up
-- one of the steps left, where it may hand the lock over to another task, and the last one frees it.
abbrev pub LockStep : Option ℕ → Lock → Lock → Type 0
LockStep o free free = Unit
LockStep o free (held i n) = (o ≡ some i) × (n ≡ 2)
LockStep o (held i n) free = (o ≡ some i) × (n ≡ 0)
LockStep o (held i n) (held j m) = ((o ≡ some i) × (n ≡ suc m)) ⊎ ((o ≢ some i) × (i ≡ j) × (n ≡ m))

abbrev pub stepped : Event → Option ℕ
stepped (step i now worlds) = some i
stepped (call key extras) = none
stepped (take_out key) = none
stepped (spawn spec) = none
stepped (put_in entry) = none
stepped clear = none
stepped (notify ns) = none

abbrev pub LockSteps : List Event → Lock → Lock → Type 0
LockSteps [] a b = a ≡ b
LockSteps (e ∷ es) a b = (c : Lock) × LockStep (stepped e) a c × LockSteps es c b

-- The steps of an owner before the one that removes the entry.
abbrev pub steps_left : Task → ℕ
steps_left (begun r) = 2
steps_left (dispatching r c) = 1
steps_left (recorded r) = 0
steps_left (calling _ _) = 0
steps_left (starting _) = 0
steps_left (looping _) = 0
steps_left (sleeping _ _) = 0
steps_left (ready _) = 0
steps_left (replied _) = 0
steps_left returned = 0
steps_left panicked = 0

-- The lock that a key is in a state of the scheduler.
abbrev pub Represents : JobKey → SchedulerInner → Lock → Type 0
Represents k s free = contains_key k s.running ≡ false
Represents k s (held i n) =
    (t : Task) × (get_elem? s.tasks i ≡ some t) × (owns k t ≡ true) × (n ≡ steps_left t)
