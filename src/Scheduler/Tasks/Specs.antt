-- ===== src/Scheduler/Tasks/Specs.antt =====
-- Which specs the scheduler of src/scheduler.rs works with: what is registered, what its scheduling
-- loops watch, and what its tasks run.
pub mod Steps
use cron_manager.Base.{
  ℕ, zero, suc, ◌≡◌, refl, sym, ap, subst, ◌∙◌, inl, inr, Bool, Bool-cases, true, false, Option,
  none, some, List, [], ◌∷◌, ◌++◌, All, All-append, get_elem?, set, length, if◌then◌else◌, arith,
  Option-cases,
}
use mathlib.Core.Option.{some-injective}
use cron_manager.Base.Eq.{Eq, ◌==◌, ==_iff}
use cron_manager.Base.Int.{ℤ, ltbℤ}
use cron_manager.Base.Map.{Map, get, insert, remove}
use cron_manager.Base.Results.{Result, ok, err}
use cron_manager.Base.Text.{Text}
use cron_manager.Dsl.{JobKey, JobSpec, Trigger, cron, manual, key_eq, allows}
use cron_manager.Error.{CronManagerError, job_not_found, job_already_running}
use cron_manager.Executor.Dispatch.{AttemptWorld, DispatchExtras, ExecutorBundle}
use cron_manager.Scheduler.{
  RegisteredJob, RunningInstance, Loop, Run, Task, calling, starting, looping, sleeping, ready,
  begun, dispatching, recorded, replied, returned, panicked, SchedulerInner, loops_of,
  begin_running, record_outcome, record_skip,
}
use cron_manager.Scheduler.Tasks.{
  Event, step, call, take_out, spawn, put_in, clear, notify, step_task, step_at, put_back,
  triggered, fired, taken, refused, after_run, with_begun, with_cancel, apply, run,
}

module _ {ℓ κ} {A : Type ℓ} (P : A → Type κ) where
  pub All-get_elem? : (xs : List A) (i : ℕ) (x : A) → All P xs → get_elem? xs i ≡ some x → P x
  All-get_elem? [] i x a h = cc
  All-get_elem? (y ∷ xs) zero x a h = subst P (some-injective y x h) a.0
  All-get_elem? (y ∷ xs) (suc i) x a h = All-get_elem? xs i x a.1 h

  pub All-set : (xs : List A) (i : ℕ) (x : A) → All P xs → P x → All P (set xs i x)
  All-set [] i x a h = tt
  All-set (y ∷ xs) zero x a h = (h, a.1)
  All-set (y ∷ xs) (suc i) x a h = (a.0, All-set xs i x a.1 h)

module _ (P : JobSpec → Type 0) (Q : DispatchExtras → Type 0) where
  -- An entry of `jobs` is of a spec with its key.
  abbrev pub EntryHolds : JobKey × RegisteredJob → Type 0
  EntryHolds e = P e.1.spec × (e.1.spec.key ≡ e.0)

  -- A scheduling loop is of a spec with its cron expression.
  abbrev pub Watches : Loop → Type 0
  Watches l = P l.spec × (l.spec.trigger ≡ cron l.expr)

  abbrev pub LoopHolds : Option Loop → Type 0
  LoopHolds none = Unit
  LoopHolds (some l) = Watches l

  -- A run is of a spec with the key that it holds in `running`.
  abbrev pub RunHolds : Run → Type 0
  RunHolds r = P r.spec × (r.spec.key ≡ r.key) × Q r.extras × LoopHolds r.from

  abbrev pub TaskHolds : Task → Type 0
  TaskHolds (calling key extras) = Q extras
  TaskHolds (starting l) = Watches l
  TaskHolds (looping l) = Watches l
  TaskHolds (sleeping l next) = Watches l
  TaskHolds (ready r) = RunHolds r
  TaskHolds (begun r) = RunHolds r
  TaskHolds (dispatching r c) = RunHolds r
  TaskHolds (recorded r) = RunHolds r
  TaskHolds (replied r) = Unit
  TaskHolds returned = Unit
  TaskHolds panicked = Unit

  -- Every spec of a scheduler satisfies `P`, what every call passes to its run satisfies `Q`, and the
  -- executors are these.
  pub record Holds (bundle : ExecutorBundle) (s : SchedulerInner) : Type 0 where
    pub jobs : All EntryHolds s.jobs
    pub tasks : All TaskHolds s.tasks
    pub bundled : s.bundle ≡ bundle

  abbrev pub EventHolds : Event → Type 0
  EventHolds (step i now worlds) = Unit
  EventHolds (call key extras) = Q extras
  EventHolds (take_out key) = Unit
  EventHolds (spawn spec) = P spec
  EventHolds (put_in entry) = P entry.spec
  EventHolds clear = Unit
  EventHolds (notify ns) = Unit

  pub get-EntryHolds :
      (m : Map JobKey RegisteredJob) (key : JobKey) (entry : RegisteredJob)
      → All EntryHolds m
      → get key m ≡ some entry
      → EntryHolds (key, entry)
  unfolding get
  get-EntryHolds [] key entry a h = cc
  get-EntryHolds ((k, v) ∷ m) key entry a h = elim (Bool-cases (k == key)) [
    | inl same ↦
        subst EntryHolds (λ i. ((==_iff k key).0 same i, some-injective v entry (rw same at h) i))
          a.0
    | inr other ↦ get-EntryHolds m key entry a.1 (rw other at h)
  ]

  pub insert-EntryHolds :
      (m : Map JobKey RegisteredJob) (entry : RegisteredJob)
      → All EntryHolds m
      → P entry.spec
      → All EntryHolds (insert entry.spec.key entry m)
  unfolding insert
  insert-EntryHolds [] entry a h = ((h, refl), tt)
  insert-EntryHolds ((k, v) ∷ m) entry a h = elim (Bool-cases (k == entry.spec.key)) [
    | inl same ↦ rw same ((h, sym ((==_iff k entry.spec.key).0 same)), a.1)
    | inr other ↦ rw other (a.0, insert-EntryHolds m entry a.1 h)
  ]

  pub remove-EntryHolds :
      (m : Map JobKey RegisteredJob) (key : JobKey)
      → All EntryHolds m
      → All EntryHolds (remove key m)
  unfolding remove
  remove-EntryHolds [] key a = tt
  remove-EntryHolds ((k, v) ∷ m) key a = elim (Bool-cases (k == key)) [
    | inl same ↦ rw same (remove-EntryHolds m key a.1)
    | inr other ↦ rw other (a.0, remove-EntryHolds m key a.1)
  ]

  pub loops_of-TaskHolds :
      (spec : JobSpec) (t : Trigger) (state : ℕ)
      → P spec
      → spec.trigger ≡ t
      → All TaskHolds (loops_of spec t state)
  loops_of-TaskHolds spec (cron e) state h same = ((h, same), tt)
  loops_of-TaskHolds spec manual state h same = tt
