-- ===== src/Scheduler/Tasks.antt =====
-- src/scheduler.rs: `trigger_now` and `scheduling_loop` as tasks that run from one lock or sleep to
-- the next, and every interleaving of them with the other operations as a list of events. The crate
-- `cron` is the parameters `parses` and `next_fire` (the first fire after a time, in milliseconds).
-- The stops that a dispatch meets are in its `worlds`; its rows are appended when it ends.
pub mod Owners
pub mod Balance
pub mod Exclusion
pub mod Lock
pub mod Effect
pub mod Refinement
pub mod Progress
pub mod Window
pub mod Reply
pub mod Atomic
pub mod Registration
pub mod Wiring
pub mod Specs
use cron_manager.Base.{
  ℕ, zero, suc, ◌+◌, Bool, true, false, Option, none, some, List, [], ◌∷◌, ◌++◌, if◌then◌else◌,
  arith, length, get_elem?, set,
}
use cron_manager.Base.Int.{ℤ, ltbℤ}
use cron_manager.Base.Map.{Map, get, contains_key, insert, remove}
use cron_manager.Base.Results.{Result, ok, err}
use cron_manager.Base.Text.{Text, codes}
use cron_manager.Error.{CronManagerError, job_not_found}
use cron_manager.Dsl.{JobKey, JobSpec, key_eq, allows}
use cron_manager.Executor.Dispatch.{DispatchExtras, AttemptWorld, Dispatched, dispatch}
use cron_manager.Scheduler.{
  RegisteredJob, RunningInstance, Loop, Run, Task, calling, starting, looping, sleeping, ready,
  begun, dispatching, recorded, replied, returned, panicked, SchedulerInner, schedule_of,
  begin_running, record_outcome, record_skip, skip_row, remove_job, spawn_loop, insert_job,
  notify_waiters,
}

abbrev pub triggered : JobKey → DispatchExtras → RegisteredJob → Run
triggered key extras entry = record {
  key = key;
  spec = entry.spec;
  state = entry.state;
  schedule = schedule_of entry.spec.trigger;
  extras = extras;
  from = none;
}

abbrev pub fired : Loop → Run
fired l = record {
  key = l.spec.key;
  spec = l.spec;
  state = l.state;
  schedule = l.expr;
  extras = record { env_overrides = [] };
  from = some l;
}

-- `trigger_now` returns the error, and the loop skips the fire.
abbrev pub refused : Option Loop → CronManagerError → Task
refused none e = replied (err e)
refused (some l) e = looping l

-- `trigger_now` spawns the dispatch and returns, and the loop goes on itself.
abbrev pub taken : Option Loop → Run → ℕ → SchedulerInner → Task × SchedulerInner
taken none r cancel s =
    (replied (ok tt), record s { tasks = s.tasks ++ (dispatching r cancel ∷ []) })
taken (some l) r cancel s = (dispatching r cancel, s)

abbrev pub with_cancel : Option RunningInstance → Run → SchedulerInner → Task × SchedulerInner
with_cancel none r s = (panicked, s)
with_cancel (some inst) r s = taken r.from r inst.cancel s

abbrev pub with_begun :
    Result SchedulerInner CronManagerError → Run → SchedulerInner → Task × SchedulerInner
with_begun (err e) r s = (refused r.from e, s)
with_begun (ok s2) r s = (begun r, s2)

abbrev pub after_run : Option Loop → Task
after_run none = returned
after_run (some l) = looping l

-- The dispatch of a run, and its outcome in the state of the job.
abbrev pub finish : Run → Dispatched → ℤ → SchedulerInner → SchedulerInner
finish r (outcome, rows) now s =
    record_outcome r.state outcome now (record s { history = s.history ++ rows })

module _ (parses : Text → Bool) (next_fire : Text → ℤ → Option ℤ) where
  -- One task, from where it stands to its next lock or sleep, at a time.
  unfoldable pub step_task : ℤ → (ℕ → AttemptWorld) → Task → SchedulerInner → Task × SchedulerInner
  unfolding record_skip skip_row
  step_task now worlds (calling key extras) s = elim (get key s.jobs) [
    | none ↦ (replied (err (job_not_found key.group key.name)), s)
    | some entry ↦ (ready (triggered key extras entry), s)
  ]
  step_task now worlds (starting l) s = if parses l.expr then (looping l, s) else (returned, s)
  step_task now worlds (looping l) s = elim (next_fire l.expr now) [
    | none ↦ (returned, s)
    | some next ↦ (sleeping l next, s)
  ]
  step_task now worlds (sleeping l next) s =
      if ltbℤ now next
      then (sleeping l next, s)
      else if allows l.spec.window now
      then (ready (fired l), s)
      else (
        looping l,
        record_skip l.state now (record s { history = s.history ++ (skip_row l.spec now ∷ []) }),
      )
  step_task now worlds (ready r) s = with_begun (begin_running s r.key r.schedule now) r s
  step_task now worlds (begun r) s = with_cancel (get r.key s.running) r s
  step_task now worlds (dispatching r cancel) s =
      (recorded r, finish r (dispatch s.bundle r.spec r.extras worlds) now s)
  step_task now worlds (recorded r) s =
      (after_run r.from, record s { running = remove r.key s.running })
  step_task now worlds (replied r) s = (replied r, s)
  step_task now worlds returned s = (returned, s)
  step_task now worlds panicked s = (panicked, s)

-- A step of a task; a call of `trigger_now`; what the other operations do under one lock.
pub data Event : Type 0 where
  step : ℕ → ℤ → (ℕ → AttemptWorld) → Event
  call : JobKey → DispatchExtras → Event
  take_out : JobKey → Event
  spawn : JobSpec → Event
  put_in : RegisteredJob → Event
  clear : Event
  notify : List ℕ → Event

abbrev pub put_back : ℕ → Task × SchedulerInner → SchedulerInner
put_back i (t, s) = record s { tasks = set s.tasks i t }

module _ (parses : Text → Bool) (next_fire : Text → ℤ → Option ℤ) where
  unfoldable pub step_at :
      ℕ → ℤ → (ℕ → AttemptWorld) → Option Task → SchedulerInner → SchedulerInner
  unfolding step_task
  step_at i now worlds none s = s
  step_at i now worlds (some t) s = put_back i (step_task parses next_fire now worlds t s)

  unfoldable pub apply : Event → SchedulerInner → SchedulerInner
  unfolding step_at
  apply (step i now worlds) s = step_at i now worlds (get_elem? s.tasks i) s
  apply (call key extras) s = record s { tasks = s.tasks ++ (calling key extras ∷ []) }
  apply (take_out key) s = remove_job key s
  apply (spawn spec) s = spawn_loop spec s
  apply (put_in entry) s = insert_job entry s
  apply clear s = record s { jobs = [] }
  apply (notify ns) s = notify_waiters ns s

  unfoldable pub run : List Event → SchedulerInner → SchedulerInner
  unfolding apply
  run [] s = s
  run (e ∷ es) s = run es (apply e s)
