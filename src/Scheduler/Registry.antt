-- ===== src/Scheduler/Registry.antt =====
-- src/scheduler.rs: `trigger_now` undisturbed, and what `trigger_now`, `stop` and `reload_from` do.
-- `trigger_now` gives nothing where it panics.
pub mod Registered
use cron_manager.Base.{
  ℕ, ◌+◌, ◌≡◌, refl, ap, ◌∙◌, Bool, true, false, Option, none, some, List, [], ◌∷◌, ◌++◌,
  if◌then◌else◌, arith, length, map,
}
use cron_manager.Base.Eq.{==_self}
use cron_manager.Base.Int.{ℤ}
use cron_manager.Base.Map.{get, contains_key, insert, get-insert}
use cron_manager.Base.Results.{Result, ok, err}
use cron_manager.Base.Text.{Text}
use cron_manager.Error.{CronManagerError, job_not_found, job_already_running}
use cron_manager.Dsl.{JobKey, JobSpec, LoadedJob, key_eq}
use cron_manager.Executor.Dispatch.{DispatchExtras}
use cron_manager.Scheduler.{
  RegisteredJob, RunningInstance, dispatching, SchedulerInner, begin_running, reload_from, stop,
  signal_running, notify_waiters,
}
use cron_manager.Scheduler.Tasks.{triggered}
use cron_manager.Scheduler.Registry.Registered.{
  last_of, registered, cron_loops, register_all-append, register_all-running,
  register_all-signalled, registered-register_all,
}

abbrev spawned :
    JobKey
    → DispatchExtras
    → RegisteredJob
    → SchedulerInner
    → Option RunningInstance
    → Option (Result {0, 0} Unit CronManagerError × SchedulerInner)
spawned key extras entry s none = none
spawned key extras entry s (some inst) = some (
  ok tt,
  record s { tasks = s.tasks ++ (dispatching (triggered key extras entry) inst.cancel ∷ []) },
)

abbrev begun_now :
    JobKey
    → DispatchExtras
    → RegisteredJob
    → SchedulerInner
    → Result SchedulerInner CronManagerError
    → Option (Result {0, 0} Unit CronManagerError × SchedulerInner)
begun_now key extras entry s (err e) = some (err e, s)
begun_now key extras entry s (ok s2) = spawned key extras entry s2 (get key s2.running)

abbrev looked_up :
    JobKey
    → DispatchExtras
    → ℤ
    → SchedulerInner
    → Option RegisteredJob
    → Option (Result {0, 0} Unit CronManagerError × SchedulerInner)
looked_up key extras now s none = some (err (job_not_found key.group key.name), s)
looked_up key extras now s (some entry) =
    begun_now key extras entry s (begin_running s key (triggered key extras entry).schedule now)

unfoldable pub trigger_now :
    SchedulerInner
    → JobKey
    → DispatchExtras
    → ℤ
    → Option (Result {0, 0} Unit CronManagerError × SchedulerInner)
trigger_now s key extras now = looked_up key extras now s (get key s.jobs)

-- The entry that `begin_running` makes.
abbrev pub instance_of : SchedulerInner → ℤ → Text → RunningInstance
instance_of s now schedule = record {
  started_at_ms = now;
  schedule = schedule;
  cancel = s.notifies;
}

pub begin_running_free :
    (s : SchedulerInner) (key : JobKey) (schedule : Text) (now : ℤ)
    → contains_key key s.running ≡ false
    → begin_running s key schedule now
      ≡ ok (record s {
        running = insert key (instance_of s now schedule) s.running;
        notifies = s.notifies + 1;
      })
unfolding begin_running
begin_running_free s key schedule now h = ground (arith, h)

pub begin_running_busy :
    (s : SchedulerInner) (key : JobKey) (schedule : Text) (now : ℤ)
    → contains_key key s.running ≡ true
    → begin_running s key schedule now ≡ err (job_already_running key.group key.name)
unfolding begin_running
begin_running_busy s key schedule now h = ground (arith, h)

pub get-instance :
    (s : SchedulerInner) (key : JobKey) (i : RunningInstance)
    → get key (insert key i s.running) ≡ some i
get-instance s key i = ground (arith, get-insert key key i s.running, ==_self key)

-- What `trigger_now` answers and leaves, with the entry of `jobs` for the key.
abbrev pub Answer :
    SchedulerInner
    → JobKey
    → DispatchExtras
    → ℤ
    → Option RegisteredJob
    → Bool
    → Option (Result {0, 0} Unit CronManagerError × SchedulerInner)
    → Type 0
Answer s key extras now none busy o = o ≡ some (err (job_not_found key.group key.name), s)
Answer s key extras now (some entry) true o =
    o ≡ some (err (job_already_running key.group key.name), s)
Answer s key extras now (some entry) false o =
    o
    ≡ some (
      ok tt,
      record s {
        running = insert key (instance_of s now (triggered key extras entry).schedule) s.running;
        notifies = s.notifies + 1;
        tasks = s.tasks ++ (dispatching (triggered key extras entry) s.notifies ∷ []);
      },
    )

-- `trigger_now` never panics. It answers JobNotFound for a key that is not registered and
-- JobAlreadyRunning for one that runs, and then changes nothing; otherwise it answers Ok, adds one
-- running instance with a fresh cancel handle, and spawns one dispatch that listens to that handle.
pub trigger_now_lem :
    (s : SchedulerInner) (key : JobKey) (extras : DispatchExtras) (now : ℤ)
    → Answer s key extras now
        (get key s.jobs)
        (contains_key key s.running)
        (trigger_now s key extras now)
unfolding trigger_now
trigger_now_lem s key extras now = answer (get key s.jobs) (contains_key key s.running) refl
  where
    answer :
        (o : Option RegisteredJob) (b : Bool)
        → contains_key key s.running ≡ b
        → Answer s key extras now o b (looked_up key extras now s o)
    answer none b h = refl
    answer (some entry) true h =
        ap (begun_now key extras entry s) (begin_running_busy s key _ now h)
    answer (some entry) false h =
        ap (begun_now key extras entry s) (begin_running_free s key _ now h)
        ∙ ap (spawned key extras entry _) (get-instance s key _)

-- What `stop` answers and leaves, with whether the key is registered and its running instance.
abbrev pub Stopped :
    SchedulerInner
    → JobKey
    → Bool
    → Option RunningInstance
    → Result Bool CronManagerError × SchedulerInner
    → Type 0
Stopped s key false o a = a ≡ (err (job_not_found key.group key.name), s)
Stopped s key true none a = a ≡ (ok false, s)
Stopped s key true (some inst) a =
    a ≡ (ok true, record s { signalled = s.signalled ++ (inst.cancel ∷ []) })

-- `stop` answers JobNotFound exactly for a key that is not registered, even if a run of it is still
-- there; for a registered key it answers whether a run of it is there; and it signals the cancel
-- handle of that run and no other, and changes nothing else.
pub stop_lem :
    (s : SchedulerInner) (key : JobKey)
    → Stopped s key (contains_key key s.jobs) (get key s.running) (stop s key)
unfolding stop
stop_lem s key = answer (contains_key key s.jobs) (get key s.running)
  where
    answer :
        (b : Bool) (o : Option RunningInstance)
        → Stopped s key b o
            (if b then signal_running o s else (err (job_not_found key.group key.name), s))
    answer false o = refl
    answer true none = refl
    answer true (some inst) = refl

-- `reload_from` answers the number of jobs loaded. Afterwards the registered spec of a key is the
-- last one loaded with that key, and a key that is not loaded is not registered. Every running
-- instance has been signalled, in the order of the map, and is still there: a run ends by itself.
-- No task has ended: the scheduling loops from before go on beside the new ones, one for each cron
-- job loaded.
pub reload_from_lem :
    (s : SchedulerInner) (loaded : List LoadedJob)
    → ((reload_from s loaded).0 ≡ ok (length loaded))
      × ((key : JobKey)
          → registered key (reload_from s loaded).1 ≡ last_of key (map (λ j. j.spec) loaded))
      × ((reload_from s loaded).1.running ≡ s.running)
      × ((reload_from s loaded).1.signalled ≡ s.signalled ++ map (λ e. e.1.cancel) s.running)
      × ((reload_from s loaded).1.tasks
          ≡ s.tasks ++ cron_loops (length s.cells) (map (λ j. j.spec) loaded))
unfolding reload_from get
reload_from_lem s loaded = (
  refl,
  λ key. registered-register_all specs cleared key ∙ last_or_none (last_of key specs) key,
  register_all-running specs cleared,
  register_all-signalled specs cleared,
  register_all-append specs cleared,
)
  where
    specs : List JobSpec
    specs = map (λ j. j.spec) loaded

    cleared : SchedulerInner
    cleared = record (notify_waiters (map (λ e. e.1.cancel) s.running) s) { jobs = [] }

    last_or_none :
        (o : Option JobSpec) (key : JobKey)
        → (elim o [ some spec ↦ some spec | none ↦ registered key cleared ]) ≡ o
    last_or_none none key = refl
    last_or_none (some spec) key = refl
