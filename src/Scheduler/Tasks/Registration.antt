-- ===== src/Scheduler/Tasks/Registration.antt =====
-- `register`, `reload_from` and `stop` of src/scheduler.rs as the events of Tasks.antt, one for each
-- lock that they take.
use cron_manager.Base.{
  ◌≡◌, refl, sym, subst, Bool, Option, none, some, List, [], ◌∷◌, map, if◌then◌else◌, Bool-cases,
  inl, inr,
}
use cron_manager.Base.Int.{ℤ}
use cron_manager.Base.Map.{get, contains_key}
use cron_manager.Base.Text.{Text}
use cron_manager.Dsl.{JobKey, JobSpec, LoadedJob, key_eq}
use cron_manager.Scheduler.{
  RunningInstance, SchedulerInner, register, register_all, reload_from, stop, signal_running,
  entry_of, notify_waiters,
}
use cron_manager.Scheduler.Tasks.{Event, take_out, spawn, put_in, clear, notify, apply, run}
use cron_manager.Scheduler.Tasks.Exclusion.{IsExclusive, run-IsExclusive}

unfoldable pub registrations : List JobSpec → SchedulerInner → List Event
unfolding register
registrations [] s = []
registrations (spec ∷ specs) s =
    take_out spec.key
    ∷ spawn spec
    ∷ put_in (entry_of spec s)
    ∷ registrations specs (register s spec)

abbrev signals : Option RunningInstance → List Event
signals none = []
signals (some inst) = notify (inst.cancel ∷ []) ∷ []

abbrev pub stop_events : JobKey → SchedulerInner → List Event
stop_events key s = if contains_key key s.jobs then signals (get key s.running) else []

-- A reload signals every run before it clears the jobs.
abbrev pub reload_events : List LoadedJob → SchedulerInner → List Event
reload_events loaded s =
    let cancels = map (λ e. e.1.cancel) s.running in
    notify cancels
    ∷ clear
    ∷ registrations (map (λ j. j.spec) loaded) (record (notify_waiters cancels s) { jobs = [] })

module _ (parses : Text → Bool) (next_fire : Text → ℤ → Option ℤ) where
  pub register_all-run :
      (specs : List JobSpec) (s : SchedulerInner)
      → register_all s specs ≡ run parses next_fire (registrations specs s) s
  unfolding register_all register registrations run apply
  register_all-run [] s = refl
  register_all-run (spec ∷ specs) s = register_all-run specs (register s spec)

  signals_lem :
      (o : Option RunningInstance) (s : SchedulerInner)
      → (signal_running o s).1 ≡ run parses next_fire (signals o) s
  unfolding run apply
  signals_lem none s = refl
  signals_lem (some inst) s = refl

  stop-run :
      (key : JobKey) (s : SchedulerInner)
      → (stop s key).1 ≡ run parses next_fire (stop_events key s) s
  unfolding stop
  stop-run key s = elim (Bool-cases (contains_key key s.jobs)) [
    | inl there ↦ rw there (signals_lem (get key s.running) s)
    | inr missing ↦ unfold run in rw missing refl
  ]

  -- The state that a reload leaves is the one after its events: first the signal to every run, then
  -- the jobs cleared, then for each job loaded, in order, the old entry out, the loop spawned and the
  -- new entry in; and the state that `stop` leaves is the one after a signal to the run of the key,
  -- where the key is registered and runs, and is unchanged elsewhere.
  pub reload_from-run :
      (loaded : List LoadedJob) (key : JobKey) (s : SchedulerInner)
      → ((reload_from s loaded).1 ≡ run parses next_fire (reload_events loaded s) s)
        × ((stop s key).1 ≡ run parses next_fire (stop_events key s) s)
  unfolding reload_from run apply
  reload_from-run loaded key s = (register_all-run (map (λ j. j.spec) loaded) _, stop-run key s)

  pub register_all-IsExclusive :
      (specs : List JobSpec) (s : SchedulerInner)
      → IsExclusive s
      → IsExclusive (register_all s specs)
  register_all-IsExclusive specs s x =
      subst IsExclusive (sym (register_all-run specs s))
        (run-IsExclusive parses next_fire (registrations specs s) s x)

  pub reload_from-IsExclusive :
      (loaded : List LoadedJob) (s : SchedulerInner)
      → IsExclusive s
      → IsExclusive (reload_from s loaded).1
  unfolding reload_from
  reload_from-IsExclusive loaded s x =
      register_all-IsExclusive (map (λ j. j.spec) loaded) _
        (record { owners = x.owners; sound = x.sound })

  pub stop-IsExclusive :
      (key : JobKey) (s : SchedulerInner) → IsExclusive s → IsExclusive (stop s key).1
  stop-IsExclusive key s x =
      subst IsExclusive (sym (stop-run key s))
        (run-IsExclusive parses next_fire (stop_events key s) s x)
