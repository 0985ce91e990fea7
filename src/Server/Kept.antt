-- ===== src/Server/Kept.antt =====
-- What the requests of src/router.rs leave of the scheduler, for the invariant of Server/Invariant.antt.
pub mod Requests
pub mod Events
use mathlib.Core.Option.{some-injective}
use cron_manager.Base.{
  ℕ, ◌≤◌, ◌≡◌, refl, sym, ap, subst, ◌∙◌, inl, inr, Bool, Bool-cases, Option, none, some, List, [],
  ◌∷◌, All, arith, length, map,
}
use cron_manager.Base.Int.{ℤ}
use cron_manager.Base.Map.{get, contains_key, Map}
use cron_manager.Base.Results.{Result, ok, err}
use cron_manager.Base.Text.{Text}
use cron_manager.Config.{AppConfig}
use cron_manager.Dsl.{JobKey, LoadedJob, key_eq}
use cron_manager.Dsl.Loader.Raw.{External}
use cron_manager.Dsl.Loader.Walk.Accepted.{SpecIsAccepted, load-SpecIsAccepted}
use cron_manager.EnvSafety.{Environment}
use cron_manager.Error.{CronManagerError}
use cron_manager.Executor.Dispatch.{DispatchExtras, ExecutorBundle}
use cron_manager.Router.Auth.{Tokens, admin_gate}
use cron_manager.Router.Handlers
use cron_manager.Router.Handlers.{
  bounded_query, forbidden_key, fire, execute_bounded, execute_job, snapshot_after, Answered,
  policy_of, stop_job, stopped_answer, reload_jobs, Snapshot,
}
use cron_manager.Router.Handlers.Laws.{forbidden_key-none, reload_jobs_lem}
use cron_manager.Router.Serve
use cron_manager.Router.Serve.{
  Handler, jobs_all, jobs_group, running_all, running_group, index, health, info, Request, Route,
  Answer, Served, executed, after_stop, after_reload, handle, past_gate, serve,
}
use cron_manager.Router.State.{AppState}
use cron_manager.Scheduler.{RunningInstance, SchedulerInner, reload_from, stop, signal_running}
use cron_manager.Scheduler.Registry.{trigger_now}
use cron_manager.Scheduler.Tasks.{Event, step, apply}
use cron_manager.Scheduler.Tasks.Exclusion.{apply-IsExclusive}
use cron_manager.Scheduler.Tasks.Registration.{reload_from-IsExclusive}
use cron_manager.Scheduler.Tasks.Specs.{EventHolds}
use cron_manager.Scheduler.Tasks.Specs.Steps.{register_all-Holds, apply-Holds}
use cron_manager.Server.{
  ServerEvent, turn, arrive, enter, passed_on, bounded_call, gated_call, admitted_call, left_by,
  entered, go_on, serve_all,
}
use cron_manager.Server.Invariant.{
  IsAllowed, SchedulerIsSound, IsServing, trigger_now-SchedulerIsSound,
}

pub none_passed : (cfg : AppConfig) → IsAllowed cfg (record { env_overrides = [] })
none_passed cfg = (omega arith, inr tt)

-- The pairs of a query that `execute_job` lets through.
pub bounded_query-ok :
    (cap : ℕ) (pairs params : List (Text × Text))
    → bounded_query cap pairs ≡ ok params
    → (length params ≤ cap)
unfolding bounded_query
bounded_query-ok cap pairs params h = ground arith

module _ (next_fire : Text → ℤ → Option ℤ) (x : External) (cfg : AppConfig) (e : Environment)
    (bundle : ExecutorBundle) where
  pub apply-SchedulerIsSound :
      (event : Event) (s : SchedulerInner)
      → EventHolds (SpecIsAccepted x (policy_of cfg e)) (IsAllowed cfg) event
      → SchedulerIsSound x cfg e bundle s
      → SchedulerIsSound x cfg e bundle (apply x.cron_is_valid next_fire event s)
  apply-SchedulerIsSound event s h x' = record {
    exclusive = apply-IsExclusive x.cron_is_valid next_fire event s x'.exclusive;
    accepted =
        apply-Holds (SpecIsAccepted x (policy_of cfg e)) (IsAllowed cfg) (none_passed cfg)
          x.cron_is_valid next_fire bundle event s h x'.accepted;
  }

  pub reload_from-SchedulerIsSound :
      (loaded : List LoadedJob) (s : SchedulerInner)
      → All (SpecIsAccepted x (policy_of cfg e)) (map (λ j. j.spec) loaded)
      → SchedulerIsSound x cfg e bundle s
      → SchedulerIsSound x cfg e bundle (reload_from s loaded).1
  reload_from-SchedulerIsSound loaded s h x' = record {
    exclusive = reload_from-IsExclusive x.cron_is_valid next_fire loaded s x'.exclusive;
    accepted =
        unfold reload_from in
        register_all-Holds (SpecIsAccepted x (policy_of cfg e)) (IsAllowed cfg) (none_passed cfg)
          x.cron_is_valid next_fire bundle (map (λ j. j.spec) loaded) _ h
          (record { jobs = tt; tasks = x'.accepted.tasks; bundled = x'.accepted.bundled });
  }

  signal-SchedulerIsSound :
      (o : Option RunningInstance) (s : SchedulerInner)
      → SchedulerIsSound x cfg e bundle s
      → SchedulerIsSound x cfg e bundle (signal_running o s).1
  signal-SchedulerIsSound none s x' = x'
  signal-SchedulerIsSound (some inst) s x' = record {
    exclusive = record { owners = x'.exclusive.owners; sound = x'.exclusive.sound };
    accepted = record {
      jobs = x'.accepted.jobs;
      tasks = x'.accepted.tasks;
      bundled = x'.accepted.bundled;
    };
  }

  pub stop-SchedulerIsSound :
      (key : JobKey) (s : SchedulerInner)
      → SchedulerIsSound x cfg e bundle s
      → SchedulerIsSound x cfg e bundle (stop s key).1
  unfolding stop
  stop-SchedulerIsSound key s x' = elim (Bool-cases (contains_key key s.jobs)) [
    | inl there ↦ rw there (signal-SchedulerIsSound (get key s.running) s x')
    | inr missing ↦ rw missing x'
  ]

  -- What an answer of `execute_job` leaves.
  abbrev pub AnsweredIsSound : Answered → Type 0
  AnsweredIsSound none = Unit
  AnsweredIsSound (some (answer, s)) = SchedulerIsSound x cfg e bundle s

  module _ (s : SchedulerInner) (group job : Text) (now : ℤ)
      (x' : SchedulerIsSound x cfg e bundle s) where
    snapshot-IsSound :
        (r : Option (Result {0, 0} Unit CronManagerError × SchedulerInner))
        → ((answer : Result {0, 0} Unit CronManagerError) (s2 : SchedulerInner)
            → r ≡ some (answer, s2)
            → SchedulerIsSound x cfg e bundle s2)
        → AnsweredIsSound (snapshot_after group r)
    snapshot-IsSound none h = tt
    snapshot-IsSound (some (err e2, s2)) h = h (err e2) s2 refl
    snapshot-IsSound (some (ok done, s2)) h = h (ok done) s2 refl

    fire-IsSound :
        (params : List (Text × Text)) (k : Option Text)
        → (k ≡ none → IsAllowed cfg (record { env_overrides = params }))
        → AnsweredIsSound (fire s group job now params k)
    fire-IsSound params (some k) h = x'
    fire-IsSound params none h =
        let key : JobKey = record { group = group; name = job } in
        let extras : DispatchExtras = record { env_overrides = params } in
        snapshot-IsSound (trigger_now s key extras now)
          (trigger_now-SchedulerIsSound x cfg e bundle s key extras now x' (h refl))

    bounded-IsSound :
        (r : Result (List (Text × Text)) CronManagerError)
        → ((params : List (Text × Text))
            → r ≡ ok params
            → length params ≤ cfg.security.max_query_params)
        → AnsweredIsSound (execute_bounded cfg s group job now r)
    bounded-IsSound (err e2) h = x'
    bounded-IsSound (ok params) h =
        let allow = cfg.security.allow_dangerous_env_overrides in
        fire-IsSound params (forbidden_key allow params)
          (λ free. (h params refl, forbidden_key-none allow params free))

    pub execute_job-IsSound :
        (pairs : List (Text × Text)) → AnsweredIsSound (execute_job cfg s group job pairs now)
    unfolding execute_job
    execute_job-IsSound pairs =
        bounded-IsSound (bounded_query cfg.security.max_query_params pairs)
          (bounded_query-ok cfg.security.max_query_params pairs)
