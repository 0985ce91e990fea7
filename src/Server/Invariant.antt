-- ===== src/Server/Invariant.antt =====
-- What holds of the process in src/main.rs all the time that it serves.
use cron_manager.Base.{
  ◌+◌, ◌≤◌, ◌≡◌, refl, sym, ap, subst, ◌⊎◌, Bool, true, false, Option, none, some, [], ◌∷◌, ◌++◌,
  All-append, arith, length, count-append,
}
use mathlib.Core.Option.{some-injective}
use cron_manager.Base.Eq.{==_iff}
use cron_manager.Base.Int.{ℤ}
use cron_manager.Base.Map.{get, contains_key, insert, contains_key-insert}
use cron_manager.Base.Results.{Result}
use cron_manager.Config.{AppConfig}
use cron_manager.Dsl.{JobKey, key_eq}
use cron_manager.Dsl.Loader.Raw.{External}
use cron_manager.Dsl.Loader.Walk.Accepted.{SpecIsAccepted}
use cron_manager.EnvSafety.{Environment}
use cron_manager.Error.{CronManagerError}
use cron_manager.Executor.Dispatch.{DispatchExtras, ExecutorBundle}
use cron_manager.Router.Auth.{Tokens}
use cron_manager.Router.Handlers.{policy_of}
use cron_manager.Router.Handlers.Laws.{Harmless}
use cron_manager.Router.State.{AppState}
use cron_manager.Scheduler.{RegisteredJob, SchedulerInner, dispatching}
use cron_manager.Scheduler.Registry.{trigger_now, trigger_now_lem, Answer, instance_of}
use cron_manager.Scheduler.Tasks.{triggered}
use cron_manager.Scheduler.Tasks.Owners.{owns, has_panicked}
use cron_manager.Scheduler.Tasks.Exclusion.{IsExclusive}
use cron_manager.Scheduler.Tasks.Specs.{Holds, TaskHolds, get-EntryHolds}

-- What a configuration lets a call of `/execute` pass to its run.
abbrev pub IsAllowed : AppConfig → DispatchExtras → Type 0
IsAllowed cfg extras =
    (length extras.env_overrides ≤ cfg.security.max_query_params)
    × ((cfg.security.allow_dangerous_env_overrides ≡ true) ⊎ Harmless extras.env_overrides)

module _ (x : External) (cfg : AppConfig) (e : Environment) (bundle : ExecutorBundle) where
  -- At most one run of a key, and only specs that the loader lets through.
  pub record SchedulerIsSound (s : SchedulerInner) : Type 0 where
    pub exclusive : IsExclusive s
    pub accepted : Holds (SpecIsAccepted x (policy_of cfg e)) (IsAllowed cfg) bundle s

  pub record IsServing (tokens : Tokens) (st : AppState) : Type 0 where
    pub config : st.cfg ≡ cfg
    pub guarded : st.tokens ≡ tokens
    pub scheduler : SchedulerIsSound st.scheduler

  module _ (s : SchedulerInner) (key : JobKey) (extras : DispatchExtras) (now : ℤ)
      (x' : SchedulerIsSound s) (allowed : IsAllowed cfg extras) where
    -- The scheduler with one more run.
    started : RegisteredJob → SchedulerInner
    started entry = record s {
      running = insert key (instance_of s now (triggered key extras entry).schedule) s.running;
      notifies = s.notifies + 1;
      tasks = s.tasks ++ (dispatching (triggered key extras entry) s.notifies ∷ []);
    }

    started-IsExclusive :
        (entry : RegisteredJob) → contains_key key s.running ≡ false → IsExclusive (started entry)
    unfolding started
    started-IsExclusive entry free = record {
      owners = λ k. ground (
        arith,
        free,
        x'.exclusive.owners k,
        ==_iff key k,
        count-append (owns k) s.tasks (dispatching (triggered key extras entry) s.notifies ∷ []),
        contains_key-insert key k (instance_of s now (triggered key extras entry).schedule)
            s.running,
      );
      sound = ground (
        arith,
        x'.exclusive.sound,
        count-append has_panicked s.tasks
            (dispatching (triggered key extras entry) s.notifies ∷ []),
      );
    }

    started-SchedulerIsSound :
        (entry : RegisteredJob)
        → get key s.jobs ≡ some entry
        → contains_key key s.running ≡ false
        → SchedulerIsSound (started entry)
    started-SchedulerIsSound entry found free =
        let (accepted, keyed) =
          get-EntryHolds (SpecIsAccepted x (policy_of cfg e)) (IsAllowed cfg) s.jobs key entry
            x'.accepted.jobs found in
        record {
          exclusive = started-IsExclusive entry free;
          accepted =
              unfold started in
              record {
                jobs = x'.accepted.jobs;
                tasks =
                    All-append (TaskHolds (SpecIsAccepted x (policy_of cfg e)) (IsAllowed cfg))
                      s.tasks (dispatching (triggered key extras entry) s.notifies ∷ [])
                      x'.accepted.tasks ((accepted, keyed, allowed, tt), tt);
                bundled = x'.accepted.bundled;
              };
        }

    answered-SchedulerIsSound :
        (o : Option RegisteredJob) (b : Bool) (answer : Result {0, 0} Unit CronManagerError)
        (s2 : SchedulerInner)
        → get key s.jobs ≡ o
        → contains_key key s.running ≡ b
        → Answer s key extras now o b (some (answer, s2))
        → SchedulerIsSound s2
    unfolding started
    answered-SchedulerIsSound none b answer s2 found busy a =
        subst SchedulerIsSound (sym (ap (λ p. p.1) (some-injective _ _ a))) x'
    answered-SchedulerIsSound (some entry) true answer s2 found busy a =
        subst SchedulerIsSound (sym (ap (λ p. p.1) (some-injective _ _ a))) x'
    answered-SchedulerIsSound (some entry) false answer s2 found busy a =
        subst SchedulerIsSound (sym (ap (λ p. p.1) (some-injective _ _ a)))
          (started-SchedulerIsSound entry found busy)

    pub trigger_now-SchedulerIsSound :
        (answer : Result {0, 0} Unit CronManagerError) (s2 : SchedulerInner)
        → trigger_now s key extras now ≡ some (answer, s2)
        → SchedulerIsSound s2
    trigger_now-SchedulerIsSound answer s2 h =
        answered-SchedulerIsSound (get key s.jobs) (contains_key key s.running) answer s2 refl refl
          (subst (Answer s key extras now (get key s.jobs) (contains_key key s.running)) h
            (trigger_now_lem s key extras now))
