-- ===== src/Router/Handlers/Laws.antt =====
-- What `/execute` and `/reload` let happen.
use cron_manager.Base.{
  ℕ, ◌+◌, ◌≤◌, ◌≡◌, refl, sym, ap, ◌⊎◌, inl, inr, Bool, true, false, Option, none, some, List, [],
  ◌∷◌, if◌then◌else◌, ltb, length, length-append, subst, All, arith,
}
use cron_manager.Base.Int.{ℤ}
use cron_manager.Base.Map.{Map, get, contains_key}
use cron_manager.Base.Results.{Result, ok, err}
use cron_manager.Base.Text.{Text}
use cron_manager.Config.{AppConfig}
use cron_manager.Dsl.{JobKey, LoadedJob, key_eq}
use cron_manager.Error.{CronManagerError, too_many_query_params}
use cron_manager.EnvSafety.{Environment}
use cron_manager.Dsl.Loader.Raw.{External, LoadPolicy}
use cron_manager.Dsl.Loader.Walk.{
  LoadEnd, in_time, panicked, timed_out, Node, load_all_bounded, load_all_with_policy,
}
use cron_manager.Router.Reload.{admit}
use cron_manager.Executor.Dispatch.{DispatchExtras}
use cron_manager.Scheduler.{SchedulerInner, RegisteredJob, reload_from}
use cron_manager.Scheduler.Registry.{trigger_now, trigger_now_lem, Answer}
use cron_manager.Scheduler.Describe.{describe_running}
use cron_manager.Security.Env.{is_dangerous_env}
use cron_manager.Router.Handlers.{
  bounded_query, find_dangerous, forbidden_key, fire, execute_bounded, execute_job, snapshot_after,
  Answered, policy_of, reload_admitted, reload_jobs,
}

-- No pair sets a variable of the blacklist.
abbrev pub Harmless : List (Text × Text) → Type 0
Harmless = All (λ p. is_dangerous_env p.0 ≡ false)

find_dangerous-none : (pairs : List (Text × Text)) → find_dangerous pairs ≡ none → Harmless pairs
unfolding find_dangerous
find_dangerous-none [] h = tt
find_dangerous-none ((k, v) ∷ pairs) h = ground (arith, find_dangerous-none pairs)

pub forbidden_key-none :
    (allow : Bool) (pairs : List (Text × Text))
    → forbidden_key allow pairs ≡ none
    → (allow ≡ true) ⊎ Harmless pairs
forbidden_key-none true pairs h = inl refl
forbidden_key-none false pairs h = inr (find_dangerous-none pairs h)

module _ (cfg : AppConfig) (s : SchedulerInner) (group job : Text) (now : ℤ) where
  -- What an answer means for the request: nothing has changed when it is an error.
  abbrev pub Explained : List (Text × Text) → Answered → Type 0
  Explained pairs none = ⊥
  Explained pairs (some (err e, s2)) = s2 ≡ s
  Explained pairs (some (ok shown, s2)) =
      (length pairs ≤ cfg.security.max_query_params)
      × ((cfg.security.allow_dangerous_env_overrides ≡ true) ⊎ Harmless pairs)
      × (contains_key (record { group = group; name = job }) s.running ≡ false)
      × (length s2.tasks ≡ length s.tasks + 1)
      × (shown ≡ describe_running (some group) s2)

  Explained-Answer :
      (pairs : List (Text × Text)) (o : Option RegisteredJob) (b : Bool)
      (r : Option (Result {0, 0} Unit CronManagerError × SchedulerInner))
      → length pairs ≤ cfg.security.max_query_params
      → (cfg.security.allow_dangerous_env_overrides ≡ true) ⊎ Harmless pairs
      → contains_key (record { group = group; name = job }) s.running ≡ b
      → Answer s (record { group = group; name = job }) (record { env_overrides = pairs }) now o b r
      → Explained pairs (snapshot_after group r)
  Explained-Answer pairs none b r small safe busy h =
      subst (λ a. Explained pairs (snapshot_after group a)) (sym h) refl
  Explained-Answer pairs (some entry) true r small safe busy h =
      subst (λ a. Explained pairs (snapshot_after group a)) (sym h) refl
  Explained-Answer pairs (some entry) false r small safe busy h =
      subst (λ a. Explained pairs (snapshot_after group a)) (sym h)
        (small, safe, busy, length-append s.tasks _, refl)

  Explained-fire :
      (pairs : List (Text × Text)) (k : Option Text)
      → length pairs ≤ cfg.security.max_query_params
      → (k ≡ none → (cfg.security.allow_dangerous_env_overrides ≡ true) ⊎ Harmless pairs)
      → Explained pairs (fire s group job now pairs k)
  Explained-fire pairs (some k) small h = refl
  Explained-fire pairs none small h =
      let key : JobKey = record { group = group; name = job } in
      let extras : DispatchExtras = record { env_overrides = pairs } in
      Explained-Answer pairs (get key s.jobs) (contains_key key s.running)
        (trigger_now s key extras now) small (h refl) refl (trigger_now_lem s key extras now)

  -- `/execute` never panics. When it answers with an error, the scheduler is as before. When it
  -- answers Ok, the query has no more pairs than the cap, no pair sets a variable of the blacklist
  -- unless the configuration allows it, no run of the job was there, one task has been spawned, and
  -- the answer is the snapshot of the running jobs of the group.
  pub execute_job_lem :
      (pairs : List (Text × Text)) → Explained pairs (execute_job cfg s group job pairs now)
  unfolding execute_job bounded_query
  execute_job_lem pairs = bounded (ltb cfg.security.max_query_params (length pairs)) refl
    where
      bounded :
          (b : Bool)
          → ltb cfg.security.max_query_params (length pairs) ≡ b
          → Explained pairs (
              execute_bounded cfg s group job now (
                if b
                then err (too_many_query_params (length pairs) cfg.security.max_query_params)
                else ok pairs))
      bounded true h = refl
      bounded false h =
          Explained-fire pairs (forbidden_key cfg.security.allow_dangerous_env_overrides pairs)
            (ground arith) (forbidden_key-none cfg.security.allow_dangerous_env_overrides pairs)

loaded_in_time :
    (x : External) (root : Text) (policy : LoadPolicy) (secs : ℕ) (ending : LoadEnd)
    (tree : Option Node) (jobs : List LoadedJob)
    → load_all_bounded x root policy secs ending tree ≡ ok jobs
    → (ending ≡ in_time) × (load_all_with_policy x root policy tree ≡ ok jobs)
unfolding load_all_bounded
loaded_in_time x root policy secs in_time tree jobs h = (refl, h)
loaded_in_time x root policy secs panicked tree jobs h = cc
loaded_in_time x root policy secs timed_out tree jobs h = cc

-- `/reload`: when it answers with an error, whether from the throttle, from the load or from its
-- deadline, the scheduler is as before. When it answers Ok, the throttle let it through, the load ended in
-- time with a list of jobs, the answer is their number, and the scheduler has been reloaded from it.
pub reload_jobs_lem :
    (x : External) (cfg : AppConfig) (env : Environment) (ending : LoadEnd) (tree : Option Node)
    (gate : Map Text ℕ) (s : SchedulerInner) (group : Text) (now : ℕ)
    → ((e : CronManagerError) × ((reload_jobs x cfg env ending tree gate s group now).0 ≡ err e)
        × ((reload_jobs x cfg env ending tree gate s group now).2 ≡ s))
      ⊎ ((jobs : List LoadedJob) × ((admit now group cfg.security.reload_min_interval_secs gate).0
            ≡ ok tt)
          × (ending ≡ in_time)
          × (load_all_with_policy x cfg.dsl_path (policy_of cfg env) tree ≡ ok jobs)
          × ((reload_jobs x cfg env ending tree gate s group now).0 ≡ ok (length jobs))
          × ((reload_jobs x cfg env ending tree gate s group now).2 ≡ (reload_from s jobs).1))
unfolding reload_jobs reload_from
reload_jobs_lem x cfg env ending tree gate s group now =
    reloaded loaded_now refl (admit now group secs gate) refl
  where
    secs : ℕ
    secs = cfg.security.reload_min_interval_secs

    loaded_now : Result (List LoadedJob) CronManagerError
    loaded_now =
        load_all_bounded x cfg.dsl_path (policy_of cfg env) cfg.security.dsl_load_timeout_secs
          ending tree

    reloaded :
        (loaded : Result (List LoadedJob) CronManagerError)
        → load_all_bounded x cfg.dsl_path
            (policy_of cfg env)
            cfg.security.dsl_load_timeout_secs
            ending
            tree
          ≡ loaded
        → (a : Result {0, 0} Unit ℕ × Map Text ℕ) → admit now group secs gate ≡ a
        → ((e : CronManagerError) × ((reload_admitted s loaded a).0 ≡ err e)
            × ((reload_admitted s loaded a).2 ≡ s))
          ⊎ ((jobs : List LoadedJob) × ((admit now group secs gate).0 ≡ ok tt)
              × (ending ≡ in_time)
              × (load_all_with_policy x cfg.dsl_path (policy_of cfg env) tree ≡ ok jobs)
              × ((reload_admitted s loaded a).0 ≡ ok (length jobs))
              × ((reload_admitted s loaded a).2 ≡ (reload_from s jobs).1))
    reloaded loaded h (err wait, g) k = inl (_, refl, refl)
    reloaded (err e) h (ok u, g) k = inl (_, refl, refl)
    reloaded (ok jobs) h (ok u, g) k =
        let there =
          loaded_in_time x cfg.dsl_path (policy_of cfg env) cfg.security.dsl_load_timeout_secs
            ending tree jobs h in
        inr (jobs, ap (λ r. r.0) k, there.0, there.1, refl, refl)
