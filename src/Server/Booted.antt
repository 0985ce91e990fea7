-- ===== src/Server/Booted.antt =====
-- What the composition of src/main.rs promises: from a process that has come up, over every sequence
-- of requests and of steps of its tasks.
use cron_manager.Base.{
  ℕ, ◌≡◌, refl, sym, subst, Bool, true, Option, none, some, List, [], ◌∷◌, All, get_elem?, map,
}
use cron_manager.Base.Eq.{==_self}
use cron_manager.Base.Int.{ℤ}
use cron_manager.Base.Map.{Map, contains_key}
use cron_manager.Base.Results.{ok}
use cron_manager.Base.Text.{Text}
use cron_manager.Config.{AppConfig, resolve_per_group_tokens, resolve_admin_token}
use cron_manager.Dsl.{cron, JobKind, JobSpec, HttpHeader, LoadedJob, key_eq}
use cron_manager.Dsl.Loader.Raw.{External, LoadPolicy, Host, Url}
use cron_manager.Dsl.Loader.Spec.Laws.{HostIsPublic, SpecIsSound, KindIsSound, TriggerIsSound}
use cron_manager.Dsl.Loader.Walk.{LoadEnd, Node}
use cron_manager.Dsl.Loader.Walk.Accepted.{SpecIsAccepted, bounded-SpecIsAccepted}
use cron_manager.EnvSafety.{Environment, requires_prod_creds}
use cron_manager.Executor.Dispatch
use cron_manager.Executor.Dispatch.{AttemptWorld, ExecutorBundle}
use cron_manager.Executor.Http.{HttpWorld, ParsedUrl, Request, is_allowlisted, port_of, prepare}
use cron_manager.Executor.Http.Ssrf.{MayReach, prepare_reach}
use cron_manager.History.{Recorder}
use cron_manager.Process.{Booted, with_token, with_groups, serve_with, boot}
use cron_manager.Process.Boot.{boot-serve_with, boot-guarded}
use cron_manager.Router.Handlers.{policy_of}
use cron_manager.Router.State.{AppState, new_state, with_admin_token, with_per_group_tokens}
use cron_manager.Scheduler
use cron_manager.Scheduler.{
  Loop, Run, Task, starting, looping, returned, dispatching, SchedulerInner, register_all,
}
use cron_manager.Scheduler.Tasks.{step_task}
use cron_manager.Scheduler.Tasks.Exclusion.{new-IsExclusive, owned_runs}
use cron_manager.Scheduler.Tasks.Registration.{register_all-IsExclusive}
use cron_manager.Scheduler.Tasks.Specs.{TaskHolds, All-get_elem?}
use cron_manager.Scheduler.Tasks.Specs.Steps.{register_all-Holds}
use cron_manager.Security.Ip.{IpAddr}
use cron_manager.Server.{ServerEvent, serve_all}
use cron_manager.Server.Invariant.{IsAllowed, SchedulerIsSound, IsServing}
use cron_manager.Server.Kept.{none_passed}
use cron_manager.Server.Kept.Events.{serve_all-IsServing}

same_scheduler :
    (tokens : Map Text Text) (o : Option Text) (st : AppState)
    → ((with_groups tokens (with_token o st)).scheduler ≡ st.scheduler)
      × ((with_groups tokens (with_token o st)).cfg ≡ st.cfg)
unfolding with_admin_token with_per_group_tokens
same_scheduler [] none st = (refl, refl)
same_scheduler [] (some token) st = (refl, refl)
same_scheduler (t ∷ ts) none st = (refl, refl)
same_scheduler (t ∷ ts) (some token) st = (refl, refl)

-- The trigger of an accepted spec parses.
trigger_valid :
    {x : External} {policy : LoadPolicy} (spec : JobSpec) (expr : Text)
    → SpecIsAccepted x policy spec
    → spec.trigger ≡ cron expr
    → x.cron_is_valid expr ≡ true
trigger_valid {x = x} {policy = policy} spec expr accepted watched =
    subst (TriggerIsSound x policy) watched accepted.scheduled

module _ (parse_ip : Text → Option IpAddr) (env : Text → Option Text) (cfg : AppConfig)
    (x : External) (e : Environment) (next_fire : Text → ℤ → Option ℤ) where
  -- The executors of the process.
  abbrev pub executors : ExecutorBundle
  executors = Dispatch.new parse_ip env cfg

  registered-SchedulerIsSound :
      (specs : List JobSpec)
      → All (SpecIsAccepted x (policy_of cfg e)) specs
      → SchedulerIsSound x cfg e executors (register_all (Scheduler.new executors) specs)
  registered-SchedulerIsSound specs h = record {
    exclusive =
        register_all-IsExclusive x.cron_is_valid next_fire specs (Scheduler.new executors)
          (new-IsExclusive executors);
    accepted =
        register_all-Holds (SpecIsAccepted x (policy_of cfg e)) (IsAllowed cfg) (none_passed cfg)
          x.cron_is_valid next_fire executors specs (Scheduler.new executors) h
          (record { jobs = tt; tasks = tt; bundled = refl });
  }

  served-IsServing :
      (recorder : Recorder) (jobs : List LoadedJob)
      → All (SpecIsAccepted x (policy_of cfg e)) (map (λ j. j.spec) jobs)
      → let b = serve_with parse_ip env cfg recorder jobs in
        IsServing x cfg e executors b.state.tokens b.state
  unfolding new_state
  served-IsServing recorder jobs h =
      let started = register_all (Scheduler.new executors) (map (λ j. j.spec) jobs) in
      let (same, same_cfg) =
        same_scheduler (resolve_per_group_tokens env cfg) (resolve_admin_token env cfg)
          (new_state cfg started) in
      record {
        config = same_cfg;
        guarded = refl;
        scheduler =
            subst (SchedulerIsSound x cfg e executors) (sym same)
              (registered-SchedulerIsSound (map (λ j. j.spec) jobs) h);
      }

  module _ (connect : Text → Bool) (ending : LoadEnd) (tree : Option Node) (b : Booted)
      (events : List ServerEvent)
      (up : boot parse_ip env x cfg e connect ending tree ≡ some (ok b)) where
    -- From a process that has come up, over every sequence of requests to any routes, served in one
    -- go or, for `/execute`, with its `trigger_now` suspended between its locks, and of steps of tasks:
    -- the configuration and the tokens are those of the boot; the tasks that have begun a run of a
    -- key and not yet removed it are one when `running` has the key and none when it does not, and no
    -- task has panicked; every registered job, every scheduling loop and every run is of a spec that the
    -- loader lets through under the policy of that configuration, under the spec's own key; every
    -- run that a call has started passes no more environment overrides than the cap and none of the
    -- blacklist unless the configuration allows it; and the executors are those of the boot.
    pub served_state_is_sound :
        IsServing x cfg e executors b.state.tokens (serve_all next_fire x e events b.state)
    served_state_is_sound =
        let (recorder, jobs, loaded, is_b) =
          boot-serve_with parse_ip env cfg x e connect ending tree b up in
        serve_all-IsServing next_fire x cfg e executors b.state.tokens events b.state (
          subst (λ b. IsServing x cfg e executors b.state.tokens b.state) is_b
            (served-IsServing recorder jobs (
              bounded-SpecIsAccepted x cfg.dsl_path (policy_of cfg e)
                cfg.security.dsl_load_timeout_secs ending tree jobs loaded)))

    abbrev then_on : AppState
    then_on = serve_all next_fire x e events b.state

    task-TaskHolds :
        (i : ℕ) (t : Task)
        → get_elem? then_on.scheduler.tasks i ≡ some t
        → TaskHolds (SpecIsAccepted x (policy_of cfg e)) (IsAllowed cfg) t
    task-TaskHolds i t at_i =
        All-get_elem? (TaskHolds (SpecIsAccepted x (policy_of cfg e)) (IsAllowed cfg))
          then_on.scheduler.tasks i t served_state_is_sound.scheduler.accepted.tasks at_i

    -- The defensive branch of `scheduling_loop` is never taken: a scheduling loop of the process that
    -- takes its first step, whenever that is, parses its expression and goes on; the loader has
    -- refused every expression that does not parse.
    pub started_loop_parses :
        (i : ℕ) (l : Loop) (now : ℤ) (worlds : ℕ → AttemptWorld)
        → get_elem? then_on.scheduler.tasks i ≡ some (starting l)
        → step_task x.cron_is_valid next_fire now worlds (starting l) then_on.scheduler
          ≡ (looping l, then_on.scheduler)
    unfolding step_task
    started_loop_parses i l now worlds at_i =
        let (accepted, watched) = task-TaskHolds i (starting l) at_i in
        rw (trigger_valid l.spec l.expr accepted watched) refl

    -- A run that is dispatched has its key in `running`, is of a spec with that key which the loader
    -- lets through, and its calls may pass only allowed overrides.
    pub dispatched_run_is_sound :
        (i : ℕ) (r : Run) (c : ℕ)
        → get_elem? then_on.scheduler.tasks i ≡ some (dispatching r c)
        → (contains_key r.key then_on.scheduler.running ≡ true)
          × SpecIsSound x (policy_of cfg e) r.key r.spec
          × IsAllowed cfg r.extras
    dispatched_run_is_sound i r c at_i =
        let (accepted, keyed, allowed, loop) = task-TaskHolds i (dispatching r c) at_i in
        (
          owned_runs then_on.scheduler i (dispatching r c) served_state_is_sound.scheduler.exclusive
              at_i r.key (==_self r.key),
          subst (λ k. SpecIsSound x (policy_of cfg e) k r.spec) keyed accepted,
          allowed,
        )

    -- Outside `dev`, in every state that the process reaches, take a dispatched HTTP run of which an
    -- attempt is made ready and whose host is a name that resolves at that moment. The URL that the
    -- loader checked has a host that is routable if it is a literal address; and every address the
    -- name resolves to is routable, or the host is listed and the address is none of those that
    -- stay blocked.
    pub attempts_stay_public :
        (i : ℕ) (r : Run) (c : ℕ) (method url : Text) (headers : List HttpHeader) (w : HttpWorld)
        (req : Request) (parsed : ParsedUrl) (host : Text) (addrs : List IpAddr)
        → requires_prod_creds e ≡ true
        → get_elem? then_on.scheduler.tasks i ≡ some (dispatching r c)
        → r.spec.kind ≡ JobKind.http method url headers
        → prepare then_on.scheduler.bundle.http w method url headers ≡ ok req
        → w.parse_url url ≡ some parsed
        → parsed.host_str ≡ some host
        → w.parse_ip host ≡ none
        → w.lookup_host host (port_of parsed) ≡ some addrs
        → ((u : Url) × (given : Host) × (x.parse_url url ≡ some u)
            × (u.host ≡ some given)
            × HostIsPublic given)
          × All (MayReach (is_allowlisted host executors.http.allowed_private_hosts)) addrs
    unfolding Dispatch.new
    attempts_stay_public i r c method url headers w req parsed host addrs prod at_i kind ready
          is_url is_host named found =
        let (running, sound, allowed) = dispatched_run_is_sound i r c at_i in
        let (token, t1, t2, t3, t4, t5, private', t6, t7) =
          boot-guarded parse_ip env cfg x e connect ending tree b [] prod up in
        let (method_known, given) = subst (KindIsSound x (policy_of cfg e)) kind sound.runnable in
        (
          (given.parsed, given.host, given.is_parsed, given.has_host, given.is_public private'),
          prepare_reach executors.http w method url headers req parsed host addrs private'
              (subst (λ bundle. prepare bundle.http w method url headers ≡ ok req)
                served_state_is_sound.scheduler.accepted.bundled ready)
              is_url is_host named found,
        )
