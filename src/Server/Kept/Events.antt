-- ===== src/Server/Kept/Events.antt =====
-- Every event of the serving process keeps the invariant of Server/Invariant.antt.
use mathlib.Core.Option.{some-injective}
use cron_manager.Base.{
  ◌≤◌, ◌≡◌, refl, sym, ap, subst, ◌∙◌, Option, none, some, List, [], ◌∷◌, length,
}
use cron_manager.Base.Int.{ℤ}
use cron_manager.Base.Results.{Result, ok, err}
use cron_manager.Base.Text.{Text}
use cron_manager.Config.{AppConfig}
use cron_manager.Dsl.{key_eq}
use cron_manager.Dsl.Loader.Raw.{External}
use cron_manager.Dsl.Loader.Walk.Accepted.{SpecIsAccepted}
use cron_manager.EnvSafety.{Environment}
use cron_manager.Error.{CronManagerError}
use cron_manager.Executor.Dispatch.{ExecutorBundle}
use cron_manager.Router.Auth.{Tokens, admin_gate}
use cron_manager.Router.Handlers.{bounded_query, forbidden_key, policy_of}
use cron_manager.Router.Handlers.Laws.{forbidden_key-none}
use cron_manager.Router.Serve.{Request}
use cron_manager.Router.State.{AppState}
use cron_manager.Scheduler.Tasks.{Event, step, apply}
use cron_manager.Scheduler.Tasks.Specs.{EventHolds}
use cron_manager.Server.{
  ServerEvent, turn, arrive, enter, passed_on, bounded_call, gated_call, admitted_call, entered,
  go_on, serve_all,
}
use cron_manager.Server.Invariant.{IsAllowed, IsServing}
use cron_manager.Server.Kept.{bounded_query-ok, apply-SchedulerIsSound}
use cron_manager.Server.Kept.Requests.{serving, serve-IsServing}

module _ (next_fire : Text → ℤ → Option ℤ) (x : External) (cfg : AppConfig) (e : Environment)
    (bundle : ExecutorBundle) where
  passed_on-EventHolds :
      (r : Request) (params : List (Text × Text)) (k : Option Text) (event : Event)
      → (k ≡ none → IsAllowed cfg (record { env_overrides = params }))
      → passed_on r params k ≡ some event
      → EventHolds (SpecIsAccepted x (policy_of cfg e)) (IsAllowed cfg) event
  passed_on-EventHolds r params (some k) event h same = cc
  passed_on-EventHolds r params none event h same =
      subst (EventHolds (SpecIsAccepted x (policy_of cfg e)) (IsAllowed cfg))
        (some-injective _ event same) (h refl)

  bounded_call-EventHolds :
      (r : Request) (q : Result (List (Text × Text)) CronManagerError) (event : Event)
      → ((params : List (Text × Text))
          → q ≡ ok params
          → length params ≤ cfg.security.max_query_params)
      → bounded_call cfg r q ≡ some event
      → EventHolds (SpecIsAccepted x (policy_of cfg e)) (IsAllowed cfg) event
  bounded_call-EventHolds r (err e2) event h same = cc
  bounded_call-EventHolds r (ok params) event h same =
      let allow = cfg.security.allow_dangerous_env_overrides in
      passed_on-EventHolds r params (forbidden_key allow params) event
        (λ free. (h params refl, forbidden_key-none allow params free)) same

  gated_call-EventHolds :
      (r : Request) (gate : Result {0, 0} Unit CronManagerError) (event : Event)
      → gated_call cfg r gate ≡ some event
      → EventHolds (SpecIsAccepted x (policy_of cfg e)) (IsAllowed cfg) event
  gated_call-EventHolds r (err e2) event same = cc
  gated_call-EventHolds r (ok passed) event same =
      bounded_call-EventHolds r (bounded_query cfg.security.max_query_params r.pairs) event
        (bounded_query-ok cfg.security.max_query_params r.pairs) same

  module _ (tokens : Tokens) where
    entered-IsServing :
        (r : Request) (o : Option Event) (st : AppState)
        → admitted_call st r ≡ o
        → IsServing x cfg e bundle tokens st
        → IsServing x cfg e bundle tokens (entered next_fire x e st o)
    unfolding admitted_call
    entered-IsServing r none st h v = v
    entered-IsServing r (some event) st h v =
        serving next_fire x cfg e bundle st tokens st.reload_gate
          (apply x.cron_is_valid next_fire event st.scheduler) v
          (apply-SchedulerIsSound next_fire x cfg e bundle event st.scheduler
            (gated_call-EventHolds r (admin_gate st.tokens r.authorization r.path) event (
              ap (λ c. gated_call c r (admin_gate st.tokens r.authorization r.path)) (sym v.config)
              ∙ h))
            v.scheduler)

    go_on-IsServing :
        (event : ServerEvent) (st : AppState)
        → IsServing x cfg e bundle tokens st
        → IsServing x cfg e bundle tokens (go_on next_fire x e event st)
    unfolding go_on
    go_on-IsServing (turn i now worlds) st v =
        serving next_fire x cfg e bundle st tokens st.reload_gate
          (apply x.cron_is_valid next_fire (step i now worlds) st.scheduler) v
          (apply-SchedulerIsSound next_fire x cfg e bundle (step i now worlds) st.scheduler tt
            v.scheduler)
    go_on-IsServing (arrive r to) st v = serve-IsServing next_fire x cfg e bundle tokens st v r to
    go_on-IsServing (enter r) st v = entered-IsServing r (admitted_call st r) st refl v

    pub serve_all-IsServing :
        (events : List ServerEvent) (st : AppState)
        → IsServing x cfg e bundle tokens st
        → IsServing x cfg e bundle tokens (serve_all next_fire x e events st)
    unfolding serve_all
    serve_all-IsServing [] st v = v
    serve_all-IsServing (event ∷ events) st v =
        serve_all-IsServing events (go_on next_fire x e event st) (go_on-IsServing event st v)
