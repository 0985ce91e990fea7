-- ===== src/Router/Serve.antt =====
-- src/router.rs: the routes that `build` sets up, which of them stand behind the gate, and what a
-- request to one of them gets. That a path matches a pattern, and the decoding of its parameters, is
-- axum's: a request is one to a route, with the parameters that its handler takes.
pub mod Admission
use cron_manager.Base.{
  ℕ, Bool, true, false, Option, none, some, List, [], ◌∷◌, ◌++◌, if◌then◌else◌, is_empty, not,
}
use cron_manager.Base.Int.{ℤ}
use cron_manager.Base.Map.{Map}
use cron_manager.Base.Results.{Result, ok, err}
use cron_manager.Base.Text.{Text, codes}
use cron_manager.Config.{AppConfig, SecurityConfig}
use cron_manager.Dsl.Loader.Raw.{External}
use cron_manager.Dsl.Loader.Walk.{LoadEnd, Node}
use cron_manager.EnvSafety.{Environment}
use cron_manager.Error.{CronManagerError}
use cron_manager.Router.Auth.{admin_gate}
use cron_manager.Router.Handlers
use cron_manager.Router.Handlers.{Snapshot}
use cron_manager.Router.State.{AppState}
use cron_manager.Scheduler.{SchedulerInner}
use cron_manager.Scheduler.Describe.{describe, describe_running}

pub data Handler : Type 0 where
  execute_job stop_job reload_jobs : Handler
  jobs_all jobs_group running_all running_group : Handler
  index health info : Handler

pub data Method : Type 0 where
  get post : Method

pub record Route : Type 0 where
  pub method : Method
  pub pattern : Text
  pub handler : Handler
  pub is_gated : Bool

abbrev pub route : Bool → Method → Text → Handler → Route
route gated method pattern handler = record {
  method = method;
  pattern = pattern;
  handler = handler;
  is_gated = gated;
}

abbrev pub jobs_routes : Bool → List Route
jobs_routes gated =
    route gated get (codes "/jobs") jobs_all
    ∷ route gated get (codes "/jobs/") jobs_all
    ∷ route gated get (codes "/jobs/:group") jobs_group
    ∷ []

abbrev pub running_routes : Bool → List Route
running_routes gated =
    route gated get (codes "/running") running_all
    ∷ route gated get (codes "/running/") running_all
    ∷ route gated get (codes "/running/:group") running_group
    ∷ []

abbrev pub gated_routes : SecurityConfig → List Route
gated_routes sec =
    route true post (codes "/execute/:group/:job") execute_job
    ∷ route true post (codes "/stop/:group/:job") stop_job
    ∷ route true post (codes "/reload/:group") reload_jobs
    ∷ ((if not sec.expose_jobs_publicly then jobs_routes true else [])
        ++ (if not sec.expose_running_publicly then running_routes true else []))

abbrev pub public_routes : SecurityConfig → List Route
public_routes sec =
    route false get (codes "/") index
    ∷ route false get (codes "/health") health
    ∷ route false get (codes "/healthz") health
    ∷ route false get (codes "/actuator/health") health
    ∷ route false get (codes "/actuator/info") info
    ∷ ((if sec.expose_jobs_publicly then jobs_routes false else [])
        ++ (if sec.expose_running_publicly then running_routes false else []))

-- `build`.
unfoldable pub build : SecurityConfig → List Route
build sec = public_routes sec ++ gated_routes sec

-- A request to a route: its path and its header, the parameters of the path and of the query, the
-- times at which it is handled, and what a load of the jobs meets.
pub record Request : Type 0 where
  pub path : Text
  pub authorization : Option Text
  pub group : Text
  pub job : Text
  pub pairs : List (Text × Text)
  pub now : ℤ
  pub instant : ℕ
  pub ending : LoadEnd
  pub tree : Option Node

pub data Answer : Type 0 where
  snapshot : Snapshot → Answer
  stopped : Bool → Snapshot → Answer
  reloaded : ℕ → Answer
  started is_up build_info : Answer
  failure : CronManagerError → Answer

-- The filter of a snapshot.
abbrev pub filter_of : Text → Option Text
filter_of group = if is_empty group then none else some group

abbrev pub Served : Type 0
Served = Option (Answer × AppState)

abbrev pub executed : AppState → Handlers.Answered → Served
executed st none = none
executed st (some (err e, s)) = some (failure e, record st { scheduler = s })
executed st (some (ok shown, s)) = some (snapshot shown, record st { scheduler = s })

abbrev pub after_stop :
    AppState → Result (Bool × Snapshot) CronManagerError × SchedulerInner → Answer × AppState
after_stop st (err e, s) = (failure e, record st { scheduler = s })
after_stop st (ok (aborted, shown), s) = (stopped aborted shown, record st { scheduler = s })

abbrev pub after_reload : AppState → Handlers.Reloaded → Answer × AppState
after_reload st (err e, gate, s) = (failure e, record st { scheduler = s; reload_gate = gate })
after_reload st (ok n, gate, s) = (reloaded n, record st { scheduler = s; reload_gate = gate })

module _ (next_fire : Text → ℤ → Option ℤ) (x : External) (e : Environment) where
  -- The handlers, with `execute_job`, `stop_job` and `reload_jobs` in Handlers.antt.
  unfoldable pub handle : Request → AppState → Handler → Served
  unfolding Handlers.execute_job Handlers.stop_job Handlers.reload_jobs describe describe_running
  handle r st execute_job =
      executed st (Handlers.execute_job st.cfg st.scheduler r.group r.job r.pairs r.now)
  handle r st stop_job = some (after_stop st (Handlers.stop_job st.scheduler r.group r.job))
  handle r st reload_jobs = some (
      after_reload st (
        Handlers.reload_jobs x st.cfg e r.ending r.tree st.reload_gate st.scheduler r.group
          r.instant))
  handle r st jobs_all = some (snapshot (describe next_fire r.now none st.scheduler), st)
  handle r st jobs_group =
      some (snapshot (describe next_fire r.now (filter_of r.group) st.scheduler), st)
  handle r st running_all = some (snapshot (describe_running none st.scheduler), st)
  handle r st running_group =
      some (snapshot (describe_running (filter_of r.group) st.scheduler), st)
  handle r st index = some (started, st)
  handle r st health = some (is_up, st)
  handle r st info = some (build_info, st)

  abbrev pub past_gate : Request → AppState → Handler → Result {0, 0} Unit CronManagerError → Served
  past_gate r st handler (err error) = some (failure error, st)
  past_gate r st handler (ok _) = handle r st handler

  -- A request to a route.
  unfoldable pub serve : Request → AppState → Route → Served
  unfolding handle
  serve r st to =
      if to.is_gated
      then past_gate r st to.handler (admin_gate st.tokens r.authorization r.path)
      else handle r st to.handler
