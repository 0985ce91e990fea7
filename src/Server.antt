-- ===== src/Server.antt =====
-- src/main.rs, src/router.rs and src/scheduler.rs together: the process that serves, as a sequence of
-- steps of its tasks and of requests. The crate `cron` parses an expression for the loader and for the
-- scheduling loops alike, so both use the same parameter.
pub mod Invariant
pub mod Kept
pub mod Booted
pub mod Guarded
use cron_manager.Base.{ℕ, Option, none, some, List, [], ◌∷◌}
use cron_manager.Base.Int.{ℤ}
use cron_manager.Base.Results.{Result, ok, err}
use cron_manager.Base.Text.{Text}
use cron_manager.Config.{AppConfig}
use cron_manager.Dsl.{JobKey}
use cron_manager.Dsl.Loader.Raw.{External}
use cron_manager.EnvSafety.{Environment}
use cron_manager.Error.{CronManagerError}
use cron_manager.Executor.Dispatch.{AttemptWorld, DispatchExtras}
use cron_manager.Router.Auth.{admin_gate}
use cron_manager.Router.Handlers.{bounded_query, forbidden_key}
use cron_manager.Router.Serve.{Request, Route, Answer, Served, serve}
use cron_manager.Router.State.{AppState}
use cron_manager.Scheduler.{SchedulerInner}
use cron_manager.Scheduler.Tasks.{Event, step, call, apply}

-- A task goes on to its next lock or sleep; a request is served while no task goes on; a request to
-- `/execute` passes its checks, and its `trigger_now` waits for its first lock.
pub data ServerEvent : Type 0 where
  turn : ℕ → ℤ → (ℕ → AttemptWorld) → ServerEvent
  arrive : Request → Route → ServerEvent
  enter : Request → ServerEvent

abbrev pub passed_on : Request → List (Text × Text) → Option Text → Option Event
passed_on r params (some k) = none
passed_on r params none =
    some (call (record { group = r.group; name = r.job }) (record { env_overrides = params }))

abbrev pub bounded_call :
    AppConfig → Request → Result (List (Text × Text)) CronManagerError → Option Event
bounded_call cfg r (err e) = none
bounded_call cfg r (ok params) =
    passed_on r params (forbidden_key cfg.security.allow_dangerous_env_overrides params)

abbrev pub gated_call : AppConfig → Request → Result {0, 0} Unit CronManagerError → Option Event
gated_call cfg r (err e) = none
gated_call cfg r (ok _) = bounded_call cfg r (bounded_query cfg.security.max_query_params r.pairs)

-- The call that a request to `/execute` makes, past the gate and the checks of `execute_job`.
unfoldable pub admitted_call : AppState → Request → Option Event
admitted_call st r = gated_call st.cfg r (admin_gate st.tokens r.authorization r.path)

-- A handler that panics leaves the state as it was.
abbrev pub left_by : AppState → Served → AppState
left_by st none = st
left_by st (some (answer, st2)) = st2

module _ (next_fire : Text → ℤ → Option ℤ) (x : External) (e : Environment) where
  abbrev pub entered : AppState → Option Event → AppState
  entered st none = st
  entered st (some event) = record st {
    scheduler = apply x.cron_is_valid next_fire event st.scheduler;
  }

  unfoldable pub go_on : ServerEvent → AppState → AppState
  unfolding admitted_call
  go_on (turn i now worlds) st = record st {
    scheduler = apply x.cron_is_valid next_fire (step i now worlds) st.scheduler;
  }
  go_on (arrive r to) st = left_by st (serve next_fire x e r st to)
  go_on (enter r) st = entered st (admitted_call st r)

  unfoldable pub serve_all : List ServerEvent → AppState → AppState
  unfolding go_on
  serve_all [] st = st
  serve_all (event ∷ events) st = serve_all events (go_on event st)
