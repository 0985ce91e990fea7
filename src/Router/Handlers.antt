-- ===== src/Router/Handlers.antt =====
-- src/router.rs: the handlers that change something. A handler gives its answer and what it leaves;
-- `pairs` is what `form_urlencoded` reads from the query string. The JSON of an answer is its value.
-- `execute_job` gives nothing where `trigger_now` panics.
pub mod Laws
use cron_manager.Base.{
  ℕ, Bool, true, false, not, Option, none, some, List, [], ◌∷◌, ◌++◌, if◌then◌else◌, ltb, length,
}
use cron_manager.Base.Int.{ℤ}
use cron_manager.Base.Map.{Map}
use cron_manager.Base.Results.{Result, ok, err}
use cron_manager.Base.Text.{Text}
use cron_manager.Config.{AppConfig}
use cron_manager.Dsl.{JobKey, LoadedJob}
use cron_manager.Dsl.Loader.Raw.{External, LoadPolicy}
use cron_manager.Dsl.Loader.Walk.{LoadEnd, Node, load_all_bounded}
use cron_manager.EnvSafety.{Environment, action_from_env}
use cron_manager.Error.{
  CronManagerError, forbidden, too_many_query_params, too_many_requests, dangerous_override,
}
use cron_manager.Router.Reload.{admit}
use cron_manager.Scheduler.{SchedulerInner, stop, reload_from}
use cron_manager.Scheduler.Describe.{JobDescriptor, describe_running}
use cron_manager.Scheduler.Registry.{trigger_now}
use cron_manager.Security.Env.{is_dangerous_env}

abbrev pub Snapshot : Type 0
Snapshot = Map Text (List JobDescriptor)

-- `BoundedQuery`.
unfoldable pub bounded_query : ℕ → List (Text × Text) → Result (List (Text × Text)) CronManagerError
bounded_query cap pairs =
    if ltb cap (length pairs) then err (too_many_query_params (length pairs) cap) else ok pairs

-- The first override that the blacklist has.
unfoldable pub find_dangerous : List (Text × Text) → Option Text
find_dangerous [] = none
find_dangerous ((k, v) ∷ pairs) = if is_dangerous_env k then some k else find_dangerous pairs

abbrev pub forbidden_key : Bool → List (Text × Text) → Option Text
forbidden_key allow params = if not allow then find_dangerous params else none

abbrev pub Answered : Type 0
Answered = Option (Result Snapshot CronManagerError × SchedulerInner)

abbrev pub snapshot_after :
    Text → Option (Result {0, 0} Unit CronManagerError × SchedulerInner) → Answered
snapshot_after group none = none
snapshot_after group (some (err e, s)) = some (err e, s)
snapshot_after group (some (ok _, s)) = some (ok (describe_running (some group) s), s)

abbrev pub fire : SchedulerInner → Text → Text → ℤ → List (Text × Text) → Option Text → Answered
fire s group job now params (some k) = some (err (forbidden (dangerous_override k group job)), s)
fire s group job now params none =
    snapshot_after group
      (trigger_now s (record { group = group; name = job }) (record { env_overrides = params }) now)

abbrev pub execute_bounded :
    AppConfig
    → SchedulerInner
    → Text
    → Text
    → ℤ
    → Result (List (Text × Text)) CronManagerError
    → Answered
execute_bounded cfg s group job now (err e) = some (err e, s)
execute_bounded cfg s group job now (ok params) =
    fire s group job now params (forbidden_key cfg.security.allow_dangerous_env_overrides params)

unfoldable pub execute_job :
    AppConfig → SchedulerInner → Text → Text → List (Text × Text) → ℤ → Answered
execute_job cfg s group job pairs now =
    execute_bounded cfg s group job now (bounded_query cfg.security.max_query_params pairs)

abbrev pub stopped_answer :
    Text
    → Result Bool CronManagerError × SchedulerInner
    → Result (Bool × Snapshot) CronManagerError × SchedulerInner
stopped_answer group (err e, s) = (err e, s)
stopped_answer group (ok aborted, s) = (ok (aborted, describe_running (some group) s), s)

unfoldable pub stop_job :
    SchedulerInner → Text → Text → Result (Bool × Snapshot) CronManagerError × SchedulerInner
stop_job s group job = stopped_answer group (stop s (record { group = group; name = job }))

-- The reload gate and the scheduler, which a reload changes.
abbrev pub Reloaded : Type 0
Reloaded = Result ℕ CronManagerError × Map Text ℕ × SchedulerInner

abbrev pub policy_of : AppConfig → Environment → LoadPolicy
policy_of cfg env = record {
  max_file_bytes = cfg.security.max_dsl_file_bytes;
  max_retry_count = cfg.security.max_retry_count;
  min_cron_interval_secs = cfg.security.min_cron_interval_secs;
  block_private_networks = cfg.security.block_private_networks;
  dev_fixture_action = action_from_env env cfg.security.allow_dev_fixture_dsls;
}

abbrev pub install :
    Map Text ℕ → SchedulerInner → Result (List LoadedJob) CronManagerError → Reloaded
install gate s (err e) = (err e, gate, s)
install gate s (ok jobs) = let r = reload_from s jobs in (r.0, gate, r.1)

abbrev pub reload_admitted :
    SchedulerInner
    → Result (List LoadedJob) CronManagerError
    → Result {0, 0} Unit ℕ × Map Text ℕ
    → Reloaded
reload_admitted s loaded (err wait, gate) = (err (too_many_requests wait), gate, s)
reload_admitted s loaded (ok _, gate) = install gate s loaded

-- `now` is the time in nanoseconds; the load meets `ending` and `tree`.
unfoldable pub reload_jobs :
    External
    → AppConfig
    → Environment
    → LoadEnd
    → Option Node
    → Map Text ℕ
    → SchedulerInner
    → Text
    → ℕ
    → Reloaded
reload_jobs x cfg env ending tree gate s group now =
    reload_admitted s
      (load_all_bounded x cfg.dsl_path (policy_of cfg env) cfg.security.dsl_load_timeout_secs ending
        tree)
      (admit now group cfg.security.reload_min_interval_secs gate)
