-- ===== src/Process.antt =====
-- src/main.rs: the process, from its configuration to its first request. `connect` says whether the
-- database at a DSN is reached; building the HTTP client always succeeds. Log lines are left out,
-- and the listener and its shutdown are tokio's.
pub mod Boot
pub mod Entry
pub mod Signal
use mathlib.Core.Option
use cron_manager.Base.{
  ℕ, Bool, true, false, Option, none, some, List, [], map, is_some, is_empty, if◌then◌else◌,
}
use cron_manager.Base.Map.{Map}
use cron_manager.Base.Results.{Result, ok, err}
use cron_manager.Base.Text.{Text, codes}
use cron_manager.Config.{AppConfig, resolve_admin_token, resolve_per_group_tokens}
use cron_manager.Config.Dsn.{database_dsn}
use cron_manager.Doctor.Audit.{bind_of}
use cron_manager.Dsl.{LoadedJob}
use cron_manager.Dsl.Loader.Raw.{External}
use cron_manager.Dsl.Loader.Walk.{LoadEnd, Node, load_all_bounded}
use cron_manager.EnvSafety.{Environment, WeakCred, PostureCheck, enforce_creds, enforce_posture}
use cron_manager.EnvSafety.Checks.{cred_checks_for, posture_checks_for}
use cron_manager.Error.{CronManagerError}
use cron_manager.Executor.Dispatch
use cron_manager.History.{Recorder, postgres, noop}
use cron_manager.Router.Auth.{refuse_to_start_without_token}
use cron_manager.Router.State.{AppState, new_state, with_admin_token, with_per_group_tokens}
use cron_manager.Router.Handlers.{policy_of}
use cron_manager.Scheduler
use cron_manager.Scheduler.{SchedulerInner, register_all}
use cron_manager.Security.Ip.{IpAddr}

pub data BootError : Type 0 where
  weak_creds : List WeakCred → BootError
  unsafe_posture : List PostureCheck → BootError
  refused : Text → BootError
  failed : CronManagerError → BootError

-- The recorder of the history, for the DSN there is.
abbrev pub recorder_of : AppConfig → (Text → Bool) → Option Text → Recorder
recorder_of cfg connect none = noop
recorder_of cfg connect (some dsn) =
    if connect dsn then postgres cfg.security.stored_response_body_max_bytes else noop

-- What `main` serves: the state of the router, and the recorder of its executors.
pub record Booted : Type 0 where
  pub state : AppState
  pub recorder : Recorder

abbrev pub Boot : Type 0
Boot = Option (Result Booted BootError)

abbrev pub refusal : Result {0, 0} Unit Text → Result {0, 0} Unit BootError
refusal (ok _) = ok tt
refusal (err msg) = err (refused msg)

abbrev pub after_posture :
    Result {0, 0} Unit (List PostureCheck)
    → Result {0, 0} Unit BootError
    → Result {0, 0} Unit BootError
after_posture (err msg) later = err (unsafe_posture msg)
after_posture (ok _) later = later

abbrev pub after_creds :
    Result {0, 0} Unit (List WeakCred) → Result {0, 0} Unit BootError → Result {0, 0} Unit BootError
after_creds (err msg) later = err (weak_creds msg)
after_creds (ok _) later = later

abbrev pub with_token : Option Text → AppState → AppState
with_token none state = state
with_token (some token) state = with_admin_token token state

abbrev pub with_groups : Map Text Text → AppState → AppState
with_groups tokens state = if is_empty tokens then state else with_per_group_tokens tokens state

module _ (parse_ip : Text → Option IpAddr) (env : Text → Option Text) where
  -- The three refusals to start, in their order; nothing where the first panics.
  unfoldable pub boot_gates : AppConfig → Environment → Option (Result {0, 0} Unit BootError)
  boot_gates cfg e =
      Option.map
        (λ verdict. after_creds verdict (
          after_posture (enforce_posture e (posture_checks_for cfg)) (
            refusal (
              refuse_to_start_without_token parse_ip cfg (bind_of cfg)
                (is_some (resolve_admin_token env cfg))))))
        (enforce_creds e (cred_checks_for env cfg))

  -- The scheduler with the jobs loaded, and the state with the tokens.
  abbrev pub serve_with : AppConfig → Recorder → List LoadedJob → Booted
  serve_with cfg recorder jobs = record {
    state = with_groups (resolve_per_group_tokens env cfg) (
        with_token (resolve_admin_token env cfg) (
          new_state cfg (
            register_all (Scheduler.new (Dispatch.new parse_ip env cfg))
              (map (λ j. j.spec) jobs))));
    recorder = recorder;
  }

  abbrev pub after_load :
      AppConfig → Recorder → Result (List LoadedJob) CronManagerError → Result Booted BootError
  after_load cfg recorder (err e) = err (failed e)
  after_load cfg recorder (ok jobs) = ok (serve_with cfg recorder jobs)

  abbrev pub after_dsn :
      AppConfig
      → (Text → Bool)
      → Result (List LoadedJob) CronManagerError
      → Result (Option Text) CronManagerError
      → Result Booted BootError
  after_dsn cfg connect loaded (err e) = err (failed e)
  after_dsn cfg connect loaded (ok dsn) = after_load cfg (recorder_of cfg connect dsn) loaded

  abbrev pub after_gates :
      Result {0, 0} Unit BootError → Result Booted BootError → Result Booted BootError
  after_gates (err e) later = err e
  after_gates (ok _) later = later

  -- `main` up to the listener: the load of the jobs meets `ending` and `tree`.
  unfoldable pub boot :
      External → AppConfig → Environment → (Text → Bool) → LoadEnd → Option Node → Boot
  unfolding boot_gates database_dsn
  boot x cfg e connect ending tree =
      Option.map
        (λ gates. after_gates gates (
          after_dsn cfg connect
            (load_all_bounded x cfg.dsl_path (policy_of cfg e) cfg.security.dsl_load_timeout_secs
              ending tree)
            (database_dsn env cfg)))
        (boot_gates cfg e)
