-- ===== src/Executor/Dispatch.antt =====
-- src/executor/mod.rs: the retry loop. `worlds n` is what attempt `n` meets. The counter is a `u32`,
-- and wraps as it does in a release build; the casts to the `i32` columns of the history are left out,
-- and change nothing below 2^31. Log lines are left out.
pub mod Laws
pub mod Stop
use cron_manager.Base.{
  ℕ, zero, suc, ◌+◌, ◌-◌, ◌%◌, ◌^◌, Bool, true, false, Option, none, some, List, [], ◌∷◌,
  if◌then◌else◌, ltb,
}
use cron_manager.Base.Int.{ℤ}
use cron_manager.Base.Names.{one_of}
use cron_manager.Base.Results.{Result, ok, err}
use cron_manager.Base.Text.{Text, codes, trim, to_ascii_lowercase}
use cron_manager.Error.{CronManagerError, upstream_http_error, shell_timeout}
use cron_manager.Config.{AppConfig, split_allowed_private_hosts}
use cron_manager.Security.Ip.{IpAddr}
use cron_manager.Dsl.{JobKind, JobSpec, http, exec, type_label}
use cron_manager.History.{
  HistoryEntry, ExecutionStatus, success, failed, retrying, skipped, timeout, offline, ErrorText,
  of_error, aborted_by_stop, offline_lever,
}
use cron_manager.Executor.Http
use cron_manager.Executor.Http.{
  HttpExecutor, HttpWorld, HttpAttempt, with_ssrf_policy, with_allowed_private_hosts,
}
use cron_manager.Executor.Shell
use cron_manager.Executor.Shell.{ShellExecutor, ShellWorld, ShellAttempt}

pub record DispatchOutcome : Type 0 where
  pub status : ExecutionStatus
  pub attempts : ℕ
  pub last_error : Option ErrorText

pub record DispatchExtras : Type 0 where
  pub env_overrides : List (Text × Text)

pub record ExecutorBundle : Type 0 where
  pub http : HttpExecutor
  pub shell : ShellExecutor
  pub offline_mode : Bool

-- `CRONMANAGER_OFFLINE`.
unfoldable pub offline_from_env : (Text → Option Text) → Bool
unfolding one_of trim to_ascii_lowercase
offline_from_env env = elim (env (codes "CRONMANAGER_OFFLINE")) [
  | none ↦ false
  | some v ↦
      one_of (codes "true" ∷ codes "1" ∷ codes "yes" ∷ codes "on" ∷ [])
        (to_ascii_lowercase (trim v))
]

-- `ExecutorBundle::new`.
unfoldable pub new : (Text → Option IpAddr) → (Text → Option Text) → AppConfig → ExecutorBundle
unfolding split_allowed_private_hosts offline_from_env Shell.new
new parse_ip env cfg = record {
  http =
      with_allowed_private_hosts (split_allowed_private_hosts parse_ip cfg.security).0
        (with_ssrf_policy cfg.limits cfg.security.block_private_networks);
  shell = Shell.new cfg;
  offline_mode = offline_from_env env;
}

pub record HttpDispatchResult : Type 0 where
  pub response_body : Option Text
  pub http_status_code : Option ℕ
  pub error_message : Option ErrorText
  pub is_shell_timeout : Bool

abbrev from_ok : HttpAttempt → HttpDispatchResult
from_ok res = record {
  response_body = some res.body;
  http_status_code = some res.status;
  error_message = none;
  is_shell_timeout = false;
}

abbrev upstream_status : CronManagerError → Option ℕ
upstream_status (upstream_http_error status _) = some status
upstream_status _ = none

abbrev from_err : CronManagerError → HttpDispatchResult
from_err e = record {
  response_body = none;
  http_status_code = upstream_status e;
  error_message = some (of_error e);
  is_shell_timeout = false;
}

abbrev from_shell_ok : ShellAttempt → HttpDispatchResult
from_shell_ok res = record {
  response_body = some res.stdout;
  http_status_code = none;
  error_message = none;
  is_shell_timeout = false;
}

abbrev is_timeout : CronManagerError → Bool
is_timeout (shell_timeout _) = true
is_timeout _ = false

abbrev from_shell_err : CronManagerError → HttpDispatchResult
from_shell_err e = record {
  response_body = none;
  http_status_code = none;
  error_message = some (of_error e);
  is_shell_timeout = is_timeout e;
}

-- What one attempt meets; `stop_in_delay` says that a stop arrives during the delay after it.
pub record AttemptWorld : Type 0 where
  pub http_world : HttpWorld
  pub shell_world : ShellWorld
  pub at : ℤ
  pub duration_ms : ℕ
  pub stop_in_delay : Bool

abbrev both {ℓ κ} :
    {A : Type ℓ} {B : Type κ}
    → (A → B)
    → (CronManagerError → B)
    → Result A CronManagerError
    → Result B B
both f g (ok a) = ok (f a)
both f g (err e) = err (g e)

-- The attempt itself.
unfoldable pub attempt_result :
    ExecutorBundle
    → JobKind
    → DispatchExtras
    → AttemptWorld
    → Result HttpDispatchResult HttpDispatchResult
attempt_result self (http method url headers) extras w =
    both from_ok from_err (Http.execute self.http w.http_world method url headers)
attempt_result self (exec argv allowed_envs) extras w =
    both from_shell_ok from_shell_err
      (Shell.execute self.shell w.shell_world argv allowed_envs extras.env_overrides)

abbrev method_of : JobKind → Option Text
method_of (http method url headers) = some method
method_of (exec argv allowed_envs) = none

abbrev url_of : JobKind → Option Text
url_of (http method url headers) = some url
url_of (exec argv allowed_envs) = none

-- The status that the history row of an attempt gets.
unfoldable pub status_for_history :
    ℕ → ℕ → Result HttpDispatchResult HttpDispatchResult → ExecutionStatus
status_for_history attempt max_attempts (ok r) = success
status_for_history attempt max_attempts (err r) =
    if r.is_shell_timeout then timeout else if ltb attempt max_attempts then retrying else failed

abbrev body_of : Result HttpDispatchResult HttpDispatchResult → Option Text
body_of (ok r) = r.response_body
body_of (err r) = none

abbrev code_of : Result HttpDispatchResult HttpDispatchResult → Option ℕ
code_of (ok r) = r.http_status_code
code_of (err r) = r.http_status_code

abbrev error_of : Result HttpDispatchResult HttpDispatchResult → Option ErrorText
error_of (ok r) = none
error_of (err r) = r.error_message

unfoldable pub history_row :
    JobSpec → ℕ → ℕ → AttemptWorld → Result HttpDispatchResult HttpDispatchResult → HistoryEntry
unfolding status_for_history type_label
history_row spec attempt max_attempts w result = record {
  execution_time = w.at;
  job_name = spec.key.name;
  job_group = spec.key.group;
  job_type = type_label spec.kind;
  duration_ms = some w.duration_ms;
  status = status_for_history attempt max_attempts result;
  http_method = method_of spec.kind;
  http_url = url_of spec.kind;
  http_status_code = code_of result;
  attempt_number = attempt;
  max_attempts = max_attempts;
  response_body = body_of result;
  error_message = error_of result;
}

-- The outcome when all attempts failed.
unfoldable pub exhausted : JobSpec → ℕ → Option ErrorText → DispatchOutcome
exhausted spec max_attempts last_error = record {
  status = if spec.retry.ignore_failures then skipped else failed;
  attempts = max_attempts;
  last_error = last_error;
}

abbrev pub Dispatched : Type 0
Dispatched = DispatchOutcome × List HistoryEntry

abbrev pub with_row : HistoryEntry → Dispatched → Dispatched
with_row row (o, rows) = (o, row ∷ rows)

abbrev pub ended : ExecutionStatus → ℕ → Option ErrorText → Dispatched
ended status attempts last_error =
    (record { status = status; attempts = attempts; last_error = last_error }, [])

module _ (self : ExecutorBundle) (spec : JobSpec) (extras : DispatchExtras)
    (worlds : ℕ → AttemptWorld) (max_attempts : ℕ) where
  -- What follows a failed attempt: a timeout ends the run, and so does a stop during the delay.
  abbrev after_failure : ℕ → HttpDispatchResult → Dispatched → Dispatched
  after_failure attempt r later =
      if r.is_shell_timeout
      then ended timeout attempt r.error_message
      else if ltb attempt max_attempts
      then (if (worlds attempt).stop_in_delay
          then ended failed attempt (some aborted_by_stop)
          else later)
      else later

  abbrev after_attempt : ℕ → Result HttpDispatchResult HttpDispatchResult → Dispatched → Dispatched
  after_attempt attempt (ok r) later = ended success attempt none
  after_attempt attempt (err r) later = after_failure attempt r later

  -- `for attempt in 1..=max_attempts`: the attempts left, the next one, and `last_error`.
  unfoldable pub attempts_from : ℕ → ℕ → Option ErrorText → Dispatched
  unfolding exhausted history_row
  attempts_from zero attempt last_error = (exhausted spec max_attempts last_error, [])
  attempts_from (suc left) attempt last_error =
      let result = attempt_result self spec.kind extras (worlds attempt) in
      let later = attempts_from left (attempt + 1) (error_of result) in
      with_row (history_row spec attempt max_attempts (worlds attempt) result)
        (after_attempt attempt result later)

unfoldable pub offline_stub : JobSpec → ℤ → Dispatched
unfolding type_label
offline_stub spec now = (
  record { status = offline; attempts = 1; last_error = none },
  record {
    execution_time = now;
    job_name = spec.key.name;
    job_group = spec.key.group;
    job_type = type_label spec.kind;
    duration_ms = some 0;
    status = offline;
    http_method = method_of spec.kind;
    http_url = url_of spec.kind;
    http_status_code = none;
    attempt_number = 1;
    max_attempts = 1;
    response_body = none;
    error_message = some offline_lever;
  }
      ∷ [],
)

-- `spec.retry.count + 1`.
abbrev pub max_attempts_of : JobSpec → ℕ
max_attempts_of spec = (spec.retry.count + 1) % 2 ^ 32

unfoldable pub dispatch :
    ExecutorBundle → JobSpec → DispatchExtras → (ℕ → AttemptWorld) → Dispatched
unfolding offline_stub attempts_from
dispatch self spec extras worlds =
    if self.offline_mode
    then offline_stub spec (worlds 1).at
    else attempts_from self spec extras worlds (max_attempts_of spec) (max_attempts_of spec) 1 none
