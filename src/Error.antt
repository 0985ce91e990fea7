-- ===== src/Error.antt =====
-- src/error.rs: the structured errors. A message that the code formats is a constructor of
-- `Message` over the values that it interpolates; the texts of other libraries' errors are left out.
pub mod Laws
use cron_manager.Base.{ℕ, List, [], ◌∷◌}
use cron_manager.Base.Int.{ℤ}
use cron_manager.Base.Text.{Text, codes}
use cron_manager.Security.Ip.{IpAddr}

pub data Message : Type 0 where
  -- src/dsl/loader.rs
  file_too_large : ℕ → ℕ → Message
  dev_fixture_refused : Text → Message
  trigger_true : Message
  retry_count_too_large : Text → ℕ → ℕ → Message
  no_method no_url no_command command_empty : Text → Message
  unknown_http_method unknown_type : Text → Text → Message
  bad_header_name forbidden_header bad_header_value : Text → Text → Message
  header_in_both bad_env_name : Text → Text → Message
  env_value_invalid env_not_set : Text → Text → Text → Message
  invalid_url bad_scheme no_host : Text → Text → Message
  private_ip : Text → IpAddr → Message
  load_panicked : Message
  load_timed_out : ℕ → Message
  -- src/executor/http.rs
  http_method_unknown : Text → Message
  header_env_unset : Text → Text → Message
  header_value_invalid : Text → Message
  stopped_before_response : Message
  url_reparse : Text → Message
  dns_lookup : Text → Message
  non_routable : Text → IpAddr → Message
  upstream_request reading_body : Message
  -- src/executor/shell.rs
  argv_empty stdout_not_captured stderr_not_captured reading_pipe : Message
  stopped_by_stop : Message
  shell_exit : ℤ → Text → Message
  -- src/router.rs
  dangerous_override : Text → Text → Text → Message
  -- src/config.rs
  jvm_wrapper : Text → Message
  database_env_unset : Text → Message

-- `std::io::ErrorKind`, with the one kind that the code tells apart.
pub data IoKind : Type 0 where
  executable_file_busy other_kind : IoKind

pub data CronManagerError : Type 0 where
  job_not_found job_already_running : Text → Text → CronManagerError
  invalid_job_definition invalid_config : Text → Message → CronManagerError
  invalid_cron : Text → CronManagerError
  request_too_large : ℕ → CronManagerError
  too_many_query_params : ℕ → ℕ → CronManagerError
  unauthorized : CronManagerError
  forbidden : Message → CronManagerError
  too_many_requests : ℕ → CronManagerError
  bad_request : Message → CronManagerError
  upstream_http_error : ℕ → Text → CronManagerError
  upstream_timeout upstream_body_too_large : ℕ → CronManagerError
  shell_failed : Message → CronManagerError
  shell_timeout : ℕ → CronManagerError
  io : IoKind → CronManagerError
  yaml_parse : Text → CronManagerError
  database internal : Message → CronManagerError

unfoldable pub status : CronManagerError → ℕ
status (job_not_found _ _) = 404
status (job_already_running _ _) = 409
status (invalid_job_definition _ _) = 400
status (invalid_config _ _) = 400
status (invalid_cron _) = 400
status (bad_request _) = 400
status unauthorized = 401
status (forbidden _) = 403
status (too_many_requests _) = 429
status (request_too_large _) = 413
status (too_many_query_params _ _) = 413
status (upstream_http_error _ _) = 502
status (upstream_body_too_large _) = 502
status (upstream_timeout _) = 504
status (shell_failed _) = 500
status (shell_timeout _) = 500
status (io _) = 500
status (yaml_parse _) = 500
status (database _) = 500
status (internal _) = 500

unfoldable pub code : CronManagerError → Text
code (job_not_found _ _) = codes "job_not_found"
code (job_already_running _ _) = codes "job_already_running"
code (invalid_job_definition _ _) = codes "invalid_job_definition"
code (invalid_config _ _) = codes "invalid_config"
code (invalid_cron _) = codes "invalid_cron"
code (request_too_large _) = codes "request_too_large"
code (too_many_query_params _ _) = codes "too_many_query_params"
code unauthorized = codes "unauthorized"
code (forbidden _) = codes "forbidden"
code (too_many_requests _) = codes "too_many_requests"
code (bad_request _) = codes "bad_request"
code (upstream_http_error _ _) = codes "upstream_http_error"
code (upstream_timeout _) = codes "upstream_timeout"
code (upstream_body_too_large _) = codes "upstream_body_too_large"
code (shell_failed _) = codes "shell_failed"
code (shell_timeout _) = codes "shell_timeout"
code (io _) = codes "io_error"
code (yaml_parse _) = codes "yaml_parse_error"
code (database _) = codes "database_error"
code (internal _) = codes "internal_error"

-- The JSON body of an error: its code, its message (given by the error), and the numbers that
-- stand beside them.
pub record ErrorReply : Type 0 where
  pub status_code : ℕ
  pub error : Text
  pub message : CronManagerError
  pub numbers : List (Text × ℕ)

numbers_of : CronManagerError → List (Text × ℕ)
numbers_of (request_too_large limit) = (codes "limit", limit) ∷ []
numbers_of (upstream_body_too_large limit) = (codes "limit", limit) ∷ []
numbers_of (too_many_query_params n limit) = (codes "count", n) ∷ (codes "limit", limit) ∷ []
numbers_of (too_many_requests secs) = (codes "retry_after_secs", secs) ∷ []
numbers_of _ = []

unfoldable pub into_response : CronManagerError → ErrorReply
unfolding status code numbers_of
into_response e = record {
  status_code = status e;
  error = code e;
  message = e;
  numbers = numbers_of e;
}
