-- ===== src/Error/Laws.antt =====
-- A client that reads the error code of a JSON body can tell the HTTP status from it.
use cron_manager.Base.{ℕ, ◌≡◌, refl, ap, sym, ◌∙◌, [], ◌∷◌, unwrap_or}
use cron_manager.Base.Text.{Text, codes}
use cron_manager.Base.Map
use cron_manager.Base.Map.{Map}
use cron_manager.Base.Eq.{list_eq}
use cron_manager.Error.{
  CronManagerError, job_not_found, job_already_running, invalid_job_definition, invalid_config,
  invalid_cron, request_too_large, too_many_query_params, unauthorized, forbidden,
  too_many_requests, bad_request, upstream_http_error, upstream_timeout, upstream_body_too_large,
  shell_failed, shell_timeout, io, yaml_parse, database, internal, status, code, into_response,
}

-- The documented table of codes.
abbrev status_table : Map Text ℕ
status_table =
    (codes "job_not_found", 404)
    ∷ (codes "job_already_running", 409)
    ∷ (codes "invalid_job_definition", 400)
    ∷ (codes "invalid_config", 400)
    ∷ (codes "invalid_cron", 400)
    ∷ (codes "request_too_large", 413)
    ∷ (codes "too_many_query_params", 413)
    ∷ (codes "unauthorized", 401)
    ∷ (codes "forbidden", 403)
    ∷ (codes "too_many_requests", 429)
    ∷ (codes "bad_request", 400)
    ∷ (codes "upstream_http_error", 502)
    ∷ (codes "upstream_timeout", 504)
    ∷ (codes "upstream_body_too_large", 502)
    ∷ (codes "shell_failed", 500)
    ∷ (codes "shell_timeout", 500)
    ∷ (codes "io_error", 500)
    ∷ (codes "yaml_parse_error", 500)
    ∷ (codes "database_error", 500)
    ∷ (codes "internal_error", 500)
    ∷ []

status_of_code : Text → ℕ
unfolding Map.get
status_of_code c = unwrap_or 0 (Map.get c status_table)

status-code : (e : CronManagerError) → status e ≡ status_of_code (code e)
unfolding status code status_of_code
status-code (job_not_found _ _) = refl
status-code (job_already_running _ _) = refl
status-code (invalid_job_definition _ _) = refl
status-code (invalid_config _ _) = refl
status-code (invalid_cron _) = refl
status-code (request_too_large _) = refl
status-code (too_many_query_params _ _) = refl
status-code unauthorized = refl
status-code (forbidden _) = refl
status-code (too_many_requests _) = refl
status-code (bad_request _) = refl
status-code (upstream_http_error _ _) = refl
status-code (upstream_timeout _) = refl
status-code (upstream_body_too_large _) = refl
status-code (shell_failed _) = refl
status-code (shell_timeout _) = refl
status-code (io _) = refl
status-code (yaml_parse _) = refl
status-code (database _) = refl
status-code (internal _) = refl

-- Two errors that are reported under one code are reported with one HTTP status.
pub into_response_code :
    (e f : CronManagerError)
    → (into_response e).error ≡ (into_response f).error
    → (into_response e).status_code ≡ (into_response f).status_code
unfolding into_response
into_response_code e f h = status-code e ∙ ap status_of_code h ∙ sym (status-code f)
