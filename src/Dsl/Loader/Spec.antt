-- ===== src/Dsl/Loader/Spec.antt =====
-- src/dsl/loader.rs: `validate_http_url` and `RawJob::into_spec`. The WARN lines for frequent cron
-- fires and for many retries are left out: they change no result.
pub mod Laws
use cron_manager.Base.{
  ℕ, Bool, true, false, not, Option, none, some, List, [], ◌∷◌, if◌then◌else◌, unwrap_or, ltb,
}
use cron_manager.Base.Eq.{list_beq}
use cron_manager.Base.Names.{one_of}
use cron_manager.Base.Results.{Result, ok, err, ◌>>=◌}
use cron_manager.Base.Text.{Text, codes, to_ascii_uppercase}
use cron_manager.Error.{
  CronManagerError, invalid_job_definition, invalid_cron, Message, invalid_url, bad_scheme, no_host,
  private_ip, no_method, no_url, no_command, unknown_http_method, unknown_type,
  retry_count_too_large,
}
use cron_manager.Security.Ip.{v4, v6, is_private_or_local}
use cron_manager.Dsl.{Trigger, cron, manual, JobKey, JobKind, JobSpec, RetryPolicy}
use cron_manager.Dsl.Loader.Raw.{
  External, LoadPolicy, RawJob, RawCommand, Host, ipv4, ipv6, domain, Url, normalise_trigger,
  into_argv,
}
use cron_manager.Dsl.Loader.Headers.{build_http_headers}

abbrev pub known_methods : List Text
known_methods =
    codes "GET"
    ∷ codes "POST"
    ∷ codes "PUT"
    ∷ codes "DELETE"
    ∷ codes "PATCH"
    ∷ codes "HEAD"
    ∷ codes "OPTIONS"
    ∷ []

abbrev pub web_schemes : List Text
web_schemes = codes "http" ∷ codes "https" ∷ []

abbrev ok_or {ℓ} : {A : Type ℓ} → Option A → CronManagerError → Result A CronManagerError
ok_or none e = err e
ok_or (some a) e = ok a

abbrev guard : Bool → CronManagerError → Result (Unit {0}) CronManagerError
guard true e = ok tt
guard false e = err e

infixl 5 ◌>>◌
abbrev ◌>>◌ {ℓ} :
    {B : Type ℓ}
    → Result (Unit {0}) CronManagerError
    → Result B CronManagerError
    → Result B CronManagerError
m >> k = m >>= λ _. k

module _ (x : External) (policy : LoadPolicy) (source : Text) (key : JobKey) where
  abbrev bad : Message → CronManagerError
  bad m = invalid_job_definition source m

  -- The match on the parsed host.
  unfoldable pub screen_host : Host → Result (Unit {0}) CronManagerError
  screen_host (ipv4 a) =
      if is_private_or_local (v4 a) then err (bad (private_ip key.name (v4 a))) else ok tt
  screen_host (ipv6 a) =
      if is_private_or_local (v6 a) then err (bad (private_ip key.name (v6 a))) else ok tt
  screen_host (domain _) = ok tt

  unfoldable pub validate_http_url : Text → Result (Unit {0}) CronManagerError
  validate_http_url url_str = do
    parsed ← ok_or (x.parse_url url_str) (bad (invalid_url key.name url_str))
    guard (one_of web_schemes parsed.scheme) (bad (bad_scheme key.name parsed.scheme))
    host ← ok_or parsed.host (bad (no_host key.name url_str))
    if not policy.block_private_networks then ok tt else screen_host host

  -- The `"http"` arm.
  unfoldable pub http_kind : RawJob → Result JobKind CronManagerError
  http_kind raw = do
    method ← ok_or raw.method (bad (no_method key.name))
    url ← ok_or raw.url (bad (no_url key.name))
    guard (one_of known_methods (to_ascii_uppercase method))
        (bad (unknown_http_method key.name method))
    validate_http_url url
    headers ←
        build_http_headers x source key (unwrap_or [] raw.headers) (unwrap_or [] raw.header_envs)
    ok (JobKind.http method url headers)

  -- The `"exec"` arm.
  unfoldable pub exec_kind : RawJob → Result JobKind CronManagerError
  exec_kind raw = do
    raw_command ← ok_or raw.command (bad (no_command key.name))
    argv ← into_argv raw_command key source
    ok (JobKind.exec argv (unwrap_or [] raw.allowed_envs))

  unfoldable pub kind_of : RawJob → Result JobKind CronManagerError
  kind_of raw =
      if list_beq raw.ty (codes "http")
      then http_kind raw
      else if list_beq raw.ty (codes "exec")
      then exec_kind raw
      else err (bad (unknown_type key.name raw.ty))

  unfoldable pub check_cron : Trigger → Result (Unit {0}) CronManagerError
  check_cron (cron expr) = if x.cron_is_valid expr then ok tt else err (invalid_cron expr)
  check_cron manual = ok tt

  unfoldable pub into_spec : RawJob → Result JobSpec CronManagerError
  into_spec raw = do
    trigger ← normalise_trigger raw.trigger source
    check_cron trigger
    let retry_count = unwrap_or 0 raw.retry_count
    guard (not (ltb policy.max_retry_count retry_count))
        (bad (retry_count_too_large key.name retry_count policy.max_retry_count))
    kind ← kind_of raw
    ok (record {
      key = key;
      trigger = trigger;
      window = record { start_ms = raw.start_date; end_ms = raw.end_date };
      retry = record {
        count = retry_count;
        delay = unwrap_or 1000 raw.retry_delay_ms;
        ignore_failures = unwrap_or false raw.ignore_failures;
      };
      kind = kind;
    })
