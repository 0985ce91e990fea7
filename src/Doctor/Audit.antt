-- ===== src/Doctor/Audit.antt =====
-- src/doctor.rs: `run`. `exists` and `is_dir` read the file system, `debug` is Rust's `{:?}` of a
-- string, and environment variables are read through `env`. It gives nothing where the credential
-- gate panics.
use cron_manager.Base.{
  Bool, true, false, not, ◌&&◌, Option, none, some, List, [], ◌∷◌, ◌++◌, if◌then◌else◌, eqb, any,
  is_empty, is_some, map,
}
use mathlib.Core.Option
use cron_manager.Base.Eq.{list_beq}
use cron_manager.Base.Results.{Result, ok, err}
use cron_manager.Base.Text.{Text, codes, decimal, join}
use cron_manager.Config.{AppConfig, DatabaseCfg, resolve_admin_token, split_allowed_private_hosts}
use cron_manager.Doctor.{info, weak, break, fatal, creds, posture, Finding, finding, DoctorReport}
use cron_manager.EnvSafety.{
  Environment, requires_prod_creds, WeakCred, PostureCheck, enforce_creds, enforce_posture,
}
use cron_manager.EnvSafety.Checks.{cred_checks_for, posture_checks_for}
use cron_manager.Executor.Dispatch.{offline_from_env}
use cron_manager.Router.Auth.{refuse_to_start_without_token}
use cron_manager.Security.Ip.{IpAddr}

unfoldable pub when : Bool → Finding → List Finding
when true f = f ∷ []
when false f = []

-- `0.0.0.0:{port}`.
unfoldable pub bind_of : AppConfig → Text
bind_of cfg = codes "0.0.0.0:" ++ decimal cfg.port

abbrev pub token_present : (Text → Option Text) → AppConfig → Bool
token_present env cfg = is_some (resolve_admin_token env cfg)

unfoldable pub info_findings : (Text → Option Text) → AppConfig → List Finding
info_findings env cfg =
    finding info (codes "port") (codes "bind port " ++ decimal cfg.port)
    ∷ (when (offline_from_env env) (
          finding info (codes "offline_mode")
            (codes "CRONMANAGER_OFFLINE=true — every dispatch will be stubbed to status=OFFLINE"))
        ++ (finding info (codes "dsl_path") (codes "DSL directory: " ++ cfg.dsl_path)
            ∷ finding info (codes "history") (
                if is_some cfg.database
                then codes "database persistence configured"
                else codes "history persistence disabled (NoopRecorder)")
            ∷ finding info (codes "admin.token") (
                codes "admin bearer token "
                ++ (if token_present env cfg then codes "resolved from env" else codes "NOT set"))
            ∷ []))

unfoldable pub path_findings : (Text → Bool) → (Text → Bool) → Text → List Finding
path_findings exists is_dir path =
    if not (exists path)
    then finding break (codes "dsl_path") (
        codes "DSL directory does not exist: "
        ++ (path ++ codes " — scheduler will boot with 0 jobs"))
      ∷ []
    else if not (is_dir path)
    then finding break (codes "dsl_path") (codes "DSL path is not a directory: " ++ path) ∷ []
    else []

abbrev pub password_finding : DatabaseCfg → Option Text → List Finding
password_finding db none =
    finding break (codes "database.password_env")
      (codes "env var `" ++ (db.password_env ++ codes "` is not set; database.url is configured"))
    ∷ []
password_finding db (some v) = when (is_empty v) (
    finding break (codes "database.password_env")
      (codes "env var `" ++ (db.password_env ++ codes "` is empty; database.url is configured")))

unfoldable pub database_findings : (Text → Option Text) → Option DatabaseCfg → List Finding
database_findings env none = []
database_findings env (some db) = password_finding db (env db.password_env)

abbrev pub refusal_finding : Text → Result {0, 0} Unit Text → List Finding
refusal_finding bind (ok _) = []
refusal_finding bind (err e) =
    finding fatal (codes "refuse_to_start") (
      codes "process would REFUSE to boot: non-loopback bind "
      ++ (bind ++ codes " without an admin token and admin.trust_network=false"))
    ∷ []

abbrev pub creds_finding : Result {0, 0} Unit (List WeakCred) → List Finding
creds_finding (ok _) = []
creds_finding (err msg) =
    record { severity = fatal; name = codes "env_safety.creds"; message = creds msg } ∷ []

abbrev pub posture_finding : Result {0, 0} Unit (List PostureCheck) → List Finding
posture_finding (ok _) = []
posture_finding (err msg) =
    record { severity = fatal; name = codes "env_safety.posture"; message = posture msg } ∷ []

abbrev pub origin_is_star : Text → Bool
origin_is_star o = list_beq o (codes "*")

abbrev pub no_token_text : AppConfig → Text
no_token_text cfg =
    codes "admin bearer token not configured — set env "
    ++ (cfg.admin.bearer_token_env
        ++ codes
            " for the token, or admin.trust_network=true if a proxy authenticates every request")

abbrev pub trust_text : Text
trust_text =
    codes
      "trust_network=true — the loopback-only boot refusal is DISABLED; only safe behind an authenticating proxy"

abbrev pub private_text : Text
private_text = codes "block_private_networks=false — HTTP jobs can reach cloud metadata endpoints"

unfoldable pub limit_findings : (Text → Option Text) → AppConfig → List Finding
limit_findings env cfg =
    when (eqb cfg.limits.request_timeout_secs 0) (
      finding weak (codes "limits.request_timeout_secs")
        (codes "request timeout disabled (0) — slow upstream can pin the executor"))
    ++ (when (eqb cfg.limits.shell_timeout_secs 0) (
          finding weak (codes "limits.shell_timeout_secs")
            (codes "shell timeout disabled (0) — runaway process will not be SIGKILLed"))
        ++ (when (any origin_is_star cfg.allowed_origins) (
              finding weak (codes "allowed_origins") (
                codes
                  "`*` is treated as an exact origin string, not a wildcard — CORS will not match browsers"))
            ++ (when (not (token_present env cfg))
                  (finding weak (codes "admin.token") (no_token_text cfg))
                ++ (when cfg.admin.trust_network
                      (finding weak (codes "admin.trust_network") trust_text)
                    ++ when (not cfg.security.block_private_networks)
                        (finding weak (codes "security.block_private_networks") private_text)))))

abbrev pub shown_finding : List Text → Finding
shown_finding valid = finding info (codes "security.allowed_private_hosts") (
    codes "private-address access allowed for: "
    ++ (join (codes ", ") valid ++ codes " (link-local / metadata still refused)"))

abbrev pub ignored_finding : (Text → Text) → Text → Finding
ignored_finding debug entry =
    finding weak (codes "security.allowed_private_hosts")
      (codes "entry " ++ (debug entry ++ codes " is not a plain hostname and is ignored"))

abbrev pub hosts_findings : (Text → Text) → List Text × List Text → List Finding
hosts_findings debug (valid, invalid) =
    when (not (is_empty valid)) (shown_finding valid) ++ map (ignored_finding debug) invalid

unfoldable pub exposure_findings : (Text → Option Text) → AppConfig → List Finding
exposure_findings env cfg =
    when cfg.security.allow_dangerous_env_overrides (
      finding weak (codes "security.allow_dangerous_env_overrides") (
        codes
          "allow_dangerous_env_overrides=true — PATH / LD_* / PYTHONPATH may be set from /execute query params"))
    ++ (when cfg.security.allow_dev_fixture_dsls (
          finding weak (codes "security.allow_dev_fixture_dsls") (
            codes
              "allow_dev_fixture_dsls=true — FLEET §11.3 dev-fixture DSL gate is DISABLED; files matching dev-login / mock- / -mock / /test/ / example- / -example / /dev/ / /mocks/ load with only a WARN"))
        ++ (when (cfg.security.expose_jobs_publicly && token_present env cfg) (
              finding weak (codes "security.expose_jobs_publicly")
                (codes "GET /jobs is anonymous even though an admin token is configured"))
            ++ when (cfg.security.expose_running_publicly && token_present env cfg) (
                finding weak (codes "security.expose_running_publicly")
                  (codes "GET /running is anonymous even though an admin token is configured"))))

abbrev pub group_is_set : Option Text → Bool
group_is_set none = false
group_is_set (some v) = not (is_empty v)

unfoldable pub group_findings : (Text → Option Text) → List (Text × Text) → List Finding
group_findings env [] = []
group_findings env ((group, var) ∷ rest) =
    when (not (group_is_set (env var))) (
      finding weak (codes "security.per_group_token_envs") (
        codes "group "
        ++ (group
            ++ (codes ": env var "
                ++ (var ++ codes " is unset or empty — falls back to master-only")))))
    ++ group_findings env rest

abbrev pub weak_findings :
    (Text → Option IpAddr) → (Text → Option Text) → (Text → Text) → AppConfig → List Finding
weak_findings parse_ip env debug cfg =
    limit_findings env cfg
    ++ ((if is_empty cfg.security.allowed_private_hosts
          then []
          else hosts_findings debug (split_allowed_private_hosts parse_ip cfg.security))
        ++ (exposure_findings env cfg ++ group_findings env cfg.security.per_group_token_envs))

abbrev pub override_finding : Environment → AppConfig → List Finding
override_finding e cfg =
    when (cfg.security.allow_dangerous_env_overrides && requires_prod_creds e) (
      finding fatal (codes "security.allow_dangerous_env_overrides")
        (codes "allow_dangerous_env_overrides=true in a non-dev environment"))

module _ (parse_ip : Text → Option IpAddr) (env : Text → Option Text) (exists is_dir : Text → Bool)
    (debug : Text → Text) where
  -- The findings before the replay of the credential gate.
  abbrev pub before_gates : AppConfig → List Finding
  before_gates cfg =
      info_findings env cfg
      ++ (path_findings exists is_dir cfg.dsl_path
          ++ (database_findings env cfg.database
              ++ (refusal_finding (bind_of cfg) (
                    refuse_to_start_without_token parse_ip cfg (bind_of cfg)
                      (token_present env cfg))
                  ++ weak_findings parse_ip env debug cfg)))

  unfoldable pub run : AppConfig → Environment → Option DoctorReport
  run cfg e =
      Option.map
        (λ verdict. record {
          env = e;
          findings =
              before_gates cfg
              ++ (creds_finding verdict
                  ++ (posture_finding (enforce_posture e (posture_checks_for cfg))
                      ++ override_finding e cfg));
        })
        (enforce_creds e (cred_checks_for env cfg))
