-- ===== src/Config.antt =====
-- src/config.rs: the configuration and what is resolved from it. Environment variables are read
-- through `env`; the file's YAML parser is a library's.
pub mod Bind
pub mod Dsn
pub mod Files
pub mod Groups
pub mod Diagnostics
use cron_manager.Base.{
  ℕ, Bool, true, false, Option, none, some, List, [], ◌∷◌, is_empty, if◌then◌else◌,
}
use cron_manager.Base.Text.{Text, codes}
use cron_manager.Base.Eq.{list_eq}
use cron_manager.Base.Map
use cron_manager.Base.Map.{Map}
use cron_manager.Base.Results.{Result, ok, err}
use cron_manager.Security.Ip.{IpAddr}
use cron_manager.Security.Host.{normalize_allowed_host}

pub record Limits : Type 0 where
  pub max_request_bytes : ℕ
  pub max_response_bytes : ℕ
  pub request_timeout_secs : ℕ
  pub shell_timeout_secs : ℕ

pub record AdminConfig : Type 0 where
  pub bearer_token_env : Text
  pub trust_network : Bool

pub record SecurityConfig : Type 0 where
  pub block_private_networks : Bool
  pub allow_dangerous_env_overrides : Bool
  pub max_query_params : ℕ
  pub max_dsl_file_bytes : ℕ
  pub dsl_load_timeout_secs : ℕ
  pub max_retry_count : ℕ
  pub min_cron_interval_secs : ℕ
  pub stored_response_body_max_bytes : ℕ
  pub reload_min_interval_secs : ℕ
  pub expose_jobs_publicly : Bool
  pub expose_running_publicly : Bool
  pub per_group_token_envs : Map Text Text
  pub allowed_private_hosts : List Text
  pub allow_dev_fixture_dsls : Bool

pub record DatabaseCfg : Type 0 where
  pub url : Text
  pub password_env : Text

pub record AppConfig : Type 0 where
  pub port : ℕ
  pub dsl_path : Text
  pub app_root_path : Text
  pub allowed_origins : List Text
  pub shell_environment : Map Text Text
  pub limits : Limits
  pub admin : AdminConfig
  pub security : SecurityConfig
  pub database : Option DatabaseCfg

abbrev pub default_limits : Limits
default_limits = record {
  max_request_bytes = 1_048_576;
  max_response_bytes = 16_777_216;
  request_timeout_secs = 30;
  shell_timeout_secs = 300;
}

abbrev pub default_admin : AdminConfig
default_admin = record { bearer_token_env = codes "CRONMANAGER_ADMIN_TOKEN"; trust_network = false }

abbrev pub default_security : SecurityConfig
default_security = record {
  block_private_networks = true;
  allow_dangerous_env_overrides = false;
  max_query_params = 64;
  max_dsl_file_bytes = 1_048_576;
  dsl_load_timeout_secs = 15;
  max_retry_count = 10;
  min_cron_interval_secs = 10;
  stored_response_body_max_bytes = 65_536;
  reload_min_interval_secs = 60;
  expose_jobs_publicly = true;
  expose_running_publicly = true;
  per_group_token_envs = [];
  allowed_private_hosts = [];
  allow_dev_fixture_dsls = false;
}

abbrev pub default_config : AppConfig
default_config = record {
  port = 8080;
  dsl_path = codes "./DSL";
  app_root_path = codes "/app";
  allowed_origins = [];
  shell_environment = [];
  limits = default_limits;
  admin = default_admin;
  security = default_security;
  database = none;
}

-- `split_allowed_private_hosts`, over the entries.
unfoldable pub split_hosts : (Text → Option IpAddr) → List Text → List Text × List Text
unfolding normalize_allowed_host
split_hosts parse_ip [] = ([], [])
split_hosts parse_ip (entry ∷ rest) =
    let (valid, invalid) = split_hosts parse_ip rest in
    elim (normalize_allowed_host parse_ip entry) [
      | some host ↦ (host ∷ valid, invalid)
      | none ↦ (valid, entry ∷ invalid)
    ]

unfoldable pub split_allowed_private_hosts :
    (Text → Option IpAddr) → SecurityConfig → List Text × List Text
unfolding split_hosts
split_allowed_private_hosts parse_ip s = split_hosts parse_ip s.allowed_private_hosts

abbrev pub non_empty : Option Text → Option Text
non_empty none = none
non_empty (some s) = if is_empty s then none else some s

unfoldable pub resolve_admin_token : (Text → Option Text) → AppConfig → Option Text
resolve_admin_token env cfg = non_empty (env cfg.admin.bearer_token_env)

-- The loop of `resolve_per_group_tokens`.
resolve_tokens : (Text → Option Text) → Map Text Text → Map Text Text → Map Text Text
unfolding Map.insert
resolve_tokens env out [] = out
resolve_tokens env out ((group, var) ∷ rest) =
    resolve_tokens env (elim (non_empty (env var)) [ some v ↦ Map.insert group v out | none ↦ out ])
      rest

unfoldable pub resolve_per_group_tokens : (Text → Option Text) → AppConfig → Map Text Text
unfolding resolve_tokens
resolve_per_group_tokens env cfg = resolve_tokens env [] cfg.security.per_group_token_envs
