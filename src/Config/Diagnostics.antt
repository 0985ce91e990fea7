-- ===== src/Config/Diagnostics.antt =====
-- src/config.rs: `boot_diagnostics`. A log line is a constructor with what it prints.
use cron_manager.Base.{
  ℕ, Bool, true, false, ◌&&◌, not, Option, List, [], ◌∷◌, ◌++◌, if◌then◌else◌, eqb, any, is_empty,
  is_some, length, map,
}
use cron_manager.Base.Eq.{list_beq, list_eq}
use cron_manager.Base.Map.{Map, contains_key}
use cron_manager.Base.Text.{Text, codes}
use cron_manager.Config.{
  AppConfig, SecurityConfig, resolve_admin_token, resolve_per_group_tokens,
  split_allowed_private_hosts,
}
use cron_manager.Security.Ip.{IpAddr}

pub data Diagnostic : Type 0 where
  -- INFO
  config_summary : AppConfig → Diagnostic
  history_disabled : Diagnostic
  security_summary : Bool → AppConfig → Diagnostic
  hosts_allowed : List Text → Diagnostic
  groups_configured : ℕ → ℕ → Diagnostic
  -- WARN
  request_timeout_off shell_timeout_off star_origin : Diagnostic
  no_admin_token : Text → Diagnostic
  network_trusted private_networks_open : Diagnostic
  host_ignored : Text → Diagnostic
  allowlist_inert dangerous_overrides dev_fixtures : Diagnostic
  jobs_exposed running_exposed : Diagnostic
  group_without_token : Text → Text → Diagnostic

unfoldable pub when : Bool → Diagnostic → List Diagnostic
when true d = d ∷ []
when false d = []

abbrev pub limit_lines : AppConfig → List Diagnostic
limit_lines cfg =
    when (eqb cfg.limits.request_timeout_secs 0) request_timeout_off
    ++ (when (eqb cfg.limits.shell_timeout_secs 0) shell_timeout_off
        ++ (when (any (λ o. list_beq o (codes "*")) cfg.allowed_origins) star_origin
            ++ when (not (is_some cfg.database)) history_disabled))

abbrev pub access_lines : Bool → AppConfig → List Diagnostic
access_lines token_present cfg =
    security_summary token_present cfg
    ∷ (when (not token_present) (no_admin_token cfg.admin.bearer_token_env)
        ++ (when cfg.admin.trust_network network_trusted
            ++ when (not cfg.security.block_private_networks) private_networks_open))

abbrev pub host_lines : List Text × List Text → SecurityConfig → List Diagnostic
host_lines (valid, invalid) sec =
    hosts_allowed valid
    ∷ (map host_ignored invalid ++ when (not sec.block_private_networks) allowlist_inert)

abbrev pub exposure_lines : Bool → SecurityConfig → List Diagnostic
exposure_lines token_present sec =
    when sec.allow_dangerous_env_overrides dangerous_overrides
    ++ (when sec.allow_dev_fixture_dsls dev_fixtures
        ++ (when (sec.expose_jobs_publicly && token_present) jobs_exposed
            ++ when (sec.expose_running_publicly && token_present) running_exposed))

-- The loop over the groups, with the tokens that are resolved.
unfoldable pub group_lines : Map Text Text → List (Text × Text) → List Diagnostic
group_lines resolved [] = []
group_lines resolved ((group, var) ∷ rest) =
    when (not (contains_key group resolved)) (group_without_token group var)
    ++ group_lines resolved rest

abbrev pub token_lines : Map Text Text → Map Text Text → List Diagnostic
token_lines resolved envs =
    if is_empty envs
    then []
    else groups_configured (length envs) (length resolved) ∷ group_lines resolved envs

unfoldable pub boot_diagnostics :
    (Text → Option IpAddr) → (Text → Option Text) → AppConfig → List Diagnostic
unfolding group_lines when
boot_diagnostics parse_ip env cfg =
    config_summary cfg
    ∷ (limit_lines cfg
        ++ (access_lines (is_some (resolve_admin_token env cfg)) cfg
            ++ ((if is_empty cfg.security.allowed_private_hosts
                  then []
                  else host_lines (split_allowed_private_hosts parse_ip cfg.security) cfg.security)
                ++ (exposure_lines (is_some (resolve_admin_token env cfg)) cfg.security
                    ++ token_lines (resolve_per_group_tokens env cfg)
                        cfg.security.per_group_token_envs))))
