-- ===== src/Dsl/Loader/Raw.antt =====
-- src/dsl/loader.rs: the shapes that a YAML file holds, the policy, and the fields that need no
-- other library. `External` is what the loader asks of libraries and of the process: the cron,
-- URL, YAML and header parsers, and the environment.
use cron_manager.Base.{ℕ, Bool, true, false, Option, List, [], ◌∷◌, is_empty, if◌then◌else◌}
use cron_manager.Base.Names.{one_of}
use cron_manager.Base.Int.{ℤ}
use cron_manager.Base.Map.{Map}
use cron_manager.Base.Results.{Result, ok, err}
use cron_manager.Base.Text.{Text, codes, to_ascii_lowercase, split_whitespace}
use cron_manager.Error.{CronManagerError, invalid_job_definition, trigger_true, command_empty}
use cron_manager.EnvSafety.{DevFixtureAction}
use cron_manager.Security.Ip.{Ipv4Addr, Ipv6Addr}
use cron_manager.Dsl.{Trigger, cron, manual, JobKey}

pub record LoadPolicy : Type 0 where
  pub max_file_bytes : ℕ
  pub max_retry_count : ℕ
  pub min_cron_interval_secs : ℕ
  pub block_private_networks : Bool
  pub dev_fixture_action : DevFixtureAction

-- `LoadPolicy::permissive`.
abbrev pub permissive : LoadPolicy
permissive = record {
  max_file_bytes = 8_388_608;
  max_retry_count = 4_294_967_295;
  min_cron_interval_secs = 0;
  block_private_networks = false;
  dev_fixture_action = DevFixtureAction.ignore;
}

pub data RawTrigger : Type 0 where
  bool : Bool → RawTrigger
  str : Text → RawTrigger

pub data RawCommand : Type 0 where
  string : Text → RawCommand
  list : List Text → RawCommand

pub record RawJob : Type 0 where
  pub trigger : RawTrigger
  pub ty : Text
  pub start_date : Option ℤ
  pub end_date : Option ℤ
  pub retry_count : Option ℕ
  pub retry_delay_ms : Option ℕ
  pub ignore_failures : Option Bool
  pub method : Option Text
  pub url : Option Text
  pub headers : Option (Map Text Text)
  pub header_envs : Option (Map Text Text)
  pub command : Option RawCommand
  pub allowed_envs : Option (List Text)

-- `url::Host`.
pub data Host : Type 0 where
  ipv4 : Ipv4Addr → Host
  ipv6 : Ipv6Addr → Host
  domain : Text → Host

pub record Url : Type 0 where
  pub scheme : Text
  pub host : Option Host
  pub port : Option ℕ

pub record External : Type 0 where
  pub cron_is_valid : Text → Bool
  pub parse_url : Text → Option Url
  pub parse_yaml : Text → Option (Map Text RawJob)
  -- `HeaderName::from_bytes(..)`, then `as_str`.
  pub header_name : Text → Option Text
  pub header_value_is_valid : Text → Bool
  pub env : Text → Option Text

unfoldable pub normalise_trigger : RawTrigger → Text → Result Trigger CronManagerError
normalise_trigger (bool false) source = ok manual
normalise_trigger (bool true) source = err (invalid_job_definition source trigger_true)
normalise_trigger (str s) source =
    if one_of (codes "off" ∷ codes "false" ∷ codes "no" ∷ codes "disabled" ∷ [])
      (to_ascii_lowercase s)
    then ok manual
    else ok (cron s)

abbrev pub argv_of : RawCommand → List Text
argv_of (string s) = split_whitespace s
argv_of (list v) = v

abbrev pub starts_empty : List Text → Bool
starts_empty [] = true
starts_empty (program ∷ args) = is_empty program

unfoldable pub into_argv : RawCommand → JobKey → Text → Result (List Text) CronManagerError
into_argv command key source =
    let argv = argv_of command in
    if starts_empty argv
    then err (invalid_job_definition source (command_empty key.name))
    else ok argv
