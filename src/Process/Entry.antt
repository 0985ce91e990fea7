-- ===== src/Process/Entry.antt =====
-- src/main.rs and `cli_entry` of src/doctor.rs: the whole program, from its command line to the
-- state it serves or the way it ends. An error that `main` returns is `refused`; nothing is given where
-- it panics. The files, the database and the load of the jobs are parameters.
pub mod Verdicts
use mathlib.Core.Option
use cron_manager.Base.{ℕ, Bool, true, false, Option, none, some, List, [], ◌∷◌, any, if◌then◌else◌}
use cron_manager.Base.Eq.{list_beq}
use cron_manager.Base.Results.{Result, ok, err}
use cron_manager.Base.Text.{Text, codes}
use cron_manager.Config.{AppConfig}
use cron_manager.Config.Files.{config_search_paths, load_or_default}
use cron_manager.Doctor.{exit_code}
use cron_manager.Doctor.Audit
use cron_manager.Dsl.Loader.Raw.{External}
use cron_manager.Dsl.Loader.Walk.{LoadEnd, Node}
use cron_manager.EnvSafety.{from_env}
use cron_manager.Error.{CronManagerError, IoKind}
use cron_manager.Process.{Booted, BootError, failed, boot}
use cron_manager.Security.Ip.{IpAddr}

pub data Ended : Type 0 where
  exited : ℕ → Ended
  refused : BootError → Ended
  serving : Booted → Ended

abbrev pub is_doctor : Text → Bool
is_doctor arg = list_beq arg (codes "doctor")

abbrev pub with_config :
    Result (AppConfig × Option Text) CronManagerError → (AppConfig → Option Ended) → Option Ended
with_config (err e) next = some (refused (failed e))
with_config (ok (cfg, source)) next = next cfg

abbrev pub ended_by : Result Booted BootError → Ended
ended_by (err e) = refused e
ended_by (ok b) = serving b

-- What the process meets: its environment, the files, and the crates that parse them.
pub record Host : Type 0 where
  pub env : Text → Option Text
  pub exists : Text → Bool
  pub is_dir : Text → Bool
  pub read_to_string : Text → Result Text IoKind
  pub from_str : Text → Option AppConfig
  pub parse_ip : Text → Option IpAddr
  pub debug : Text → Text
  pub external : External
  pub connect : Text → Bool
  pub load_end : LoadEnd
  pub tree : Option Node

module _ (h : Host) where
  abbrev pub config_of : List Text → Result (AppConfig × Option Text) CronManagerError
  config_of args =
      load_or_default h.exists h.read_to_string h.from_str (config_search_paths args h.env)

  -- `cronmanager doctor`.
  unfoldable pub cli_entry : List Text → Option Ended
  unfolding load_or_default config_search_paths Audit.run exit_code from_env
  cli_entry args = with_config (config_of args) (λ cfg.
      Option.map (λ report. exited (exit_code report))
        (Audit.run h.parse_ip h.env h.exists h.is_dir h.debug cfg (from_env h.env)))

  unfoldable pub serve_entry : List Text → Option Ended
  unfolding load_or_default config_search_paths boot from_env
  serve_entry args = with_config (config_of args) (λ cfg.
      Option.map ended_by
        (boot h.parse_ip h.env h.external cfg (from_env h.env) h.connect h.load_end h.tree))

  -- `main`, up to the listener.
  unfoldable pub main : List Text → Option Ended
  unfolding cli_entry serve_entry
  main args =
      let doctor = cli_entry args in
      let server = serve_entry args in if any is_doctor args then doctor else server
