-- ===== src/Process/Entry/Verdicts.antt =====
-- What `cronmanager doctor` says of the process that it audits.
use mathlib.Core.Option
use mathlib.Core.Option.{some-injective, none-ne-some}
use cron_manager.Base.{
  ℕ, ◌≡◌, ◌≢◌, refl, ap, ◌⊎◌, inl, inr, true, false, Option, none, some, List, any,
}
use cron_manager.Base.Results.{Result, ok, err}
use cron_manager.Base.Text.{Text}
use cron_manager.Config.{AppConfig}
use cron_manager.Config.Dsn.{database_dsn}
use cron_manager.Config.Files.{config_search_paths, load_or_default}
use cron_manager.Doctor.{DoctorReport, exit_code}
use cron_manager.Doctor.Audit
use cron_manager.Doctor.Verdict.{run-gates}
use cron_manager.Dsl.{LoadedJob}
use cron_manager.Dsl.Loader.Walk.{load_all_bounded}
use cron_manager.EnvSafety.{from_env}
use cron_manager.Error.{CronManagerError}
use cron_manager.Process.{Booted, BootError, failed, boot, boot_gates, after_gates, after_dsn}
use cron_manager.Process.Entry.{
  Ended, exited, refused, serving, is_doctor, ended_by, Host, config_of, cli_entry, serve_entry,
  main,
}
use cron_manager.Router.Handlers.{policy_of}

-- The process serves, or ends in an error of its files, its database or its jobs.
abbrev pub IsPastGates : Option Ended → Type 0
IsPastGates o =
    ((b : Booted) × (o ≡ some (serving b)))
    ⊎ ((e : CronManagerError) × (o ≡ some (refused (failed e))))

-- What the two make of one configuration.
abbrev pub Agree : Option Ended → Option Ended → Type 0
Agree doctor server =
    ((doctor ≡ some (exited 0)) × IsPastGates server)
    ⊎ ((doctor ≢ some (exited 0)) × ((b : Booted) → server ≢ some (serving b)))

is_zero : (n : ℕ) → some (exited n) ≡ some (exited 0) → n ≡ 0
is_zero n h = cc

exits_zero :
    (o : Option DoctorReport)
    → Option.map (λ report. exited (exit_code report)) o ≡ some (exited 0)
    → Option.map exit_code o ≡ some 0
exits_zero none h = cc
exits_zero (some report) h = ap some (is_zero (exit_code report) h)

zero_exits :
    (o : Option DoctorReport)
    → Option.map exit_code o ≡ some 0
    → Option.map (λ report. exited (exit_code report)) o ≡ some (exited 0)
zero_exits none h = cc
zero_exits (some report) h = ap (λ n. some (exited n)) (some-injective _ _ h)

module _ (h : Host) where
  dsn-IsPastGates :
      (cfg : AppConfig) (loaded : Result (List LoadedJob) CronManagerError)
      (dsn : Result (Option Text) CronManagerError)
      → IsPastGates (some (ended_by (after_dsn h.parse_ip h.env cfg h.connect loaded dsn)))
  dsn-IsPastGates cfg loaded (err e) = inr (e, refl)
  dsn-IsPastGates cfg (err e) (ok dsn) = inr (e, refl)
  dsn-IsPastGates cfg (ok jobs) (ok dsn) = inl (_, refl)

  gates-Agree :
      (cfg : AppConfig) (doctor : Option DoctorReport)
      (gates : Option (Result {0, 0} Unit BootError)) (later : Result Booted BootError)
      → ((Option.map exit_code doctor ≡ some 0) → gates ≡ some (ok tt))
      → ((gates ≡ some (ok tt)) → Option.map exit_code doctor ≡ some 0)
      → IsPastGates (some (ended_by later))
      → Agree
          (Option.map (λ report. exited (exit_code report)) doctor)
          (Option.map ended_by (Option.map (λ g. after_gates h.parse_ip h.env g later) gates))
  gates-Agree cfg doctor none later to from past =
      inr (λ zero. none-ne-some (ok tt) (to (exits_zero doctor zero)), λ b s. cc)
  gates-Agree cfg doctor (some (err e)) later to from past =
      inr (λ zero. cc (to (exits_zero doctor zero)), λ b s. cc)
  gates-Agree cfg doctor (some (ok passed)) later to from past =
      inl (zero_exits doctor (from refl), past)

  entries-Agree :
      (args other : List Text) (config : Result (AppConfig × Option Text) CronManagerError)
      → config_of h args ≡ config
      → config_of h other ≡ config
      → Agree (cli_entry h args) (serve_entry h other)
  unfolding cli_entry serve_entry boot
  entries-Agree args other (err e) same same2 = rw (same, same2) (inr (λ zero. cc, λ b s. cc))
  entries-Agree args other (ok (cfg, source)) same same2 =
      let e = from_env h.env in
      let loaded =
        load_all_bounded h.external cfg.dsl_path (policy_of cfg e)
          cfg.security.dsl_load_timeout_secs h.load_end h.tree in
      rw (same, same2)
        (gates-Agree cfg (Audit.run h.parse_ip h.env h.exists h.is_dir h.debug cfg e)
          (boot_gates h.parse_ip h.env cfg e)
          (after_dsn h.parse_ip h.env cfg h.connect loaded (database_dsn h.env cfg))
          (run-gates h.parse_ip h.env h.exists h.is_dir h.debug cfg e).0
          (run-gates h.parse_ip h.env h.exists h.is_dir h.debug cfg e).1
          (dsn-IsPastGates cfg loaded (database_dsn h.env cfg)))

  -- `cronmanager doctor` against the process that it audits, over whole runs of `main` with command
  -- lines that name the same configuration files, on the same host. Either doctor exits with 0, and
  -- then the process serves, or ends in an error of its database settings or of the load of its
  -- jobs, but never in a refusal on credentials, posture or bind address, nor in a panic; or doctor
  -- does not exit with 0, and then the process does not come to serve.
  pub main-doctor :
      (args other : List Text)
      → any is_doctor args ≡ true
      → any is_doctor other ≡ false
      → config_search_paths args h.env ≡ config_search_paths other h.env
      → Agree (main h args) (main h other)
  unfolding main
  main-doctor args other audits serves same =
      rw (audits, serves)
        (entries-Agree args other (config_of h other)
          (ap (load_or_default h.exists h.read_to_string h.from_str) same) refl)
