-- ===== src/Doctor/Verdict.antt =====
-- What the exit code of src/doctor.rs says about the boot of src/main.rs.
use mathlib.Core.Option
use mathlib.Core.Option.{some-injective}
use cron_manager.Base.{
  ◌≡◌, refl, ap, ◌↔◌, Bool, true, false, Option, none, some, List, [], ◌++◌, if◌then◌else◌, arith,
  is_empty,
}
use cron_manager.Base.Results.{Result, ok, err}
use cron_manager.Base.Text.{Text}
use cron_manager.Config.{AppConfig, split_allowed_private_hosts}
use cron_manager.Doctor.{Finding, count_of, is_fatal, exit_code}
use cron_manager.Doctor.Audit.{
  bind_of, info_findings, path_findings, database_findings, refusal_finding, creds_finding,
  posture_finding, limit_findings, hosts_findings, exposure_findings, weak_findings,
  override_finding, before_gates, run, token_present,
}
use cron_manager.EnvSafety.{Environment, WeakCred, PostureCheck, enforce_creds, enforce_posture}
use cron_manager.EnvSafety.Checks.{cred_checks_for, posture_checks_for}
use cron_manager.Process.{boot_gates, after_creds, after_posture, refusal}
use cron_manager.Router.Auth.{refuse_to_start_without_token}
use cron_manager.Security.Ip.{IpAddr}
use cron_manager.Doctor.Mild.{
  fatal-append, IsMild, IsMild-append, info_findings-IsMild, path_findings-IsMild,
  database_findings-IsMild, limit_findings-IsMild, exposure_findings-IsMild, hosts_findings-IsMild,
  group_findings-IsMild, override_finding-IsMild,
}

module _ (parse_ip : Text → Option IpAddr) (env : Text → Option Text) (exists is_dir : Text → Bool)
    (debug : Text → Text) where
  weak_findings-IsMild : (cfg : AppConfig) → IsMild (weak_findings parse_ip env debug cfg)
  weak_findings-IsMild cfg =
      IsMild-append (limit_findings env cfg) _ (limit_findings-IsMild env cfg) (
        IsMild-append (hosts cfg) _ (hosts-mild cfg (is_empty cfg.security.allowed_private_hosts)) (
          IsMild-append (exposure_findings env cfg) _ (exposure_findings-IsMild env cfg)
            (group_findings-IsMild env cfg.security.per_group_token_envs)))
    where
      hosts : AppConfig → List Finding
      hosts cfg =
          if is_empty cfg.security.allowed_private_hosts
          then []
          else hosts_findings debug (split_allowed_private_hosts parse_ip cfg.security)

      hosts-mild :
          (cfg : AppConfig) (b : Bool)
          → IsMild (
              if b
              then []
              else hosts_findings debug (split_allowed_private_hosts parse_ip cfg.security))
      hosts-mild cfg true = unfold count_of in refl
      hosts-mild cfg false =
          hosts_findings-IsMild debug (split_allowed_private_hosts parse_ip cfg.security)

  abbrev refused_at_bind : AppConfig → Result {0, 0} Unit Text
  refused_at_bind cfg =
      refuse_to_start_without_token parse_ip cfg (bind_of cfg) (token_present env cfg)

  fatal-before_gates :
      (cfg : AppConfig)
      → count_of is_fatal (before_gates parse_ip env exists is_dir debug cfg)
        ≡ count_of is_fatal (refusal_finding (bind_of cfg) (refused_at_bind cfg))
  fatal-before_gates cfg = omega (
    arith,
    fatal-append (info_findings env cfg) _,
    fatal-append (path_findings exists is_dir cfg.dsl_path) _,
    fatal-append (database_findings env cfg.database) _,
    fatal-append (refusal_finding (bind_of cfg) (refused_at_bind cfg)) _,
    info_findings-IsMild env cfg,
    path_findings-IsMild exists is_dir cfg.dsl_path,
    database_findings-IsMild env cfg.database,
    weak_findings-IsMild cfg,
  )

-- No fatal finding, for each verdict of the gates.
verdicts :
    (bind : Text) (e : Environment) (before override : List Finding)
    (c : Result {0, 0} Unit (List WeakCred)) (p : Result {0, 0} Unit (List PostureCheck))
    (r : Result {0, 0} Unit Text)
    → count_of is_fatal before ≡ count_of is_fatal (refusal_finding bind r)
    → (p ≡ ok tt → IsMild override)
    → (exit_code (record {
      env = e;
      findings = before ++ (creds_finding c ++ (posture_finding p ++ override));
    })
        ≡ 0)
      ↔ (after_creds c (after_posture p (refusal r)) ≡ ok tt)
unfolding exit_code count_of
verdicts bind e before override (err msg) p r hb ho =
    ground (arith, fatal-append before (creds_finding (err msg) ++ (posture_finding p ++ override)))
verdicts bind e before override (ok _) (err msg) r hb ho =
    ground (arith, fatal-append before (posture_finding (err msg) ++ override))
verdicts bind e before override (ok _) (ok _) (err msg) hb ho =
    ground (arith, fatal-append before override, hb)
verdicts bind e before override (ok _) (ok _) (ok _) hb ho =
    ground (arith, fatal-append before override, hb, ho refl)

module _ (parse_ip : Text → Option IpAddr) (env : Text → Option Text) (exists is_dir : Text → Bool)
    (debug : Text → Text) where
  replay :
      (cfg : AppConfig) (e : Environment) (o : Option (Result {0, 0} Unit (List WeakCred)))
      → (Option.map exit_code (
            Option.map
              (λ verdict. record {
                env = e;
                findings =
                    before_gates parse_ip env exists is_dir debug cfg
                    ++ (creds_finding verdict
                        ++ (posture_finding (enforce_posture e (posture_checks_for cfg))
                            ++ override_finding e cfg));
              })
              o)
          ≡ some 0)
        ↔ (Option.map
              (λ verdict. after_creds verdict (
                after_posture
                  (enforce_posture e (posture_checks_for cfg))
                  (refusal (refused_at_bind parse_ip env exists is_dir debug cfg))))
              o
            ≡ some (ok tt))
  replay cfg e none = (λ h. cc, λ h. cc)
  replay cfg e (some c) =
      (λ h. ap some (same.0 (some-injective _ _ h)), λ h. ap some (same.1 (some-injective _ _ h)))
    where
      same :
          (exit_code (record {
            env = e;
            findings =
                before_gates parse_ip env exists is_dir debug cfg
                ++ (creds_finding c
                    ++ (posture_finding (enforce_posture e (posture_checks_for cfg))
                        ++ override_finding e cfg));
          })
            ≡ 0)
          ↔ (after_creds c (
                after_posture
                  (enforce_posture e (posture_checks_for cfg))
                  (refusal (refused_at_bind parse_ip env exists is_dir debug cfg)))
              ≡ ok tt)
      same =
          verdicts (bind_of cfg) e (before_gates parse_ip env exists is_dir debug cfg)
            (override_finding e cfg) c (enforce_posture e (posture_checks_for cfg))
            (refused_at_bind parse_ip env exists is_dir debug cfg)
            (fatal-before_gates parse_ip env exists is_dir debug cfg)
            (override_finding-IsMild e cfg)

  -- The exit code of `cronmanager doctor` is 0 exactly when the three refusals to start let the
  -- process pass, on the same configuration and in the same environment: the gate on credentials,
  -- the gate on posture flags, and the check of the bind address without a token. Where the gate on
  -- credentials panics, both do.
  pub run-gates :
      (cfg : AppConfig) (e : Environment)
      → (Option.map exit_code (run parse_ip env exists is_dir debug cfg e) ≡ some 0)
        ↔ (boot_gates parse_ip env cfg e ≡ some (ok tt))
  unfolding run boot_gates
  run-gates cfg e = replay cfg e (enforce_creds e (cred_checks_for env cfg))
