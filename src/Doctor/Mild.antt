-- ===== src/Doctor/Mild.antt =====
-- The blocks of src/doctor.rs that have no fatal finding.
use cron_manager.Base.{
  ◌+◌, ◌≡◌, refl, Bool, true, false, Option, none, some, List, [], ◌∷◌, ◌++◌, arith, map,
}
use cron_manager.Base.Results.{ok}
use cron_manager.Base.Text.{Text}
use cron_manager.Config.{AppConfig, DatabaseCfg}
use cron_manager.Doctor.{Finding, count_of, is_fatal}
use cron_manager.Doctor.Audit.{
  when, info_findings, path_findings, password_finding, database_findings, limit_findings,
  hosts_findings, exposure_findings, group_findings, override_finding,
}
use cron_manager.EnvSafety.{Environment, enforce_posture}
use cron_manager.EnvSafety.Checks.{posture_checks_for}
use cron_manager.EnvSafety.Gates.{enforce_posture_iff}

pub fatal-append :
    (xs ys : List Finding)
    → count_of is_fatal (xs ++ ys) ≡ count_of is_fatal xs + count_of is_fatal ys
unfolding count_of
fatal-append [] ys = omega arith
fatal-append (f ∷ xs) ys = ground (arith, fatal-append xs ys)

abbrev pub IsMild : List Finding → Type 0
IsMild fs = count_of is_fatal fs ≡ 0

pub IsMild-append : (xs ys : List Finding) → IsMild xs → IsMild ys → IsMild (xs ++ ys)
IsMild-append xs ys hx hy = omega (arith, fatal-append xs ys, hx, hy)

pub IsMild-when : (b : Bool) (f : Finding) → is_fatal f.severity ≡ false → IsMild (when b f)
unfolding count_of when
IsMild-when true f h = rw h refl
IsMild-when false f h = refl

pub info_findings-IsMild :
    (env : Text → Option Text) (cfg : AppConfig) → IsMild (info_findings env cfg)
unfolding info_findings count_of when
info_findings-IsMild env cfg = ground arith

pub path_findings-IsMild :
    (exists is_dir : Text → Bool) (path : Text) → IsMild (path_findings exists is_dir path)
unfolding path_findings count_of
path_findings-IsMild exists is_dir path = ground arith

pub password_finding-IsMild : (db : DatabaseCfg) (o : Option Text) → IsMild (password_finding db o)
unfolding count_of when
password_finding-IsMild db none = refl
password_finding-IsMild db (some v) = ground arith

pub database_findings-IsMild :
    (env : Text → Option Text) (db : Option DatabaseCfg) → IsMild (database_findings env db)
unfolding database_findings count_of
database_findings-IsMild env none = refl
database_findings-IsMild env (some db) = password_finding-IsMild db (env db.password_env)

pub limit_findings-IsMild :
    (env : Text → Option Text) (cfg : AppConfig) → IsMild (limit_findings env cfg)
unfolding limit_findings
limit_findings-IsMild env cfg = IsMild-append _ _ (IsMild-when _ _ refl) (
    IsMild-append _ _ (IsMild-when _ _ refl) (
      IsMild-append _ _ (IsMild-when _ _ refl) (
        IsMild-append _ _ (IsMild-when _ _ refl)
          (IsMild-append _ _ (IsMild-when _ _ refl) (IsMild-when _ _ refl)))))

pub exposure_findings-IsMild :
    (env : Text → Option Text) (cfg : AppConfig) → IsMild (exposure_findings env cfg)
unfolding exposure_findings
exposure_findings-IsMild env cfg = IsMild-append _ _ (IsMild-when _ _ refl) (
    IsMild-append _ _ (IsMild-when _ _ refl)
      (IsMild-append _ _ (IsMild-when _ _ refl) (IsMild-when _ _ refl)))

pub IsMild-map :
    (f : Text → Finding)
    → ((s : Text) → is_fatal (f s).severity ≡ false)
    → (ss : List Text) → IsMild (map f ss)
unfolding count_of
IsMild-map f h [] = refl
IsMild-map f h (s ∷ ss) = rw (h s) (IsMild-map f h ss)

pub hosts_findings-IsMild :
    (debug : Text → Text) (p : List Text × List Text) → IsMild (hosts_findings debug p)
hosts_findings-IsMild debug (valid, invalid) =
    IsMild-append _ _ (IsMild-when _ _ refl) (IsMild-map _ (λ s. refl) invalid)

pub group_findings-IsMild :
    (env : Text → Option Text) (gs : List (Text × Text)) → IsMild (group_findings env gs)
unfolding group_findings
group_findings-IsMild env [] = unfold count_of in refl
group_findings-IsMild env ((group, var) ∷ gs) =
    IsMild-append _ _ (IsMild-when _ _ refl) (group_findings-IsMild env gs)

pub override_finding-IsMild :
    (e : Environment) (cfg : AppConfig)
    → enforce_posture e (posture_checks_for cfg) ≡ ok tt
    → IsMild (override_finding e cfg)
unfolding count_of when
override_finding-IsMild e cfg h = ground (arith, enforce_posture_iff e cfg)
