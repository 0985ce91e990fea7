-- ===== src/Doctor/Settings.antt =====
-- The settings that the warnings of src/config.rs and the WEAK findings of src/doctor.rs are about.
use cron_manager.Base.{
  ◌≡◌, refl, sym, ap, ap₂, ◌∙◌, Bool, true, false, Option, none, some, List, [], ◌∷◌, ◌++◌,
  if◌then◌else◌,
}
use cron_manager.Base.Eq.{list_eq}
use cron_manager.Base.Text.{Text, codes}
use cron_manager.Config.Diagnostics
use cron_manager.Config.Diagnostics.{
  Diagnostic, config_summary, history_disabled, security_summary, hosts_allowed, groups_configured,
  request_timeout_off, shell_timeout_off, star_origin, no_admin_token, network_trusted,
  private_networks_open, host_ignored, allowlist_inert, dangerous_overrides, dev_fixtures,
  jobs_exposed, running_exposed, group_without_token, limit_lines, access_lines, host_lines,
  exposure_lines, group_lines, token_lines, boot_diagnostics,
}
use cron_manager.Doctor.{Finding, is_weak, finding, weak}
use cron_manager.Doctor.Audit
use cron_manager.Doctor.Audit.{
  limit_findings, hosts_findings, exposure_findings, group_findings, weak_findings, group_is_set,
  token_present, no_token_text, trust_text, private_text, shown_finding, ignored_finding,
}

-- The setting that a warning is about, by the name that `doctor` gives it.
abbrev pub setting_of : Diagnostic → Option Text
setting_of request_timeout_off = some (codes "limits.request_timeout_secs")
setting_of shell_timeout_off = some (codes "limits.shell_timeout_secs")
setting_of star_origin = some (codes "allowed_origins")
setting_of (no_admin_token _) = some (codes "admin.token")
setting_of network_trusted = some (codes "admin.trust_network")
setting_of private_networks_open = some (codes "security.block_private_networks")
setting_of (host_ignored _) = some (codes "security.allowed_private_hosts")
setting_of allowlist_inert = some (codes "security.allowed_private_hosts")
setting_of dangerous_overrides = some (codes "security.allow_dangerous_env_overrides")
setting_of dev_fixtures = some (codes "security.allow_dev_fixture_dsls")
setting_of jobs_exposed = some (codes "security.expose_jobs_publicly")
setting_of running_exposed = some (codes "security.expose_running_publicly")
setting_of (group_without_token _ _) = some (codes "security.per_group_token_envs")
setting_of (config_summary _) = none
setting_of history_disabled = none
setting_of (security_summary _ _) = none
setting_of (hosts_allowed _) = none
setting_of (groups_configured _ _) = none

abbrev pub named : Option Text → List Text → List Text
named none names = names
named (some n) names = n ∷ names

unfoldable pub warned : List Diagnostic → List Text
warned [] = []
warned (d ∷ ds) = named (setting_of d) (warned ds)

abbrev pub weak_name : Finding → Option Text
weak_name f = if is_weak f.severity then some f.name else none

unfoldable pub weak_names : List Finding → List Text
weak_names [] = []
weak_names (f ∷ fs) = named (weak_name f) (weak_names fs)

pub named-append : (o : Option Text) (xs ys : List Text) → named o (xs ++ ys) ≡ named o xs ++ ys
named-append none xs ys = refl
named-append (some n) xs ys = refl

pub warned-append : (xs ys : List Diagnostic) → warned (xs ++ ys) ≡ warned xs ++ warned ys
unfolding warned
warned-append [] ys = refl
warned-append (d ∷ xs) ys =
    ap (named (setting_of d)) (warned-append xs ys)
    ∙ named-append (setting_of d) (warned xs) (warned ys)

pub weak_names-append :
    (xs ys : List Finding) → weak_names (xs ++ ys) ≡ weak_names xs ++ weak_names ys
unfolding weak_names
weak_names-append [] ys = refl
weak_names-append (f ∷ xs) ys =
    ap (named (weak_name f)) (weak_names-append xs ys)
    ∙ named-append (weak_name f) (weak_names xs) (weak_names ys)

-- A warning and a finding on the same condition and the same setting.
pub same_when :
    (b : Bool) (d : Diagnostic) (name message : Text)
    → setting_of d ≡ some name
    → warned (Diagnostics.when b d) ≡ weak_names (Audit.when b (finding weak name message))
unfolding Diagnostics.when Audit.when warned weak_names
same_when true d name message h = ap (λ o. named o []) h
same_when false d name message h = refl

pub silent_when :
    (b : Bool) (d : Diagnostic) → setting_of d ≡ none → warned (Diagnostics.when b d) ≡ []
unfolding Diagnostics.when warned
silent_when true d h = ap (λ o. named o []) h
silent_when false d h = refl

pub never_when : (d : Diagnostic) → warned (Diagnostics.when false d) ≡ []
unfolding Diagnostics.when warned
never_when d = refl

pub quiet_when :
    (b : Bool) (f : Finding) → is_weak f.severity ≡ false → weak_names (Audit.when b f) ≡ []
unfolding Audit.when weak_names
quiet_when true f h = ap (λ b. named (if b then some f.name else none) []) h
quiet_when false f h = refl

pub both :
    (ds es : List Diagnostic) (fs gs : List Finding)
    → warned ds ≡ weak_names fs
    → warned es ≡ weak_names gs
    → warned (ds ++ es) ≡ weak_names (fs ++ gs)
both ds es fs gs h k = warned-append ds es ∙ ap₂ (◌++◌) h k ∙ sym (weak_names-append fs gs)
