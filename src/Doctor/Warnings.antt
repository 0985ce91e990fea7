-- ===== src/Doctor/Warnings.antt =====
-- The WEAK findings of src/doctor.rs beside the warnings of `boot_diagnostics` in src/config.rs.
use cron_manager.Base.{
  ◌≡◌, refl, sym, ap, ◌∙◌, ◌⊎◌, inl, inr, true, not, Option, none, some, List, [], ◌∷◌, ◌++◌,
  if◌then◌else◌, map, is_empty, is_some, arith, eqb, any, All,
}
use mathlib.Core.List.{append_assoc, append-nil}
use cron_manager.Base.Eq.{list_eq, list_beq}
use cron_manager.Base.Map.{Map, contains_key}
use cron_manager.Base.Text.{Text, codes}
use cron_manager.Config.Groups.{IsUnique, resolve_per_group_tokens-All}
use cron_manager.Config.{
  AppConfig, non_empty, SecurityConfig, resolve_per_group_tokens, split_allowed_private_hosts,
}
use cron_manager.Config.Diagnostics
use cron_manager.Config.Diagnostics.{
  Diagnostic, config_summary, history_disabled, security_summary, hosts_allowed, groups_configured,
  request_timeout_off, shell_timeout_off, star_origin, no_admin_token, network_trusted,
  private_networks_open, host_ignored, allowlist_inert, dangerous_overrides, dev_fixtures,
  jobs_exposed, running_exposed, group_without_token, limit_lines, access_lines, host_lines,
  exposure_lines, group_lines, token_lines, boot_diagnostics,
}
use cron_manager.Doctor.{finding, weak}
use cron_manager.Doctor.Audit
use cron_manager.Doctor.Audit.{
  limit_findings, hosts_findings, exposure_findings, group_findings, weak_findings, group_is_set,
  token_present, no_token_text, trust_text, private_text, shown_finding, ignored_finding,
}
use cron_manager.Security.Ip.{IpAddr}
use cron_manager.Doctor.Settings.{
  setting_of, named, warned, weak_names, warned-append, weak_names-append, same_when, silent_when,
  never_when, quiet_when, both,
}

silent_first :
    (d : Diagnostic) (ds : List Diagnostic) → setting_of d ≡ none → warned (d ∷ ds) ≡ warned ds
unfolding warned
silent_first d ds h = ap (λ o. named o (warned ds)) h

after_same :
    (a xs ys : List Diagnostic) → warned xs ≡ warned ys → warned (a ++ xs) ≡ warned (a ++ ys)
after_same a xs ys h = warned-append a xs ∙ ap (λ r. warned a ++ r) h ∙ sym (warned-append a ys)

-- A silent part in the middle is left out.
regroup :
    (a b c silent rest : List Diagnostic)
    → warned silent ≡ []
    → warned ((a ++ (b ++ (c ++ silent))) ++ rest) ≡ warned (a ++ (b ++ (c ++ rest)))
regroup a b c silent rest h =
    ap warned (append_assoc a (b ++ (c ++ silent)) rest)
    ∙ after_same a ((b ++ (c ++ silent)) ++ rest) (b ++ (c ++ rest)) (
        ap warned (append_assoc b (c ++ silent) rest)
        ∙ after_same b ((c ++ silent) ++ rest) (c ++ rest) (
            ap warned (append_assoc c silent rest)
            ∙ after_same c (silent ++ rest) rest
                (warned-append silent rest ∙ ap (λ r. r ++ warned rest) h)))

module _ (env : Text → Option Text) (cfg : AppConfig) where
  same_access :
      warned (access_lines (token_present env cfg) cfg)
      ≡ weak_names (
          Audit.when
            (not (token_present env cfg))
            (finding weak (codes "admin.token") (no_token_text cfg))
          ++ (Audit.when cfg.admin.trust_network
                (finding weak (codes "admin.trust_network") trust_text)
              ++ Audit.when
                  (not cfg.security.block_private_networks)
                  (finding weak (codes "security.block_private_networks") private_text)))
  same_access =
      silent_first (security_summary (token_present env cfg) cfg) _ refl
      ∙ both _ _ _ _ (same_when _ _ _ _ refl)
          (both _ _ _ _ (same_when _ _ _ _ refl) (same_when _ _ _ _ refl))

  same_exposure :
      warned (exposure_lines (token_present env cfg) cfg.security)
      ≡ weak_names (exposure_findings env cfg)
  unfolding exposure_findings
  same_exposure = both _ _ _ _ (same_when _ _ _ _ refl) (
      both _ _ _ _ (same_when _ _ _ _ refl)
        (both _ _ _ _ (same_when _ _ _ _ refl) (same_when _ _ _ _ refl)))

  -- The warnings on the limits stand before those on the access.
  same_limits :
      warned (limit_lines cfg ++ access_lines (token_present env cfg) cfg)
      ≡ weak_names (limit_findings env cfg)
  unfolding limit_findings
  same_limits =
      regroup (Diagnostics.when (eqb cfg.limits.request_timeout_secs 0) request_timeout_off)
        (Diagnostics.when (eqb cfg.limits.shell_timeout_secs 0) shell_timeout_off)
        (Diagnostics.when (any (λ o. list_beq o (codes "*")) cfg.allowed_origins) star_origin)
        (Diagnostics.when (not (is_some cfg.database)) history_disabled)
        (access_lines (token_present env cfg) cfg)
        (silent_when (not (is_some cfg.database)) history_disabled refl)
      ∙ both _ _ _ _ (same_when _ _ _ _ refl) (
          both _ _ _ _ (same_when _ _ _ _ refl) (both _ _ _ _ (same_when _ _ _ _ refl) same_access))

same_hosts_list :
    (debug : Text → Text) (invalid : List Text)
    → warned (map host_ignored invalid) ≡ weak_names (map (ignored_finding debug) invalid)
unfolding warned weak_names
same_hosts_list debug [] = refl
same_hosts_list debug (entry ∷ invalid) =
    ap (◌∷◌ (codes "security.allowed_private_hosts")) (same_hosts_list debug invalid)

same_hosts :
    (debug : Text → Text) (p : List Text × List Text) (sec : SecurityConfig)
    → sec.block_private_networks ≡ true
    → warned (host_lines p sec) ≡ weak_names (hosts_findings debug p)
same_hosts debug (valid, invalid) sec h =
    silent_first (hosts_allowed valid) _ refl
    ∙ warned-append (map host_ignored invalid) _
    ∙ ap (λ r. warned (map host_ignored invalid) ++ r) inert
    ∙ append-nil (warned (map host_ignored invalid))
    ∙ same_hosts_list debug invalid
    ∙ sym (
        ap (λ r. r ++ weak_names (map (ignored_finding debug) invalid))
          (quiet_when (not (is_empty valid)) (shown_finding valid) refl))
    ∙ sym (
        weak_names-append (Audit.when (not (is_empty valid)) (shown_finding valid))
          (map (ignored_finding debug) invalid))
  where
    inert : warned (Diagnostics.when (not sec.block_private_networks) allowlist_inert) ≡ []
    inert =
        ap (λ b. warned (Diagnostics.when (not b) allowlist_inert)) h ∙ never_when allowlist_inert

group_test : (o : Option Text) → is_some (non_empty o) ≡ group_is_set o
group_test none = refl
group_test (some v) = ground arith

same_groups :
    (env : Text → Option Text) (resolved : Map Text Text) (gs : List (Text × Text))
    → All (λ p. contains_key p.0 resolved ≡ is_some (non_empty (env p.1))) gs
    → warned (group_lines resolved gs) ≡ weak_names (group_findings env gs)
unfolding group_lines group_findings
same_groups env resolved [] h = unfold warned weak_names in refl
same_groups env resolved ((g, v) ∷ gs) (hg, hs) =
    both (Diagnostics.when (not (contains_key g resolved)) (group_without_token g v)) _ _ _
      (ap (λ b. warned (Diagnostics.when (not b) (group_without_token g v)))
          (hg ∙ group_test (env v))
        ∙ same_when (not (group_is_set (env v))) (group_without_token g v) _ _ refl)
      (same_groups env resolved gs hs)

same_tokens :
    (env : Text → Option Text) (resolved : Map Text Text) (gs : List (Text × Text))
    → All (λ p. contains_key p.0 resolved ≡ is_some (non_empty (env p.1))) gs
    → warned (token_lines resolved gs) ≡ weak_names (group_findings env gs)
same_tokens env resolved [] h = unfold warned weak_names group_findings in refl
same_tokens env resolved (p ∷ gs) h =
    silent_first (groups_configured _ _) _ refl ∙ same_groups env resolved (p ∷ gs) h

-- The allowlist of hosts does nothing while all private networks are open.
abbrev pub HasEffect : SecurityConfig → Type 0
HasEffect sec = (sec.block_private_networks ≡ true) ⊎ (sec.allowed_private_hosts ≡ [])

same_allowlist :
    (debug : Text → Text) (p : List Text × List Text) (sec : SecurityConfig) (hosts : List Text)
    → (sec.block_private_networks ≡ true) ⊎ (hosts ≡ [])
    → warned (if is_empty hosts then [] else host_lines p sec)
      ≡ weak_names (if is_empty hosts then [] else hosts_findings debug p)
same_allowlist debug p sec [] h = unfold warned weak_names in refl
same_allowlist debug p sec (host ∷ hosts) (inl blocked) = same_hosts debug p sec blocked
same_allowlist debug p sec (host ∷ hosts) (inr none_there) = cc

-- The WEAK findings of `cronmanager doctor` are the warnings of `boot_diagnostics`: on the same
-- configuration and environment they are about the same settings, in the same order and as many
-- times. The groups with tokens are named once each, and the allowlist of private hosts is empty or
-- private networks are blocked.
pub boot_diagnostics-weak_findings :
    (parse_ip : Text → Option IpAddr) (env : Text → Option Text) (debug : Text → Text)
    (cfg : AppConfig)
    → IsUnique cfg.security.per_group_token_envs
    → HasEffect cfg.security
    → warned (boot_diagnostics parse_ip env cfg) ≡ weak_names (weak_findings parse_ip env debug cfg)
unfolding boot_diagnostics
boot_diagnostics-weak_findings parse_ip env debug cfg u h =
    silent_first (config_summary cfg) _ refl
    ∙ ap warned (sym (append_assoc (limit_lines cfg) (access_lines (token_present env cfg) cfg) _))
    ∙ both (limit_lines cfg ++ access_lines (token_present env cfg) cfg) _ _ _ (same_limits env cfg)
        (both _ _ _ _
          (same_allowlist debug (split_allowed_private_hosts parse_ip cfg.security) cfg.security
            cfg.security.allowed_private_hosts h)
          (both _ _ _ _ (same_exposure env cfg) (
            same_tokens env (resolve_per_group_tokens env cfg) cfg.security.per_group_token_envs
              (resolve_per_group_tokens-All env cfg u))))
