-- ===== src/EnvSafety/Gates.antt =====
-- When the boot gates let a process start, and when the credential gate itself panics.
use cron_manager.Base.{
  ℕ, ◌-◌, ◌≤◌, ◌<◌, ◌≡◌, ◌≢◌, refl, ◌↔◌, true, false, none, some, List, [], ◌∷◌, arith, All,
}
use cron_manager.Base.Text.{Text, trim, trim_start_by, trim_end_by, is_whitespace}
use cron_manager.Base.Bytes.{byte_len, is_char_boundary, len_utf8}
use cron_manager.Base.Results.{ok}
use cron_manager.Config.{AppConfig}
use cron_manager.EnvSafety.{
  Environment, requires_prod_creds, CredCheck, WeakReason, is_weak, redact, weak_creds,
  decide_creds, enforce_creds, enforce_posture,
}
use cron_manager.EnvSafety.Checks.{posture_checks_for}

weak_creds-none : (cs : List CredCheck) → (weak_creds cs ≡ some []) ↔ All (λ c. is_weak c ≡ none) cs
unfolding weak_creds
weak_creds-none [] = (λ h. tt, λ h. refl)
weak_creds-none (c ∷ cs) = ground (arith, weak_creds-none cs)

-- Outside `dev` the credential gate passes exactly when no checked credential is weak.
pub enforce_creds_iff :
    (env : Environment) (cs : List CredCheck)
    → requires_prod_creds env ≡ true
    → (enforce_creds env cs ≡ some (ok tt)) ↔ All (λ c. is_weak c ≡ none) cs
unfolding enforce_creds decide_creds
enforce_creds_iff env cs h = ground (arith, weak_creds-none cs)

abbrev pub IsAscii : Text → Type 0
IsAscii s = All (λ c. c < 128) s

boundary_ascii : (s : Text) (i : ℕ) → IsAscii s → i ≤ byte_len s → is_char_boundary s i ≡ true
unfolding is_char_boundary byte_len len_utf8
boundary_ascii [] i a h = ground arith
boundary_ascii (c ∷ s) i a h = ground (arith, boundary_ascii s (i - 1) a.1)

trim_start-IsAscii : (s : Text) → IsAscii s → IsAscii (trim_start_by is_whitespace s)
unfolding trim_start_by
trim_start-IsAscii [] a = tt
trim_start-IsAscii (c ∷ s) a = ground (arith, trim_start-IsAscii s a.1)

trim_end-IsAscii : (s : Text) → IsAscii s → IsAscii (trim_end_by is_whitespace s)
unfolding trim_end_by
trim_end-IsAscii [] a = tt
trim_end-IsAscii (c ∷ s) a = ground (arith, trim_end-IsAscii s a.1)

trim-IsAscii : (s : Text) → IsAscii s → IsAscii (trim s)
unfolding trim
trim-IsAscii s a = trim_end-IsAscii _ (trim_start-IsAscii s a)

redact_ascii : (v : Text) → IsAscii v → redact v ≢ none
unfolding redact
redact_ascii v a = ground (arith, boundary_ascii v 2 a, boundary_ascii v (byte_len v - 2) a)

weak_creds_ascii : (cs : List CredCheck) → All (λ c. IsAscii c.value) cs → weak_creds cs ≢ none
unfolding weak_creds
weak_creds_ascii [] a = ground arith
weak_creds_ascii (c ∷ cs) a =
    ground (arith, weak_creds_ascii cs a.1, redact_ascii (trim c.value) (trim-IsAscii c.value a.0))

-- With ASCII values the credential gate gives its verdict and never panics.
pub enforce_creds_ascii :
    (env : Environment) (cs : List CredCheck)
    → All (λ c. IsAscii c.value) cs
    → enforce_creds env cs ≢ none
unfolding enforce_creds
enforce_creds_ascii env cs a = ground (arith, weak_creds_ascii cs a)

wide : (c : ℕ) → 0x800 ≤ c → 3 ≤ len_utf8 c
unfolding len_utf8
wide c h = ground arith

redact_panics :
    (v : Text) (c : ℕ) (s : Text) → v ≡ c ∷ s → 0x800 ≤ c → 4 < byte_len (c ∷ s) → redact v ≡ none
unfolding redact is_char_boundary
redact_panics v c s e h l = rw e (ground (arith, wide c))

-- A weak credential longer than four bytes whose first character takes three bytes or more makes
-- the gate panic, in every environment, in place of its refusal or its warning.
pub enforce_creds_panics :
    (env : Environment) (c : CredCheck) (cs : List CredCheck) (x : ℕ) (s : Text) (r : WeakReason)
    → is_weak c ≡ some r
    → trim c.value ≡ x ∷ s
    → 0x800 ≤ x
    → 4 < byte_len (x ∷ s)
    → enforce_creds env (c ∷ cs) ≡ none
unfolding enforce_creds weak_creds
enforce_creds_panics env c cs x s r w e h l = ground (arith, redact_panics (trim c.value) x s e h l)

-- Outside `dev` the posture gate on a configuration passes exactly when it trusts no network,
-- blocks private networks, and allows neither dangerous overrides nor dev-fixture files.
pub enforce_posture_iff :
    (env : Environment) (cfg : AppConfig)
    → requires_prod_creds env ≡ true
    → (enforce_posture env (posture_checks_for cfg) ≡ ok tt) ↔ (
        (cfg.admin.trust_network ≡ false)
        × (cfg.security.block_private_networks ≡ true)
        × (cfg.security.allow_dangerous_env_overrides ≡ false)
        × (cfg.security.allow_dev_fixture_dsls ≡ false))
unfolding enforce_posture posture_checks_for
enforce_posture_iff env cfg h = ground arith
