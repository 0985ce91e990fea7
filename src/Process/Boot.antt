-- ===== src/Process/Boot.antt =====
-- What a process that has come up in src/main.rs has made sure of.
use mathlib.Core.Option
use mathlib.Core.Option.{some-injective}
use cron_manager.Base.{
  ◌≡◌, ◌≤◌, refl, sym, ap, ◌∙◌, Bool, true, false, Option, none, some, List, [], is_empty,
  unwrap_or, arith, All, is_some,
}
use cron_manager.Base.Map.{Map}
use cron_manager.Base.Results.{Result, ok, err}
use cron_manager.Base.Text.{Text, codes, trim, trim_start_by, trim_end_by}
use cron_manager.Base.Bytes.{byte_len}
use cron_manager.Doctor.Audit.{bind_of}
use cron_manager.Config.{AppConfig, resolve_admin_token, resolve_per_group_tokens}
use cron_manager.Config.Dsn.{database_dsn}
use cron_manager.Dsl.{LoadedJob}
use cron_manager.Dsl.Loader.Raw.{External}
use cron_manager.Dsl.Loader.Walk.{LoadEnd, Node, load_all_bounded}
use cron_manager.EnvSafety.{
  Environment, requires_prod_creds, CredCheck, WeakCred, PostureCheck, is_weak, enforce_creds,
  enforce_posture,
}
use cron_manager.EnvSafety.Checks.{cred_checks_for, posture_checks_for}
use cron_manager.EnvSafety.Gates.{enforce_creds_iff, enforce_posture_iff}
use cron_manager.Error.{CronManagerError, unauthorized}
use cron_manager.History.{Recorder}
use cron_manager.Process.{
  Booted, recorder_of, refusal, after_posture, after_creds, with_token, with_groups, boot_gates,
  serve_with, after_dsn, after_gates, boot,
}
use cron_manager.Router.Auth.{Tokens, admin_gate, refuse_to_start_without_token}
use cron_manager.Router.Handlers.{policy_of}
use cron_manager.Router.State.{AppState, with_admin_token, with_per_group_tokens, new_state}
use cron_manager.Security.Ip.{IpAddr}

-- The check of the admin token.
abbrev pub token_check : Text → CredCheck
token_check token = record {
  context = codes "admin";
  field = codes "token";
  value = token;
  min_len = 32;
}

abbrev HasToken : Option Text → Type 0
HasToken o = (token : Text) × (o ≡ some token) × (is_weak (token_check token) ≡ none)

strong-HasToken : (o : Option Text) → is_weak (token_check (unwrap_or [] o)) ≡ none → HasToken o
unfolding is_weak trim trim_start_by trim_end_by
strong-HasToken none h = cc
strong-HasToken (some token) h = (token, refl, h)

strong_length : (token : Text) → is_weak (token_check token) ≡ none → 32 ≤ byte_len (trim token)
unfolding is_weak
strong_length token h = ground arith

gate_closed :
    (state : Tokens) (token path : Text)
    → state.admin_token ≡ some token
    → admin_gate state none path ≡ err unauthorized
unfolding admin_gate
gate_closed state token path h = rw h refl

cred_checks-HasToken :
    (env : Text → Option Text) (cfg : AppConfig)
    → All (λ c. is_weak c ≡ none) (cred_checks_for env cfg)
    → HasToken (resolve_admin_token env cfg)
unfolding cred_checks_for
cred_checks-HasToken env cfg h = strong-HasToken (resolve_admin_token env cfg) h.0

with_groups-token :
    (tokens : Map Text Text) (state : AppState) (b : Bool)
    → is_empty tokens ≡ b
    → (with_groups tokens state).tokens.admin_token ≡ state.tokens.admin_token
unfolding with_per_group_tokens
with_groups-token tokens state true h = rw h refl
with_groups-token tokens state false h = rw h refl

with_token-token :
    (o : Option Text) (state : AppState)
    → state.tokens.admin_token ≡ none
    → (with_token o state).tokens.admin_token ≡ o
unfolding with_admin_token
with_token-token none state h = h
with_token-token (some token) state h = refl

module _ (parse_ip : Text → Option IpAddr) (env : Text → Option Text) (cfg : AppConfig) where
  served_token :
      (recorder : Recorder) (jobs : List LoadedJob)
      → (serve_with parse_ip env cfg recorder jobs).state.tokens.admin_token
        ≡ resolve_admin_token env cfg
  unfolding new_state
  served_token recorder jobs =
      with_groups-token (resolve_per_group_tokens env cfg) _
        (is_empty (resolve_per_group_tokens env cfg)) refl
      ∙ with_token-token (resolve_admin_token env cfg) _ refl

  -- What let the process come up.
  abbrev pub Passed :
      Option (Result {0, 0} Unit (List WeakCred))
      → Result {0, 0} Unit (List PostureCheck)
      → Result (List LoadedJob) CronManagerError
      → Booted
      → Type 0
  Passed o p loaded b =
      (o ≡ some (ok tt))
      × (p ≡ ok tt)
      × (recorder : Recorder) × (jobs : List LoadedJob) × (loaded ≡ ok jobs)
      × (serve_with parse_ip env cfg recorder jobs ≡ b)

  pub boot-Passed :
      (connect : Text → Bool) (o : Option (Result {0, 0} Unit (List WeakCred)))
      (p : Result {0, 0} Unit (List PostureCheck)) (r : Result {0, 0} Unit Text)
      (loaded : Result (List LoadedJob) CronManagerError)
      (dsn : Result (Option Text) CronManagerError) (b : Booted)
      → Option.map
          (λ gates. after_gates parse_ip env gates (after_dsn parse_ip env cfg connect loaded dsn))
          (Option.map (λ verdict. after_creds verdict (after_posture p (refusal r))) o)
        ≡ some (ok b)
      → Passed o p loaded b
  boot-Passed connect none p r loaded dsn b h = cc
  boot-Passed connect (some (err e)) p r loaded dsn b h = cc
  boot-Passed connect (some (ok _)) (err e) r loaded dsn b h = cc
  boot-Passed connect (some (ok _)) (ok _) (err e) loaded dsn b h = cc
  boot-Passed connect (some (ok _)) (ok _) (ok _) loaded (err e) b h = cc
  boot-Passed connect (some (ok _)) (ok _) (ok _) (err e) (ok dsn) b h = cc
  boot-Passed connect (some (ok _)) (ok _) (ok _) (ok jobs) (ok dsn) b h =
      (refl, refl, recorder_of cfg connect dsn, jobs, refl, cc)

  -- The jobs that a process serves, and its state.
  pub boot-serve_with :
      (x : External) (e : Environment) (connect : Text → Bool) (ending : LoadEnd)
      (tree : Option Node) (b : Booted)
      → boot parse_ip env x cfg e connect ending tree ≡ some (ok b)
      → (recorder : Recorder) × (jobs : List LoadedJob) × (load_all_bounded x cfg.dsl_path
            (policy_of cfg e)
            cfg.security.dsl_load_timeout_secs
            ending
            tree
          ≡ ok jobs)
        × (serve_with parse_ip env cfg recorder jobs ≡ b)
  unfolding boot boot_gates
  boot-serve_with x e connect ending tree b h =
      let (creds, posture, recorder, jobs, loaded, is_b) =
        boot-Passed connect (enforce_creds e (cred_checks_for env cfg))
          (enforce_posture e (posture_checks_for cfg))
          (refuse_to_start_without_token parse_ip cfg (bind_of cfg)
            (is_some (resolve_admin_token env cfg)))
          (load_all_bounded x cfg.dsl_path (policy_of cfg e) cfg.security.dsl_load_timeout_secs
            ending tree)
          (database_dsn env cfg) b h in
      (recorder, jobs, loaded, is_b)

  -- A process that has come up outside `dev` has an admin token, which passes the check on weak
  -- values and has at least 32 bytes; its gate refuses a request without a token, on every path; and
  -- its configuration trusts no network, blocks private networks for HTTP jobs, and allows neither
  -- dangerous environment overrides nor dev-fixture files.
  pub boot-guarded :
      (x : External) (e : Environment) (connect : Text → Bool) (ending : LoadEnd)
      (tree : Option Node) (b : Booted) (path : Text)
      → requires_prod_creds e ≡ true
      → boot parse_ip env x cfg e connect ending tree ≡ some (ok b)
      → (token : Text) × (b.state.tokens.admin_token ≡ some token)
        × (is_weak (token_check token) ≡ none)
        × (32 ≤ byte_len (trim token))
        × (admin_gate b.state.tokens none path ≡ err unauthorized)
        × (cfg.admin.trust_network ≡ false)
        × (cfg.security.block_private_networks ≡ true)
        × (cfg.security.allow_dangerous_env_overrides ≡ false)
        × (cfg.security.allow_dev_fixture_dsls ≡ false)
  unfolding boot boot_gates
  boot-guarded x e connect ending tree b path prod h =
      let (creds, posture, recorder, jobs, loaded, is_b) =
        boot-Passed connect (enforce_creds e (cred_checks_for env cfg))
          (enforce_posture e (posture_checks_for cfg))
          (refuse_to_start_without_token parse_ip cfg (bind_of cfg)
            (is_some (resolve_admin_token env cfg)))
          (load_all_bounded x cfg.dsl_path (policy_of cfg e) cfg.security.dsl_load_timeout_secs
            ending tree)
          (database_dsn env cfg) b h in
      let (token, is_token, strong) =
        cred_checks-HasToken env cfg
          ((enforce_creds_iff e (cred_checks_for env cfg) prod).0 creds) in
      let there =
        sym (ap (λ b. b.state.tokens.admin_token) is_b) ∙ served_token recorder jobs ∙ is_token in
      let (network, private, overrides, fixtures) = (enforce_posture_iff e cfg prod).0 posture in
      (
        token,
        there,
        strong,
        strong_length token strong,
        gate_closed b.state.tokens token path there,
        network,
        private,
        overrides,
        fixtures,
      )
