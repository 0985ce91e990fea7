-- ===== src/EnvSafety.antt =====
-- src/env_safety.rs: the deployment environment, the dev-fixture gate, and the boot gates on
-- credentials and on posture flags. Environment variables are read through `env`.
pub mod Checks
pub mod Laws
pub mod Gates
use cron_manager.Base.{
  ℕ, Bool, true, false, not, ◌||◌, Option, none, some, List, [], ◌∷◌, ◌++◌, any, find, keep,
  is_empty, ltb, if◌then◌else◌, length, unwrap_or, map, ◌-◌, ◌&&◌, leb,
}
use mathlib.Core.Option
use cron_manager.Base.Eq.{list_beq, ◌==◌, nat_eq}
use cron_manager.Base.Text.{Text, codes, trim, to_ascii_lowercase, contains}
use cron_manager.Base.Names.{one_of}
use cron_manager.Base.Bytes.{byte_len, take_bytes, drop_bytes, is_char_boundary}
use cron_manager.Base.Results.{Result, ok, err}

pub data Environment : Type 0 where
  dev test staging production : Environment

abbrev pub dev_names : List Text
dev_names = codes "dev" ∷ codes "development" ∷ codes "local" ∷ []

-- The match of `from_env_str` on the folded text; its last arm is `Production` too.
classify : Text → Environment
classify s =
    if one_of dev_names s
    then dev
    else if one_of (codes "test" ∷ codes "testing" ∷ codes "ci" ∷ []) s
    then test
    else if one_of (codes "stage" ∷ codes "staging" ∷ codes "preprod" ∷ []) s
    then staging
    else if one_of (codes "prod" ∷ codes "production" ∷ codes "live" ∷ []) s
    then production
    else production

unfoldable pub from_env_str : Text → Environment
unfolding classify one_of
from_env_str raw = classify (to_ascii_lowercase (trim raw))

abbrev or_else {ℓ} : {A : Type ℓ} → Option A → Option A → Option A
or_else (some a) o = some a
or_else none o = o

-- `Environment::from_env`, at its first call; later calls read the cached value.
unfoldable pub from_env : (Text → Option Text) → Environment
unfolding from_env_str
from_env env = from_env_str (
    unwrap_or (codes "dev") (
      or_else (or_else (env (codes "APP_ENV")) (env (codes "ENVIRONMENT")))
        (env (codes "DEPLOY_ENV"))))

unfoldable pub requires_prod_creds : Environment → Bool
requires_prod_creds dev = false
requires_prod_creds _ = true

abbrev pub dev_only_dsl_patterns : List Text
dev_only_dsl_patterns =
    codes "dev-login"
    ∷ codes "mock-"
    ∷ codes "-mock"
    ∷ codes "/test/"
    ∷ codes "example-"
    ∷ codes "-example"
    ∷ codes "/dev/"
    ∷ codes "/mocks/"
    ∷ []

-- `s.replace('\\', "/")`.
unfoldable pub slashes : Text → Text
slashes = map (λ c. if c == b'\\' then b'/' else c)

unfoldable pub dev_fixture_pattern : Text → Option Text
unfolding slashes
dev_fixture_pattern path = find (contains (to_ascii_lowercase (slashes path))) dev_only_dsl_patterns

pub data DevFixtureAction : Type 0 where
  ignore warn refuse : DevFixtureAction

unfoldable pub action_from_env : Environment → Bool → DevFixtureAction
unfolding requires_prod_creds
action_from_env env allow_dev_fixture_dsls =
    if not (requires_prod_creds env) || allow_dev_fixture_dsls then warn else refuse

abbrev pub weak_patterns : List Text
weak_patterns =
    codes "changeit"
    ∷ codes "changeme"
    ∷ codes "change-me"
    ∷ codes "changethis"
    ∷ codes "letmein"
    ∷ codes "password"
    ∷ codes "qwerty"
    ∷ codes "welcome"
    ∷ codes "01234"
    ∷ codes "12345"
    ∷ codes "123456"
    ∷ codes "abcdef"
    ∷ codes "dev-"
    ∷ codes "-dev"
    ∷ codes "test-"
    ∷ codes "-test"
    ∷ codes "example"
    ∷ codes "sample"
    ∷ codes "default-"
    ∷ codes "-default"
    ∷ codes "todo"
    ∷ codes "tbd"
    ∷ codes "fixme"
    ∷ codes "-poc"
    ∷ codes "poc-"
    ∷ codes "mock-"
    ∷ codes "-mock"
    ∷ codes "staging-"
    ∷ codes "-staging"
    ∷ codes "test-admin-token"
    ∷ []

pub data WeakReason : Type 0 where
  empty too_short : WeakReason
  pattern_found : Text → WeakReason

pub record CredCheck : Type 0 where
  pub context : Text
  pub field : Text
  pub value : Text
  pub min_len : ℕ

-- `is_weak` on the trimmed value.
weakness : Text → ℕ → Option WeakReason
weakness v min_len =
    if is_empty v
    then some empty
    else if ltb (byte_len v) min_len
    then some too_short
    else elim (find (contains (to_ascii_lowercase v)) weak_patterns) [
      | none ↦ none
      | some p ↦ some (pattern_found p)
    ]

unfoldable pub is_weak : CredCheck → Option WeakReason
unfolding weakness
is_weak c = weakness (trim c.value) c.min_len

pub record PostureCheck : Type 0 where
  pub name : Text
  pub is_safe : Bool

-- `redact`: the slices are at the byte positions 2 and `len - 2`, and a slice that is not at a
-- character boundary panics (`none`).
unfoldable pub redact : Text → Option Text
unfolding byte_len is_char_boundary take_bytes drop_bytes
redact v =
    if leb (byte_len v) 4
    then some (codes "****")
    else if is_char_boundary v 2 && is_char_boundary v (byte_len v - 2)
    then some (take_bytes v 2 ++ (codes "****" ++ drop_bytes v (byte_len v - 2)))
    else none

-- One line of the refusal: which field, the redacted value, and why it is weak.
pub record WeakCred : Type 0 where
  pub context : Text
  pub field : Text
  pub shown : Text
  pub reason : WeakReason

-- The `failures` of `enforce_creds`.
weak_creds : List CredCheck → Option (List WeakCred)
weak_creds [] = some []
weak_creds (c ∷ cs) = elim (is_weak c) [
  | none ↦ weak_creds cs
  | some r ↦ elim (redact (trim c.value)) [
    | none ↦ none
    | some shown ↦
        Option.map
          (λ rest.
            record { context = c.context; field = c.field; shown = shown; reason = r } ∷ rest)
          (weak_creds cs)
  ]
]

-- The outcome of a gate: `none` is a panic.
abbrev pub Gate : Type 0 → Type 0
Gate E = Option (Result (Unit {0}) (List E))

decide_creds : Environment → List WeakCred → Result (Unit {0}) (List WeakCred)
unfolding requires_prod_creds
decide_creds env failures =
    if is_empty failures then ok tt else if requires_prod_creds env then err failures else ok tt

unfoldable pub enforce_creds : Environment → List CredCheck → Gate WeakCred
unfolding weak_creds decide_creds
enforce_creds env checks = Option.map (decide_creds env) (weak_creds checks)

unfoldable pub enforce_posture :
    Environment → List PostureCheck → Result (Unit {0}) (List PostureCheck)
unfolding requires_prod_creds
enforce_posture env checks =
    let unsafe_items = keep (λ c. not c.is_safe) checks in
    if is_empty unsafe_items
    then ok tt
    else if requires_prod_creds env
    then err unsafe_items
    else ok tt
