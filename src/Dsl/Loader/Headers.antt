-- ===== src/Dsl/Loader/Headers.antt =====
-- src/dsl/loader.rs: `build_http_headers`.
pub mod Laws
use cron_manager.Base.{
  ℕ, Bool, true, false, not, ◌&&◌, ◌||◌, Option, none, some, List, [], ◌∷◌, ◌++◌, any, all,
  is_empty, if◌then◌else◌, eqb,
}
use cron_manager.Base.Eq.{list_beq}
use cron_manager.Base.Names.{one_of}
use cron_manager.Base.Map.{Map}
use cron_manager.Base.Results.{Result, ok, err, ◌>>=◌}
use cron_manager.Base.Text.{Text, codes, is_ascii_digit, is_ascii_alphanumeric}
use cron_manager.Error.{
  CronManagerError, invalid_job_definition, Message, bad_header_name, forbidden_header,
  bad_header_value, header_in_both, bad_env_name, env_value_invalid, env_not_set,
}
use cron_manager.Dsl.{HttpHeader, literal, env_var, JobKey}
use cron_manager.Dsl.Loader.Raw.{External}

abbrev pub forbidden_headers : List Text
forbidden_headers =
    codes "host"
    ∷ codes "content-length"
    ∷ codes "transfer-encoding"
    ∷ codes "connection"
    ∷ codes "upgrade"
    ∷ codes "te"
    ∷ codes "trailer"
    ∷ []

-- `valid_env`.
unfoldable pub is_env_name : Text → Bool
is_env_name [] = false
is_env_name (c ∷ s) =
    not (is_ascii_digit c) && all (λ d. is_ascii_alphanumeric d || eqb d b'_') (c ∷ s)

module _ (x : External) (source : Text) (key : JobKey) where
  -- `bad`.
  abbrev bad {ℓ} : {A : Type ℓ} → Message → Result A CronManagerError
  bad m = err (invalid_job_definition source m)

  unfoldable pub check_name : Text → Result Text CronManagerError
  check_name name = elim (x.header_name name) [
    | none ↦ bad (bad_header_name key.name name)
    | some parsed ↦
        if one_of forbidden_headers parsed then bad (forbidden_header key.name name) else ok parsed
  ]

  -- The check of the variable's value at load time.
  unfoldable pub check_env_value : Text → Text → Result (Unit {0}) CronManagerError
  check_env_value var name = elim (x.env var) [
    | some v ↦
        if not (is_empty v) && x.header_value_is_valid v
        then ok tt
        else bad (env_value_invalid key.name var name)
    | none ↦ bad (env_not_set key.name name var)
  ]

  unfoldable pub literal_headers :
      List HttpHeader → Map Text Text → Result (List HttpHeader) CronManagerError
  literal_headers out [] = ok out
  literal_headers out ((name, value) ∷ rest) = do
    name' ← check_name name
    let next = literal_headers (out ++ record { name = name'; source = literal value } ∷ []) rest
    if x.header_value_is_valid value then next else bad (bad_header_value key.name name')

  unfoldable pub env_headers :
      List HttpHeader → Map Text Text → Result (List HttpHeader) CronManagerError
  env_headers out [] = ok out
  env_headers out ((name, var) ∷ rest) = do
    name' ← check_name name
    let next = env_headers (out ++ record { name = name'; source = env_var var } ∷ []) rest
    if any (λ h. list_beq h.name name') out
        then bad (header_in_both key.name name')
        else if not (is_env_name var)
        then bad (bad_env_name key.name name')
        else check_env_value var name' >>= λ _. next

  unfoldable pub build_http_headers :
      Map Text Text → Map Text Text → Result (List HttpHeader) CronManagerError
  build_http_headers literals envs = do out ← literal_headers [] literals; env_headers out envs
