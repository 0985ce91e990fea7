-- ===== src/EnvSafety/Laws.antt =====
-- When the boot gates let a process start, and when the gate itself panics.
use cron_manager.Base.{◌≡◌, refl, ◌↔◌, ◌⊎◌, inl, inr, false, not, Option, none, some, arith}
use cron_manager.Base.Text.{
  Text, codes, trim, trim_start_by, trim_end_by, is_whitespace, to_ascii_lowercase,
}
use cron_manager.Base.Names.{one_of, one_of_iff, IsOneOf}
use cron_manager.EnvSafety.{classify, from_env_str, from_env, dev_names, requires_prod_creds}

-- The value that the environment is read from: the first of the three variables that is set.
abbrev pub EnvValue : (Text → Option Text) → Text → Type 0
EnvValue env v =
    (env (codes "APP_ENV") ≡ some v)
    ⊎ ((env (codes "APP_ENV") ≡ none)
        × ((env (codes "ENVIRONMENT") ≡ some v)
            ⊎ ((env (codes "ENVIRONMENT") ≡ none) × (env (codes "DEPLOY_ENV") ≡ some v))))

abbrev pub IsUnset : (Text → Option Text) → Type 0
IsUnset env =
    (env (codes "APP_ENV") ≡ none)
    × (env (codes "ENVIRONMENT") ≡ none)
    × (env (codes "DEPLOY_ENV") ≡ none)

classify_rule : (s : Text) → requires_prod_creds (classify s) ≡ not (one_of dev_names s)
unfolding classify requires_prod_creds
classify_rule s = ground arith

-- `from_env_str` is opened, and `one_of` with it; so the rule is stated at the folded text.
from_env_str-classify : (raw : Text) → from_env_str raw ≡ classify (to_ascii_lowercase (trim raw))
unfolding from_env_str
from_env_str-classify raw = refl

from_env_str_dev :
    (raw : Text)
    → (requires_prod_creds (from_env_str raw) ≡ false)
      ↔ IsOneOf dev_names (to_ascii_lowercase (trim raw))
from_env_str_dev raw =
    rw from_env_str-classify
      (rw classify_rule (ground (arith, one_of_iff dev_names (to_ascii_lowercase (trim raw)))))

from_env_set :
    (env : Text → Option Text) (v : Text) → EnvValue env v → from_env env ≡ from_env_str v
unfolding from_env
from_env_set env v h = ground arith

from_env_unset :
    (env : Text → Option Text) → IsUnset env → requires_prod_creds (from_env env) ≡ false
unfolding from_env from_env_str classify one_of requires_prod_creds trim trim_start_by trim_end_by
    is_whitespace to_ascii_lowercase
from_env_unset env (a, b, c) = rw (a, b, c) refl

-- The first of three values that is there.
abbrev pub first_of : Option Text → Option Text → Option Text → Option Text
first_of (some v) b c = some v
first_of none (some v) c = some v
first_of none none c = c

abbrev pub NamesDev : Option Text → Type 0
NamesDev none = Unit
NamesDev (some v) = IsOneOf dev_names (to_ascii_lowercase (trim v))

from_env_first :
    (env : Text → Option Text) (a b c : Option Text)
    → env (codes "APP_ENV") ≡ a
    → env (codes "ENVIRONMENT") ≡ b
    → env (codes "DEPLOY_ENV") ≡ c
    → (requires_prod_creds (from_env env) ≡ false) ↔ NamesDev (first_of a b c)
from_env_first env (some v) b c ha hb hc = rw (from_env_set env v (inl ha)) (from_env_str_dev v)
from_env_first env none (some v) c ha hb hc =
    rw (from_env_set env v (inr (ha, inl hb))) (from_env_str_dev v)
from_env_first env none none (some v) ha hb hc =
    rw (from_env_set env v (inr (ha, inr (hb, hc)))) (from_env_str_dev v)
from_env_first env none none none ha hb hc = (λ h. tt, λ h. from_env_unset env (ha, hb, hc))

-- The process runs with the lenient rules of `dev` exactly when none of the three variables APP_ENV,
-- ENVIRONMENT and DEPLOY_ENV is set, or when the first of them that is set names `dev`, `development`
-- or `local`, whatever its letter case and the white space around it.
pub from_env_dev :
    (env : Text → Option Text)
    → (requires_prod_creds (from_env env) ≡ false)
      ↔ NamesDev
          (first_of (env (codes "APP_ENV")) (env (codes "ENVIRONMENT")) (env (codes "DEPLOY_ENV")))
from_env_dev env = from_env_first env _ _ _ refl refl refl
