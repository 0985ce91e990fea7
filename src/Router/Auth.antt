-- ===== src/Router/Auth.antt =====
-- src/router.rs: the admin gate, and the check before the listener is bound. `authorization` is the
-- `Authorization` header where it is there and `to_str` reads it. Paths are as the request has them,
-- before any percent decoding. That a comparison takes constant time is not modelled.
pub mod Scope
use cron_manager.Base.{
  ℕ, zero, suc, Bool, true, false, ◌||◌, not, Option, none, some, List, [], ◌∷◌, ◌++◌,
  if◌then◌else◌, eqb, length, is_empty,
}
use cron_manager.Base.Bytes.{as_bytes}
use cron_manager.Base.Eq.{list_eq, nat_eq, list_beq}
use cron_manager.Base.Map.{Map, get}
use cron_manager.Base.Names.{one_of}
use cron_manager.Base.Results.{Result, ok, err}
use cron_manager.Base.Text.{Text, codes, trim, strip_prefix, is_whitespace, eq_ignore_ascii_case}
use cron_manager.Config.{AppConfig}
use cron_manager.Config.Bind.{bind_is_loopback}
use cron_manager.Error.{CronManagerError, unauthorized}
use cron_manager.Security.Ip.{IpAddr}

-- The text before the first `c`, and after it where there is one.
unfoldable pub break_at : ℕ → Text → Text × Option Text
break_at c [] = ([], none)
break_at c (d ∷ s) = let p = break_at c s in if eqb d c then ([], some s) else (d ∷ p.0, p.1)

-- `splitn(n, c)`.
unfoldable pub splitn : ℕ → ℕ → Text → List Text
unfolding break_at
splitn zero c s = []
splitn (suc zero) c s = s ∷ []
splitn (suc (suc n)) c s =
    let p = break_at c s in elim p.1 [ none ↦ p.0 ∷ [] | some r ↦ p.0 ∷ splitn (suc n) c r ]

abbrev pub admin_routes : List Text
admin_routes = codes "execute" ∷ codes "stop" ∷ codes "reload" ∷ []

abbrev pub group_of_parts : List Text → Option Text
group_of_parts [] = none
group_of_parts (route ∷ []) = none
group_of_parts (route ∷ group ∷ rest) =
    if one_of admin_routes route then (if is_empty group then none else some group) else none

unfoldable pub extract_group_from_path : Text → Option Text
unfolding splitn strip_prefix
extract_group_from_path path = elim (strip_prefix path (codes "/")) [
  | none ↦ none
  | some rest ↦ group_of_parts (splitn 3 (b'/') rest)
]

-- The text before the first whitespace, and from it on where there is one.
unfoldable pub break_space : Text → Text × Option Text
break_space [] = ([], none)
break_space (d ∷ s) =
    let p = break_space s in if is_whitespace d then ([], some (d ∷ s)) else (d ∷ p.0, p.1)

abbrev pub token_of : Text × Option Text → Option (List ℕ)
token_of (scheme, none) = none
token_of (scheme, some after) =
    if not (eq_ignore_ascii_case scheme (codes "Bearer"))
    then none
    else if is_empty (trim after)
    then none
    else some (as_bytes (trim after))

unfoldable pub bearer_token_bytes : Text → Option (List ℕ)
unfolding break_space
bearer_token_bytes header = token_of (break_space (trim header))

abbrev pub ct_eq : List ℕ → List ℕ → Bool
ct_eq = list_beq

unfoldable pub ct_token_matches : List ℕ → List ℕ → Bool
ct_token_matches presented expected =
    if not (eqb (length presented) (length expected)) then false else ct_eq presented expected

-- The part of `AppState` that the gate reads.
pub record Tokens : Type 0 where
  pub admin_token : Option Text
  pub per_group_tokens : Map Text Text

abbrev pub token_bytes : Option Text → Option (List ℕ)
token_bytes none = none
token_bytes (some header) = bearer_token_bytes header

abbrev pub group_token : Tokens → Text → Option Text
group_token state path = elim (extract_group_from_path path) [
  | none ↦ none
  | some g ↦ get g state.per_group_tokens
]

abbrev pub matches_group : List ℕ → Option Text → Bool
matches_group presented none = false
matches_group presented (some t) = ct_token_matches presented (as_bytes t)

abbrev pub check_presented :
    Tokens → Text → Text → Option (List ℕ) → Result {0, 0} Unit CronManagerError
check_presented state master path none = err unauthorized
check_presented state master path (some presented) =
    let master_ok = ct_token_matches presented (as_bytes master) in
    let group_ok = matches_group presented (group_token state path) in
    if not (master_ok || group_ok) then err unauthorized else ok tt

abbrev pub gate_with :
    Tokens → Option Text → Text → Option Text → Result {0, 0} Unit CronManagerError
gate_with state authorization path none = ok tt
gate_with state authorization path (some master) =
    check_presented state master path (token_bytes authorization)

-- `admin_gate`: whether the request goes on.
unfoldable pub admin_gate : Tokens → Option Text → Text → Result {0, 0} Unit CronManagerError
admin_gate state authorization path = gate_with state authorization path state.admin_token

-- `refuse_to_start_without_token`: whether the process starts.
unfoldable pub refuse_to_start_without_token :
    (Text → Option IpAddr) → AppConfig → Text → Bool → Result {0, 0} Unit Text
unfolding bind_is_loopback
refuse_to_start_without_token parse_ip cfg bind token_present =
    if token_present
    then ok tt
    else if cfg.admin.trust_network
    then ok tt
    else if bind_is_loopback parse_ip bind
    then ok tt
    else err bind
