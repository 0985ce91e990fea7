-- ===== src/Server/Guarded.antt =====
-- A request without a token, from src/main.rs to its response.
use cron_manager.Base.{◌≡◌, ◌⊎◌, Bool, true, false, ◌&&◌, ltb, is_some, Option, none, some, List}
use cron_manager.Base.Eq.{list_eq}
use cron_manager.Base.Int.{ℤ}
use cron_manager.Base.Map.{get}
use cron_manager.Base.Results.{ok}
use cron_manager.Base.Text.{Text, codes}
use cron_manager.Config.{AppConfig}
use cron_manager.Dsl.Loader.Raw.{External}
use cron_manager.Dsl.Loader.Walk.{LoadEnd, Node}
use cron_manager.EnvSafety.{Environment}
use cron_manager.Error.{unauthorized, into_response, status}
use cron_manager.Process.{Booted, boot}
use cron_manager.Router.Layers.{Response, error_json, content_type}
use cron_manager.Router.Pipeline.{Exchange}
use cron_manager.Router.State.{AppState}
use cron_manager.Security.Ip.{IpAddr}
use cron_manager.Server.{ServerEvent, serve_all}
use cron_manager.Trace.{LogLine}

-- What the router answers and logs is tower's own answer, which has no line in the access log, to a
-- deadline that has passed or to a CORS preflight; or the error of a missing token, and a line of it.
abbrev pub IsTurnedAway : Exchange → Bool → Response × Option LogLine → Type 0
IsTurnedAway w late (resp, none) = (late ≡ true) ⊎ (is_some w.preflight ≡ true)
IsTurnedAway w late (resp, some line) =
    (late ≡ false)
    × (resp.status ≡ 401)
    × (resp.body ≡ error_json (into_response unauthorized))
    × (get content_type resp.headers ≡ some (codes "application/json"))
    × (line.status ≡ 401)

-- The CORS layer keeps the status, the body and the content type of an answer.
abbrev pub KeepsAnswer : (Response → Response) → Type 0
KeepsAnswer with_cors =
    (resp : Response)
    → ((with_cors resp).status ≡ resp.status)
      × ((with_cors resp).body ≡ resp.body)
      × (get content_type (with_cors resp).headers ≡ get content_type resp.headers)

-- The deadline of the configuration has passed.
abbrev pub is_late : AppConfig → Exchange → Bool
is_late cfg w = ltb 0 cfg.limits.request_timeout_secs && w.deadline_passed

module _ (parse_ip : Text → Option IpAddr) (env : Text → Option Text) (cfg : AppConfig)
    (x : External) (e : Environment) (next_fire : Text → ℤ → Option ℤ) (connect : Text → Bool)
    (ending : LoadEnd) (tree : Option Node) (b : Booted) (events : List ServerEvent)
    (up : boot parse_ip env x cfg e connect ending tree ≡ some (ok b)) where
  abbrev then_on : AppState
  then_on = serve_all next_fire x e events b.state
