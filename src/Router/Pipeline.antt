-- ===== src/Router/Pipeline.antt =====
-- src/router.rs: the layers of `build`, one around the other, and the answers that pass them. What
-- axum, tower and tower-http answer themselves is in the `Exchange`: the answer of the routes within
-- the body limit, the answer to a deadline that passes, and what the CORS layer does.
pub mod Headers
pub mod Errors
use cron_manager.Base.{
  ℕ, Bool, true, false, ◌&&◌, Option, none, some, List, [], ◌∷◌, if◌then◌else◌, ltb,
}
use cron_manager.Base.Eq.{list_eq}
use cron_manager.Base.Map.{Map, insert}
use cron_manager.Base.Text.{Text, codes}
use cron_manager.Config.{AppConfig}
use cron_manager.Error.{CronManagerError, ErrorReply, into_response}
use cron_manager.Router.Layers.{
  Body, error_json, Response, content_type, structured_error_body_middleware, build_cors,
}
use cron_manager.Router.Serve.{
  Answer, snapshot, stopped, reloaded, started, is_up, build_info, failure, Served,
}
use cron_manager.Trace.{
  LogLine, traceparent_middleware, access_log_middleware, security_headers_middleware,
}

-- `(status, Json(body)).into_response()`: axum's `Json` documents its content type.
unfoldable pub error_response : CronManagerError → Response
unfolding into_response
error_response e = record {
  status = (into_response e).status_code;
  headers = (content_type, codes "application/json") ∷ [];
  body = error_json (into_response e);
}

-- The response of an answer, where `render` is axum's of the answers that are no errors.
abbrev pub reply : (Answer → Response) → Answer → Response
reply render (failure e) = error_response e
reply render (snapshot shown) = render (snapshot shown)
reply render (stopped aborted shown) = render (stopped aborted shown)
reply render (reloaded n) = render (reloaded n)
reply render started = render started
reply render is_up = render is_up
reply render build_info = render build_info

-- What the layers read of a request, and the UUIDs that they draw.
pub record Inbound : Type 0 where
  pub method : Text
  pub matched : Option Text
  pub traceparent : Option Text
  pub fresh_trace : Text
  pub fresh_span : Text
  pub fresh_log : Text

abbrev pub with_headers : Response → Map Text Text → Response
with_headers resp headers = record resp { headers = headers }

unfoldable pub secured : Response → Response
unfolding security_headers_middleware
secured resp = with_headers resp (security_headers_middleware resp.headers)

unfoldable pub traced : Inbound → Response → Response
unfolding traceparent_middleware
traced r resp =
    with_headers resp (traceparent_middleware r.traceparent r.fresh_trace r.fresh_span resp.headers)

-- The response that leaves the access log, and the line of it.
unfoldable pub logged : Inbound → Response → Response × LogLine
unfolding access_log_middleware
logged r resp =
    (resp, access_log_middleware r.method r.matched r.traceparent r.fresh_log resp.status)

-- The layers around the body limit, up to the access log.
unfoldable pub layered : ℕ → Inbound → Response → Response × LogLine
unfolding structured_error_body_middleware secured traced logged
layered body_limit r resp =
    logged r (traced r (secured (structured_error_body_middleware body_limit resp)))

-- The response of the routes to a request that they served; nothing where the handler panics.
abbrev pub answered : (Answer → Response) → Served → Option Response
answered render none = none
answered render (some (answer, st)) = some (reply render answer)

pub record Exchange : Type 0 where
  pub inbound : Inbound
  -- What the routes answer, or the body limit.
  pub answer : Response
  pub deadline_passed : Bool
  -- What `TimeoutLayer` answers where the deadline passes.
  pub timed_out : Response
  -- What `CorsLayer` answers in place of the routes, and what it adds to an answer of theirs.
  pub preflight : Option Response
  pub with_cors : Response → Response

abbrev pub cors_answer :
    Option (List Text) → Exchange → Response × Option LogLine → Response × Option LogLine
cors_answer none w (resp, line) = (resp, line)
cors_answer (some origins) w (resp, line) = elim w.preflight [
  | some own ↦ (own, none)
  | none ↦ (w.with_cors resp, line)
]

-- A request that the deadline ends has no line in the access log.
abbrev pub within_deadline : ℕ → Exchange → Response × LogLine → Response × Option LogLine
within_deadline secs w (resp, line) =
    if ltb 0 secs && w.deadline_passed then (w.timed_out, none) else (resp, some line)

-- What the router answers, and the line of the access log.
unfoldable pub respond : AppConfig → (Text → Bool) → Exchange → Response × Option LogLine
unfolding layered build_cors
respond cfg is_header_value w = cors_answer (build_cors is_header_value cfg.allowed_origins) w (
    within_deadline cfg.limits.request_timeout_secs w
      (layered cfg.limits.max_request_bytes w.inbound w.answer))
