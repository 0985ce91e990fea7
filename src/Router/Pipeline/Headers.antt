-- ===== src/Router/Pipeline/Headers.antt =====
-- What every answer of the router carries.
use cron_manager.Base.{
  ℕ, ◌≡◌, refl, ◌∙◌, ◌⊎◌, inl, inr, Bool, Bool-cases, true, false, Option, none, some,
  if◌then◌else◌, arith, is_some,
}
use cron_manager.Base.Eq.{◌==◌, list_eq, ==_iff}
use cron_manager.Base.Map.{Map, get, contains_key, get-insert, contains_key-get}
use cron_manager.Base.Text.{Text, codes}
use cron_manager.Router.Layers.{Response, structured_error_body_middleware_lem}
use cron_manager.Router.Pipeline.{Inbound, secured, traced, logged, layered, Exchange}
use cron_manager.Trace.{
  LogLine, or_insert, traceparent, x_trace_id, extract_or_generate_trace_id, generate_span_id,
  traceparent_of, traceparent_middleware, security_headers_middleware, access_log_middleware,
}

-- The first that is there.
abbrev pub or_else : Option Text → Option Text → Option Text
or_else none o = o
or_else (some v) o = some v

abbrev pub when_is : Text → Text → Text → Option Text
when_is name value asked = if name == asked then some value else none

or_else_assoc : (a b c : Option Text) → or_else (or_else a b) c ≡ or_else a (or_else b c)
or_else_assoc none b c = refl
or_else_assoc (some v) b c = refl

get-or_insert :
    (name value asked : Text) (m : Map Text Text)
    → get asked (or_insert name value m) ≡ or_else (get asked m) (when_is name value asked)
get-or_insert name value asked m = elim (Bool-cases (contains_key name m)) [
  | inl there ↦ rw there (kept (get asked m) refl there)
  | inr missing ↦ rw missing (get-insert name asked value m ∙ added (get asked m) refl missing)
]
  where
    kept :
        (o : Option Text)
        → get asked m ≡ o
        → contains_key name m ≡ true
        → o ≡ or_else o (when_is name value asked)
    kept (some v) h there = refl
    kept none h there = ground (arith, h, there, ==_iff name asked, contains_key-get name m)

    added :
        (o : Option Text)
        → get asked m ≡ o
        → contains_key name m ≡ false
        → (if name == asked then some value else o) ≡ or_else o (when_is name value asked)
    added none h missing = refl
    added (some v) h missing =
        ground (arith, h, missing, ==_iff name asked, contains_key-get name m)

-- The headers that `security_headers_middleware` adds, and those of the trace.
abbrev pub security_default : Text → Option Text
security_default asked =
    or_else
      (when_is (codes "content-security-policy")
        (codes "default-src 'none'; frame-ancestors 'none'") asked)
      (or_else
        (when_is (codes "strict-transport-security")
          (codes "max-age=63072000; includeSubDomains; preload") asked)
        (or_else (when_is (codes "x-frame-options") (codes "DENY") asked) (
          or_else (when_is (codes "x-content-type-options") (codes "nosniff") asked)
            (when_is (codes "referrer-policy") (codes "no-referrer") asked))))

abbrev pub trace_default : Inbound → Text → Option Text
trace_default r asked =
    let trace_id = extract_or_generate_trace_id r.traceparent r.fresh_trace in
    or_else (when_is traceparent (traceparent_of trace_id (generate_span_id r.fresh_span)) asked)
      (when_is x_trace_id trace_id asked)

pub get-security_headers :
    (asked : Text) (m : Map Text Text)
    → get asked (security_headers_middleware m) ≡ or_else (get asked m) (security_default asked)
unfolding security_headers_middleware
get-security_headers asked m = simp (get-or_insert, or_else_assoc)

pub get-traceparent :
    (r : Inbound) (asked : Text) (m : Map Text Text)
    → get asked (traceparent_middleware r.traceparent r.fresh_trace r.fresh_span m)
      ≡ or_else (get asked m) (trace_default r asked)
unfolding traceparent_middleware
get-traceparent r asked m = simp (get-or_insert, or_else_assoc)

pub layered-status :
    (limit : ℕ) (r : Inbound) (resp : Response)
    → ((layered limit r resp).0.status ≡ resp.status)
      × ((layered limit r resp).1.status ≡ resp.status)
unfolding layered logged traced secured access_log_middleware
layered-status limit r resp =
    let same = (structured_error_body_middleware_lem limit resp).0 in (same, same)

-- What a request gets: tower's own answer, which the access log does not see, or one of the routes.
abbrev pub Outcome : Exchange → Text → Bool → Response × Option LogLine → Type 0
Outcome w asked late (resp, none) = (late ≡ true) ⊎ (is_some w.preflight ≡ true)
Outcome w asked late (resp, some line) =
    (late ≡ false)
    × (resp.status ≡ w.answer.status)
    × (line.status ≡ w.answer.status)
    × (get asked resp.headers
        ≡ or_else (get asked w.answer.headers)
            (or_else (security_default asked) (trace_default w.inbound asked)))
