-- ===== src/Trace.antt =====
-- src/traceparent.rs, src/access_log.rs and src/security_headers.rs: the layers that put headers on
-- every response and log every request. `header` is the request's `traceparent` where `to_str` reads
-- it; a fresh UUID, in its 32 hexadecimal digits, is an argument where the code draws one.
pub mod Context
use cron_manager.Base.{
  ℕ, Bool, true, false, ◌&&◌, not, Option, none, some, List, [], ◌∷◌, ◌++◌, if◌then◌else◌, eqb, all,
  unwrap_or,
}
use cron_manager.Base.Bytes.{as_bytes, byte_len, take_bytes}
use cron_manager.Base.Eq.{list_beq, list_eq}
use cron_manager.Base.Map.{Map, contains_key, insert}
use cron_manager.Base.Text.{Text, codes, split, is_ascii_hexdigit}

abbrev pub traceparent : Text
traceparent = codes "traceparent"

abbrev pub x_trace_id : Text
x_trace_id = codes "x-trace-id"

-- 32 bytes, each a hexadecimal digit.
unfoldable pub is_hex_id : Text → Bool
is_hex_id id = eqb (byte_len id) 32 && all is_ascii_hexdigit (as_bytes id)

abbrev pub zeros : Text
zeros = codes "00000000000000000000000000000000"

-- The trace id of a well-formed header, of its parts.
abbrev pub inbound_id : List Text → Option Text
inbound_id [] = none
inbound_id (version ∷ []) = none
inbound_id (version ∷ id ∷ []) = none
inbound_id (version ∷ id ∷ span ∷ []) = none
inbound_id (version ∷ id ∷ span ∷ flags ∷ []) =
    if list_beq version (codes "00") && is_hex_id id && not (list_beq id zeros)
    then some id
    else none
inbound_id (version ∷ id ∷ span ∷ flags ∷ _ ∷ rest) = none

unfoldable pub extract_or_generate_trace_id : Option Text → Text → Text
extract_or_generate_trace_id none fresh = fresh
extract_or_generate_trace_id (some header) fresh = unwrap_or fresh (inbound_id (split b'-' header))

-- `full[..16]`.
unfoldable pub generate_span_id : Text → Text
generate_span_id full = take_bytes full 16

abbrev pub or_insert : Text → Text → Map Text Text → Map Text Text
or_insert name value headers =
    if contains_key name headers then headers else insert name value headers

unfoldable pub traceparent_of : Text → Text → Text
traceparent_of trace_id span_id = codes "00-" ++ (trace_id ++ (b'-' ∷ (span_id ++ codes "-01")))

-- The headers of a response after `traceparent_middleware`. A value of hexadecimal digits and dashes
-- is a header value.
unfoldable pub traceparent_middleware : Option Text → Text → Text → Map Text Text → Map Text Text
traceparent_middleware header fresh full headers =
    let trace_id = extract_or_generate_trace_id header fresh in
    or_insert x_trace_id trace_id
      (or_insert traceparent (traceparent_of trace_id (generate_span_id full)) headers)

-- The trace id that the access log has.
abbrev pub logged_id : List Text → Option Text
logged_id [] = none
logged_id (version ∷ []) = none
logged_id (version ∷ id ∷ []) = none
logged_id (version ∷ id ∷ span ∷ []) = none
logged_id (version ∷ id ∷ span ∷ flags ∷ []) = if is_hex_id id then some id else none
logged_id (version ∷ id ∷ span ∷ flags ∷ _ ∷ rest) = none

unfoldable pub extract_trace_id : Option Text → Text → Text
extract_trace_id none full = take_bytes full 16
extract_trace_id (some header) full = unwrap_or (take_bytes full 16) (logged_id (split b'-' header))

-- The access-log line, without its duration.
pub record LogLine : Type 0 where
  pub method : Text
  pub route : Text
  pub status : ℕ
  pub trace_id : Text

unfoldable pub access_log_middleware : Text → Option Text → Option Text → Text → ℕ → LogLine
access_log_middleware method matched header full status = record {
  method = method;
  route = unwrap_or (codes "<unmatched>") matched;
  status = status;
  trace_id = extract_trace_id header full;
}

unfoldable pub security_headers_middleware : Map Text Text → Map Text Text
security_headers_middleware headers = or_insert (codes "referrer-policy") (codes "no-referrer") (
    or_insert (codes "x-content-type-options") (codes "nosniff") (
      or_insert (codes "x-frame-options") (codes "DENY") (
        or_insert (codes "strict-transport-security")
          (codes "max-age=63072000; includeSubDomains; preload")
          (or_insert (codes "content-security-policy")
            (codes "default-src 'none'; frame-ancestors 'none'") headers))))
