-- ===== src/Trace/Context.antt =====
-- The trace context on a response of src/traceparent.rs.
use cron_manager.Base.{
  ◌≡◌, refl, sym, ap, subst, ◌∙◌, Bool, Bool-cases, true, false, ◌&&◌, not, Option, none, some,
  List, [], ◌∷◌, ◌++◌, if◌then◌else◌, all, arith, inl, inr, unwrap_or,
}
use cron_manager.Base.Bytes.{as_bytes, take_bytes, drop_bytes, take_bytes-append-drop_bytes}
use cron_manager.Base.Eq.{list_beq, list_eq, ◌==◌, ==_self}
use cron_manager.Base.Map.{Map, get, contains_key, get-insert, contains_key-insert}
use mathlib.Core.Option.{some-injective}
use cron_manager.Base.Splits.{has, has-append, split-append, split-absent}
use cron_manager.Base.Text.{Text, codes, split, is_ascii_hexdigit}
use cron_manager.Trace.{
  traceparent, x_trace_id, is_hex_id, zeros, inbound_id, extract_or_generate_trace_id,
  generate_span_id, or_insert, traceparent_of, traceparent_middleware,
}

-- A trace id that a header may carry, as a fresh UUID is.
abbrev pub IsTraceId : Text → Type 0
IsTraceId id = (is_hex_id id ≡ true) × (list_beq id zeros ≡ false)

no_dash : (s : Text) → all is_ascii_hexdigit (as_bytes s) ≡ true → has b'-' s ≡ false
unfolding has as_bytes
no_dash [] h = refl
no_dash (c ∷ s) h = ground (arith, no_dash s)

is_hex_id-dash : (id : Text) → is_hex_id id ≡ true → has b'-' id ≡ false
unfolding is_hex_id
is_hex_id-dash id h = no_dash id (ground (arith, h))

span-dash : (full : Text) → has b'-' full ≡ false → has b'-' (generate_span_id full) ≡ false
unfolding generate_span_id
span-dash full h = ground (
  arith,
  sym (has-append b'-' (take_bytes full 16) (drop_bytes full 16))
      ∙ ap (has b'-') (take_bytes-append-drop_bytes full 16)
      ∙ h,
)

if_some : (b : Bool) (x y : Text) → (if b then some x else none) ≡ some y → (b ≡ true) × (x ≡ y)
if_some true x y h = (refl, some-injective x y h)
if_some false x y h = cc

both_hold : (a b c : Bool) → (a && b && not c) ≡ true → (b ≡ true) × (c ≡ false)
both_hold a b c h = ground arith

inbound_id-IsTraceId : (parts : List Text) (id : Text) → inbound_id parts ≡ some id → IsTraceId id
inbound_id-IsTraceId [] id h = cc
inbound_id-IsTraceId (a ∷ []) id h = cc
inbound_id-IsTraceId (a ∷ b ∷ []) id h = cc
inbound_id-IsTraceId (a ∷ b ∷ c ∷ []) id h = cc
inbound_id-IsTraceId (a ∷ b ∷ c ∷ d ∷ []) id h =
    let (valid, same) =
      if_some (list_beq a (codes "00") && is_hex_id b && not (list_beq b zeros)) b id h in
    subst IsTraceId same
      (both_hold (list_beq a (codes "00")) (is_hex_id b) (list_beq b zeros) valid)
inbound_id-IsTraceId (a ∷ b ∷ c ∷ d ∷ _ ∷ rest) id h = cc

chosen-IsTraceId :
    (o : Option Text) (fresh : Text)
    → ((id : Text) → o ≡ some id → IsTraceId id)
    → IsTraceId fresh
    → IsTraceId (unwrap_or fresh o)
chosen-IsTraceId none fresh h hf = hf
chosen-IsTraceId (some id) fresh h hf = h id refl

extract-IsTraceId :
    (header : Option Text) (fresh : Text)
    → IsTraceId fresh
    → IsTraceId (extract_or_generate_trace_id header fresh)
unfolding extract_or_generate_trace_id
extract-IsTraceId none fresh h = h
extract-IsTraceId (some header) fresh h =
    chosen-IsTraceId (inbound_id (split b'-' header)) fresh
      (inbound_id-IsTraceId (split b'-' header)) h

split_traceparent :
    (id span : Text)
    → has b'-' id ≡ false
    → has b'-' span ≡ false
    → split b'-' (traceparent_of id span) ≡ codes "00" ∷ id ∷ span ∷ codes "01" ∷ []
unfolding traceparent_of
split_traceparent id span hi hs =
    split-append b'-' (codes "00") (id ++ (b'-' ∷ (span ++ codes "-01"))) (unfold has in refl)
    ∙ ap (◌∷◌ (codes "00")) (
        split-append b'-' id (span ++ codes "-01") hi
        ∙ ap (◌∷◌ id) (
            split-append b'-' span (codes "01") hs
            ∙ ap (◌∷◌ span) (split-absent b'-' (codes "01") (unfold has in refl))))

get-or_insert :
    (name value : Text) (headers : Map Text Text)
    → contains_key name headers ≡ false
    → get name (or_insert name value headers) ≡ some value
get-or_insert name value headers h = rw (h, get-insert name name value headers, ==_self name) refl

get-or_insert_other :
    (name other value : Text) (headers : Map Text Text)
    → (name == other) ≡ false
    → get other (or_insert name value headers) ≡ get other headers
get-or_insert_other name other value headers h = elim (Bool-cases (contains_key name headers)) [
  | inl there ↦ rw there refl
  | inr absent ↦ rw (absent, get-insert name other value headers, h) refl
]

contains_key-or_insert_other :
    (name other value : Text) (headers : Map Text Text)
    → (name == other) ≡ false
    → contains_key other headers ≡ false
    → contains_key other (or_insert name value headers) ≡ false
contains_key-or_insert_other name other value headers h absent =
    elim (Bool-cases (contains_key name headers)) [
      | inl there ↦ rw there absent
      | inr fresh ↦ rw (fresh, contains_key-insert name other value headers, h) absent
    ]

read_traceparent :
    (id span fresh : Text)
    → IsTraceId id
    → has b'-' span ≡ false
    → extract_or_generate_trace_id (some (traceparent_of id span)) fresh ≡ id
unfolding extract_or_generate_trace_id
read_traceparent id span fresh (hex, not_zeros) hs =
    rw (split_traceparent id span (is_hex_id-dash id hex) hs, hex, not_zeros) refl

-- The trace context round trip: whatever `traceparent` a request has, the response carries a
-- `traceparent` header which this service, as the next hop, reads back to the trace id of the
-- response's `x-trace-id` header; and that id is 32 hexadecimal digits, not all zero. The handler
-- has set neither header, the fresh ids are hexadecimal of 32 digits, and the first is not all zero.
pub traceparent_middleware-read :
    (header : Option Text) (fresh full next : Text) (headers : Map Text Text)
    → IsTraceId fresh
    → is_hex_id full ≡ true
    → contains_key traceparent headers ≡ false
    → contains_key x_trace_id headers ≡ false
    → (value : Text) × (id : Text) × (get traceparent
          (traceparent_middleware header fresh full headers)
        ≡ some value)
      × (get x_trace_id (traceparent_middleware header fresh full headers) ≡ some id)
      × (extract_or_generate_trace_id (some value) next ≡ id)
      × IsTraceId id
unfolding traceparent_middleware
traceparent_middleware-read header fresh full next headers hf hg ht hx = (
  traceparent_of id span,
  id,
  get-or_insert_other x_trace_id traceparent id
        (or_insert traceparent (traceparent_of id span) headers) refl
      ∙ get-or_insert traceparent (traceparent_of id span) headers ht,
  get-or_insert x_trace_id id (or_insert traceparent (traceparent_of id span) headers) (
      contains_key-or_insert_other traceparent x_trace_id (traceparent_of id span) headers refl hx),
  read_traceparent id span next (extract-IsTraceId header fresh hf)
      (span-dash full (is_hex_id-dash full hg)),
  extract-IsTraceId header fresh hf,
)
  where
    id : Text
    id = extract_or_generate_trace_id header fresh

    span : Text
    span = generate_span_id full
