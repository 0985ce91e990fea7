-- ===== src/Executor/Http.antt =====
-- src/executor/http.rs. `HttpWorld` is what one attempt meets: the URL and header parsers, the
-- process environment, the DNS answers, and how the request ended.
pub mod Ssrf
pub mod Body
use cron_manager.Base.{
  ℕ, zero, suc, ◌+◌, Bool, true, false, not, ◌&&◌, Option, none, some, is_some, List, [], ◌∷◌, ◌++◌,
  any, find, if◌then◌else◌, length, ltb, leb, min,
}
use cron_manager.Base.Eq.{list_beq}
use cron_manager.Base.Results.{Result, ok, err, ◌>>=◌}
use cron_manager.Base.Text.{Text, codes, eq_ignore_ascii_case, trim_end_by, to_ascii_uppercase}
use cron_manager.Base.Bytes.{byte_len, take_bytes, is_char_boundary}
use cron_manager.Security.Ip.{IpAddr, is_private_or_local, is_always_blocked}
use cron_manager.Security.Host.{is_dot}
use cron_manager.Security.Sanitize.{sanitize_for_log, boundary_below}
use cron_manager.Error.{
  CronManagerError, internal, bad_request, upstream_http_error, upstream_timeout,
  upstream_body_too_large, http_method_unknown, header_env_unset, header_value_invalid,
  stopped_before_response, url_reparse, dns_lookup, non_routable, upstream_request, reading_body,
}
use cron_manager.Config.{Limits}
use cron_manager.Dsl.{HttpHeader, HeaderSource, literal, env_var}

pub record HttpExecutor : Type 0 where
  pub max_response_bytes : ℕ
  pub timeout_secs : ℕ
  pub block_private_networks : Bool
  pub allowed_private_hosts : List Text

-- The client of reqwest is built with this timeout, and with redirects off.
abbrev pub with_ssrf_policy : Limits → Bool → HttpExecutor
with_ssrf_policy limits block_private_networks = record {
  max_response_bytes = limits.max_response_bytes;
  timeout_secs = limits.request_timeout_secs;
  block_private_networks = block_private_networks;
  allowed_private_hosts = [];
}

-- `HttpExecutor::new`.
abbrev pub new_http : Limits → HttpExecutor
new_http limits = with_ssrf_policy limits true

abbrev pub with_allowed_private_hosts : List Text → HttpExecutor → HttpExecutor
with_allowed_private_hosts hosts self = record self { allowed_private_hosts = hosts }

-- The flag is the error's `is_timeout`.
abbrev pub map_send_err : HttpExecutor → Bool → CronManagerError
map_send_err self is_timeout =
    if is_timeout then upstream_timeout self.timeout_secs else internal upstream_request

pub record HttpAttempt : Type 0 where
  pub status : ℕ
  pub body : Text

-- What the executor reads of a parsed URL: `host_str`, `port` and `scheme`.
pub record ParsedUrl : Type 0 where
  pub scheme : Text
  pub host_str : Option Text
  pub port : Option ℕ

pub data Chunk : Type 0 where
  bytes : List ℕ → Chunk
  broken : Chunk

-- How the sending of a request ended; the chunks of a response are those until its end.
pub data SendEnd : Type 0 where
  response : ℕ → List Chunk → SendEnd
  send_timeout send_failed stopped : SendEnd

-- What is sent.
pub record Request : Type 0 where
  pub method : Text
  pub url : Text
  pub headers : List (Text × Text)

pub record HttpWorld : Type 0 where
  pub method_is_valid : Text → Bool
  pub parse_url : Text → Option ParsedUrl
  pub parse_ip : Text → Option IpAddr
  pub lookup_host : Text → ℕ → Option (List IpAddr)
  pub env : Text → Option Text
  pub header_value_is_valid : Text → Bool
  pub from_utf8_lossy : List ℕ → Text
  pub send : Request → SendEnd

unfoldable pub is_allowlisted : Text → List Text → Bool
unfolding eq_ignore_ascii_case trim_end_by
is_allowlisted host allowed =
    let host' = trim_end_by is_dot host in any (λ a. eq_ignore_ascii_case a host') allowed

unfoldable pub ssrf_refuses : IpAddr → Bool → Bool
ssrf_refuses ip allowlisted = if allowlisted then is_always_blocked ip else is_private_or_local ip

-- The port that is looked up.
abbrev pub port_of : ParsedUrl → ℕ
port_of u = elim u.port [
  | some p ↦ p
  | none ↦ if list_beq u.scheme (codes "https") then 443 else 80
]

-- The loop over the resolved addresses.
unfoldable pub screen_addrs : Text → Bool → List IpAddr → Result (Unit {0}) CronManagerError
screen_addrs host allowlisted [] = ok tt
screen_addrs host allowlisted (ip ∷ ips) =
    let rest = screen_addrs host allowlisted ips in
    if ssrf_refuses ip allowlisted then err (bad_request (non_routable host ip)) else rest

unfoldable pub reject_private_dns :
    HttpExecutor → HttpWorld → Text → Result (Unit {0}) CronManagerError
reject_private_dns self w url = elim (w.parse_url url) [
  | none ↦ err (internal (url_reparse url))
  | some parsed ↦ elim parsed.host_str [
    | none ↦ ok tt
    | some host ↦
        if is_some (w.parse_ip host) then ok tt else elim (w.lookup_host host (port_of parsed)) [
          | none ↦ err (internal (dns_lookup host))
          | some addrs ↦ screen_addrs host (is_allowlisted host self.allowed_private_hosts) addrs
        ]
  ]
]

-- The value of one header at fire time.
abbrev header_value : HttpWorld → Text → HeaderSource → Result Text CronManagerError
header_value w name (literal v) = ok v
header_value w name (env_var var) = elim (w.env var) [
  | none ↦ err (internal (header_env_unset name var))
  | some v ↦ ok v
]

-- The loop over the headers; every value is marked sensitive.
unfoldable pub resolve_headers :
    HttpWorld → List HttpHeader → Result (List (Text × Text)) CronManagerError
resolve_headers w [] = ok []
resolve_headers w (h ∷ hs) = do
  value ← header_value w h.name h.source
  let rest = resolve_headers w hs >>= λ more. ok ((h.name, value) ∷ more)
  if w.header_value_is_valid value then rest else err (internal (header_value_invalid h.name))

-- `execute` up to the sending. `to_uppercase` is taken on ASCII: the loader lets no other method
-- through.
unfoldable pub prepare :
    HttpExecutor → HttpWorld → Text → Text → List HttpHeader → Result Request CronManagerError
prepare self w method url headers =
    if w.method_is_valid (to_ascii_uppercase method)
    then ((if self.block_private_networks then reject_private_dns self w url else ok tt) >>= λ _.
        resolve_headers w headers >>= λ values.
        ok (record { method = to_ascii_uppercase method; url = url; headers = values }))
    else err (internal (http_method_unknown method))

-- The loop of `read_bounded`.
unfoldable pub read_chunks : ℕ → List ℕ → List Chunk → Result (List ℕ) CronManagerError
read_chunks limit buf [] = ok buf
read_chunks limit buf (broken ∷ cs) = err (internal reading_body)
read_chunks limit buf (bytes c ∷ cs) =
    let rest = read_chunks limit (buf ++ c) cs in
    if ltb limit (length buf + length c) then err (upstream_body_too_large limit) else rest

unfoldable pub truncate : Text → ℕ → Text
unfolding byte_len take_bytes boundary_below
truncate s max =
    if leb (byte_len s) max
    then s
    else take_bytes s (boundary_below s (min max (byte_len s))) ++ codes "… (truncated)"

-- `execute` from the sending on.
unfoldable pub finish : HttpExecutor → HttpWorld → Request → Result HttpAttempt CronManagerError
finish self w req = elim (w.send req) [
  | stopped ↦ err (internal stopped_before_response)
  | send_timeout ↦ err (map_send_err self true)
  | send_failed ↦ err (map_send_err self false)
  | response status chunks ↦ read_chunks self.max_response_bytes [] chunks >>= λ buf.
      let body = w.from_utf8_lossy buf in
      if not (leb 200 status && ltb status 300)
      then err (upstream_http_error status (truncate (sanitize_for_log body) 1024))
      else ok (record { status = status; body = body })
]

unfoldable pub execute :
    HttpExecutor → HttpWorld → Text → Text → List HttpHeader → Result HttpAttempt CronManagerError
unfolding prepare finish
execute self w method url headers = prepare self w method url headers >>= λ req. finish self w req
