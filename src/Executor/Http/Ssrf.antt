-- ===== src/Executor/Http/Ssrf.antt =====
-- The fire-time SSRF check: what is known of the addresses of a host that a request goes to.
use cron_manager.Base.{
  ◌≡◌, refl, ◌⊎◌, inl, inr, Bool, true, false, none, some, List, [], ◌∷◌, arith, All,
}
use cron_manager.Base.Results.{ok}
use cron_manager.Base.Text.{Text}
use cron_manager.Security.Ip.{IpAddr, is_private_or_local, is_always_blocked}
use cron_manager.Dsl.{HttpHeader}
use cron_manager.Executor.Http.{
  HttpExecutor, HttpWorld, ParsedUrl, Request, is_allowlisted, ssrf_refuses, screen_addrs,
  reject_private_dns, port_of, prepare,
}

-- An address that a request may go to: routable, or of a listed host and not reserved for
-- metadata services and the like.
abbrev pub MayReach : Bool → IpAddr → Type 0
MayReach listed ip =
    (is_private_or_local ip ≡ false) ⊎ ((listed ≡ true) × (is_always_blocked ip ≡ false))

ssrf_allows : (ip : IpAddr) (listed : Bool) → ssrf_refuses ip listed ≡ false → MayReach listed ip
unfolding ssrf_refuses
ssrf_allows ip true h = inr (refl, h)
ssrf_allows ip false h = inl h

screen_addrs_ok :
    (host : Text) (listed : Bool) (ips : List IpAddr)
    → screen_addrs host listed ips ≡ ok tt
    → All (MayReach listed) ips
unfolding screen_addrs
screen_addrs_ok host listed [] e = tt
screen_addrs_ok host listed (ip ∷ ips) e =
    (ssrf_allows ip listed (ground arith), screen_addrs_ok host listed ips (ground arith))

reject_private_dns_ok :
    (self : HttpExecutor) (w : HttpWorld) (url : Text) (parsed : ParsedUrl) (host : Text)
    (addrs : List IpAddr)
    → reject_private_dns self w url ≡ ok tt
    → w.parse_url url ≡ some parsed
    → parsed.host_str ≡ some host
    → w.parse_ip host ≡ none
    → w.lookup_host host (port_of parsed) ≡ some addrs
    → All (MayReach (is_allowlisted host self.allowed_private_hosts)) addrs
unfolding reject_private_dns
reject_private_dns_ok self w url parsed host addrs e p q r l =
    screen_addrs_ok host (is_allowlisted host self.allowed_private_hosts) addrs (ground arith)

-- With private networks blocked, a request is made ready only if every address that its host name
-- resolves to at that moment is routable, or the host is listed and the address is none of
-- those that stay blocked.
pub prepare_reach :
    (self : HttpExecutor) (w : HttpWorld) (method url : Text) (headers : List HttpHeader)
    (req : Request) (parsed : ParsedUrl) (host : Text) (addrs : List IpAddr)
    → self.block_private_networks ≡ true
    → prepare self w method url headers ≡ ok req
    → w.parse_url url ≡ some parsed
    → parsed.host_str ≡ some host
    → w.parse_ip host ≡ none
    → w.lookup_host host (port_of parsed) ≡ some addrs
    → All (MayReach (is_allowlisted host self.allowed_private_hosts)) addrs
unfolding prepare
prepare_reach self w method url headers req parsed host addrs b e p q r l =
    let passed : reject_private_dns self w url ≡ ok tt = ground arith in
    reject_private_dns_ok self w url parsed host addrs passed p q r l
