-- ===== src/Security/Host.antt =====
-- src/security.rs: the entries of `security.allowed_private_hosts`. The parser of IP literals is
-- the standard library's, and a parameter here.
pub mod Laws
use cron_manager.Base.{
  ℕ, Bool, true, false, ◌||◌, Option, none, some, is_some, if◌then◌else◌, List, [], ◌∷◌, all,
  is_empty, eqb, not,
}
use cron_manager.Base.Text.{Text, trim, trim_end_by, to_ascii_lowercase, is_ascii_alphanumeric}
use cron_manager.Security.Ip.{IpAddr}

abbrev pub is_host_char : ℕ → Bool
is_host_char c = is_ascii_alphanumeric c || eqb c b'-' || eqb c b'.' || eqb c b'_'

abbrev pub is_dot : ℕ → Bool
is_dot c = eqb c b'.'

module _ (parse_ip : Text → Option IpAddr) where
  -- What `normalize_allowed_host` does with the folded host.
  unfoldable pub check_host : Text → Option Text
  check_host host =
      if is_empty host || is_some (parse_ip host)
      then none
      else if not (all is_host_char host)
      then none
      else some host

  unfoldable pub normalize_allowed_host : Text → Option Text
  unfolding check_host
  normalize_allowed_host entry = check_host (to_ascii_lowercase (trim_end_by is_dot (trim entry)))
