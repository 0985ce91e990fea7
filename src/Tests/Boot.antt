-- ===== src/Tests/Boot.antt =====
-- Tests of the checks that the process starts with, and of the security helpers.
use cron_manager.Base.{◌/◌, ◌≤◌, ◌<◌, ◌≡◌, ◌⊎◌, refl, Option, none, [], ◌∷◌, ◌++◌, arith, All, any}
use cron_manager.Base.Bytes.{byte_len, len_utf8}
use cron_manager.Base.Text.{Text, codes, trim, is_whitespace, trim_start_by, trim_end_by}
use cron_manager.Security.Ip.{
  Ipv4Addr, Ipv6Addr, IpAddr, v4, is_private_or_local, is_always_blocked,
}
use cron_manager.Security.Ip.Blocks.{V4IsValid, in_cidr, v4_number, non_routable, never_allowed}
use cron_manager.Security.Ip.Laws.{v4-blocks}
use cron_manager.Security.Sanitize.{
  sanitize_for_log, sanitize_for_persistence, truncate_response_body, marker,
}
use cron_manager.Security.Sanitize.Laws.{sanitize_for_log_lem, IsClean}
use cron_manager.Security.Sanitize.Truncation.{truncate_response_body_long}
use cron_manager.EnvSafety.{production, CredCheck, too_short, is_weak, enforce_creds}
use cron_manager.EnvSafety.Gates.{enforce_creds_panics}

abbrev metadata_ip : Ipv4Addr
metadata_ip = record { o0 = 169; o1 = 254; o2 = 169; o3 = 254 }

valid_metadata : V4IsValid metadata_ip
valid_metadata = record { b0 = omega arith; b1 = omega arith; b2 = omega arith; b3 = omega arith }

v4-blocks_example :
    (is_private_or_local (v4 metadata_ip) ≡ any (in_cidr (v4_number metadata_ip)) non_routable)
    × (is_always_blocked (v4 metadata_ip) ≡ any (in_cidr (v4_number metadata_ip)) never_allowed)
v4-blocks_example = v4-blocks metadata_ip valid_metadata

abbrev unique_local : Ipv6Addr
unique_local = record { s0 = 0xfd00; s1 = 0; s2 = 0; s3 = 0; s4 = 0; s5 = 0; s6 = 0; s7 = 1 }

abbrev two_lines : Text
two_lines = codes "a" ++ (10 ∷ codes "b")

sanitize_for_log_lem_example :
    All IsClean (sanitize_for_log two_lines)
    × (byte_len (sanitize_for_log two_lines) ≤ 4110)
    × ((sanitize_for_log two_lines ≡ sanitize_for_persistence two_lines)
        ⊎ (4091 < byte_len (sanitize_for_persistence two_lines)))
sanitize_for_log_lem_example = sanitize_for_log_lem two_lines

truncate_response_body_long_example :
    (head mid tail : Text) × (sanitize_for_persistence (codes "abcdefgh") ≡ head ++ (mid ++ tail))
    × (truncate_response_body (codes "abcdefgh") 4 ≡ head ++ (marker (byte_len mid) ++ tail))
    × (byte_len head ≤ 4 / 2)
    × (byte_len tail ≤ 4 / 2)
unfolding sanitize_for_persistence byte_len len_utf8
truncate_response_body_long_example = truncate_response_body_long (codes "abcdefgh") 4 (omega arith)

abbrev no_ip : Text → Option IpAddr
no_ip s = none

abbrev cred : Text → CredCheck
cred v = record { context = codes "admin"; field = codes "token"; value = v; min_len = 16 }

abbrev strong : Text
strong = codes "kX9vQ2mZ7tR4wB8n"

-- Two characters of three bytes.
enforce_creds_panics_example : enforce_creds production (cred (0x4e2d ∷ 0x6587 ∷ []) ∷ []) ≡ none
unfolding is_weak byte_len len_utf8 trim trim_start_by trim_end_by is_whitespace
enforce_creds_panics_example =
    enforce_creds_panics production (cred (0x4e2d ∷ 0x6587 ∷ [])) [] 0x4e2d (0x6587 ∷ []) too_short
      refl refl (omega arith) (omega arith)
