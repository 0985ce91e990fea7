-- ===== src/Security/Sanitize.antt =====
-- src/security.rs: control characters out of log lines and history rows, and the cap on stored
-- bodies.
pub mod Laws
pub mod Truncation
use cron_manager.Base.{
  ℕ, zero, suc, ◌+◌, ◌-◌, ◌/◌, ◌%◌, Bool, true, false, ◌||◌, if◌then◌else◌, List, [], ◌∷◌, ◌++◌,
  eqb, ltb, leb,
}
use cron_manager.Base.Text.{Text, codes, decimal}
use cron_manager.Base.Bytes.{len_utf8, byte_len, is_char_boundary, take_bytes, drop_bytes}

-- A digit of `{:x}`.
abbrev hex_digit : ℕ → ℕ
hex_digit d = if ltb d 10 then b'0' + d else b'a' + (d - 10)

-- `format!("\\u{:04x}", c)`, for a code point below 0x10000.
abbrev unicode_escape : ℕ → Text
unicode_escape c =
    b'\\'
    ∷ b'u'
    ∷ hex_digit (c / 4096)
    ∷ hex_digit (c / 256 % 16)
    ∷ hex_digit (c / 16 % 16)
    ∷ hex_digit (c % 16)
    ∷ []

-- What one character becomes; both functions make the same replacements.
unfoldable pub escape : ℕ → Text
escape c =
    if eqb c 13
    then b'\\' ∷ b'r' ∷ []
    else if eqb c 10
    then b'\\' ∷ b'n' ∷ []
    else if eqb c 9
    then 9 ∷ []
    else if ltb c 0x20 || eqb c 0x7f
    then unicode_escape c
    else c ∷ []

-- The increments of `written` in `sanitize_for_log`.
unfoldable pub escape_len : ℕ → ℕ
unfolding len_utf8
escape_len c =
    if eqb c 13
    then 2
    else if eqb c 10
    then 2
    else if eqb c 9
    then 1
    else if ltb c 0x20 || eqb c 0x7f
    then 6
    else len_utf8 c

-- The loop of `sanitize_for_log`, over the bytes written so far.
unfoldable pub sanitize_for_log_from : ℕ → Text → Text
unfolding escape escape_len
sanitize_for_log_from written [] = []
sanitize_for_log_from written (c ∷ s) =
    let rest = sanitize_for_log_from (written + escape_len c) s in
    if ltb 4096 (written + 6) then codes "…[truncated]" else escape c ++ rest

unfoldable pub sanitize_for_log : Text → Text
unfolding sanitize_for_log_from
sanitize_for_log s = sanitize_for_log_from 0 s

unfoldable pub sanitize_for_persistence : Text → Text
unfolding escape
sanitize_for_persistence [] = []
sanitize_for_persistence (c ∷ s) = escape c ++ sanitize_for_persistence s

-- `while !s.is_char_boundary(idx) { idx -= 1 }`; 0 is a boundary, so the loop stops there.
unfoldable pub boundary_below : Text → ℕ → ℕ
unfolding is_char_boundary
boundary_below s zero = 0
boundary_below s (suc i) =
    let lower = boundary_below s i in if is_char_boundary s (suc i) then suc i else lower

unfoldable pub char_boundary_floor : Text → ℕ → ℕ
unfolding boundary_below byte_len
char_boundary_floor s idx = if leb (byte_len s) idx then byte_len s else boundary_below s idx

-- `while !s.is_char_boundary(idx) { idx += 1 }`, with fuel.
unfoldable pub boundary_above : ℕ → Text → ℕ → ℕ
unfolding is_char_boundary
boundary_above zero s idx = idx
boundary_above (suc f) s idx =
    let higher = boundary_above f s (idx + 1) in if is_char_boundary s idx then idx else higher

unfoldable pub char_boundary_ceil : Text → ℕ → ℕ
unfolding boundary_above byte_len
char_boundary_ceil s idx =
    if leb (byte_len s) idx then byte_len s else boundary_above (byte_len s - idx) s idx

abbrev pub marker : ℕ → Text
marker n = codes "\n… [" ++ (decimal n ++ codes " bytes truncated] …\n")

abbrev pub head_end : Text → ℕ → ℕ
head_end clean max = char_boundary_floor clean (max / 2)

abbrev pub tail_start : Text → ℕ → ℕ
tail_start clean max = char_boundary_ceil clean (byte_len clean - max / 2)

-- `truncate_response_body` after the sanitisation.
unfoldable pub cap_body : Text → ℕ → Text
unfolding char_boundary_floor char_boundary_ceil take_bytes drop_bytes decimal
cap_body clean max =
    if leb (byte_len clean) max
    then clean
    else take_bytes clean (head_end clean max)
      ++ (marker (byte_len clean - (head_end clean max + (byte_len clean - tail_start clean max)))
          ++ drop_bytes clean (tail_start clean max))

unfoldable pub truncate_response_body : Text → ℕ → Text
unfolding sanitize_for_persistence cap_body
truncate_response_body s max = cap_body (sanitize_for_persistence s) max
