-- ===== src/Security/Sanitize/Laws.antt =====
-- The sanitised text: its characters, a bounded log line, the same text twice over.
use cron_manager.Base.{
  ℕ, ◌+◌, ◌≤◌, ◌<◌, ◌≡◌, ◌≢◌, refl, ap, ◌⊎◌, inl, inr, false, [], ◌∷◌, ◌++◌, arith, All, All-append,
  ltb, leb, Bool-cases,
}
use cron_manager.Base.Text.{Text}
use cron_manager.Base.Bytes.{byte_len, byte_len-append}
use cron_manager.Security.Sanitize.{
  escape, escape_len, hex_digit, sanitize_for_log_from, sanitize_for_log, sanitize_for_persistence,
}

-- A tab, or a character that is neither below the space nor DEL.
abbrev pub IsClean : ℕ → Type 0
IsClean c = (c ≡ 9) ⊎ ((32 ≤ c) × (c ≢ 127))

hex_digit_bounds : (d : ℕ) → d < 16 → (48 ≤ hex_digit d) × (hex_digit d ≤ 102)
hex_digit_bounds d h = ground arith

escape-IsClean : (c : ℕ) → All IsClean (escape c)
unfolding escape
escape-IsClean c = ground arith

pub sanitize_for_persistence-IsClean : (s : Text) → All IsClean (sanitize_for_persistence s)
unfolding sanitize_for_persistence
sanitize_for_persistence-IsClean [] = tt
sanitize_for_persistence-IsClean (c ∷ s) =
    All-append IsClean (escape c) (sanitize_for_persistence s) (escape-IsClean c)
      (sanitize_for_persistence-IsClean s)

escape_of_clean : (c : ℕ) → IsClean c → escape c ≡ c ∷ []
unfolding escape
escape_of_clean c h = ground arith

sanitize_of_clean : (s : Text) → All IsClean s → sanitize_for_persistence s ≡ s
unfolding sanitize_for_persistence
sanitize_of_clean [] h = refl
sanitize_of_clean (c ∷ s) h = rw (escape_of_clean c h.0) (ap (◌∷◌ c) (sanitize_of_clean s h.1))

-- A row that was sanitised holds no character below the space but tabs, and no DEL; sanitising it
-- again changes nothing.
pub sanitize_for_persistence_idem :
    (s : Text)
    → All IsClean (sanitize_for_persistence s)
      × (sanitize_for_persistence (sanitize_for_persistence s) ≡ sanitize_for_persistence s)
sanitize_for_persistence_idem s = (
  sanitize_for_persistence-IsClean s,
  sanitize_of_clean (sanitize_for_persistence s) (sanitize_for_persistence-IsClean s),
)

byte_len-escape : (c : ℕ) → byte_len (escape c) ≡ escape_len c
unfolding byte_len escape escape_len
byte_len-escape c = ground arith

escape_len_bounds : (c : ℕ) → (1 ≤ escape_len c) × (escape_len c ≤ 6)
unfolding escape_len
escape_len_bounds c = ground arith

log_from_bounded : (w : ℕ) (s : Text) → w ≤ 4096 → w + byte_len (sanitize_for_log_from w s) ≤ 4110
unfolding sanitize_for_log_from byte_len
log_from_bounded w [] h = omega arith
log_from_bounded w (c ∷ s) h = elim (Bool-cases (ltb 4096 (w + 6))) [
  | inl full ↦ rw full (omega arith)
  | inr room ↦
      rw (room, byte_len-append)
        (ground (
          arith,
          room,
          byte_len-escape c,
          escape_len_bounds c,
          log_from_bounded (w + escape_len c) s,
        ))
]

log_from-IsClean : (w : ℕ) (s : Text) → All IsClean (sanitize_for_log_from w s)
unfolding sanitize_for_log_from
log_from-IsClean w [] = tt
log_from-IsClean w (c ∷ s) = elim (Bool-cases (ltb 4096 (w + 6))) [
  | inl full ↦ rw full (ground arith)
  | inr room ↦
      rw room
        (All-append IsClean (escape c) _ (escape-IsClean c) (log_from-IsClean (w + escape_len c) s))
]

log_from_short :
    (w : ℕ) (s : Text)
    → w + byte_len (sanitize_for_persistence s) ≤ 4091
    → sanitize_for_log_from w s ≡ sanitize_for_persistence s
unfolding sanitize_for_log_from sanitize_for_persistence
log_from_short w [] h = refl
log_from_short w (c ∷ s) h =
    let parts = byte_len-append (escape c) (sanitize_for_persistence s) in
    let len = byte_len-escape c in
    let bounds = escape_len_bounds c in
    let ih = log_from_short (w + escape_len c) s (omega arith) in
    let room : ltb 4096 (w + 6) ≡ false = ground (arith, parts, len, bounds) in
    rw room (ap (◌++◌ (escape c)) ih)

-- A sanitised log line holds no character below the space but tabs, and no DEL, and takes at most
-- 4096 + 14 bytes; a text whose sanitised form takes at most 4091 bytes is logged as that form.
pub sanitize_for_log_lem :
    (s : Text)
    → All IsClean (sanitize_for_log s)
      × (byte_len (sanitize_for_log s) ≤ 4110)
      × ((sanitize_for_log s ≡ sanitize_for_persistence s)
          ⊎ (4091 < byte_len (sanitize_for_persistence s)))
unfolding sanitize_for_log
sanitize_for_log_lem s = (
  log_from-IsClean 0 s,
  omega (arith, log_from_bounded 0 s (omega arith)),
  elim (Bool-cases (leb (byte_len (sanitize_for_persistence s)) 4091)) [
    | inl short ↦ inl (log_from_short 0 s (ground (arith, short)))
    | inr long ↦ inr (ground (arith, long))
  ],
)
