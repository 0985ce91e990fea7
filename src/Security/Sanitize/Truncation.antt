-- ===== src/Security/Sanitize/Truncation.antt =====
-- What a capped body keeps: whole characters from both ends, and the exact count of what is cut.
use cron_manager.Base.{
  ℕ, zero, suc, ◌+◌, ◌-◌, ◌/◌, ◌≤◌, ◌<◌, ◌≡◌, refl, sym, ◌∙◌, ap, true, false, [], ◌∷◌, ◌++◌, arith,
  leb,
}
use mathlib.Core.List.{append_assoc}
use cron_manager.Base.Text.{Text}
use cron_manager.Base.Bytes.{
  len_utf8, byte_len, byte_len-append, is_char_boundary, take_bytes, drop_bytes,
  is_char_boundary_zero, is_char_boundary_end, take_bytes-append-drop_bytes, byte_len-take_bytes,
}
use cron_manager.Security.Sanitize.{
  boundary_below, char_boundary_floor, boundary_above, char_boundary_ceil, marker, head_end,
  tail_start, cap_body, sanitize_for_persistence, truncate_response_body,
}

pub boundary_below_lem :
    (s : Text) (i : ℕ) → (boundary_below s i ≤ i) × (is_char_boundary s (boundary_below s i) ≡ true)
unfolding boundary_below
boundary_below_lem s zero = (omega arith, is_char_boundary_zero s)
boundary_below_lem s (suc i) = ground (arith, boundary_below_lem s i)

floor_lem :
    (s : Text) (i : ℕ)
    → (char_boundary_floor s i ≤ i)
      × (char_boundary_floor s i ≤ byte_len s)
      × (is_char_boundary s (char_boundary_floor s i) ≡ true)
unfolding char_boundary_floor
floor_lem s i = ground (arith, boundary_below_lem s i, is_char_boundary_end s)

above_lem :
    (f : ℕ) (s : Text) (i : ℕ)
    → i + f ≡ byte_len s
    → (i ≤ boundary_above f s i)
      × (boundary_above f s i ≤ byte_len s)
      × (is_char_boundary s (boundary_above f s i) ≡ true)
unfolding boundary_above
above_lem zero s i h =
    let e : i ≡ byte_len s = omega arith in
    (omega arith, omega arith, rw e (is_char_boundary_end s))
above_lem (suc f) s i h = ground (arith, above_lem f s (i + 1))

ceil_lem :
    (s : Text) (i : ℕ)
    → i ≤ byte_len s
    → (i ≤ char_boundary_ceil s i)
      × (char_boundary_ceil s i ≤ byte_len s)
      × (is_char_boundary s (char_boundary_ceil s i) ≡ true)
unfolding char_boundary_ceil
ceil_lem s i h = ground (arith, above_lem (byte_len s - i) s i, is_char_boundary_end s)

byte_len-drop_bytes :
    (s : Text) (i : ℕ) → is_char_boundary s i ≡ true → i + byte_len (drop_bytes s i) ≡ byte_len s
byte_len-drop_bytes s i h = omega (
  arith,
  byte_len-take_bytes s i h,
  byte_len-append (take_bytes s i) (drop_bytes s i),
  ap byte_len (take_bytes-append-drop_bytes s i),
)

take-take : (s : Text) (i j : ℕ) → i ≤ j → take_bytes (take_bytes s j) i ≡ take_bytes s i
unfolding take_bytes
take-take [] i j h = refl
take-take (c ∷ s) i j h = ground (arith, take-take s (i - len_utf8 c) (j - len_utf8 c))

-- The part between two boundaries.
abbrev pub between : Text → ℕ → ℕ → Text
between s i j = drop_bytes (take_bytes s j) i

split-between :
    (s : Text) (i j : ℕ) → i ≤ j → take_bytes s i ++ (between s i j ++ drop_bytes s j) ≡ s
split-between s i j h =
    sym (append_assoc (take_bytes s i) _ _)
    ∙ ap (λ t. t ++ drop_bytes s j)
        (ap (λ t. t ++ between s i j) (sym (take-take s i j h))
          ∙ take_bytes-append-drop_bytes (take_bytes s j) i)
    ∙ take_bytes-append-drop_bytes s j

module _ (clean : Text) (max : ℕ) (long : max < byte_len clean) where
  head_lem : (head_end clean max ≤ max / 2) × (is_char_boundary clean (head_end clean max) ≡ true)
  head_lem = let (a, b, c) = floor_lem clean (max / 2) in (a, c)

  tail_lem :
      (byte_len clean ≤ tail_start clean max + max / 2)
      × (tail_start clean max ≤ byte_len clean)
      × (is_char_boundary clean (tail_start clean max) ≡ true)
  tail_lem =
      let (a, b, c) = ceil_lem clean (byte_len clean - max / 2) (omega arith) in (omega arith, b, c)

  cut_len :
      byte_len clean - (head_end clean max + (byte_len clean - tail_start clean max))
      ≡ byte_len (between clean (head_end clean max) (tail_start clean max))
  cut_len =
      let h = head_lem in
      let t = tail_lem in
      omega (
        arith,
        byte_len-take_bytes clean (head_end clean max) h.1,
        byte_len-drop_bytes clean (tail_start clean max) t.2,
        byte_len-append (take_bytes clean (head_end clean max)) (
            between clean (head_end clean max) (tail_start clean max)
            ++ drop_bytes clean (tail_start clean max)),
        byte_len-append (between clean (head_end clean max) (tail_start clean max))
            (drop_bytes clean (tail_start clean max)),
        ap byte_len (split-between clean (head_end clean max) (tail_start clean max) (omega arith)),
      )

  cap_body_long :
      (head mid tail : Text) × (clean ≡ head ++ (mid ++ tail))
      × (cap_body clean max ≡ head ++ (marker (byte_len mid) ++ tail))
      × (byte_len head ≤ max / 2)
      × (byte_len tail ≤ max / 2)
  unfolding cap_body
  cap_body_long =
      let h = head_lem in
      let t = tail_lem in
      let whole : leb (byte_len clean) max ≡ false = ground arith in
      (
        take_bytes clean (head_end clean max),
        between clean (head_end clean max) (tail_start clean max),
        drop_bytes clean (tail_start clean max),
        sym (split-between clean (head_end clean max) (tail_start clean max) (omega arith)),
        rw (whole, cut_len) refl,
        omega (arith, byte_len-take_bytes clean (head_end clean max) h.1),
        omega (arith, byte_len-drop_bytes clean (tail_start clean max) t.2),
      )

-- A body that is longer than the cap after sanitising is stored as whole characters from its two
-- ends, each at most half the cap long, and between them the marker with the exact number of
-- bytes left out; the cuts overlap nowhere.
pub truncate_response_body_long :
    (s : Text) (max : ℕ)
    → max < byte_len (sanitize_for_persistence s)
    → (head mid tail : Text) × (sanitize_for_persistence s ≡ head ++ (mid ++ tail))
      × (truncate_response_body s max ≡ head ++ (marker (byte_len mid) ++ tail))
      × (byte_len head ≤ max / 2)
      × (byte_len tail ≤ max / 2)
unfolding truncate_response_body
truncate_response_body_long s max long = cap_body_long (sanitize_for_persistence s) max long
