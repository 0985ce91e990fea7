-- ===== src/Base/Bytes.antt =====
-- Byte positions in a text, as `str` has them in UTF-8: `len`, `is_char_boundary`, and slices.
use Prim.Native.Nat.{ℕ, ◌+◌, ◌-◌, ◌/◌, ◌%◌, ◌≤◌}
use mathlib.Core.Path.{◌≡◌, refl}
use mathlib.Core.Bool.{Bool, true, false}
use mathlib.Core.List.{List, [], ◌∷◌, ◌++◌}
use native.Mathlib.Omega.{arith}
use cron_manager.Base.Tests.{ltb, leb, eqb, if◌then◌else◌}
use cron_manager.Base.Text.{Text}

-- `char::len_utf8` and `str::len`.
unfoldable pub len_utf8 : ℕ → ℕ
len_utf8 c = if ltb c 0x80 then 1 else if ltb c 0x800 then 2 else if ltb c 0x10000 then 3 else 4

pub len_utf8_bounds : (c : ℕ) → (1 ≤ len_utf8 c) × (len_utf8 c ≤ 4)
unfolding len_utf8
len_utf8_bounds c = ground arith

unfoldable pub byte_len : Text → ℕ
unfolding len_utf8
byte_len [] = 0
byte_len (c ∷ s) = len_utf8 c + byte_len s

pub byte_len-append : (s t : Text) → byte_len (s ++ t) ≡ byte_len s + byte_len t
unfolding byte_len
byte_len-append [] t = omega arith
byte_len-append (c ∷ s) t = omega (arith, byte_len-append s t)

unfoldable pub is_char_boundary : Text → ℕ → Bool
unfolding len_utf8
is_char_boundary [] i = eqb i 0
is_char_boundary (c ∷ s) i =
    if eqb i 0
    then true
    else if leb (len_utf8 c) i
    then is_char_boundary s (i - len_utf8 c)
    else false

-- `&s[..i]` and `&s[i..]` at a boundary.
unfoldable pub take_bytes : Text → ℕ → Text
unfolding len_utf8
take_bytes [] i = []
take_bytes (c ∷ s) i = if leb (len_utf8 c) i then c ∷ take_bytes s (i - len_utf8 c) else []

unfoldable pub drop_bytes : Text → ℕ → Text
unfolding len_utf8
drop_bytes [] i = []
drop_bytes (c ∷ s) i = if leb (len_utf8 c) i then drop_bytes s (i - len_utf8 c) else c ∷ s

pub take_bytes-append-drop_bytes : (s : Text) (i : ℕ) → take_bytes s i ++ drop_bytes s i ≡ s
unfolding take_bytes drop_bytes
take_bytes-append-drop_bytes [] i = refl
take_bytes-append-drop_bytes (c ∷ s) i =
    ground (arith, take_bytes-append-drop_bytes s (i - len_utf8 c))

pub byte_len-take_bytes :
    (s : Text) (i : ℕ) → is_char_boundary s i ≡ true → byte_len (take_bytes s i) ≡ i
unfolding byte_len take_bytes is_char_boundary
byte_len-take_bytes [] i h = ground arith
byte_len-take_bytes (c ∷ s) i h =
    ground (arith, byte_len-take_bytes s (i - len_utf8 c), len_utf8_bounds c)

pub is_char_boundary_zero : (s : Text) → is_char_boundary s 0 ≡ true
unfolding is_char_boundary
is_char_boundary_zero [] = refl
is_char_boundary_zero (c ∷ s) = refl

pub is_char_boundary_end : (s : Text) → is_char_boundary s (byte_len s) ≡ true
unfolding is_char_boundary byte_len
is_char_boundary_end [] = refl
is_char_boundary_end (c ∷ s) =
    ground (arith, is_char_boundary_end s, len_utf8_bounds c, shift (len_utf8 c) (byte_len s))
  where
    shift : (a b : ℕ) → a + b - a ≡ b
    shift a b = omega arith

-- `str::as_bytes`.
unfoldable pub as_bytes : Text → List ℕ
as_bytes [] = []
as_bytes (c ∷ s) =
    let rest = as_bytes s in
    if ltb c 0x80
    then c ∷ rest
    else if ltb c 0x800
    then (0xc0 + c / 64) ∷ (0x80 + c % 64) ∷ rest
    else if ltb c 0x10000
    then (0xe0 + c / 4096) ∷ (0x80 + (c / 64) % 64) ∷ (0x80 + c % 64) ∷ rest
    else (0xf0 + c / 262144)
      ∷ (0x80 + (c / 4096) % 64)
      ∷ (0x80 + (c / 64) % 64)
      ∷ (0x80 + c % 64)
      ∷ rest
