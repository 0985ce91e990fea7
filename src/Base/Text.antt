-- ===== src/Base/Text.antt =====
-- Rust's `str` as a list of Unicode code points, with the functions of the standard library that
-- the program calls.
use Prim.Native.Char.{code}
use Prim.Native.String.{String}
use Prim.Native.Nat.{ℕ, zero, suc, ◌/◌, ◌%◌, ◌+◌, ◌-◌}
use mathlib.Core.Bool.{Bool, true, false, ◌&&◌, ◌||◌, not}
use mathlib.Core.List.{List, [], ◌∷◌, ◌++◌}
use mathlib.Core.Option.{Option, none, some}
use cron_manager.Base.Tests.{ltb, leb, eqb, if◌then◌else◌}
use cron_manager.Base.Lists.{is_empty, keep}
use cron_manager.Base.Eq.{list_beq}

abbrev pub Text : Type 0
Text = List ℕ

-- The code points of a literal.
abbrev pub codes : String → Text
codes String.[] = []
codes (String.◌∷◌ c s) = code c ∷ codes s

abbrev pub ascii_lower : ℕ → ℕ
ascii_lower c = if leb b'A' c && leb c b'Z' then c + 32 else c

abbrev pub ascii_upper : ℕ → ℕ
ascii_upper c = if leb b'a' c && leb c b'z' then c - 32 else c

unfoldable pub to_ascii_lowercase : Text → Text
to_ascii_lowercase [] = []
to_ascii_lowercase (c ∷ s) = ascii_lower c ∷ to_ascii_lowercase s

unfoldable pub to_ascii_uppercase : Text → Text
to_ascii_uppercase [] = []
to_ascii_uppercase (c ∷ s) = ascii_upper c ∷ to_ascii_uppercase s

unfoldable pub eq_ignore_ascii_case : Text → Text → Bool
unfolding to_ascii_lowercase
eq_ignore_ascii_case s t = list_beq (to_ascii_lowercase s) (to_ascii_lowercase t)

abbrev pub is_ascii_digit : ℕ → Bool
is_ascii_digit c = leb b'0' c && leb c b'9'

abbrev pub is_ascii_alphanumeric : ℕ → Bool
is_ascii_alphanumeric c =
    is_ascii_digit c || (leb b'A' c && leb c b'Z') || (leb b'a' c && leb c b'z')

abbrev pub is_ascii_hexdigit : ℕ → Bool
is_ascii_hexdigit c = is_ascii_digit c || (leb b'A' c && leb c b'F') || (leb b'a' c && leb c b'f')

-- `char::is_whitespace`: the Unicode property White_Space.
unfoldable pub is_whitespace : ℕ → Bool
is_whitespace c =
    (leb 9 c && leb c 13)
    || eqb c 32
    || eqb c 0x85
    || eqb c 0xa0
    || eqb c 0x1680
    || (leb 0x2000 c && leb c 0x200a)
    || eqb c 0x2028
    || eqb c 0x2029
    || eqb c 0x202f
    || eqb c 0x205f
    || eqb c 0x3000

unfoldable pub trim_start_by : (ℕ → Bool) → Text → Text
trim_start_by p [] = []
trim_start_by p (c ∷ s) = if p c then trim_start_by p s else c ∷ s

unfoldable pub trim_end_by : (ℕ → Bool) → Text → Text
trim_end_by p [] = []
trim_end_by p (c ∷ s) = let r = trim_end_by p s in if p c && is_empty r then [] else c ∷ r

unfoldable pub trim : Text → Text
unfolding trim_start_by trim_end_by is_whitespace
trim s = trim_end_by is_whitespace (trim_start_by is_whitespace s)

-- `s.strip_prefix(p)`.
unfoldable pub strip_prefix : Text → Text → Option Text
strip_prefix s [] = some s
strip_prefix [] (_ ∷ _) = none
strip_prefix (c ∷ s) (d ∷ p) = if eqb c d then strip_prefix s p else none

-- `s.starts_with(p)`.
unfoldable pub starts_with : Text → Text → Bool
starts_with s [] = true
starts_with [] (_ ∷ _) = false
starts_with (c ∷ s) (d ∷ p) = eqb c d && starts_with s p

-- `s.contains(p)`.
unfoldable pub contains : Text → Text → Bool
unfolding starts_with
contains [] p = starts_with [] p
contains (c ∷ s) p = starts_with (c ∷ s) p || contains s p

-- The parts between the characters that satisfy `p`: the first part, and those after it.
unfoldable pub split_parts : (ℕ → Bool) → Text → Text × List Text
split_parts p [] = ([], [])
split_parts p (c ∷ s) =
    let (part, parts) = split_parts p s in if p c then ([], part ∷ parts) else (c ∷ part, parts)

-- `s.split(sep).collect()`.
unfoldable pub split : ℕ → Text → List Text
unfolding split_parts
split sep s = let (part, parts) = split_parts (λ c. eqb c sep) s in part ∷ parts

-- `s.split_whitespace().collect()`.
unfoldable pub split_whitespace : Text → List Text
unfolding split_parts is_whitespace
split_whitespace s =
    let (part, parts) = split_parts is_whitespace s in keep (λ w. not (is_empty w)) (part ∷ parts)

-- `s.rsplit_once(sep)`: what stands before and after the last separator.
unfoldable pub rsplit_once : ℕ → Text → Option (Text × Text)
rsplit_once sep [] = none
rsplit_once sep (c ∷ s) = elim (rsplit_once sep s) [
  | some (h, t) ↦ some (c ∷ h, t)
  | none ↦ if eqb c sep then some ([], s) else none
]

-- The strings joined by a separator.
unfoldable pub join : Text → List Text → Text
join sep [] = []
join sep (s ∷ rest) = elim rest as (λ r. Text) [ [] ↦ s | _ ∷ _ ↦ s ++ (sep ++ join sep rest) ]

-- `format!("{}", n)`, with `n + 1` rounds for the digits of `n`.
unfoldable pub decimal_from : ℕ → ℕ → Text → Text
decimal_from zero n acc = acc
decimal_from (suc f) n acc =
    let more = decimal_from f (n / 10) ((b'0' + n % 10) ∷ acc) in
    if ltb n 10 then (b'0' + n) ∷ acc else more

unfoldable pub decimal : ℕ → Text
unfolding decimal_from
decimal n = decimal_from (n + 1) n []
