-- ===== src/Config/Dsn/Password.antt =====
-- The password in the DSN is the one from the environment, whatever characters it has.
use cron_manager.Base.{
  ℕ, ◌+◌, ◌-◌, ◌*◌, ◌/◌, ◌%◌, ◌<◌, ◌≡◌, refl, ap, ◌∙◌, inl, inr, eqb_iff, Bool, Bool-cases, true,
  false, ◌||◌, List, [], ◌∷◌, if◌then◌else◌, ltb, eqb, arith, All,
}
use cron_manager.Base.Bytes.{as_bytes}
use cron_manager.Base.Splits.{has}
use cron_manager.Base.Text.{Text}
use cron_manager.Config.Dsn.{upper_hex, is_unreserved, encode_bytes, percent_encode}

-- The value of a hex digit in upper case.
abbrev hex_value : ℕ → ℕ
hex_value c = if ltb c b'A' then c - b'0' else c - b'A' + 10

-- Percent decoding, as a client of the DSN does it: of bytes, all others stand for themselves.
unfoldable pub percent_decode : Text → List ℕ
percent_decode [] = []
percent_decode (c ∷ []) = c ∷ []
percent_decode (c ∷ d ∷ []) = c ∷ d ∷ []
percent_decode (c ∷ d ∷ e ∷ s) =
    let escaped = (16 * hex_value d + hex_value e) ∷ percent_decode s in
    let plain = c ∷ percent_decode (d ∷ e ∷ s) in if eqb c b'%' then escaped else plain

abbrev pub IsByte : ℕ → Type 0
IsByte b = b < 256

abbrev pub IsChar : ℕ → Type 0
IsChar c = c < 0x110000

as_bytes-IsByte : (s : Text) → All IsChar s → All IsByte (as_bytes s)
unfolding as_bytes
as_bytes-IsByte [] h = tt
as_bytes-IsByte (c ∷ s) (hc, hs) = ground (arith, as_bytes-IsByte s hs)

hex_pair :
    (b : ℕ) → b < 256 → 16 * hex_value (upper_hex (b / 16)) + hex_value (upper_hex (b % 16)) ≡ b
hex_pair b h = ground arith

decode_plain :
    (c : ℕ) (s : Text) → eqb c b'%' ≡ false → percent_decode (c ∷ s) ≡ c ∷ percent_decode s
unfolding percent_decode
decode_plain c [] h = refl
decode_plain c (d ∷ []) h = refl
decode_plain c (d ∷ e ∷ s) h = rw h refl

decode_escape :
    (x y : ℕ) (s : Text)
    → percent_decode (b'%' ∷ upper_hex x ∷ upper_hex y ∷ s)
      ≡ (16 * hex_value (upper_hex x) + hex_value (upper_hex y)) ∷ percent_decode s
unfolding percent_decode
decode_escape x y s = refl

decode-encode_bytes : (bs : List ℕ) → All IsByte bs → percent_decode (encode_bytes bs) ≡ bs
unfolding encode_bytes
decode-encode_bytes [] h = unfold percent_decode in refl
decode-encode_bytes (b ∷ bs) (hb, hbs) = elim (Bool-cases (is_unreserved b)) [
  | inl plain ↦ rw plain (
      decode_plain b (encode_bytes bs) (ground (arith, plain))
      ∙ ap (◌∷◌ b) (decode-encode_bytes bs hbs))
  | inr escaped ↦ rw escaped (
      decode_escape (b / 16) (b % 16) (encode_bytes bs)
      ∙ ap (◌∷◌ (16 * hex_value (upper_hex (b / 16)) + hex_value (upper_hex (b % 16))))
          (decode-encode_bytes bs hbs)
      ∙ ap (λ v. v ∷ bs) (hex_pair b hb))
]

pub decode-percent_encode :
    (s : Text) → All IsChar s → percent_decode (percent_encode s) ≡ as_bytes s
unfolding percent_encode
decode-percent_encode s h = decode-encode_bytes (as_bytes s) (as_bytes-IsByte s h)

-- The characters that separate the parts of a DSN.
abbrev pub is_separator : ℕ → Bool
is_separator c = eqb c b'/' || eqb c b'@' || eqb c b':'

upper_hex_lem : (c n : ℕ) → is_separator c ≡ true → eqb (upper_hex n) c ≡ false
upper_hex_lem c n h = ground arith

reserved : (c : ℕ) → is_separator c ≡ true → is_unreserved c ≡ false
reserved c h = ground arith

is_unreserved_lem : (c b : ℕ) → is_separator c ≡ true → is_unreserved b ≡ true → eqb b c ≡ false
is_unreserved_lem c b hc hb = elim (Bool-cases (eqb b c)) [
  | inl same ↦ cc (hb, reserved c hc, (eqb_iff b c).0 same)
  | inr other ↦ other
]

percent_lem : (c : ℕ) → is_separator c ≡ true → eqb b'%' c ≡ false
percent_lem c h = ground arith

has-encode_bytes : (c : ℕ) (bs : List ℕ) → is_separator c ≡ true → has c (encode_bytes bs) ≡ false
unfolding has encode_bytes
has-encode_bytes c [] h = refl
has-encode_bytes c (b ∷ bs) h = elim (Bool-cases (is_unreserved b)) [
  | inl plain ↦ rw (plain, is_unreserved_lem c b h plain, has-encode_bytes c bs h) refl
  | inr escaped ↦
      rw
        (
          escaped,
          percent_lem c h,
          upper_hex_lem c (b / 16) h,
          upper_hex_lem c (b % 16) h,
          has-encode_bytes c bs h,
        )
        refl
]

pub has-percent_encode :
    (c : ℕ) (s : Text) → is_separator c ≡ true → has c (percent_encode s) ≡ false
unfolding percent_encode
has-percent_encode c s h = has-encode_bytes c (as_bytes s) h
