-- ===== src/Security/Hash.antt =====
-- src/security.rs: `short_client_hash`. `sha256` is the digest of the crate `sha2`.
use cron_manager.Base.{
  ℕ, ◌+◌, ◌-◌, ◌/◌, ◌%◌, ◌≤◌, ◌≡◌, refl, List, [], ◌∷◌, ltb, length, if◌then◌else◌, arith,
}
use cron_manager.Base.Text.{Text}

abbrev pub lower_hex : ℕ → ℕ
lower_hex d = if ltb d 10 then b'0' + d else b'a' + (d - 10)

-- `{byte:02x}` of each byte.
unfoldable pub hex_of : List ℕ → Text
hex_of [] = []
hex_of (b ∷ bs) = lower_hex (b / 16) ∷ lower_hex (b % 16) ∷ hex_of bs

-- The first four.
abbrev pub first_four : List ℕ → List ℕ
first_four (a ∷ b ∷ c ∷ d ∷ rest) = a ∷ b ∷ c ∷ d ∷ []
first_four (a ∷ b ∷ c ∷ []) = a ∷ b ∷ c ∷ []
first_four (a ∷ b ∷ []) = a ∷ b ∷ []
first_four (a ∷ []) = a ∷ []
first_four [] = []

unfoldable pub short_client_hash : (List ℕ → List ℕ) → List ℕ → Text
unfolding hex_of
short_client_hash sha256 bytes = hex_of (first_four (sha256 bytes))

-- The hash has eight characters.
length-short_client_hash :
    (sha256 : List ℕ → List ℕ) (bytes : List ℕ)
    → 4 ≤ length (sha256 bytes)
    → length (short_client_hash sha256 bytes) ≡ 8
unfolding short_client_hash hex_of
length-short_client_hash sha256 bytes long = eight (sha256 bytes) long
  where
    eight : (digest : List ℕ) → 4 ≤ length digest → length (hex_of (first_four digest)) ≡ 8
    eight (a ∷ b ∷ c ∷ d ∷ rest) h = refl
    eight (a ∷ b ∷ c ∷ []) h = absurd (omega arith)
    eight (a ∷ b ∷ []) h = absurd (omega arith)
    eight (a ∷ []) h = absurd (omega arith)
    eight [] h = absurd (omega arith)
