-- ===== src/Security/Env/Laws.antt =====
-- The blacklist test does not depend on letter case, and covers both loader-hook families whole.
use cron_manager.Base.{
  ℕ, ◌≡◌, refl, ap, ap₂, Bool, true, false, List, [], ◌∷◌, any, arith, ◌||◌, ◌&&◌, eqb,
}
use cron_manager.Base.Eq.{list_beq}
use cron_manager.Base.Text.{
  Text, codes, ascii_upper, ascii_lower, to_ascii_uppercase, to_ascii_lowercase,
  eq_ignore_ascii_case, starts_with,
}
use cron_manager.Security.Env.{dangerous_envs, is_dangerous_upper, is_dangerous_env}

lower-upper : (c : ℕ) → ascii_lower (ascii_upper c) ≡ ascii_lower c
lower-upper c = ground arith

to_ascii_lowercase-to_ascii_uppercase :
    (s : Text) → to_ascii_lowercase (to_ascii_uppercase s) ≡ to_ascii_lowercase s
unfolding to_ascii_lowercase to_ascii_uppercase
to_ascii_lowercase-to_ascii_uppercase [] = refl
to_ascii_lowercase-to_ascii_uppercase (c ∷ s) =
    ap₂ ◌∷◌ (lower-upper c) (to_ascii_lowercase-to_ascii_uppercase s)

-- A text without lower-case letters.
abbrev IsUpper : Text → Type 0
IsUpper [] = Unit
IsUpper (d ∷ p) = (ascii_upper d ≡ d) × IsUpper p

eqb-upper :
    (c d : ℕ) → ascii_upper d ≡ d → eqb (ascii_upper c) d ≡ eqb (ascii_lower c) (ascii_lower d)
eqb-upper c d h = ground arith

starts_with-upper :
    (s p : Text)
    → IsUpper p
    → starts_with (to_ascii_uppercase s) p
      ≡ starts_with (to_ascii_lowercase s) (to_ascii_lowercase p)
unfolding starts_with to_ascii_uppercase to_ascii_lowercase
starts_with-upper [] [] h = refl
starts_with-upper (c ∷ s) [] h = refl
starts_with-upper [] (d ∷ p) h = refl
starts_with-upper (c ∷ s) (d ∷ p) h = ap₂ ◌&&◌ (eqb-upper c d h.0) (starts_with-upper s p h.1)

any-upper :
    (key : Text) (ds : List Text)
    → any (λ d. eq_ignore_ascii_case d (to_ascii_uppercase key)) ds
      ≡ any (λ d. list_beq (to_ascii_lowercase d) (to_ascii_lowercase key)) ds
unfolding eq_ignore_ascii_case
any-upper key [] = refl
any-upper key (d ∷ ds) =
    ap₂ ◌||◌ (ap (list_beq (to_ascii_lowercase d)) (to_ascii_lowercase-to_ascii_uppercase key))
      (any-upper key ds)

is_dangerous_upper-eq :
    (u : Text) (a b c : Bool)
    → any (λ d. eq_ignore_ascii_case d u) dangerous_envs ≡ a
    → starts_with u (codes "LD_") ≡ b
    → starts_with u (codes "DYLD_") ≡ c
    → is_dangerous_upper u ≡ (a || b || c)
unfolding is_dangerous_upper
is_dangerous_upper-eq u true b c p q r = rw p
is_dangerous_upper-eq u false b c p q r = rw p (ap₂ ◌||◌ q r)

-- A key is refused exactly when, compared without regard to letter case, it is one of the listed
-- names or begins with `LD_` or with `DYLD_`.
pub is_dangerous_env_lower :
    (key : Text)
    → is_dangerous_env key ≡ (
        any (λ d. list_beq (to_ascii_lowercase d) (to_ascii_lowercase key)) dangerous_envs
        || starts_with (to_ascii_lowercase key) (codes "ld_")
        || starts_with (to_ascii_lowercase key) (codes "dyld_"))
unfolding is_dangerous_env to_ascii_lowercase
is_dangerous_env_lower key =
    is_dangerous_upper-eq (to_ascii_uppercase key) _ _ _ (any-upper key dangerous_envs)
      (starts_with-upper key (codes "LD_") (refl, (refl, (refl, tt))))
      (starts_with-upper key (codes "DYLD_") (refl, (refl, (refl, (refl, (refl, tt))))))
