-- ===== src/Config/Groups.antt =====
-- Which groups `resolve_per_group_tokens` of src/config.rs has a token for.
use cron_manager.Base.{◌≡◌, refl, ◌∙◌, false, Option, none, some, [], ◌∷◌, is_some, All, arith}
use cron_manager.Base.Eq.{list_eq, ◌==◌, ==_iff, ==_self}
use cron_manager.Base.Map
use cron_manager.Base.Map.{Map, contains_key, contains_key-insert}
use cron_manager.Base.Text.{Text}
use cron_manager.Config.{AppConfig, non_empty, resolve_tokens, resolve_per_group_tokens}

-- No two entries have one key.
abbrev pub IsUnique : Map Text Text → Type 0
IsUnique [] = Unit
IsUnique ((g, v) ∷ gs) = All (λ p. (g == p.0) ≡ false) gs × IsUnique gs

abbrev stored : Text → Option Text → Map Text Text → Map Text Text
stored g o out = elim o [ some v ↦ Map.insert g v out | none ↦ out ]

stored_other :
    (g j : Text) (o : Option Text) (out : Map Text Text)
    → (g == j) ≡ false
    → contains_key j (stored g o out) ≡ contains_key j out
stored_other g j none out h = refl
stored_other g j (some v) out h = contains_key-insert g j v out ∙ rw h refl

stored_self :
    (g : Text) (o : Option Text) (out : Map Text Text)
    → contains_key g out ≡ false
    → contains_key g (stored g o out) ≡ is_some o
stored_self g none out h = h
stored_self g (some v) out h = contains_key-insert g g v out ∙ rw (==_self g) refl

module _ (env : Text → Option Text) where
  resolve_other :
      (j : Text) (out gs : Map Text Text)
      → All (λ p. (p.0 == j) ≡ false) gs
      → contains_key j (resolve_tokens env out gs) ≡ contains_key j out
  unfolding resolve_tokens
  resolve_other j out [] h = refl
  resolve_other j out ((g, v) ∷ gs) (hg, hs) =
      resolve_other j (stored g (non_empty (env v)) out) gs hs
      ∙ stored_other g j (non_empty (env v)) out hg

flip : (g j : Text) → (g == j) ≡ false → (j == g) ≡ false
flip g j h = ground (arith, ==_iff g j, ==_iff j g)

flip-All :
    (g : Text) (gs : Map Text Text)
    → All (λ p. (g == p.0) ≡ false) gs
    → All (λ p. (p.0 == g) ≡ false) gs
flip-All g [] h = tt
flip-All g ((j, v) ∷ gs) (hj, hs) = (flip g j hj, flip-All g gs hs)

absent_later :
    (g : Text) (o : Option Text) (out gs : Map Text Text)
    → All (λ p. (g == p.0) ≡ false) gs
    → All (λ p. contains_key p.0 out ≡ false) gs
    → All (λ p. contains_key p.0 (stored g o out) ≡ false) gs
absent_later g o out [] h a = tt
absent_later g o out ((j, v) ∷ gs) (hj, hs) (aj, as') =
    (stored_other g j o out hj ∙ aj, absent_later g o out gs hs as')

module _ (env : Text → Option Text) where
  resolved_groups :
      (out gs : Map Text Text)
      → IsUnique gs
      → All (λ p. contains_key p.0 out ≡ false) gs
      → All (λ p. contains_key p.0 (resolve_tokens env out gs) ≡ is_some (non_empty (env p.1))) gs
  unfolding resolve_tokens
  resolved_groups out [] u a = tt
  resolved_groups out ((g, v) ∷ gs) (fresh, u) (ag, as') = (
    resolve_other env g (stored g (non_empty (env v)) out) gs (flip-All g gs fresh)
        ∙ stored_self g (non_empty (env v)) out ag,
    resolved_groups (stored g (non_empty (env v)) out) gs u
        (absent_later g (non_empty (env v)) out gs fresh as'),
  )

  absent_from_none : (gs : Map Text Text) → All (λ p. contains_key {V = Text} p.0 [] ≡ false) gs
  unfolding contains_key
  absent_from_none [] = tt
  absent_from_none ((g, v) ∷ gs) = (refl, absent_from_none gs)

  -- With the groups one by one, a group has a token when its variable is set and not empty.
  pub resolve_per_group_tokens-All :
      (cfg : AppConfig)
      → IsUnique cfg.security.per_group_token_envs
      → All
          (λ p. contains_key p.0 (resolve_per_group_tokens env cfg) ≡ is_some (non_empty (env p.1)))
          cfg.security.per_group_token_envs
  unfolding resolve_per_group_tokens
  resolve_per_group_tokens-All cfg u =
      resolved_groups [] cfg.security.per_group_token_envs u
        (absent_from_none cfg.security.per_group_token_envs)
