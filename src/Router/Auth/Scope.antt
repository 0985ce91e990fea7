-- ===== src/Router/Auth/Scope.antt =====
-- Who passes the admin gate.
use mathlib.Core.Option.{some-injective}
use cron_manager.Base.{
  ℕ, ◌≡◌, ◌≢◌, refl, sym, subst, ap, ◌∙◌, ◌↔◌, ◌⊎◌, inl, inr, true, false, Option, none, some, List,
  [], ◌∷◌, ◌++◌, eqb_iff, length, is_empty, arith,
}
use cron_manager.Base.Bytes.{as_bytes}
use cron_manager.Base.Eq.{list_eq, nat_eq, list_beq_iff}
use cron_manager.Base.Names.{one_of, IsOneOf, one_of_iff}
use cron_manager.Base.Results.{ok}
use cron_manager.Base.Text.{Text, codes, strip_prefix}
use cron_manager.Router.Auth.{
  break_at, splitn, admin_routes, group_of_parts, extract_group_from_path, ct_token_matches, Tokens,
  token_bytes, group_token, matches_group, check_presented, gate_with, admin_gate,
}

ct_token_matches_iff : (a b : List ℕ) → (ct_token_matches a b ≡ true) ↔ (a ≡ b)
unfolding ct_token_matches
ct_token_matches_iff a b = ground (arith, list_beq_iff a b, eqb_iff (length a) (length b))

-- The credential of the header is the master token, or the token of the group of the path.
abbrev pub Presents : Tokens → Text → Text → Option (List ℕ) → Type 0
Presents state master path none = ⊥
Presents state master path (some presented) =
    (presented ≡ as_bytes master)
    ⊎ ((t : Text) × (group_token state path ≡ some t) × (presented ≡ as_bytes t))

matches_group_iff :
    (presented : List ℕ) (o : Option Text)
    → (matches_group presented o ≡ true) ↔ ((t : Text) × (o ≡ some t) × (presented ≡ as_bytes t))
matches_group_iff presented none = ground arith
matches_group_iff presented (some t) = (
  λ h. (t, refl, (ct_token_matches_iff presented (as_bytes t)).0 h),
  λ h.
      (ct_token_matches_iff presented (as_bytes t)).1
        (h.2 ∙ ap as_bytes (sym (some-injective _ _ h.1))),
)

check_presented_iff :
    (state : Tokens) (master path : Text) (o : Option (List ℕ))
    → (check_presented state master path o ≡ ok tt) ↔ Presents state master path o
check_presented_iff state master path none = ground arith
check_presented_iff state master path (some presented) = ground (
  arith,
  ct_token_matches_iff presented (as_bytes master),
  matches_group_iff presented (group_token state path),
)

abbrev pub Passes : Tokens → Option Text → Text → Option Text → Type 0
Passes state authorization path none = Unit
Passes state authorization path (some master) =
    Presents state master path (token_bytes authorization)

-- A request passes the gate exactly when no master token is configured, or its header is a bearer
-- credential with the bytes of the master token or of the token of the group that its path names.
pub admin_gate_iff :
    (state : Tokens) (authorization : Option Text) (path : Text)
    → (admin_gate state authorization path ≡ ok tt)
      ↔ Passes state authorization path state.admin_token
unfolding admin_gate
admin_gate_iff state authorization path = passes state.admin_token
  where
    passes :
        (o : Option Text)
        → (gate_with state authorization path o ≡ ok tt) ↔ Passes state authorization path o
    passes none = (λ h. tt, λ h. refl)
    passes (some master) = check_presented_iff state master path (token_bytes authorization)

rejoin : ℕ → Text × Option Text → Text
rejoin c (a, none) = a
rejoin c (a, some r) = a ++ (c ∷ r)

break_at_lem : (c : ℕ) (s : Text) → rejoin c (break_at c s) ≡ s
unfolding rejoin break_at
break_at_lem c [] = refl
break_at_lem c (d ∷ s) = ground (arith, eqb_iff d c, break_at_lem c s)

strip_prefix-slash : (s rest : Text) → strip_prefix s (codes "/") ≡ some rest → s ≡ b'/' ∷ rest
unfolding strip_prefix
strip_prefix-slash [] rest h = cc
strip_prefix-slash (c ∷ s) rest h = ground (arith, eqb_iff c b'/')

-- The text of a path after its first slash that names group `g`.
abbrev pub Names : Text → Text → Type 0
Names rest g =
    (route : Text) × IsOneOf admin_routes route
    × (g ≢ [])
    × ((rest ≡ route ++ (b'/' ∷ g))
        ⊎ ((more : Text) × (rest ≡ route ++ (b'/' ∷ (g ++ (b'/' ∷ more))))))

group_of_parts_two :
    (route group g : Text) (more : List Text)
    → group_of_parts (route ∷ group ∷ more) ≡ some g
    → IsOneOf admin_routes route × (group ≡ g) × (is_empty group ≡ false)
group_of_parts_two route group g more h =
    ((one_of_iff admin_routes route).0 facts.0, facts.1, facts.2)
  where
    facts : (one_of admin_routes route ≡ true) × (group ≡ g) × (is_empty group ≡ false)
    facts = ground arith

not_empty : (g : Text) → is_empty g ≡ false → g ≢ []
not_empty [] h = cc
not_empty (c ∷ g) h = λ e. cc

Names-parts :
    (rest g route : Text) (o : Option Text)
    → rejoin (b'/') (route, o) ≡ rest
    → group_of_parts (elim o [ none ↦ route ∷ [] | some r ↦ route ∷ splitn 2 (b'/') r ]) ≡ some g
    → Names rest g
unfolding rejoin splitn
Names-parts rest g route none h e = cc
Names-parts rest g route (some r) h e =
    second (break_at (b'/') r).0 (break_at (b'/') r).1 (break_at_lem (b'/') r) e
  where
    second :
        (group : Text) (o : Option Text)
        → rejoin (b'/') (group, o) ≡ r
        → group_of_parts (route ∷ elim o [ none ↦ group ∷ [] | some q ↦ group ∷ q ∷ [] ]) ≡ some g
        → Names rest g
    second group none join e =
        let two = group_of_parts_two route group g [] e in
        (
          route,
          two.0,
          subst (λ x. x ≢ []) two.1 (not_empty group two.2),
          inl (sym h ∙ ap (λ x. route ++ (b'/' ∷ x)) (sym join ∙ two.1)),
        )
    second group (some q) join e =
        let two = group_of_parts_two route group g (q ∷ []) e in
        (
          route,
          two.0,
          subst (λ x. x ≢ []) two.1 (not_empty group two.2),
          inr (
            q,
            sym h
                ∙ ap (λ x. route ++ (b'/' ∷ x)) (sym join)
                ∙ ap (λ x. route ++ (b'/' ∷ (x ++ (b'/' ∷ q)))) two.1,
          ),
        )

-- A path that names group `g` for the gate is a slash, `execute`, `stop` or `reload`, a slash and
-- `g`, which is not empty, and then ends or goes on with a slash.
pub extract_group_from_path-some :
    (path g : Text)
    → extract_group_from_path path ≡ some g
    → (rest : Text) × (path ≡ b'/' ∷ rest) × Names rest g
unfolding extract_group_from_path splitn
extract_group_from_path-some path g h = stripped (strip_prefix path (codes "/")) refl h
  where
    stripped :
        (o : Option Text)
        → strip_prefix path (codes "/") ≡ o
        → (elim o [ none ↦ none | some rest ↦ group_of_parts (splitn 3 (b'/') rest) ]) ≡ some g
        → (rest : Text) × (path ≡ b'/' ∷ rest) × Names rest g
    stripped none h e = cc
    stripped (some rest) h e = (
      rest,
      strip_prefix-slash path rest h,
      Names-parts rest g (break_at (b'/') rest).0 (break_at (b'/') rest).1
          (break_at_lem (b'/') rest) e,
    )
