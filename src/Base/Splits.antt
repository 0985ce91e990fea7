-- ===== src/Base/Splits.antt =====
-- Splitting a text at a character or a pattern, and what the pieces are when a text is put together.
use cron_manager.Base.Tests.{Bool-cases, eqb, eqb_iff, if◌then◌else◌}
use Prim.Native.Nat.{ℕ}
use mathlib.Core.Path.{◌≡◌, refl, sym, ap, ◌∙◌}
use mathlib.Core.Bool.{Bool, true, false, ◌||◌, ◌&&◌}
use mathlib.Core.Logic.{inl, inr}
use mathlib.Core.List.{[], ◌∷◌, ◌++◌}
use mathlib.Core.Option.{Option, none, some}
use native.Mathlib.Omega.{arith}
use cron_manager.Base.Text.{Text, codes, rsplit_once, split, split_parts}

-- Whether the character occurs.
unfoldable pub has : ℕ → Text → Bool
has c [] = false
has c (d ∷ s) = eqb d c || has c s

-- `s.find(c)`: the texts before and after the first `c`.
unfoldable pub split_once : ℕ → Text → Option (Text × Text)
split_once c [] = none
split_once c (d ∷ s) = elim (split_once c s) as (λ o. Option (Text × Text)) [
  | none ↦ if eqb d c then some ([], s) else none
  | some (h, t) ↦ if eqb d c then some ([], s) else some (d ∷ h, t)
]

abbrev pub colon_slashes : Text
colon_slashes = codes "://"

abbrev pub push_head : ℕ → Option (Text × Text) → Option (Text × Text)
push_head d none = none
push_head d (some (h, t)) = some (d ∷ h, t)

abbrev pub at_scheme_end : ℕ → Text → Bool
at_scheme_end d (x ∷ y ∷ s) = eqb d b':' && eqb x b'/' && eqb y b'/'
at_scheme_end d (x ∷ []) = false
at_scheme_end d [] = false

abbrev pub after_two : Text → Text
after_two (x ∷ y ∷ s) = s
after_two (x ∷ []) = []
after_two [] = []

-- `s.find("://")`: the text to its end, and what follows.
unfoldable pub split_scheme : Text → Option (Text × Text)
split_scheme [] = none
split_scheme (d ∷ s) =
    let later = push_head d (split_scheme s) in
    if at_scheme_end d s then some (colon_slashes, after_two s) else later

pub has-append : (c : ℕ) (s t : Text) → has c (s ++ t) ≡ (has c s || has c t)
unfolding has
has-append c [] t = refl
has-append c (d ∷ s) t = ground (arith, has-append c s t)

pub split_once-append :
    (c : ℕ) (s t : Text) → has c s ≡ false → split_once c (s ++ (c ∷ t)) ≡ some (s, t)
unfolding has split_once
split_once-append c [] t h = ground arith
split_once-append c (d ∷ s) t h = ground (arith, split_once-append c s t)

pub split_once-absent : (c : ℕ) (s : Text) → has c s ≡ false → split_once c s ≡ none
unfolding has split_once
split_once-absent c [] h = refl
split_once-absent c (d ∷ s) h = ground (arith, split_once-absent c s)

pub rsplit_once-absent : (c : ℕ) (s : Text) → has c s ≡ false → rsplit_once c s ≡ none
unfolding has rsplit_once
rsplit_once-absent c [] h = refl
rsplit_once-absent c (d ∷ s) h = ground (arith, rsplit_once-absent c s)

pub rsplit_once-append :
    (c : ℕ) (s t : Text) → has c t ≡ false → rsplit_once c (s ++ (c ∷ t)) ≡ some (s, t)
unfolding rsplit_once
rsplit_once-append c [] t h = ground (arith, rsplit_once-absent c t h)
rsplit_once-append c (d ∷ s) t h = ground (arith, rsplit_once-append c s t h)

-- What a split says of the text.
abbrev pub Parts : ℕ → Text → Option (Text × Text) → Type 0
Parts c s none = has c s ≡ false
Parts c s (some (a, b)) = (s ≡ a ++ (c ∷ b)) × (has c a ≡ false)

Parts-cons :
    (c d : ℕ) (s : Text) (o : Option (Text × Text)) (here : Bool)
    → eqb d c ≡ here
    → Parts c s o
    → Parts c (d ∷ s) (elim o as (λ o. Option (Text × Text)) [
      | none ↦ if here then some ([], s) else none
      | some (h, t) ↦ if here then some ([], s) else some (d ∷ h, t)
    ])
unfolding has
Parts-cons c d s none true e h = (ground (arith, eqb_iff d c), refl)
Parts-cons c d s none false e h = ground (arith, h)
Parts-cons c d s (some (a, b)) true e h = (ground (arith, eqb_iff d c), refl)
Parts-cons c d s (some (a, b)) false e h = (ap (◌∷◌ d) h.0, ground arith)

pub split_once_lem : (c : ℕ) (s : Text) → Parts c s (split_once c s)
unfolding split_once has
split_once_lem c [] = refl
split_once_lem c (d ∷ s) = Parts-cons c d s (split_once c s) (eqb d c) refl (split_once_lem c s)

abbrev pub RParts : ℕ → Text → Option (Text × Text) → Type 0
RParts c s none = has c s ≡ false
RParts c s (some (a, b)) = (s ≡ a ++ (c ∷ b)) × (has c b ≡ false)

RParts-cons :
    (c d : ℕ) (s : Text) (o : Option (Text × Text)) (here : Bool)
    → eqb d c ≡ here
    → RParts c s o
    → RParts c (d ∷ s) (elim o as (λ o. Option (Text × Text)) [
      | some (h, t) ↦ some (d ∷ h, t)
      | none ↦ if here then some ([], s) else none
    ])
unfolding has
RParts-cons c d s none true e h = (ground (arith, eqb_iff d c), h)
RParts-cons c d s none false e h = ground (arith, h)
RParts-cons c d s (some (a, b)) here e h = (ap (◌∷◌ d) h.0, h.1)

pub rsplit_once_lem : (c : ℕ) (s : Text) → RParts c s (rsplit_once c s)
unfolding rsplit_once has
rsplit_once_lem c [] = refl
rsplit_once_lem c (d ∷ s) = RParts-cons c d s (rsplit_once c s) (eqb d c) refl (rsplit_once_lem c s)

-- The scheme has at least three characters, and what follows it is the rest.
abbrev pub Scheme : Text → Option (Text × Text) → Type 0
Scheme s none = Unit
Scheme s (some (h, t)) =
    (x : ℕ) × (y : ℕ) × (z : ℕ) × (w : Text) × (h ≡ x ∷ y ∷ z ∷ w)
    × (s ≡ h ++ t)
    × ((u : Text) → split_scheme (h ++ u) ≡ some (h, u))

Scheme-push :
    (d : ℕ) (s : Text) (o : Option (Text × Text))
    → at_scheme_end d s ≡ false
    → Scheme s o
    → Scheme (d ∷ s) (push_head d o)
unfolding split_scheme
Scheme-push d s none e h = tt
Scheme-push d s (some (h, t)) e (x, y, z, w, is_h, is_s, again) =
    (d, x, y, z ∷ w, ap (◌∷◌ d) is_h, ap (◌∷◌ d) is_s, λ u. rw (not_here u, again u) refl)
  where
    not_here : (u : Text) → at_scheme_end d (h ++ u) ≡ false
    not_here u =
        ap (λ r. at_scheme_end d (r ++ u)) is_h
        ∙ sym (ap (λ r. at_scheme_end d (r ++ t)) is_h)
        ∙ sym (ap (at_scheme_end d) is_s)
        ∙ e

Scheme-end :
    (d : ℕ) (s : Text)
    → at_scheme_end d s ≡ true
    → Scheme (d ∷ s) (some (colon_slashes, after_two s))
unfolding split_scheme
Scheme-end d [] e = cc
Scheme-end d (x ∷ []) e = cc
Scheme-end d (x ∷ y ∷ s) e = (
  b':',
  b'/',
  b'/',
  [],
  refl,
  ground (arith, eqb_iff d b':', eqb_iff x b'/', eqb_iff y b'/'),
  λ u. refl,
)

pub split_scheme_lem : (s : Text) → Scheme s (split_scheme s)
unfolding split_scheme
split_scheme_lem [] = tt
split_scheme_lem (d ∷ s) = elim (Bool-cases (at_scheme_end d s)) [
  | inl here ↦ rw here (Scheme-end d s here)
  | inr later ↦ rw later (Scheme-push d s (split_scheme s) later (split_scheme_lem s))
]

split_parts-append :
    (c : ℕ) (a b : Text)
    → has c a ≡ false
    → split_parts (λ d. eqb d c) (a ++ (c ∷ b))
      ≡ (a, (split_parts (λ d. eqb d c) b).0 ∷ (split_parts (λ d. eqb d c) b).1)
unfolding has split_parts
split_parts-append c [] b h = ground arith
split_parts-append c (d ∷ a) b h = ground (arith, split_parts-append c a b)

split_parts-absent : (c : ℕ) (a : Text) → has c a ≡ false → split_parts (λ d. eqb d c) a ≡ (a, [])
unfolding has split_parts
split_parts-absent c [] h = refl
split_parts-absent c (d ∷ a) h = ground (arith, split_parts-absent c a)

pub split-append : (c : ℕ) (a b : Text) → has c a ≡ false → split c (a ++ (c ∷ b)) ≡ a ∷ split c b
unfolding split
split-append c a b h = ap (λ p. p.0 ∷ p.1) (split_parts-append c a b h)

pub split-absent : (c : ℕ) (a : Text) → has c a ≡ false → split c a ≡ a ∷ []
unfolding split
split-absent c a h = ap (λ p. p.0 ∷ p.1) (split_parts-absent c a h)
