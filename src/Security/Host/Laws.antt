-- ===== src/Security/Host/Laws.antt =====
-- What a usable entry looks like, and that normalising it again changes nothing.
use cron_manager.Base.{
  ℕ, ◌≡◌, refl, sym, ◌∙◌, ap, ap₂, Bool, true, not, Option, none, some, [], ◌∷◌, all, arith,
  is_empty, ◌≢◌,
}
use cron_manager.Base.Text.{
  Text, trim, trim_start_by, trim_end_by, to_ascii_lowercase, is_whitespace, ascii_lower,
}
use cron_manager.Security.Ip.{IpAddr}
use cron_manager.Security.Host.{is_host_char, is_dot, check_host, normalize_allowed_host}

trim_start_of_none :
    (p : ℕ → Bool) (s : Text) → all (λ c. not (p c)) s ≡ true → trim_start_by p s ≡ s
unfolding trim_start_by
trim_start_of_none p [] h = refl
trim_start_of_none p (c ∷ s) h = ground arith

trim_end_of_none : (p : ℕ → Bool) (s : Text) → all (λ c. not (p c)) s ≡ true → trim_end_by p s ≡ s
unfolding trim_end_by
trim_end_of_none p [] h = refl
trim_end_of_none p (c ∷ s) h = ground (arith, trim_end_of_none p s)

pub trim_end_idem : (p : ℕ → Bool) (s : Text) → trim_end_by p (trim_end_by p s) ≡ trim_end_by p s
unfolding trim_end_by
trim_end_idem p [] = refl
trim_end_idem p (c ∷ s) = ground (arith, trim_end_idem p s)

host_char_solid : (c : ℕ) → is_host_char c ≡ true → not (is_whitespace c) ≡ true
unfolding is_whitespace
host_char_solid c h = ground arith

all_solid : (s : Text) → all is_host_char s ≡ true → all (λ c. not (is_whitespace c)) s ≡ true
all_solid [] h = refl
all_solid (c ∷ s) h = ground (arith, all_solid s, host_char_solid c)

trim_of_host : (s : Text) → all is_host_char s ≡ true → trim s ≡ s
unfolding trim
trim_of_host s h =
    rw (trim_start_of_none is_whitespace s (all_solid s h))
      (trim_end_of_none is_whitespace s (all_solid s h))

lower_idem : (s : Text) → to_ascii_lowercase (to_ascii_lowercase s) ≡ to_ascii_lowercase s
unfolding to_ascii_lowercase
lower_idem [] = refl
lower_idem (c ∷ s) =
    ap₂ ◌∷◌ (let e : ascii_lower (ascii_lower c) ≡ ascii_lower c = ground arith in e) (lower_idem s)

is_dot-lower : (c : ℕ) → is_dot (ascii_lower c) ≡ is_dot c
is_dot-lower c = ground arith

is_empty-lower : (s : Text) → is_empty (to_ascii_lowercase s) ≡ is_empty s
unfolding to_ascii_lowercase
is_empty-lower [] = refl
is_empty-lower (c ∷ s) = refl

trim_end-lower :
    (s : Text)
    → trim_end_by is_dot (to_ascii_lowercase s) ≡ to_ascii_lowercase (trim_end_by is_dot s)
unfolding trim_end_by to_ascii_lowercase
trim_end-lower [] = refl
trim_end-lower (c ∷ s) =
    ground (arith, trim_end-lower s, is_dot-lower c, is_empty-lower (trim_end_by is_dot s))

module _ (parse_ip : Text → Option IpAddr) where
  check_host-some :
      (x h : Text)
      → check_host parse_ip x ≡ some h
      → (x ≡ h) × (h ≢ []) × (parse_ip h ≡ none) × (all is_host_char h ≡ true)
  unfolding check_host
  check_host-some [] h e = ground arith
  check_host-some (c ∷ x) h e = ground arith

  -- A usable entry is not empty, is no IP literal, is made of the permitted characters, and is in
  -- normal form: normalising it again gives the same host.
  pub normalize_allowed_host-some :
      (entry h : Text)
      → normalize_allowed_host parse_ip entry ≡ some h
      → (h ≢ [])
        × (parse_ip h ≡ none)
        × (all is_host_char h ≡ true)
        × (normalize_allowed_host parse_ip h ≡ some h)
  unfolding normalize_allowed_host
  normalize_allowed_host-some entry h e =
      let t = trim_end_by is_dot (trim entry) in
      let (same, filled, named, plain) = check_host-some (to_ascii_lowercase t) h e in
      let dots : trim_end_by is_dot h ≡ h =
        ap (trim_end_by is_dot) (sym same)
        ∙ trim_end-lower t
        ∙ ap to_ascii_lowercase (trim_end_idem is_dot (trim entry))
        ∙ same in
      let low : to_ascii_lowercase h ≡ h = ap to_ascii_lowercase (sym same) ∙ lower_idem t ∙ same in
      let back : check_host parse_ip h ≡ some h = ap (check_host parse_ip) (sym same) ∙ e in
      (filled, named, plain, rw (trim_of_host h plain, dots, low) back)
