-- ===== src/Config/Dsn/Splice.antt =====
-- A DSN read back after src/config.rs has put a password into it.
use mathlib.Core.List.{append_assoc, append-nil}
use cron_manager.Base.{
  ℕ, ◌≡◌, refl, sym, ap, ◌∙◌, ◌⊎◌, inl, inr, false, ◌||◌, Option, none, some, List, [], ◌∷◌, ◌++◌,
  arith, All,
}
use cron_manager.Base.Bytes.{as_bytes}
use cron_manager.Base.Splits.{
  has, has-append, Parts, RParts, split_once, split_once_lem, split_once-append, split_once-absent,
  rsplit_once_lem, rsplit_once-append, split_scheme, split_scheme_lem, Scheme,
}
use cron_manager.Base.Text.{Text, rsplit_once}
use cron_manager.Config.Dsn.{
  percent_encode, before_from, user_of, at_last, new_authority, splice_after, splice_at,
  splice_password,
}
use cron_manager.Config.Dsn.Password.{
  IsChar, percent_decode, decode-percent_encode, has-percent_encode,
}

-- A DSN as a client reads it. The password is bytes.
pub record Dsn : Type 0 where
  pub scheme : Text
  pub user : Text
  pub password : Option (List ℕ)
  pub host : Text
  pub rest : Text

-- The user and the password, of the text before the `@`.
abbrev pub read_login : Text → Option (Text × Text) → Text × Option (List ℕ)
read_login userinfo none = (userinfo, none)
read_login userinfo (some (user, password)) = (user, some (percent_decode password))

abbrev pub read_after : Text → Text → Dsn
read_after scheme after =
    let cut = before_from b'/' after (split_once b'/' after) in
    let login = at_last cut.0 (rsplit_once b'@' cut.0) in
    let who = read_login login.0 (split_once b':' login.0) in
    record { scheme = scheme; user = who.0; password = who.1; host = login.1; rest = cut.1 }

abbrev pub read_at : Option (Text × Text) → Option Dsn
read_at none = none
read_at (some (scheme, after)) = some (read_after scheme after)

unfoldable pub read_dsn : Text → Option Dsn
read_dsn url = read_at (split_scheme url)

abbrev pub with_password : List ℕ → Option Dsn → Option Dsn
with_password p none = none
with_password p (some d) = some (record d { password = some p })

-- What follows the authority.
abbrev IsRest : Text → Type 0
IsRest rest = (rest ≡ []) ⊎ ((t : Text) × (rest ≡ b'/' ∷ t))

cut_again :
    (a rest : Text)
    → has b'/' a ≡ false
    → IsRest rest
    → before_from b'/' (a ++ rest) (split_once b'/' (a ++ rest)) ≡ (a, rest)
cut_again a rest h (inl none_left) = rw (none_left, append-nil a, split_once-absent b'/' a h) refl
cut_again a rest h (inr (t, starts)) = rw (starts, split_once-append b'/' a t h) refl

pub cut_lem :
    (after : Text) (o : Option (Text × Text))
    → Parts b'/' after o
    → (has b'/' (before_from b'/' after o).0 ≡ false) × IsRest (before_from b'/' after o).1
cut_lem after none h = (h, inl refl)
cut_lem after (some (a, t)) (is_after, h) = (h, inr (t, refl))

-- A character that is not in the text put together is in neither part.
has-parts :
    (c d : ℕ) (s a b : Text)
    → s ≡ a ++ (d ∷ b)
    → has c s ≡ false
    → (has c a ≡ false) × (has c b ≡ false)
unfolding has
has-parts c d s a b e h = (ground (arith, all_false), ground (arith, all_false))
  where
    all_false : (has c a || has c (d ∷ b)) ≡ false
    all_false = sym (has-append c a (d ∷ b)) ∙ sym (ap (has c) e) ∙ h

pub login_lem :
    (a : Text) (o : Option (Text × Text))
    → RParts b'@' a o
    → has b'/' a ≡ false
    → (has b'/' (at_last a o).0 ≡ false)
      × (has b'/' (at_last a o).1 ≡ false)
      × (has b'@' (at_last a o).1 ≡ false)
login_lem a none absent h = (unfold has in refl, h, absent)
login_lem a (some (u, v)) (is_a, absent) h =
    ((has-parts b'/' b'@' a u v is_a h).0, (has-parts b'/' b'@' a u v is_a h).1, absent)

pub user_lem :
    (u : Text) (o : Option (Text × Text))
    → Parts b':' u o
    → has b'/' u ≡ false
    → (has b'/' (user_of u o) ≡ false)
      × (has b':' (user_of u o) ≡ false)
      × ((read_login u o).0 ≡ user_of u o)
user_lem u none absent h = (h, absent, refl)
user_lem u (some (a, b)) (is_u, absent) h = ((has-parts b'/' b':' u a b is_u h).0, absent, refl)

-- The authority has the same shape with and without a user.
pub new_authority_lem :
    (user encoded host : Text)
    → new_authority user encoded host ≡ (user ++ (b':' ∷ encoded)) ++ (b'@' ∷ host)
new_authority_lem [] encoded host = refl
new_authority_lem (c ∷ user) encoded host =
    sym (append_assoc (c ∷ user) (b':' ∷ encoded) (b'@' ∷ host))

no_slash :
    (user encoded host : Text)
    → has b'/' user ≡ false
    → has b'/' encoded ≡ false
    → has b'/' host ≡ false
    → has b'/' ((user ++ (b':' ∷ encoded)) ++ (b'@' ∷ host)) ≡ false
unfolding has
no_slash user encoded host hu he hh =
    rw
      (
        has-append b'/' (user ++ (b':' ∷ encoded)) (b'@' ∷ host),
        has-append b'/' user (b':' ∷ encoded),
        hu,
        he,
        hh,
      )
      refl

read_new_authority :
    (scheme user encoded host rest : Text)
    → has b'/' encoded ≡ false
    → has b'/' user ≡ false
    → has b':' user ≡ false
    → has b'/' host ≡ false
    → has b'@' host ≡ false
    → IsRest rest
    → read_after scheme (new_authority user encoded host ++ rest) ≡ record {
      scheme = scheme;
      user = user;
      password = some (percent_decode encoded);
      host = host;
      rest = rest;
    }
read_new_authority scheme user encoded host rest he hu hc hh ha hr =
    rw
      (
        new_authority_lem user encoded host,
        cut_again ((user ++ (b':' ∷ encoded)) ++ (b'@' ∷ host)) rest
            (no_slash user encoded host hu he hh) hr,
        rsplit_once-append b'@' (user ++ (b':' ∷ encoded)) host ha,
        split_once-append b':' user encoded hc,
      )
      refl

read_splice_after :
    (scheme after encoded : Text)
    → has b'/' encoded ≡ false
    → read_after scheme (splice_after encoded after)
      ≡ record (read_after scheme after) { password = some (percent_decode encoded) }
read_splice_after scheme after encoded he =
    read_new_authority scheme (user_of login.0 (split_once b':' login.0)) encoded login.1 cut.1 he
      user.0 user.1 parts.1 parts.2 whole.1
    ∙ ap
        (λ u. record {
          scheme = scheme;
          user = u;
          password = some (percent_decode encoded);
          host = login.1;
          rest = cut.1;
        })
        (sym user.2)
  where
    cut : Text × Text
    cut = before_from b'/' after (split_once b'/' after)

    whole : (has b'/' cut.0 ≡ false) × IsRest cut.1
    whole = cut_lem after (split_once b'/' after) (split_once_lem b'/' after)

    login : Text × Text
    login = at_last cut.0 (rsplit_once b'@' cut.0)

    parts : (has b'/' login.0 ≡ false) × (has b'/' login.1 ≡ false) × (has b'@' login.1 ≡ false)
    parts = login_lem cut.0 (rsplit_once b'@' cut.0) (rsplit_once_lem b'@' cut.0) whole.0

    user :
        (has b'/' (user_of login.0 (split_once b':' login.0)) ≡ false)
        × (has b':' (user_of login.0 (split_once b':' login.0)) ≡ false)
        × ((read_login login.0 (split_once b':' login.0)).0
            ≡ user_of login.0 (split_once b':' login.0))
    user = user_lem login.0 (split_once b':' login.0) (split_once_lem b':' login.0) parts.0

read_splice_at :
    (url password : Text) (o : Option (Text × Text))
    → All IsChar password
    → split_scheme url ≡ o
    → Scheme url o
    → read_at (split_scheme (splice_at url (percent_encode password) o))
      ≡ with_password (as_bytes password) (read_at o)
read_splice_at url password none hp e h = ap read_at e
read_splice_at url password (some (scheme, after)) hp e (x, y, z, w, is_scheme, is_url, again) =
    ap read_at (again (splice_after (percent_encode password) after))
    ∙ ap some (
        read_splice_after scheme after (percent_encode password)
          (has-percent_encode b'/' password refl))
    ∙ ap (λ p. some (record (read_after scheme after) { password = some p }))
        (decode-percent_encode password hp)

-- A DSN that the password is put into reads back as the DSN it was, with its scheme, its user, its
-- host and its path, and with exactly the bytes of the password, whatever characters those are and
-- whatever password the DSN had before; a text without a scheme reads as no DSN before and after.
-- The password is of Unicode code points.
pub read_dsn-splice_password :
    (url password : Text)
    → All IsChar password
    → read_dsn (splice_password url password) ≡ with_password (as_bytes password) (read_dsn url)
unfolding read_dsn splice_password
read_dsn-splice_password url password hp =
    read_splice_at url password (split_scheme url) hp refl (split_scheme_lem url)
