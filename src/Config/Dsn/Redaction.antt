-- ===== src/Config/Dsn/Redaction.antt =====
-- The log line of src/main.rs that names the DSN.
use mathlib.Core.List.{append_assoc}
use cron_manager.Base.{
  ℕ, ◌≡◌, refl, sym, ap, ◌∙◌, inl, inr, Bool-cases, false, Option, none, some, [], ◌∷◌, ◌++◌, arith,
}
use cron_manager.Base.Splits.{
  has, has-append, Scheme, split_once, split_once_lem, split_once-append, split_scheme,
  split_scheme_lem, rsplit_once_lem, colon_slashes, at_scheme_end, push_head,
}
use cron_manager.Base.Text.{Text, codes, rsplit_once, strip_prefix}
use cron_manager.Config.Dsn.{
  percent_encode, before_from, user_of, at_last, new_authority, splice_after, splice_at,
  splice_password, redact_after, redact_stripped, redact_password, jdbc,
}
use cron_manager.Config.Dsn.Password.{has-percent_encode}
use cron_manager.Config.Dsn.Splice.{
  Dsn, read_dsn, read_at, read_after, read_login, cut_lem, login_lem, user_lem, new_authority_lem,
}

-- The DSN with three stars for the password.
abbrev pub log_line : Dsn → Text
log_line d = d.scheme ++ (d.user ++ (codes ":***" ++ (b'@' ∷ (d.host ++ d.rest))))

-- A scheme ends in `://`.
abbrev Ends : Option (Text × Text) → Type 0
Ends none = Unit
Ends (some (h, t)) = (v : Text) × (h ≡ v ++ colon_slashes)

Ends-push : (d : ℕ) (o : Option (Text × Text)) → Ends o → Ends (push_head d o)
Ends-push d none h = h
Ends-push d (some (a, t)) (v, e) = (d ∷ v, ap (◌∷◌ d) e)

split_scheme-Ends : (s : Text) → Ends (split_scheme s)
unfolding split_scheme
split_scheme-Ends [] = tt
split_scheme-Ends (d ∷ s) = elim (Bool-cases (at_scheme_end d s)) [
  | inl here ↦ rw here ([], refl)
  | inr later ↦ rw later (Ends-push d (split_scheme s) (split_scheme-Ends s))
]

not_jdbc :
    (v u : Text)
    → strip_prefix (v ++ colon_slashes) jdbc ≡ none
    → strip_prefix ((v ++ colon_slashes) ++ u) jdbc ≡ none
unfolding strip_prefix
not_jdbc [] u h = refl
not_jdbc (a ∷ []) u h = ground arith
not_jdbc (a ∷ b ∷ []) u h = ground arith
not_jdbc (a ∷ b ∷ c ∷ []) u h = ground arith
not_jdbc (a ∷ b ∷ c ∷ d ∷ []) u h = ground arith
not_jdbc (a ∷ b ∷ c ∷ d ∷ e ∷ v) u h = ground arith

no_at :
    (user encoded : Text)
    → has b'@' user ≡ false
    → has b'@' encoded ≡ false
    → has b'@' (user ++ (b':' ∷ encoded)) ≡ false
unfolding has
no_at user encoded ha he = rw (has-append b'@' user (b':' ∷ encoded), ha, he) refl

-- The user and the host that `splice_password` and the log line keep.
redact_new_authority :
    (scheme user encoded host rest : Text)
    → has b'@' encoded ≡ false
    → has b'@' user ≡ false
    → has b':' user ≡ false
    → redact_after scheme
        (new_authority user encoded host ++ rest)
        (split_once b'@' (new_authority user encoded host ++ rest))
      ≡ some (scheme ++ (user ++ (codes ":***" ++ (b'@' ∷ (host ++ rest)))))
redact_new_authority scheme user encoded host rest he ha hc =
    rw
      (
        new_authority_lem user encoded host,
        append_assoc (user ++ (b':' ∷ encoded)) (b'@' ∷ host) rest,
        split_once-append b'@' (user ++ (b':' ∷ encoded)) (host ++ rest) (no_at user encoded ha he),
        split_once-append b':' user encoded hc,
      )
      refl

redact_splice_after :
    (scheme after encoded : Text)
    → has b'@' encoded ≡ false
    → has b'@' (read_after scheme after).user ≡ false
    → redact_after scheme
        (splice_after encoded after)
        (split_once b'@' (splice_after encoded after))
      ≡ some (log_line (read_after scheme after))
redact_splice_after scheme after encoded he hu =
    redact_new_authority scheme (user_of login.0 (split_once b':' login.0)) encoded login.1 cut.1 he
      (sym (ap (has b'@') user.2) ∙ hu) user.1
    ∙ ap (λ u. some (scheme ++ (u ++ (codes ":***" ++ (b'@' ∷ (login.1 ++ cut.1)))))) (sym user.2)
  where
    cut : Text × Text
    cut = before_from b'/' after (split_once b'/' after)

    login : Text × Text
    login = at_last cut.0 (rsplit_once b'@' cut.0)

    user :
        (has b'/' (user_of login.0 (split_once b':' login.0)) ≡ false)
        × (has b':' (user_of login.0 (split_once b':' login.0)) ≡ false)
        × ((read_login login.0 (split_once b':' login.0)).0
            ≡ user_of login.0 (split_once b':' login.0))
    user =
        user_lem login.0 (split_once b':' login.0) (split_once_lem b':' login.0)
          (login_lem cut.0 (rsplit_once b'@' cut.0) (rsplit_once_lem b'@' cut.0)
            (cut_lem after (split_once b'/' after) (split_once_lem b'/' after)).0).0

redact_splice_at :
    (url password : Text) (d : Dsn) (o : Option (Text × Text))
    → read_at o ≡ some d
    → has b'@' d.user ≡ false
    → strip_prefix d.scheme jdbc ≡ none
    → Scheme url o
    → Ends o
    → (let spliced = splice_at url (percent_encode password) o in
        redact_stripped spliced (strip_prefix spliced jdbc))
      ≡ log_line d
redact_splice_at url password d none e hu hs h ends = cc
redact_splice_at url password d (some (scheme, after)) e hu hs
      (x, y, z, w, is_scheme, is_url, again) (v, ends) =
    rw
      (
        not_stripped,
        again (splice_after (percent_encode password) after),
        redact_splice_after scheme after (percent_encode password)
            (has-percent_encode b'@' password refl) (ap (λ d. has b'@' d.user) same ∙ hu),
      )
      (ap log_line same)
  where
    same : read_after scheme after ≡ d
    same = cc

    not_stripped : strip_prefix (scheme ++ splice_after (percent_encode password) after) jdbc ≡ none
    not_stripped =
        ap (λ s. strip_prefix (s ++ splice_after (percent_encode password) after) jdbc) ends
        ∙ not_jdbc v (splice_after (percent_encode password) after) (
            sym (ap (λ s. strip_prefix s jdbc) ends)
            ∙ ap (λ d. strip_prefix d.scheme jdbc) same
            ∙ hs)

-- The line that names the DSN with the password in it shows three stars in the password's place and
-- the rest of the DSN as it was: it is the same line for every password from the environment and
-- for every password that stood in the DSN before. The text is a DSN with a scheme that does not
-- begin with `jdbc:` and a user without `@`.
pub redact_password-splice_password :
    (url password : Text) (d : Dsn)
    → read_dsn url ≡ some d
    → has b'@' d.user ≡ false
    → strip_prefix d.scheme jdbc ≡ none
    → redact_password (splice_password url password) ≡ log_line d
unfolding read_dsn splice_password redact_password
redact_password-splice_password url password d e hu hs =
    redact_splice_at url password d (split_scheme url) e hu hs (split_scheme_lem url)
      (split_scheme-Ends url)
