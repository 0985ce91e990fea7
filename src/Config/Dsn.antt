-- ===== src/Config/Dsn.antt =====
-- src/config.rs: the DSN of the database, with the password from the environment. src/main.rs:
-- `redact_password`, for the log line that names it. The slices are at ASCII characters.
pub mod Password
pub mod Splice
pub mod Redaction
use cron_manager.Base.{
  ℕ, ◌+◌, ◌-◌, ◌/◌, ◌%◌, Bool, true, false, ◌||◌, Option, none, some, List, [], ◌∷◌, ◌++◌,
  if◌then◌else◌, ltb, is_empty, map,
}
use cron_manager.Base.Bytes.{as_bytes}
use cron_manager.Base.Names.{one_of}
use cron_manager.Base.Results.{Result, ok, err}
use cron_manager.Base.Splits.{split_once, split_scheme}
use cron_manager.Base.Text.{Text, codes, is_ascii_alphanumeric, rsplit_once, strip_prefix}
use cron_manager.Config.{AppConfig, DatabaseCfg}
use cron_manager.Error.{CronManagerError, internal, database_env_unset}
use cron_manager.Base.{eqb}

-- A digit of `{:02X}`.
abbrev pub upper_hex : ℕ → ℕ
upper_hex n = if ltb n 10 then b'0' + n else b'A' + (n - 10)

abbrev pub is_unreserved : ℕ → Bool
is_unreserved b = is_ascii_alphanumeric b || eqb b b'-' || eqb b b'.' || eqb b b'_' || eqb b b'~'

-- The loop over the bytes.
unfoldable pub encode_bytes : List ℕ → Text
encode_bytes [] = []
encode_bytes (b ∷ bs) =
    if is_unreserved b
    then b ∷ encode_bytes bs
    else b'%' ∷ upper_hex (b / 16) ∷ upper_hex (b % 16) ∷ encode_bytes bs

unfoldable pub percent_encode : Text → Text
percent_encode s = encode_bytes (as_bytes s)

-- The texts before and from the first `c` on.
abbrev pub before_from : ℕ → Text → Option (Text × Text) → Text × Text
before_from c s none = (s, [])
before_from c s (some (h, t)) = (h, c ∷ t)

abbrev pub user_of : Text → Option (Text × Text) → Text
user_of userinfo none = userinfo
user_of userinfo (some (h, t)) = h

-- `(userinfo, host)`.
abbrev pub at_last : Text → Option (Text × Text) → Text × Text
at_last authority none = ([], authority)
at_last authority (some (h, t)) = (h, t)

abbrev pub new_authority : Text → Text → Text → Text
new_authority user encoded host =
    if is_empty user
    then b':' ∷ (encoded ++ (b'@' ∷ host))
    else user ++ (b':' ∷ (encoded ++ (b'@' ∷ host)))

abbrev pub splice_after : Text → Text → Text
splice_after encoded after =
    let cut = before_from b'/' after (split_once b'/' after) in
    let login = at_last cut.0 (rsplit_once b'@' cut.0) in
    new_authority (user_of login.0 (split_once b':' login.0)) encoded login.1 ++ cut.1

abbrev pub splice_at : Text → Text → Option (Text × Text) → Text
splice_at url encoded none = url
splice_at url encoded (some (scheme, after)) = scheme ++ splice_after encoded after

unfoldable pub splice_password : Text → Text → Text
splice_password url password = splice_at url (percent_encode password) (split_scheme url)

abbrev pub dsn_of : DatabaseCfg → Option Text → Result (Option Text) CronManagerError
dsn_of db none = err (internal (database_env_unset db.password_env))
dsn_of db (some password) = ok (some (splice_password db.url password))

unfoldable pub database_dsn :
    (Text → Option Text) → AppConfig → Result (Option Text) CronManagerError
database_dsn env cfg = elim cfg.database [
  | none ↦ ok none
  | some db ↦ dsn_of db (env db.password_env)
]

-- `redact_password`.
abbrev pub redact_after : Text → Text → Option (Text × Text) → Option Text
redact_after scheme after none = none
redact_after scheme after (some (userinfo, tail)) =
    some
      (scheme ++ (user_of userinfo (split_once b':' userinfo) ++ (codes ":***" ++ (b'@' ∷ tail))))

abbrev pub redact_at : Option (Text × Text) → Option Text
redact_at none = none
redact_at (some (scheme, after)) = redact_after scheme after (split_once b'@' after)

abbrev pub prefixed : Text → Text → Option Text → Text
prefixed dsn pre none = dsn
prefixed dsn pre (some redacted) = pre ++ redacted

abbrev pub jdbc : Text
jdbc = codes "jdbc:"

abbrev pub redact_stripped : Text → Option Text → Text
redact_stripped dsn none = prefixed dsn [] (redact_at (split_scheme dsn))
redact_stripped dsn (some rest) = prefixed dsn jdbc (redact_at (split_scheme rest))

unfoldable pub redact_password : Text → Text
redact_password dsn = redact_stripped dsn (strip_prefix dsn jdbc)
