-- ===== src/Config/Files.antt =====
-- src/config.rs: which file the configuration is read from, and how. The command line is `args`,
-- with the program's name first; the file system and the YAML parser are parameters.
use cron_manager.Base.{
  ◌≡◌, refl, inl, inr, Bool-cases, Bool, false, ◌||◌, not, Option, none, some, List, [], ◌∷◌, ◌++◌,
  if◌then◌else◌, eqb, is_empty, find, keep, map,
}
use cron_manager.Base.Eq.{list_beq}
use cron_manager.Base.Results.{Result, ok, err, map_err, ◌>>=◌}
use cron_manager.Base.Text.{Text, codes, split, starts_with, strip_prefix, trim, is_whitespace}
use cron_manager.Config.{AppConfig, default_config}
use cron_manager.Error.{CronManagerError, IoKind, invalid_config, jvm_wrapper, io, yaml_parse}

abbrev pub config_flag : Text
config_flag = codes "--config"

-- The path in one argument, with those after it.
abbrev pub flag_value : Text → List Text → Option Text
flag_value arg [] = strip_prefix arg (codes "--config=")
flag_value arg (next ∷ rest) =
    if list_beq arg config_flag then some next else strip_prefix arg (codes "--config=")

abbrev pub or_later {ℓ} : {A : Type ℓ} → Option A → Option A → Option A
or_later (some a) later = some a
or_later none later = later

-- The loop over the arguments after the first.
unfoldable pub flag_path : List Text → Option Text
flag_path [] = none
flag_path (arg ∷ rest) = or_later (flag_value arg rest) (flag_path rest)

abbrev pub after_name : List Text → List Text
after_name [] = []
after_name (name ∷ rest) = rest

abbrev pub flag_paths : Option Text → List Text
flag_paths none = []
flag_paths (some p) = p ∷ []

abbrev pub env_paths : Option Text → List Text
env_paths none = []
env_paths (some p) = if not (is_empty p) then p ∷ [] else []

unfoldable pub config_search_paths : List Text → (Text → Option Text) → List Text
unfolding flag_path
config_search_paths args env =
    flag_paths (flag_path (after_name args))
    ++ (env_paths (env (codes "CRONMANAGER_CONFIG"))
        ++ (codes "./cronmanager.yaml" ∷ codes "./cronmanager.yml" ∷ []))

abbrev pub wrappers : List Text
wrappers = codes "application:" ∷ codes "spring:" ∷ codes "management:" ∷ codes "logging:" ∷ []

abbrev pub is_skipped : Text → Bool
is_skipped [] = false
is_skipped (c ∷ line) = is_whitespace c || eqb c b'#'

abbrev pub wrapper_of : Text → Option Text
wrapper_of line = if is_skipped line then none else find (starts_with line) wrappers

-- The first wrapper of a line. `lines` also drops a `\r` at the end of a line and an empty last line,
-- which have no such prefix.
unfoldable pub find_wrapper : List Text → Option Text
find_wrapper [] = none
find_wrapper (line ∷ rest) = or_later (wrapper_of line) (find_wrapper rest)

abbrev pub reject_with : Text → Option Text → Result {0, 0} Unit CronManagerError
reject_with path none = ok tt
reject_with path (some wrapper) = err (invalid_config path (jvm_wrapper wrapper))

unfoldable pub reject_jvm_wrappers : Text → Text → Result {0, 0} Unit CronManagerError
unfolding find_wrapper
reject_jvm_wrappers body path = reject_with path (find_wrapper (split 10 body))

-- What `allowed_origins` may be in the file.
pub data OneOrMany : Type 0 where
  one : Text → OneOrMany
  many : List Text → OneOrMany

abbrev pub trimmed : List Text → List Text
trimmed parts = keep (λ p. not (is_empty p)) (map trim parts)

unfoldable pub de_origins : OneOrMany → List Text
unfolding split
de_origins (one s) = trimmed (split b',' s)
de_origins (many list) = trimmed list

module _ (exists : Text → Bool) (read_to_string : Text → Result Text IoKind)
    (from_str : Text → Option AppConfig) where
  abbrev pub parsed : Text → Option AppConfig → Result (AppConfig × Option Text) CronManagerError
  parsed path none = err (yaml_parse path)
  parsed path (some cfg) = ok (cfg, some path)

  unfoldable pub load_file : Text → Result (AppConfig × Option Text) CronManagerError
  unfolding reject_jvm_wrappers
  load_file path = map_err io (read_to_string path) >>= λ body.
      reject_jvm_wrappers body path >>= λ _. parsed path (from_str body)

  -- `load_or_default`, over the search paths.
  unfoldable pub load_or_default : List Text → Result (AppConfig × Option Text) CronManagerError
  unfolding load_file
  load_or_default [] = ok (default_config, none)
  load_or_default (path ∷ rest) =
      let later = load_or_default rest in if exists path then load_file path else later

  -- The search stops at the first path that exists, whatever becomes of its file.
  abbrev pub at_first : Option Text → Result (AppConfig × Option Text) CronManagerError
  at_first none = ok (default_config, none)
  at_first (some path) = load_file path

  load_or_default-find : (paths : List Text) → load_or_default paths ≡ at_first (find exists paths)
  unfolding load_or_default
  load_or_default-find [] = refl
  load_or_default-find (path ∷ rest) = elim (Bool-cases (exists path)) [
    | inl there ↦ rw there refl
    | inr missing ↦ rw missing (load_or_default-find rest)
  ]
