-- ===== src/Security/Env.antt =====
-- src/security.rs: the environment variables that a caller may never override.
pub mod Laws
use cron_manager.Base.{ℕ, Bool, true, if◌then◌else◌, List, [], ◌∷◌, any, ◌||◌}
use cron_manager.Base.Text.{Text, codes, to_ascii_uppercase, eq_ignore_ascii_case, starts_with}

abbrev pub dangerous_envs : List Text
dangerous_envs =
    codes "PATH"
    ∷ codes "LD_PRELOAD"
    ∷ codes "LD_LIBRARY_PATH"
    ∷ codes "LD_AUDIT"
    ∷ codes "DYLD_INSERT_LIBRARIES"
    ∷ codes "DYLD_LIBRARY_PATH"
    ∷ codes "DYLD_FALLBACK_LIBRARY_PATH"
    ∷ codes "PYTHONPATH"
    ∷ codes "PYTHONHOME"
    ∷ codes "PYTHONSTARTUP"
    ∷ codes "NODE_OPTIONS"
    ∷ codes "NODE_PATH"
    ∷ codes "RUBYOPT"
    ∷ codes "RUBYLIB"
    ∷ codes "PERL5OPT"
    ∷ codes "PERL5LIB"
    ∷ codes "JAVA_TOOL_OPTIONS"
    ∷ codes "_JAVA_OPTIONS"
    ∷ codes "MallocPreloadClass"
    ∷ []

-- The argument is the upper-cased key.
is_dangerous_upper : Text → Bool
is_dangerous_upper upper =
    if any (λ d. eq_ignore_ascii_case d upper) dangerous_envs
    then true
    else starts_with upper (codes "LD_") || starts_with upper (codes "DYLD_")

unfoldable pub is_dangerous_env : Text → Bool
unfolding is_dangerous_upper
is_dangerous_env key = is_dangerous_upper (to_ascii_uppercase key)
