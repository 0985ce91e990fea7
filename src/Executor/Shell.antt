-- ===== src/Executor/Shell.antt =====
-- src/executor/shell.rs. `ShellWorld` is what one run meets: how each spawn and the wait ended,
-- and what the child wrote.
pub mod Laws
use cron_manager.Base.{
  ℕ, zero, suc, ◌+◌, ◌-◌, Bool, true, false, ◌&&◌, Option, none, some, List, [], ◌∷◌, ◌++◌, any,
  if◌then◌else◌, length, ltb, leb, min, unwrap_or, map,
}
use cron_manager.Base.Int.{ℤ, pos, negsuc}
use cron_manager.Base.Eq.{list_beq, list_eq}
use cron_manager.Base.Map
use cron_manager.Base.Map.{Map}
use cron_manager.Base.Results.{Result, ok, err, ◌>>=◌}
use cron_manager.Base.Text.{Text, codes}
use cron_manager.Base.Bytes.{byte_len, take_bytes}
use cron_manager.Security.Sanitize.{sanitize_for_log, boundary_below}
use cron_manager.Config.{AppConfig}
use cron_manager.Error.{
  CronManagerError, internal, bad_request, io, IoKind, executable_file_busy, other_kind,
  shell_failed, shell_timeout, argv_empty, stdout_not_captured, stderr_not_captured, reading_pipe,
  stopped_by_stop, shell_exit,
}

pub record ShellExecutor : Type 0 where
  pub baseline_env : Map Text Text
  pub app_root : Text
  pub timeout_secs : ℕ
  pub max_output_bytes : ℕ

-- `ShellExecutor::new`.
unfoldable pub new : AppConfig → ShellExecutor
new cfg = record {
  baseline_env = cfg.shell_environment;
  app_root = cfg.app_root_path;
  timeout_secs = cfg.limits.shell_timeout_secs;
  max_output_bytes = cfg.limits.max_response_bytes;
}

pub record ShellAttempt : Type 0 where
  pub exit_code : ℤ
  pub stdout : Text

-- The exit status: its code, unless a signal ended the child.
pub data WaitEnd : Type 0 where
  exited : Option ℤ → WaitEnd
  wait_failed timed_out stopped : WaitEnd

-- What is spawned.
pub record Command : Type 0 where
  pub program : Text
  pub args : List Text
  pub current_dir : Text
  pub env : Map Text Text

-- One run of a child. `pipes` says whether stdout and stderr were captured; the chunks are what
-- the reads return until the end, and `none` is a read that fails.
pub record ChildRun : Type 0 where
  pub pipes : Bool × Bool
  pub wait : WaitEnd
  pub stdout : Option (List (List ℕ))
  pub stderr : Option (List (List ℕ))

pub record ShellWorld : Type 0 where
  -- `none` is a spawn that works.
  pub spawn : Command → ℕ → Option IoKind
  pub run : Command → ChildRun
  pub from_utf8_lossy : List ℕ → Text

-- The two loops that set the child's environment.
unfoldable pub baseline_vars : Map Text Text → List Text → Map Text Text → Map Text Text
baseline_vars baseline [] vars = vars
baseline_vars baseline (name ∷ names) vars =
    baseline_vars baseline names
      (elim (Map.get name baseline) [ none ↦ vars | some v ↦ Map.insert name v vars ])

unfoldable pub override_vars : List Text → List (Text × Text) → Map Text Text → Map Text Text
override_vars allowed [] vars = vars
override_vars allowed ((k, v) ∷ rest) vars =
    override_vars allowed rest
      (if any (λ a. list_beq a k) allowed then Map.insert k v vars else vars)

unfoldable pub child_env : ShellExecutor → List Text → List (Text × Text) → Map Text Text
child_env self allowed overrides =
    override_vars allowed overrides (baseline_vars self.baseline_env allowed [])

-- `for attempt in 0..5`: the rounds left, and the attempt.
unfoldable pub spawn_from : ℕ → ℕ → (ℕ → Option IoKind) → Result (Unit {0}) CronManagerError
spawn_from zero attempt spawn = err (io executable_file_busy)
spawn_from (suc left) attempt spawn =
    let again = spawn_from left (attempt + 1) spawn in
    elim (spawn attempt) [
      | none ↦ ok tt
      | some executable_file_busy ↦ if ltb attempt 4 then again else err (io executable_file_busy)
      | some other_kind ↦ err (io other_kind)
    ]

abbrev pub cut_mark : List ℕ
cut_mark = codes "...\n[output truncated]\n"

abbrev pub take : ℕ → List ℕ → List ℕ
take zero xs = []
take (suc n) [] = []
take (suc n) (x ∷ xs) = x ∷ take n xs

-- The loop of `read_bounded`; the chunks after the cap are drained.
unfoldable pub read_from : ℕ → List ℕ → List (List ℕ) → List ℕ
read_from limit buf [] = buf
read_from limit buf (c ∷ cs) =
    let rest = read_from limit (buf ++ c) cs in
    if ltb limit (length buf + length c)
    then buf ++ (take (limit - length buf) c ++ cut_mark)
    else rest

unfoldable pub read_bounded : ℕ → Option (List (List ℕ)) → Result (List ℕ) CronManagerError
unfolding read_from
read_bounded limit none = err (internal reading_pipe)
read_bounded limit (some chunks) = ok (read_from limit [] chunks)

unfoldable pub truncate : Text → ℕ → Text
unfolding byte_len take_bytes boundary_below
truncate s max =
    if leb (byte_len s) max
    then s
    else take_bytes s (boundary_below s (min max (byte_len s))) ++ codes "…"

abbrev is_success : Option ℤ → Bool
is_success (some (pos zero)) = true
is_success _ = false

abbrev capture : Bool → CronManagerError → Result (Unit {0}) CronManagerError
capture true e = ok tt
capture false e = err e

-- What follows the wait on the child.
unfoldable pub conclude :
    ShellExecutor → ShellWorld → ChildRun → Option ℤ → Result ShellAttempt CronManagerError
conclude self w child status = do
  out ← read_bounded self.max_output_bytes child.stdout
  errs ← read_bounded self.max_output_bytes child.stderr
  if is_success status
      then ok (record { exit_code = unwrap_or (pos 0) status; stdout = w.from_utf8_lossy out })
      else err (
          shell_failed (
            shell_exit (unwrap_or (negsuc 0) status)
              (truncate (sanitize_for_log (w.from_utf8_lossy errs)) 512)))

unfoldable pub await_child :
    ShellExecutor → ShellWorld → ChildRun → Result ShellAttempt CronManagerError
unfolding conclude
await_child self w child = elim child.wait [
  | exited status ↦ conclude self w child status
  | wait_failed ↦ err (io other_kind)
  | timed_out ↦ err (shell_timeout self.timeout_secs)
  | stopped ↦ err (shell_failed stopped_by_stop)
]

unfoldable pub run_command :
    ShellExecutor → ShellWorld → Command → Result ShellAttempt CronManagerError
unfolding await_child
run_command self w cmd = spawn_from 5 0 (w.spawn cmd) >>= λ _.
    capture (w.run cmd).pipes.0 (internal stdout_not_captured) >>= λ _.
    capture (w.run cmd).pipes.1 (internal stderr_not_captured) >>= λ _.
    await_child self w (w.run cmd)

unfoldable pub execute :
    ShellExecutor
    → ShellWorld
    → List Text
    → List Text
    → List (Text × Text)
    → Result ShellAttempt CronManagerError
unfolding run_command child_env
execute self w [] allowed_envs overrides = err (bad_request argv_empty)
execute self w (program ∷ args) allowed_envs overrides = run_command self w (record {
  program = program;
  args = args;
  current_dir = self.app_root;
  env = child_env self allowed_envs overrides;
})
