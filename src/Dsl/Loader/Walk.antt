-- ===== src/Dsl/Loader/Walk.antt =====
-- src/dsl/loader.rs: the walk over the DSL directory. A directory holds its entries in the order of
-- `paths.sort()`; the wall-clock limit of `load_all_bounded` is an input.
pub mod Laws
pub mod Accepted
use cron_manager.Base.{
  ℕ, ◌+◌, Bool, true, false, Option, none, some, List, [], ◌∷◌, ◌++◌, if◌then◌else◌, ltb,
}
use cron_manager.Base.Map.{Map}
use cron_manager.Base.Results.{Result, ok, err, ◌>>=◌}
use cron_manager.Base.Text.{Text, codes, join}
use cron_manager.Error.{
  CronManagerError, invalid_job_definition, dev_fixture_refused, file_too_large, io, other_kind,
  yaml_parse, internal, load_timed_out, load_panicked,
}
use cron_manager.EnvSafety.{dev_fixture_pattern, DevFixtureAction, ignore, warn, refuse}
use cron_manager.Dsl.{JobKey, JobSpec, LoadedJob}
use cron_manager.Dsl.Loader.Raw.{External, LoadPolicy, RawJob, permissive}
use cron_manager.Dsl.Loader.Spec.{into_spec}
use cron_manager.Dsl.Loader.Group.{FilePath, group_from_path, is_yaml}

-- What the file system answers about one file: `none` is an I/O error.
pub record FileData : Type 0 where
  pub len : Option ℕ
  pub body : Option Text

mutual
  -- An entry of a directory, by its name.
  pub data Node : Type 0 where
    file : Text → FileData → Node
    dir : Text → Nodes → Node
    -- A directory that `read_dir` refuses.
    unreadable : Text → Node

  pub data Nodes : Type 0 where
    nil : Nodes
    cons : Node → Nodes → Nodes

-- The walk's three accumulators.
pub record Walked : Type 0 where
  pub out : List LoadedJob
  pub yaml_files_seen : ℕ
  pub files_failed : ℕ

abbrev start : Walked
start = record { out = []; yaml_files_seen = 0; files_failed = 0 }

abbrev pub ok_or {ℓ} : {A : Type ℓ} → Option A → CronManagerError → Result A CronManagerError
ok_or none e = err e
ok_or (some a) e = ok a

module _ (x : External) (root : Text) (policy : LoadPolicy) where
  -- `path.display()` of a path below the root.
  abbrev pub display : FilePath → Text
  display path = join (codes "/") (root ∷ path)

  -- The loop over the jobs of one file; the first that fails ends it.
  unfoldable pub jobs_of : Text → Text → Map Text RawJob → Result (List LoadedJob) CronManagerError
  jobs_of group source [] = ok []
  jobs_of group source ((name, raw) ∷ rest) = do
    spec ← into_spec x policy source (record { group = group; name = name }) raw
    more ← jobs_of group source rest
    ok (record { spec = spec; source_path = source } ∷ more)

  unfoldable pub load_file_with_policy :
      FilePath → FileData → Result (List LoadedJob) CronManagerError
  load_file_with_policy path data' = do
    len ← ok_or data'.len (io other_kind)
    if ltb policy.max_file_bytes len
        then err (invalid_job_definition (display path) (file_too_large len policy.max_file_bytes))
        else ok_or data'.body (io other_kind) >>= λ body.
            ok_or (x.parse_yaml body) (yaml_parse (display path)) >>= λ raw.
            jobs_of (group_from_path path) (display path) raw

  -- The dev-fixture gate on one file.
  unfoldable pub fixture_gate : FilePath → Result (Unit {0}) CronManagerError
  fixture_gate path = elim (dev_fixture_pattern (display path)) [
    | none ↦ ok tt
    | some pattern' ↦ elim policy.dev_fixture_action [
      | ignore ↦ ok tt
      | warn ↦ ok tt
      | refuse ↦ err (invalid_job_definition (display path) (dev_fixture_refused pattern'))
    ]
  ]

  abbrev after_file : Walked → Result (List LoadedJob) CronManagerError → Walked
  after_file w (ok loaded) = record w {
    out = w.out ++ loaded;
    yaml_files_seen = w.yaml_files_seen + 1;
  }
  after_file w (err e) = record w {
    yaml_files_seen = w.yaml_files_seen + 1;
    files_failed = w.files_failed + 1;
  }

  unfoldable pub visit_file : FilePath → FileData → Walked → Result Walked CronManagerError
  visit_file path data' w =
      if is_yaml path
      then (fixture_gate path >>= λ _. ok (after_file w (load_file_with_policy path data')))
      else ok w

  unfoldable mutual
    pub walk : FilePath → Nodes → Walked → Result Walked CronManagerError
    walk here nil w = ok w
    walk here (cons n ns) w = walk_entry here n w >>= λ w'. walk here ns w'

    pub walk_entry : FilePath → Node → Walked → Result Walked CronManagerError
    walk_entry here (file name data') w = visit_file (here ++ name ∷ []) data' w
    walk_entry here (dir name ns) w = walk (here ++ name ∷ []) ns w
    walk_entry here (unreadable name) w = err (io other_kind)

  -- `load_all_with_policy`; `none` is a root that does not exist.
  unfoldable pub load_all_with_policy : Option Node → Result (List LoadedJob) CronManagerError
  load_all_with_policy none = ok []
  load_all_with_policy (some (dir _ ns)) = walk [] ns start >>= λ w. ok w.out
  load_all_with_policy (some (file _ _)) = err (io other_kind)
  load_all_with_policy (some (unreadable _)) = err (io other_kind)

-- How the blocking task of `load_all_bounded` ended.
pub data LoadEnd : Type 0 where
  in_time panicked timed_out : LoadEnd

unfoldable pub load_all_bounded :
    External
    → Text
    → LoadPolicy
    → ℕ
    → LoadEnd
    → Option Node
    → Result (List LoadedJob) CronManagerError
unfolding load_all_with_policy
load_all_bounded x root policy secs in_time tree = load_all_with_policy x root policy tree
load_all_bounded x root policy secs panicked tree = err (internal load_panicked)
load_all_bounded x root policy secs timed_out tree = err (internal (load_timed_out secs))

-- The entry points with the permissive policy.
unfoldable pub load_all : External → Text → Option Node → Result (List LoadedJob) CronManagerError
unfolding load_all_with_policy
load_all x root tree = load_all_with_policy x root permissive tree

unfoldable pub load_file :
    External → Text → FilePath → FileData → Result (List LoadedJob) CronManagerError
unfolding load_file_with_policy
load_file x root path data' = load_file_with_policy x root permissive path data'
