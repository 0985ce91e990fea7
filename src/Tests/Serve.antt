-- ===== src/Tests/Serve.antt =====
-- Tests of the router.
use cron_manager.Base.{ℕ, ◌-◌, ◌≤◌, ◌≡◌, ◌↔◌, ◌⊎◌, refl, some, List, [], ◌∷◌, arith, length}
use cron_manager.Base.Eq.{list_eq, nat_eq}
use cron_manager.Base.Int.{pos}
use cron_manager.Base.Map.{get, insert}
use cron_manager.Base.Results.{ok, err}
use cron_manager.Base.Text.{Text, codes}
use cron_manager.Dsl.Loader.Walk.{in_time, dir, load_all_with_policy}
use cron_manager.Dsl.{LoadedJob}
use cron_manager.EnvSafety.{production}
use cron_manager.Error.{CronManagerError}
use cron_manager.Scheduler.{new, register, reload_from}
use cron_manager.Router.Reload.{admit, max_entries}
use cron_manager.Router.Reload.Bound.{length-admit}
use cron_manager.Router.Reload.Throttle.{admit_all, admit_twice}
use cron_manager.Router.Auth.{Tokens, admin_gate}
use cron_manager.Router.Auth.Scope.{admin_gate_iff, Passes}
use cron_manager.Router.Handlers.{execute_job, reload_jobs, policy_of}
use cron_manager.Router.Handlers.Laws.{Explained, execute_job_lem, reload_jobs_lem}
use cron_manager.Tests.Data.{bundle, ping_spec, config, ext, tree}

abbrev ops : Text
ops = codes "ops"

length-admit_example : length (admit 0 ops 60 []).1 ≤ max_entries
length-admit_example = length-admit 0 ops 60 [] (omega arith)

abbrev calls : List (ℕ × Text)
calls = (10_000_000_000, codes "infra") ∷ []

-- Twenty seconds later, with a reload of another group in between.
admit_twice_example :
    (admit 20_000_000_000 ops 60 (admit_all 60 calls (admit 0 ops 60 []).1)
      ≡ (err (60 - 20), admit_all 60 calls (admit 0 ops 60 []).1))
    × (1 ≤ 60 - 20)
    × (60 - 20 ≤ 60)
unfolding admit get insert
admit_twice_example =
    admit_twice 0 20_000_000_000 ops 60 [] calls (omega arith) (omega arith) refl (omega arith, tt)
      (omega arith) (omega arith)

abbrev tokens : Tokens
tokens = record {
  admin_token = some (codes "master");
  per_group_tokens = (ops, codes "s3cret") ∷ [];
}

abbrev path : Text
path = codes "/stop/ops/ping"

admin_gate_iff_example :
    (admin_gate tokens (some (codes "Bearer s3cret")) path ≡ ok tt)
    ↔ Passes tokens (some (codes "Bearer s3cret")) path (some (codes "master"))
admin_gate_iff_example = admin_gate_iff tokens (some (codes "Bearer s3cret")) path

execute_job_lem_example :
    Explained config
      (register (new bundle) ping_spec)
      ops
      (codes "ping")
      (pos 7)
      ((codes "A", codes "1") ∷ [])
      (execute_job config
        (register (new bundle) ping_spec)
        ops
        (codes "ping")
        ((codes "A", codes "1") ∷ [])
        (pos 7))
execute_job_lem_example =
    execute_job_lem config (register (new bundle) ping_spec) ops (codes "ping") (pos 7)
      ((codes "A", codes "1") ∷ [])

reload_jobs_lem_example :
    ((e : CronManagerError) × ((reload_jobs ext config production in_time
          (some (dir ops tree))
          []
          (new bundle)
          ops
          0).0
        ≡ err e)
      × ((reload_jobs ext config production in_time (some (dir ops tree)) [] (new bundle) ops 0).2
          ≡ new bundle))
    ⊎ ((jobs : List LoadedJob) × ((admit 0 ops 60 []).0 ≡ ok tt)
        × (in_time ≡ in_time)
        × (load_all_with_policy ext
              (codes "dsl")
              (policy_of config production)
              (some (dir ops tree))
            ≡ ok jobs)
        × ((reload_jobs ext config production in_time (some (dir ops tree)) [] (new bundle) ops 0).0
            ≡ ok (length jobs))
        × ((reload_jobs ext config production in_time (some (dir ops tree)) [] (new bundle) ops 0).2
            ≡ (reload_from (new bundle) jobs).1))
reload_jobs_lem_example =
    reload_jobs_lem ext config production in_time (some (dir ops tree)) [] (new bundle) ops 0
