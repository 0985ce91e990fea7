-- ===== src/Tests/Run.antt =====
-- Tests of the scheduler and the executors.
use cron_manager.Base.{◌≤◌, ◌≡◌, refl, ◌⊎◌, false, some, List, [], ◌∷◌, ◌++◌, arith, length}
use cron_manager.Base.Eq.{list_eq, nat_eq}
use cron_manager.Base.Int.{pos, ◌≤ℤ◌}
use cron_manager.Base.Map.{get, contains_key, insert, remove}
use cron_manager.Base.Results.{ok}
use cron_manager.Base.Text.{codes}
use cron_manager.Dsl.{JobKey, key_eq}
use cron_manager.Executor.Dispatch.{DispatchExtras, dispatch}
use cron_manager.Executor.Dispatch.Laws.{dispatch_rows, Numbered, Ends}
use cron_manager.Executor.Dispatch.Stop.{stopped_goes_on}
use cron_manager.Executor.Http.{
  execute, prepare, reject_private_dns, screen_addrs, ssrf_refuses, resolve_headers, finish,
  is_allowlisted,
}
use cron_manager.Security.Ip.{is_private_or_local, v4_is_private_or_local}
use cron_manager.Executor.Shell.{child_env}
use cron_manager.Executor.Shell.Laws.{get-child_env}
use cron_manager.Scheduler.{
  SchedulerInner, new, register, looping, sleeping, ready, dispatching, Loop, entry_of, reload_from,
}
use cron_manager.Scheduler.Tasks.{
  Event, step, call, spawn, put_in, run, step_task, fired, triggered,
}
use cron_manager.Scheduler.Tasks.Exclusion.{IsExclusive, one_run_per_key}
use cron_manager.Scheduler.Tasks.Window.{InWindow, IsSkippedFrom, sleeping_lem}
use cron_manager.Scheduler.Registry.Registered.{registered, last_of, cron_loops}
use cron_manager.Scheduler.Registry.{trigger_now, trigger_now_lem, reload_from_lem}
use cron_manager.Scheduler.Describe.Rows.{describe_lem, IsListing, listed, shown_job, shown_run}
use cron_manager.Scheduler.Describe.{describe, describe_running, rows_or}
use cron_manager.Tests.Data.{worlds, bundle, ping, ping_spec, parses, next_fire}

abbrev no_extras : DispatchExtras
no_extras = record { env_overrides = [] }

-- The loop of `ping` fires, and two calls of `trigger_now` race with it.
abbrev events : List Event
events =
    spawn ping_spec
    ∷ put_in (entry_of ping_spec (new bundle))
    ∷ step 0 (pos 1000) worlds
    ∷ step 0 (pos 1000) worlds
    ∷ call ping no_extras
    ∷ call ping no_extras
    ∷ step 1 (pos 1500) worlds
    ∷ step 2 (pos 1500) worlds
    ∷ step 0 (pos 2000) worlds
    ∷ step 1 (pos 2000) worlds
    ∷ step 2 (pos 2000) worlds
    ∷ step 0 (pos 2000) worlds
    ∷ step 1 (pos 2000) worlds
    ∷ []

one_run_per_key_example : IsExclusive (run parses next_fire events (new bundle))
one_run_per_key_example = one_run_per_key parses next_fire bundle events

abbrev idle : SchedulerInner
idle = register (new bundle) ping_spec

trigger_now_lem_example :
    trigger_now idle ping no_extras (pos 1000)
    ≡ some (
      ok tt,
      record idle {
        running =
            (ping, record { started_at_ms = pos 1000; schedule = codes "0 * * * * *"; cancel = 0 })
            ∷ [];
        notifies = 1;
        tasks =
            idle.tasks
            ++ (dispatching (triggered ping no_extras (entry_of ping_spec (new bundle))) 0 ∷ []);
      },
    )
unfolding register get contains_key insert remove
trigger_now_lem_example = trigger_now_lem idle ping no_extras (pos 1000)

reload_from_lem_example :
    ((reload_from idle (record { spec = ping_spec; source_path = [] } ∷ [])).0 ≡ ok 1)
    × ((key : JobKey)
        → registered key (reload_from idle (record { spec = ping_spec; source_path = [] } ∷ [])).1
          ≡ last_of key (ping_spec ∷ []))
    × ((reload_from idle (record { spec = ping_spec; source_path = [] } ∷ [])).1.running
        ≡ idle.running)
    × ((reload_from idle (record { spec = ping_spec; source_path = [] } ∷ [])).1.signalled
        ≡ idle.signalled ++ [])
    × ((reload_from idle (record { spec = ping_spec; source_path = [] } ∷ [])).1.tasks
        ≡ idle.tasks ++ cron_loops (length idle.cells) (ping_spec ∷ []))
unfolding register
reload_from_lem_example = reload_from_lem idle (record { spec = ping_spec; source_path = [] } ∷ [])

abbrev ping_loop : Loop
ping_loop = record { spec = ping_spec; expr = codes "0 * * * * *"; state = 0 }

-- After the end of the window.
sleeping_lem_example :
    ((¬ (pos 2000 ≤ℤ pos 9000))
      × (step_task parses next_fire (pos 9000) worlds (sleeping ping_loop (pos 2000)) idle
          ≡ (sleeping ping_loop (pos 2000), idle)))
    ⊎ (((pos 2000 ≤ℤ pos 9000)
          × InWindow ping_spec (pos 9000)
          × (step_task parses next_fire (pos 9000) worlds (sleeping ping_loop (pos 2000)) idle
              ≡ (ready (fired ping_loop), idle)))
        ⊎ ((pos 2000 ≤ℤ pos 9000)
            × (¬ InWindow ping_spec (pos 9000))
            × ((step_task parses next_fire (pos 9000) worlds (sleeping ping_loop (pos 2000)) idle).0
                ≡ looping ping_loop)
            × IsSkippedFrom ping_loop
                (pos 9000)
                idle
                (step_task parses next_fire
                  (pos 9000)
                  worlds
                  (sleeping ping_loop (pos 2000))
                  idle).1))
sleeping_lem_example = sleeping_lem parses next_fire (pos 9000) worlds ping_loop (pos 2000) idle

describe_lem_example :
    IsListing
      (some (codes "ops"))
      (codes "ops")
      (listed (shown_job next_fire (pos 0) idle) (codes "ops") idle.jobs)
      (rows_or (get (codes "ops") (describe next_fire (pos 0) (some (codes "ops")) idle)))
    × IsListing
        (some (codes "ops"))
        (codes "ops")
        (listed (shown_run idle) (codes "ops") idle.running)
        (rows_or (get (codes "ops") (describe_running (some (codes "ops")) idle)))
describe_lem_example = describe_lem next_fire (pos 0) (some (codes "ops")) idle (codes "ops")

dispatch_rows_example :
    (length (dispatch bundle ping_spec no_extras worlds).1
      ≡ (dispatch bundle ping_spec no_extras worlds).0.attempts)
    × (1 ≤ (dispatch bundle ping_spec no_extras worlds).0.attempts)
    × ((dispatch bundle ping_spec no_extras worlds).0.attempts ≤ 3)
    × Numbered 1 3 (dispatch bundle ping_spec no_extras worlds).1
    × Ends false 3
        (dispatch bundle ping_spec no_extras worlds).1
        (dispatch bundle ping_spec no_extras worlds).0
dispatch_rows_example = dispatch_rows bundle ping_spec no_extras worlds refl (omega arith)

stopped_goes_on_example : 2 ≤ (dispatch bundle ping_spec no_extras worlds).0.attempts
unfolding execute prepare reject_private_dns screen_addrs ssrf_refuses is_private_or_local
    resolve_headers finish is_allowlisted v4_is_private_or_local
stopped_goes_on_example =
    stopped_goes_on bundle ping_spec no_extras worlds (codes "GET") (codes "https://api.test/") []
      refl (omega arith) (omega arith) refl refl refl

get-child_env_example :
    get
      (codes "HOME")
      (child_env bundle.shell (codes "HOME" ∷ []) ((codes "HOME", codes "/tmp") ∷ []))
    ≡ some (codes "/tmp")
get-child_env_example =
    get-child_env bundle.shell (codes "HOME" ∷ []) ((codes "HOME", codes "/tmp") ∷ [])
      (codes "HOME")
