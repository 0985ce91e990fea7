-- ===== src/Tests/Lock.antt =====
-- Tests of the lock that a running job is.
use cron_manager.Base.{ℕ, ◌≤◌, ◌≡◌, refl, some, List, [], ◌∷◌, arith, get_elem?}
use cron_manager.Base.Eq.{list_eq}
use cron_manager.Base.Int.{pos}
use cron_manager.Base.Map.{get, contains_key, insert}
use cron_manager.Base.Results.{Result}
use cron_manager.Error.{CronManagerError}
use cron_manager.Dsl.{key_eq, allows}
use cron_manager.Scheduler.{Run, new, entry_of, begin_running, replied}
use cron_manager.Scheduler.Tasks.{
  fired, Event, step, call, spawn, put_in, run, apply, step_at, step_task,
}
use cron_manager.Scheduler.Tasks.Lock.{Lock, free, LockSteps, Represents}
use cron_manager.Scheduler.Tasks.Refinement.{running-refines-lock}
use cron_manager.Scheduler.Tasks.Progress.{FreedIn, running_is_freed}
use cron_manager.Scheduler.Tasks.Reply.{call_is_replied}
use cron_manager.Scheduler.Tasks.Wiring.Stop.{StopMeets, stop_reaches_run}
use cron_manager.Base.Text.{codes}
use cron_manager.Tests.Data.{bundle, ping, ping_spec, parses, next_fire, worlds}

-- The loop of `ping` begins a run, and a call of `trigger_now` comes in between.
abbrev begun_events : List Event
begun_events =
    spawn ping_spec
    ∷ put_in (entry_of ping_spec (new bundle))
    ∷ step 0 (pos 1000) worlds
    ∷ step 0 (pos 1000) worlds
    ∷ call ping (record { env_overrides = [] })
    ∷ step 0 (pos 2000) worlds
    ∷ step 0 (pos 2000) worlds
    ∷ step 1 (pos 2000) worlds
    ∷ []

running-refines-lock_example :
    (b : Lock) × LockSteps begun_events free b
    × Represents ping (run parses next_fire begun_events (new bundle)) b
running-refines-lock_example = running-refines-lock parses next_fire ping bundle begun_events

running_is_freed_example :
    (n : ℕ) × (n ≤ 3)
    × FreedIn parses next_fire
        (λ c. pos 2000)
        (λ c. worlds)
        ping
        n
        0
        (run parses next_fire begun_events (new bundle))
unfolding run apply step_at step_task begin_running contains_key insert get allows
running_is_freed_example =
    running_is_freed parses next_fire (λ c. pos 2000) (λ c. worlds) bundle begun_events ping refl

-- A loop begins the run of `ping`, and a call of it comes to its answer between the steps of the loop.
abbrev racing : List Event
racing =
    step 1 (pos 2000) worlds
    ∷ step 0 (pos 2000) worlds
    ∷ step 1 (pos 2000) worlds
    ∷ step 0 (pos 2000) worlds
    ∷ step 1 (pos 2000) worlds
    ∷ []

abbrev loop_asleep : List Event
loop_asleep =
    spawn ping_spec
    ∷ put_in (entry_of ping_spec (new bundle))
    ∷ step 0 (pos 1000) worlds
    ∷ step 0 (pos 1000) worlds
    ∷ []

call_is_replied_example :
    (answer : Result {0, 0} Unit CronManagerError) × (get_elem?
        (run parses next_fire
          (call ping (record { env_overrides = [] }) ∷ racing)
          (run parses next_fire loop_asleep (new bundle))).tasks
        1
      ≡ some (replied answer))
unfolding run apply step_at step_task
call_is_replied_example =
    call_is_replied parses next_fire bundle loop_asleep racing ping (record { env_overrides = [] })
      (omega arith)

-- The loop of `ping` fires and dispatches.
abbrev under_way : List Event
under_way =
    spawn ping_spec
    ∷ put_in (entry_of ping_spec (new bundle))
    ∷ step 0 (pos 1000) worlds
    ∷ step 0 (pos 1000) worlds
    ∷ step 0 (pos 2000) worlds
    ∷ step 0 (pos 2000) worlds
    ∷ step 0 (pos 2000) worlds
    ∷ []

abbrev ping_run : Run
ping_run = fired (record { spec = ping_spec; expr = codes "0 * * * * *"; state = 0 })

stop_reaches_run_example : StopMeets (run parses next_fire under_way (new bundle)) ping ping_run 0
unfolding run apply step_at step_task begin_running contains_key insert get allows
stop_reaches_run_example =
    stop_reaches_run parses next_fire bundle under_way ping 0 ping_run 0 refl refl
