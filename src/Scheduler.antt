-- ===== src/Scheduler.antt =====
-- src/scheduler.rs: what the scheduler keeps, and the operations on it that take one lock. A map
-- under a mutex is a field; the `Arc<Mutex<JobRuntimeState>>` of a registration is an index into
-- `cells`, a `Notify` is its number, and a spawned task is an entry of `tasks`: the runtime keeps a
-- task whose `JoinHandle` is dropped, as tokio documents ("detaches"). `signalled` has the
-- `notify_waiters` calls. Log lines and poisoned locks are left out.
pub mod Tasks
pub mod Registry
pub mod Describe
use cron_manager.Base.{
  ℕ, zero, suc, ◌+◌, Bool, true, false, Option, none, some, List, [], ◌∷◌, ◌++◌, if◌then◌else◌,
  arith, length, get_elem?, set, map,
}
use cron_manager.Base.Int.{ℤ}
use cron_manager.Base.Map.{Map, get, contains_key, insert, remove}
use cron_manager.Base.Results.{Result, ok, err}
use cron_manager.Base.Text.{Text, codes}
use cron_manager.Error.{CronManagerError, job_not_found, job_already_running}
use cron_manager.Dsl.{JobKey, JobSpec, LoadedJob, Trigger, cron, manual, key_eq, type_label}
use cron_manager.History.{HistoryEntry, as_str, skipped, outside_window}
use cron_manager.Executor.Dispatch.{DispatchExtras, DispatchOutcome, ExecutorBundle}

pub record JobRuntimeState : Type 0 where
  pub last_execution_ms : Option ℤ
  pub last_result : Text

pub record RegisteredJob : Type 0 where
  pub spec : JobSpec
  pub state : ℕ
  pub task : Option ℕ

pub record RunningInstance : Type 0 where
  pub started_at_ms : ℤ
  pub schedule : Text
  pub cancel : ℕ

-- The arguments of `scheduling_loop`.
pub record Loop : Type 0 where
  pub spec : JobSpec
  pub expr : Text
  pub state : ℕ

-- What a run holds: of `trigger_now` when it has no loop.
pub record Run : Type 0 where
  pub key : JobKey
  pub spec : JobSpec
  pub state : ℕ
  pub schedule : Text
  pub extras : DispatchExtras
  pub from : Option Loop

-- Where a task stands, between the locks it takes and the sleeps it awaits.
pub data Task : Type 0 where
  calling : JobKey → DispatchExtras → Task
  starting looping : Loop → Task
  sleeping : Loop → ℤ → Task
  ready begun : Run → Task
  dispatching : Run → ℕ → Task
  recorded : Run → Task
  replied : Result {0, 0} Unit CronManagerError → Task
  returned panicked : Task

pub record SchedulerInner : Type 0 where
  pub jobs : Map JobKey RegisteredJob
  pub running : Map JobKey RunningInstance
  pub bundle : ExecutorBundle
  pub cells : List JobRuntimeState
  pub notifies : ℕ
  pub signalled : List ℕ
  pub tasks : List Task
  pub history : List HistoryEntry

-- `Scheduler::new`.
abbrev pub new : ExecutorBundle → SchedulerInner
new bundle = record {
  jobs = [];
  running = [];
  bundle = bundle;
  cells = [];
  notifies = 0;
  signalled = [];
  tasks = [];
  history = [];
}

abbrev pub schedule_of : Trigger → Text
schedule_of (cron e) = e
schedule_of manual = []

-- The three parts of `register`: the old entry goes, the loop is spawned, the new entry comes.
abbrev pub remove_job : JobKey → SchedulerInner → SchedulerInner
remove_job key s = record s { jobs = remove key s.jobs }

abbrev pub handle_of : Trigger → List Task → Option ℕ
handle_of (cron e) tasks = some (length tasks)
handle_of manual tasks = none

abbrev pub loops_of : JobSpec → Trigger → ℕ → List Task
loops_of spec (cron e) state = starting (record { spec = spec; expr = e; state = state }) ∷ []
loops_of spec manual state = []

abbrev pub spawn_loop : JobSpec → SchedulerInner → SchedulerInner
spawn_loop spec s = record s {
  cells = s.cells ++ (record { last_execution_ms = none; last_result = [] } ∷ []);
  tasks = s.tasks ++ loops_of spec spec.trigger (length s.cells);
}

abbrev pub insert_job : RegisteredJob → SchedulerInner → SchedulerInner
insert_job entry s = record s { jobs = insert entry.spec.key entry s.jobs }

abbrev pub entry_of : JobSpec → SchedulerInner → RegisteredJob
entry_of spec s = record {
  spec = spec;
  state = length s.cells;
  task = handle_of spec.trigger s.tasks;
}

unfoldable pub register : SchedulerInner → JobSpec → SchedulerInner
register s spec = insert_job (entry_of spec s) (spawn_loop spec (remove_job spec.key s))

unfoldable pub register_all : SchedulerInner → List JobSpec → SchedulerInner
unfolding register
register_all s [] = s
register_all s (spec ∷ specs) = register_all (register s spec) specs

unfoldable pub job_count : SchedulerInner → ℕ
job_count s = length s.jobs

abbrev pub notify_waiters : List ℕ → SchedulerInner → SchedulerInner
notify_waiters ns s = record s { signalled = s.signalled ++ ns }

abbrev pub signal_running :
    Option RunningInstance → SchedulerInner → Result Bool CronManagerError × SchedulerInner
signal_running none s = (ok false, s)
signal_running (some inst) s = (ok true, notify_waiters (inst.cancel ∷ []) s)

-- `stop`, with the state it leaves.
unfoldable pub stop : SchedulerInner → JobKey → Result Bool CronManagerError × SchedulerInner
stop s key =
    if contains_key key s.jobs
    then signal_running (get key s.running) s
    else (err (job_not_found key.group key.name), s)

-- `reload_from`, which always returns the number of jobs loaded.
unfoldable pub reload_from :
    SchedulerInner → List LoadedJob → Result ℕ CronManagerError × SchedulerInner
unfolding register_all
reload_from s loaded = (
  ok (length loaded),
  register_all (record (notify_waiters (map (λ e. e.1.cancel) s.running) s) { jobs = [] })
      (map (λ j. j.spec) loaded),
)

unfoldable pub begin_running :
    SchedulerInner → JobKey → Text → ℤ → Result SchedulerInner CronManagerError
begin_running s key schedule now =
    if contains_key key s.running
    then err (job_already_running key.group key.name)
    else ok (record s {
      running =
          insert key (record { started_at_ms = now; schedule = schedule; cancel = s.notifies })
            s.running;
      notifies = s.notifies + 1;
    })

abbrev pub write_cell : ℕ → ℤ → Text → SchedulerInner → SchedulerInner
write_cell state now result s = record s {
  cells = set s.cells state (record { last_execution_ms = some now; last_result = result });
}

unfoldable pub record_outcome : ℕ → DispatchOutcome → ℤ → SchedulerInner → SchedulerInner
unfolding as_str
record_outcome state outcome now s = write_cell state now (as_str outcome.status) s

unfoldable pub record_skip : ℕ → ℤ → SchedulerInner → SchedulerInner
record_skip state now s = write_cell state now (codes "SKIPPED") s

-- The history row of a fire outside the window.
unfoldable pub skip_row : JobSpec → ℤ → HistoryEntry
unfolding type_label
skip_row spec now = record {
  execution_time = now;
  job_name = spec.key.name;
  job_group = spec.key.group;
  job_type = type_label spec.kind;
  duration_ms = some 0;
  status = skipped;
  http_method = none;
  http_url = none;
  http_status_code = none;
  attempt_number = 1;
  max_attempts = 1;
  response_body = none;
  error_message = some outside_window;
}
