-- ===== src/Scheduler/Tasks/Specs/Steps.antt =====
-- What the steps of src/scheduler.rs leave of the specs that it works with.
use cron_manager.Base.{
  ℕ, ◌+◌, ◌≡◌, refl, sym, subst, inl, inr, Bool, Bool-cases, true, false, Option, none, some, List,
  [], ◌∷◌, All, All-append, get_elem?, length, if◌then◌else◌,
}
use cron_manager.Base.Int.{ℤ, ltbℤ}
use cron_manager.Base.Map.{get, contains_key, insert, remove}
use cron_manager.Base.Results.{ok, err}
use cron_manager.Base.Text.{Text}
use cron_manager.Dsl.{JobKey, JobSpec, key_eq, allows}
use cron_manager.Error.{CronManagerError, job_not_found, job_already_running}
use cron_manager.Executor.Dispatch.{AttemptWorld, DispatchExtras, ExecutorBundle}
use cron_manager.Scheduler.{
  RegisteredJob, RunningInstance, Loop, Run, Task, calling, starting, looping, sleeping, ready,
  begun, dispatching, recorded, replied, returned, panicked, SchedulerInner, loops_of,
  begin_running, record_outcome, record_skip,
}
use cron_manager.Scheduler.Tasks.{
  Event, step, call, take_out, spawn, put_in, clear, notify, step_task, step_at, triggered, taken,
  refused, after_run, with_begun, with_cancel, apply, run,
}
use cron_manager.Scheduler.{register, register_all}
use cron_manager.Scheduler.Tasks.Registration.{registrations, register_all-run}
use cron_manager.Scheduler.Tasks.Specs.{
  LoopHolds, Watches, RunHolds, TaskHolds, Holds, EventHolds, get-EntryHolds, insert-EntryHolds,
  remove-EntryHolds, loops_of-TaskHolds, All-get_elem?, All-set,
}

module _ (P : JobSpec → Type 0) (Q : DispatchExtras → Type 0)
    (none_passed : Q (record { env_overrides = [] })) where
  -- What a step of a task leaves: the task, and the scheduler.
  abbrev pub StepHolds : ExecutorBundle → Task × SchedulerInner → Type 0
  StepHolds bundle p = TaskHolds P Q p.0 × Holds P Q bundle p.1

  module _ (bundle : ExecutorBundle) (s : SchedulerInner) (x : Holds P Q bundle s) where
    refused-Holds :
        (o : Option Loop) (e : CronManagerError)
        → LoopHolds P Q o
        → StepHolds bundle (refused o e, s)
    refused-Holds none e h = (tt, x)
    refused-Holds (some l) e h = (h, x)

    taken-Holds :
        (o : Option Loop) (r : Run) (c : ℕ) → RunHolds P Q r → StepHolds bundle (taken o r c s)
    taken-Holds none r c h = (
      tt,
      record {
        jobs = x.jobs;
        tasks = All-append (TaskHolds P Q) s.tasks (dispatching r c ∷ []) x.tasks (h, tt);
        bundled = x.bundled;
      },
    )
    taken-Holds (some l) r c h = (h, x)

    with_cancel-Holds :
        (o : Option RunningInstance) (r : Run)
        → RunHolds P Q r
        → StepHolds bundle (with_cancel o r s)
    with_cancel-Holds none r h = (tt, x)
    with_cancel-Holds (some inst) r h = taken-Holds r.from r inst.cancel h

    begin_running-Holds :
        (r : Run) (now : ℤ) (b : Bool)
        → RunHolds P Q r
        → StepHolds bundle (
            with_begun
              (if b
                then err (job_already_running r.key.group r.key.name)
                else ok (record s {
                  running =
                      insert r.key
                        (record { started_at_ms = now; schedule = r.schedule; cancel = s.notifies })
                        s.running;
                  notifies = s.notifies + 1;
                }))
              r
              s)
    begin_running-Holds r now true h = refused-Holds r.from _ h.3
    begin_running-Holds r now false h =
        (h, record { jobs = x.jobs; tasks = x.tasks; bundled = x.bundled })

    after_run-Holds :
        (o : Option Loop) (r : Run)
        → LoopHolds P Q o
        → StepHolds bundle (after_run o, record s { running = remove r.key s.running })
    after_run-Holds none r h = (tt, record { jobs = x.jobs; tasks = x.tasks; bundled = x.bundled })
    after_run-Holds (some l) r h =
        (h, record { jobs = x.jobs; tasks = x.tasks; bundled = x.bundled })

    looked_up-Holds :
        (key : JobKey) (extras : DispatchExtras) (o : Option RegisteredJob)
        → get key s.jobs ≡ o
        → Q extras
        → let p : Task × SchedulerInner = elim o [
          | none ↦ (replied (err (job_not_found key.group key.name)), s)
          | some entry ↦ (ready (triggered key extras entry), s)
        ] in
          StepHolds bundle p
    looked_up-Holds key extras none h q = (tt, x)
    looked_up-Holds key extras (some entry) h q =
        let e = get-EntryHolds P Q s.jobs key entry x.jobs h in ((e.0, e.1, q, tt), x)

    next_fire-Holds :
        (l : Loop) (o : Option ℤ)
        → Watches P Q l
        → let p : Task × SchedulerInner = elim o [
          | none ↦ (returned, s)
          | some next ↦ (sleeping l next, s)
        ] in
          StepHolds bundle p
    next_fire-Holds l none h = (tt, x)
    next_fire-Holds l (some next) h = (h, x)

  module _ (parses : Text → Bool) (next_fire : Text → ℤ → Option ℤ) (bundle : ExecutorBundle) where
    step_task-Holds :
        (now : ℤ) (worlds : ℕ → AttemptWorld) (t : Task) (s : SchedulerInner)
        → TaskHolds P Q t
        → Holds P Q bundle s
        → StepHolds bundle (step_task parses next_fire now worlds t s)
    unfolding step_task begin_running record_outcome record_skip
    step_task-Holds now worlds (calling key extras) s h x =
        looked_up-Holds bundle s x key extras (get key s.jobs) refl h
    step_task-Holds now worlds (starting l) s h x = elim (Bool-cases (parses l.expr)) [
      | inl valid ↦ rw valid (h, x)
      | inr invalid ↦ rw invalid (tt, x)
    ]
    step_task-Holds now worlds (looping l) s h x =
        next_fire-Holds bundle s x l (next_fire l.expr now) h
    step_task-Holds now worlds (sleeping l next) s h x = elim (Bool-cases (ltbℤ now next)) [
      | inl early ↦ rw early (h, x)
      | inr due ↦ elim (Bool-cases (allows l.spec.window now)) [
        | inl inside ↦ rw (due, inside) ((h.0, refl, none_passed, h), x)
        | inr outside ↦
            rw (due, outside) (h, record { jobs = x.jobs; tasks = x.tasks; bundled = x.bundled })
      ]
    ]
    step_task-Holds now worlds (ready r) s h x =
        begin_running-Holds bundle s x r now (contains_key r.key s.running) h
    step_task-Holds now worlds (begun r) s h x =
        with_cancel-Holds bundle s x (get r.key s.running) r h
    step_task-Holds now worlds (dispatching r c) s h x =
        (h, record { jobs = x.jobs; tasks = x.tasks; bundled = x.bundled })
    step_task-Holds now worlds (recorded r) s h x = after_run-Holds bundle s x r.from r h.3
    step_task-Holds now worlds (replied r) s h x = (tt, x)
    step_task-Holds now worlds returned s h x = (tt, x)
    step_task-Holds now worlds panicked s h x = (tt, x)

    step_at-Holds :
        (i : ℕ) (now : ℤ) (worlds : ℕ → AttemptWorld) (o : Option Task) (s : SchedulerInner)
        → get_elem? s.tasks i ≡ o
        → Holds P Q bundle s
        → Holds P Q bundle (step_at parses next_fire i now worlds o s)
    unfolding step_at
    step_at-Holds i now worlds none s h x = x
    step_at-Holds i now worlds (some t) s h x =
        let p = step_task parses next_fire now worlds t s in
        let (task, y) =
          step_task-Holds now worlds t s (All-get_elem? (TaskHolds P Q) s.tasks i t x.tasks h) x in
        record {
          jobs = y.jobs;
          tasks = All-set (TaskHolds P Q) p.1.tasks i p.0 y.tasks task;
          bundled = y.bundled;
        }

    pub apply-Holds :
        (e : Event) (s : SchedulerInner)
        → EventHolds P Q e
        → Holds P Q bundle s
        → Holds P Q bundle (apply parses next_fire e s)
    unfolding apply
    apply-Holds (step i now worlds) s h x =
        step_at-Holds i now worlds (get_elem? s.tasks i) s refl x
    apply-Holds (call key extras) s h x = record {
      jobs = x.jobs;
      tasks = All-append (TaskHolds P Q) s.tasks (calling key extras ∷ []) x.tasks (h, tt);
      bundled = x.bundled;
    }
    apply-Holds (take_out key) s h x = record {
      jobs = remove-EntryHolds P Q s.jobs key x.jobs;
      tasks = x.tasks;
      bundled = x.bundled;
    }
    apply-Holds (spawn spec) s h x = record {
      jobs = x.jobs;
      tasks =
          All-append (TaskHolds P Q) s.tasks (loops_of spec spec.trigger (length s.cells)) x.tasks
            (loops_of-TaskHolds P Q spec spec.trigger (length s.cells) h refl);
      bundled = x.bundled;
    }
    apply-Holds (put_in entry) s h x = record {
      jobs = insert-EntryHolds P Q s.jobs entry x.jobs h;
      tasks = x.tasks;
      bundled = x.bundled;
    }
    apply-Holds clear s h x = record { jobs = tt; tasks = x.tasks; bundled = x.bundled }
    apply-Holds (notify ns) s h x = record { jobs = x.jobs; tasks = x.tasks; bundled = x.bundled }

    pub run-Holds :
        (es : List Event) (s : SchedulerInner)
        → All (EventHolds P Q) es
        → Holds P Q bundle s
        → Holds P Q bundle (run parses next_fire es s)
    unfolding run
    run-Holds [] s h x = x
    run-Holds (e ∷ es) s h x = run-Holds es (apply parses next_fire e s) h.1 (apply-Holds e s h.0 x)

    -- Registering specs that satisfy `P`.
    registrations-Holds :
        (specs : List JobSpec) (s : SchedulerInner)
        → All P specs
        → All (EventHolds P Q) (registrations specs s)
    unfolding registrations
    registrations-Holds [] s h = tt
    registrations-Holds (spec ∷ specs) s h =
        (tt, (h.0, (h.0, registrations-Holds specs (register s spec) h.1)))

    pub register_all-Holds :
        (specs : List JobSpec) (s : SchedulerInner)
        → All P specs
        → Holds P Q bundle s
        → Holds P Q bundle (register_all s specs)
    register_all-Holds specs s h x =
        subst (Holds P Q bundle) (sym (register_all-run parses next_fire specs s))
          (run-Holds (registrations specs s) s (registrations-Holds specs s h) x)
