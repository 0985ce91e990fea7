-- ===== src/Scheduler/Tasks/Atomic.antt =====
-- The operations of src/scheduler.rs, undisturbed, as interleavings in which nothing comes between
-- their locks: `trigger_now` of Registry.antt as its task, `reload_from` as its events.
use mathlib.Core.List.{append-nil}
use cron_manager.Base.{
  ℕ, ◌+◌, ◌≡◌, refl, sym, ap, ◌∙◌, Bool, true, false, Option, none, some, List, [], ◌∷◌, ◌++◌,
  length, set,
}
use cron_manager.Base.Int.{ℤ}
use cron_manager.Base.Map.{get, contains_key, insert}
use cron_manager.Base.Results.{Result, ok, err}
use cron_manager.Base.Text.{Text}
use cron_manager.Dsl.{JobKey, key_eq}
use cron_manager.Error.{CronManagerError, job_not_found, job_already_running}
use cron_manager.Executor.Dispatch.{AttemptWorld, DispatchExtras}
use cron_manager.Scheduler.{
  RegisteredJob, Task, calling, ready, begun, dispatching, replied, SchedulerInner,
}
use cron_manager.Scheduler.Registry.{
  trigger_now, trigger_now_lem, Answer, instance_of, get-instance, begin_running_free,
  begin_running_busy,
}
use cron_manager.Scheduler.Tasks.{
  Event, step, call, step_task, step_at, put_back, with_begun, with_cancel, triggered, apply, run,
}
use cron_manager.Scheduler.Tasks.Owners.{get_elem?-end}

abbrev with_tasks : List Task → SchedulerInner → SchedulerInner
with_tasks ts s = record s { tasks = ts }

set-end :
    (ts ys : List Task) (x y : Task) → set ((ts ++ (x ∷ [])) ++ ys) (length ts) y ≡ ts ++ (y ∷ ys)
set-end [] ys x y = refl
set-end (t ∷ ts) ys x y = ap (◌∷◌ t) (set-end ts ys x y)

set-last : (ts : List Task) (x y : Task) → set (ts ++ (x ∷ [])) (length ts) y ≡ ts ++ (y ∷ [])
set-last [] x y = refl
set-last (t ∷ ts) x y = ap (◌∷◌ t) (set-last ts x y)

module _ (parses : Text → Bool) (next_fire : Text → ℤ → Option ℤ) (worlds : ℕ → AttemptWorld)
    (now : ℤ) where
  -- A step of the last task, which spawns none.
  step_last :
      (ts : List Task) (t u : Task) (s s2 : SchedulerInner)
      → step_task parses next_fire now worlds t (with_tasks (ts ++ (t ∷ [])) s)
        ≡ (u, with_tasks (ts ++ (t ∷ [])) s2)
      → apply parses next_fire (step (length ts) now worlds) (with_tasks (ts ++ (t ∷ [])) s)
        ≡ with_tasks (ts ++ (u ∷ [])) s2
  unfolding apply step_at
  step_last ts t u s s2 h =
      rw (get_elem?-end ts t)
        (ap (put_back (length ts)) h ∙ ap (λ l. with_tasks l s2) (set-last ts t u))

  step_spawning :
      (ts ys : List Task) (t u : Task) (s s2 : SchedulerInner)
      → step_task parses next_fire now worlds t (with_tasks (ts ++ (t ∷ [])) s)
        ≡ (u, with_tasks ((ts ++ (t ∷ [])) ++ ys) s2)
      → apply parses next_fire (step (length ts) now worlds) (with_tasks (ts ++ (t ∷ [])) s)
        ≡ with_tasks (ts ++ (u ∷ ys)) s2
  unfolding apply step_at
  step_spawning ts ys t u s s2 h =
      rw (get_elem?-end ts t)
        (ap (put_back (length ts)) h ∙ ap (λ l. with_tasks l s2) (set-end ts ys t u))

  -- A call, and three steps of its task.
  pub undisturbed : JobKey → DispatchExtras → SchedulerInner → List Event
  undisturbed key extras s =
      call key extras
      ∷ step (length s.tasks) now worlds
      ∷ step (length s.tasks) now worlds
      ∷ step (length s.tasks) now worlds
      ∷ []

  abbrev pub Agrees :
      SchedulerInner
      → Option (Result {0, 0} Unit CronManagerError × SchedulerInner)
      → SchedulerInner
      → Type 0
  Agrees s o s2 =
      (answer : Result {0, 0} Unit CronManagerError) × (left : SchedulerInner) × (spawned : List
        Task)
      × (o ≡ some (answer, left))
      × (left.tasks ≡ s.tasks ++ spawned)
      × (s2 ≡ record left { tasks = s.tasks ++ (replied answer ∷ spawned) })

  module _ (key : JobKey) (extras : DispatchExtras) (s : SchedulerInner) where
    three :
        (t u v : Task) (s2 s3 s4 : SchedulerInner) (later : List Task)
        → apply parses next_fire
            (step (length s.tasks) now worlds)
            (with_tasks (s.tasks ++ (calling key extras ∷ [])) s)
          ≡ with_tasks (s.tasks ++ (t ∷ [])) s2
        → apply parses next_fire
            (step (length s.tasks) now worlds)
            (with_tasks (s.tasks ++ (t ∷ [])) s2)
          ≡ with_tasks (s.tasks ++ (u ∷ [])) s3
        → apply parses next_fire
            (step (length s.tasks) now worlds)
            (with_tasks (s.tasks ++ (u ∷ [])) s3)
          ≡ with_tasks (s.tasks ++ (v ∷ later)) s4
        → run parses next_fire (undisturbed key extras s) s ≡ with_tasks (s.tasks ++ (v ∷ later)) s4
    unfolding run apply undisturbed
    three t u v s2 s3 s4 later a b c = ap (λ s. at_it (at_it s)) a ∙ ap at_it b ∙ c
      where
        at_it : SchedulerInner → SchedulerInner
        at_it = apply parses next_fire (step (length s.tasks) now worlds)

    not_found :
        get key s.jobs ≡ none
        → run parses next_fire (undisturbed key extras s) s
          ≡ with_tasks (s.tasks ++ (replied (err (job_not_found key.group key.name)) ∷ [])) s
    unfolding step_task
    not_found h =
        let done : Task = replied (err (job_not_found key.group key.name)) in
        three done done done s s s []
          (step_last s.tasks (calling key extras) done s s (rw (step_task, h) refl))
          (step_last s.tasks done done s s refl) (step_last s.tasks done done s s refl)

    already_running :
        (entry : RegisteredJob)
        → get key s.jobs ≡ some entry
        → contains_key key s.running ≡ true
        → run parses next_fire (undisturbed key extras s) s
          ≡ with_tasks (s.tasks ++ (replied (err (job_already_running key.group key.name)) ∷ [])) s
    unfolding step_task
    already_running entry found h =
        let r = triggered key extras entry in
        let done : Task = replied (err (job_already_running key.group key.name)) in
        three (ready r) done done s s s []
          (step_last s.tasks (calling key extras) (ready r) s s (rw (step_task, found) refl))
          (step_last s.tasks (ready r) done s s (
            ap (λ b. with_begun b r (with_tasks (s.tasks ++ (ready r ∷ [])) s))
              (begin_running_busy (with_tasks (s.tasks ++ (ready r ∷ [])) s) key r.schedule now h)))
          (step_last s.tasks done done s s refl)

    started :
        (entry : RegisteredJob)
        → get key s.jobs ≡ some entry
        → contains_key key s.running ≡ false
        → let r = triggered key extras entry in
          run parses next_fire (undisturbed key extras s) s ≡ record s {
            running = insert key (instance_of s now r.schedule) s.running;
            notifies = s.notifies + 1;
            tasks = s.tasks ++ (replied (ok tt) ∷ dispatching r s.notifies ∷ []);
          }
    unfolding step_task
    started entry found h =
        let r = triggered key extras entry in
        let begun_s : SchedulerInner = record s {
          running = insert key (instance_of s now r.schedule) s.running;
          notifies = s.notifies + 1;
        } in
        three (ready r) (begun r) (replied (ok tt)) s begun_s begun_s
          (dispatching r s.notifies ∷ [])
          (step_last s.tasks (calling key extras) (ready r) s s (rw (step_task, found) refl))
          (step_last s.tasks (ready r) (begun r) s begun_s (
            ap (λ b. with_begun b r (with_tasks (s.tasks ++ (ready r ∷ [])) s))
              (begin_running_free (with_tasks (s.tasks ++ (ready r ∷ [])) s) key r.schedule now h)))
          (step_spawning s.tasks (dispatching r s.notifies ∷ []) (begun r) (replied (ok tt)) begun_s
            begun_s
            (ap (λ o. with_cancel o r (with_tasks (s.tasks ++ (begun r ∷ [])) begun_s))
              (get-instance s key (instance_of s now r.schedule))))

    agreement :
        (o : Option RegisteredJob) (b : Bool)
        → get key s.jobs ≡ o
        → contains_key key s.running ≡ b
        → Answer s key extras now o b (trigger_now s key extras now)
        → Agrees s
            (trigger_now s key extras now)
            (run parses next_fire (undisturbed key extras s) s)
    agreement none b h k a =
        (err (job_not_found key.group key.name), s, [], a, sym (append-nil s.tasks), not_found h)
    agreement (some entry) true h k a = (
      err (job_already_running key.group key.name),
      s,
      [],
      a,
      sym (append-nil s.tasks),
      already_running entry h k,
    )
    agreement (some entry) false h k a = (
      ok tt,
      _,
      dispatching (triggered key extras entry) s.notifies ∷ [],
      a,
      refl,
      started entry h k,
    )

    -- `trigger_now` undisturbed is the task of `trigger_now` stepped three times in a row: in every
    -- state both give the same answer and leave the same state, but for the task of the call itself,
    -- which stays in the list of tasks with its answer, before the dispatch that it has spawned.
    trigger_now-run :
        Agrees s (trigger_now s key extras now) (run parses next_fire (undisturbed key extras s) s)
    trigger_now-run =
        agreement (get key s.jobs) (contains_key key s.running) refl refl
          (trigger_now_lem s key extras now)
