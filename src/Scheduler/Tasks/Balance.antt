-- ===== src/Scheduler/Tasks/Balance.antt =====
-- What one step of a task does to the owners of a key and to `running`.
use cron_manager.Base.{
  ℕ, ◌+◌, ◌≡◌, refl, sym, ◌∙◌, Bool, true, false, Option, none, some, [], ◌∷◌, if◌then◌else◌, arith,
  get_elem?, count, count-append, is_some,
}
use cron_manager.Base.Eq.{==_iff, ==_self}
use cron_manager.Base.Int.{ℤ}
use cron_manager.Base.Map.{
  get, contains_key, insert, remove, contains_key-insert, contains_key-remove, contains_key-get,
}
use cron_manager.Base.Results.{ok, err}
use cron_manager.Base.Text.{Text}
use cron_manager.Error.{CronManagerError, job_already_running}
use cron_manager.Dsl.{JobKey, key_eq}
use cron_manager.Executor.Dispatch.{AttemptWorld}
use cron_manager.Scheduler.{
  RunningInstance, Loop, Run, Task, calling, starting, looping, sleeping, ready, begun, dispatching,
  recorded, replied, returned, panicked, SchedulerInner, begin_running, record_outcome, record_skip,
}
use cron_manager.Scheduler.Tasks.{step_task, taken, after_run, refused, with_cancel, with_begun}
use cron_manager.Scheduler.Tasks.Owners.{owns, has_panicked, one, get_elem?-append}

-- How the owners of a key and the entry of `running` change together.
abbrev pub Balanced : JobKey → Task → SchedulerInner → Task × SchedulerInner → Type 0
Balanced k t s (u, s2) =
    one (owns k u) + count (owns k) s2.tasks + one (contains_key k s.running)
    ≡ one (owns k t) + count (owns k) s.tasks + one (contains_key k s2.running)

abbrev pub Sound : Task → SchedulerInner → Task × SchedulerInner → Type 0
Sound t s (u, s2) =
    one (has_panicked u) + count has_panicked s2.tasks
    ≡ one (has_panicked t) + count has_panicked s.tasks

module _ (parses : Text → Bool) (next_fire : Text → ℤ → Option ℤ) (now : ℤ)
    (worlds : ℕ → AttemptWorld) (s : SchedulerInner) where
  Balanced-taken :
      (k : JobKey) (o : Option Loop) (r : Run) (c : ℕ) → Balanced k (begun r) s (taken o r c s)
  Balanced-taken k none r c = omega (arith, count-append (owns k) s.tasks (dispatching r c ∷ []))
  Balanced-taken k (some l) r c = omega arith

  Balanced-with_cancel :
      (k : JobKey) (o : Option RunningInstance) (r : Run)
      → is_some o ≡ true
      → Balanced k (begun r) s (with_cancel o r s)
  Balanced-with_cancel k none r h = cc
  Balanced-with_cancel k (some inst) r h = Balanced-taken k r.from r inst.cancel

  Balanced-refused :
      (k : JobKey) (o : Option Loop) (r : Run) (e : CronManagerError)
      → Balanced k (ready r) s (refused o e, s)
  Balanced-refused k none r e = refl
  Balanced-refused k (some l) r e = refl

  Balanced-with_begun :
      (k : JobKey) (r : Run) (b : Bool)
      → contains_key r.key s.running ≡ b
      → Balanced k (ready r) s (
          with_begun
            (if b
              then err (job_already_running r.key.group r.key.name)
              else ok (record s {
                running =
                    insert r.key
                      (record { started_at_ms = now; schedule = r.schedule; cancel = s.notifies })
                      s.running;
                notifies = s.notifies + 1;
              }))
            r
            s)
  Balanced-with_begun k r true h = Balanced-refused k r.from r _
  Balanced-with_begun k r false h = ground (
    arith,
    h,
    ==_iff r.key k,
    contains_key-insert r.key k
        (record { started_at_ms = now; schedule = r.schedule; cancel = s.notifies }) s.running,
  )

  Balanced-after_run :
      (k : JobKey) (o : Option Loop) (r : Run)
      → contains_key r.key s.running ≡ true
      → Balanced k (recorded r) s (after_run o, record s { running = remove r.key s.running })
  Balanced-after_run k none r h =
      ground (arith, h, ==_iff r.key k, contains_key-remove r.key k s.running)
  Balanced-after_run k (some l) r h =
      ground (arith, h, ==_iff r.key k, contains_key-remove r.key k s.running)

  pub Balanced-step_task :
      (k : JobKey) (t : Task)
      → ((j : JobKey) → owns j t ≡ true → contains_key j s.running ≡ true)
      → Balanced k t s (step_task parses next_fire now worlds t s)
  unfolding step_task begin_running record_outcome record_skip
  Balanced-step_task k (calling key extras) h = ground arith
  Balanced-step_task k (starting l) h = ground arith
  Balanced-step_task k (looping l) h = ground arith
  Balanced-step_task k (sleeping l next) h = ground arith
  Balanced-step_task k (ready r) h = Balanced-with_begun k r (contains_key r.key s.running) refl
  Balanced-step_task k (begun r) h =
      Balanced-with_cancel k (get r.key s.running) r
        (sym (contains_key-get r.key s.running) ∙ h r.key (==_self r.key))
  Balanced-step_task k (dispatching r c) h = refl
  Balanced-step_task k (recorded r) h = Balanced-after_run k r.from r (h r.key (==_self r.key))
  Balanced-step_task k (replied r) h = refl
  Balanced-step_task k returned h = refl
  Balanced-step_task k panicked h = refl

  Sound-with_cancel :
      (o : Option RunningInstance) (r : Run)
      → is_some o ≡ true
      → Sound (begun r) s (with_cancel o r s)
  Sound-with_cancel none r h = cc
  Sound-with_cancel (some inst) r h = Sound-taken r.from r inst.cancel
    where
      Sound-taken : (o : Option Loop) (r : Run) (c : ℕ) → Sound (begun r) s (taken o r c s)
      Sound-taken none r c = omega (arith, count-append has_panicked s.tasks (dispatching r c ∷ []))
      Sound-taken (some l) r c = refl

  pub Sound-step_task :
      (t : Task)
      → ((j : JobKey) → owns j t ≡ true → contains_key j s.running ≡ true)
      → Sound t s (step_task parses next_fire now worlds t s)
  unfolding step_task begin_running record_outcome record_skip
  Sound-step_task (calling key extras) h = ground arith
  Sound-step_task (starting l) h = ground arith
  Sound-step_task (looping l) h = ground arith
  Sound-step_task (sleeping l next) h = ground arith
  Sound-step_task (ready r) h = ground arith
  Sound-step_task (begun r) h =
      Sound-with_cancel (get r.key s.running) r
        (sym (contains_key-get r.key s.running) ∙ h r.key (==_self r.key))
  Sound-step_task (dispatching r c) h = refl
  Sound-step_task (recorded r) h = ground arith
  Sound-step_task (replied r) h = refl
  Sound-step_task returned h = refl
  Sound-step_task panicked h = refl

  -- A step leaves the tasks there, and may spawn one.
  pub get_elem?-step_task :
      (t u : Task) (i : ℕ)
      → get_elem? s.tasks i ≡ some u
      → get_elem? (step_task parses next_fire now worlds t s).1.tasks i ≡ some u
  unfolding step_task begin_running record_outcome record_skip
  get_elem?-step_task (calling key extras) u i h = ground arith
  get_elem?-step_task (starting l) u i h = ground arith
  get_elem?-step_task (looping l) u i h = ground arith
  get_elem?-step_task (sleeping l next) u i h = ground arith
  get_elem?-step_task (ready r) u i h = ground arith
  get_elem?-step_task (begun r) u i h = kept (get r.key s.running)
    where
      spawned : (o : Option Loop) (c : ℕ) → get_elem? (taken o r c s).1.tasks i ≡ some u
      spawned none c = get_elem?-append s.tasks (dispatching r c ∷ []) i u h
      spawned (some l) c = h

      kept : (o : Option RunningInstance) → get_elem? (with_cancel o r s).1.tasks i ≡ some u
      kept none = h
      kept (some inst) = spawned r.from inst.cancel
  get_elem?-step_task (dispatching r c) u i h = h
  get_elem?-step_task (recorded r) u i h = h
  get_elem?-step_task (replied r) u i h = h
  get_elem?-step_task returned u i h = h
  get_elem?-step_task panicked u i h = h
