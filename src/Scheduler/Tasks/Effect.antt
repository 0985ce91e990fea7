-- ===== src/Scheduler/Tasks/Effect.antt =====
-- What one step of a task does to the entry of a key in `running`.
use cron_manager.Base.{
  ℕ, suc, ◌+◌, ◌≡◌, refl, sym, ap, ◌∙◌, inl, inr, Bool, Bool-cases, true, false, Option, none, some,
  [], ◌∷◌, ◌++◌, if◌then◌else◌, is_some,
}
use cron_manager.Base.Eq.{◌==◌, ==_iff, ==_self}
use cron_manager.Base.Int.{ℤ, ltbℤ}
use cron_manager.Base.Map.{
  get, contains_key, insert, remove, contains_key-insert, contains_key-remove, contains_key-get,
}
use cron_manager.Base.Results.{ok, err}
use cron_manager.Base.Text.{Text}
use cron_manager.Error.{CronManagerError, job_already_running}
use cron_manager.Dsl.{JobKey, key_eq, allows}
use cron_manager.Executor.Dispatch.{AttemptWorld}
use cron_manager.Scheduler.{
  RunningInstance, Loop, Run, Task, calling, starting, looping, sleeping, ready, begun, dispatching,
  recorded, replied, returned, panicked, SchedulerInner, begin_running, record_outcome, record_skip,
}
use cron_manager.Scheduler.Tasks.{step_task, taken, after_run, refused, with_cancel, with_begun}
use cron_manager.Scheduler.Tasks.Owners.{owns}
use cron_manager.Scheduler.Tasks.Lock.{steps_left}

-- What one step of a task does to the entry of a key.
pub data Effect (k : JobKey) (t : Task) (s : SchedulerInner) (p : Task × SchedulerInner)
    : Type 0 where
  idle :
      owns k t ≡ false
      → owns k p.0 ≡ false
      → contains_key k p.1.running ≡ contains_key k s.running
      → Effect k t s p
  acquire :
      owns k t ≡ false
      → contains_key k s.running ≡ false
      → owns k p.0 ≡ true
      → steps_left p.0 ≡ 2
      → Effect k t s p
  keep : owns k t ≡ true → owns k p.0 ≡ true → steps_left t ≡ suc (steps_left p.0) → Effect k t s p
  hand_over :
      owns k t ≡ true
      → (v : Task) → p.1.tasks ≡ s.tasks ++ (v ∷ [])
      → owns k v ≡ true
      → steps_left t ≡ suc (steps_left v)
      → Effect k t s p
  release : owns k t ≡ true → steps_left t ≡ 0 → contains_key k p.1.running ≡ false → Effect k t s p

module _ (parses : Text → Bool) (next_fire : Text → ℤ → Option ℤ) (now : ℤ)
    (worlds : ℕ → AttemptWorld) (s : SchedulerInner) (k : JobKey) where
  Effect-refused :
      (o : Option Loop) (r : Run) (e : CronManagerError) → Effect k (ready r) s (refused o e, s)
  Effect-refused none r e = idle refl refl refl
  Effect-refused (some l) r e = idle refl refl refl

  Effect-with_begun :
      (r : Run) (b : Bool)
      → contains_key r.key s.running ≡ b
      → Effect k (ready r) s (
          with_begun
            (if b
              then err (job_already_running r.key.group r.key.name)
              else ok (record s {
                running =
                    insert r.key
                      (record { started_at_ms = now; schedule = r.schedule; cancel = s.notifies })
                      s.running;
                notifies = s.notifies + 1;
              }))
            r
            s)
  Effect-with_begun r true h = Effect-refused r.from r _
  Effect-with_begun r false h = elim (Bool-cases (r.key == k)) [
    | inl same ↦
        acquire refl (sym (ap (λ j. contains_key j s.running) ((==_iff r.key k).0 same)) ∙ h) same
          refl
    | inr other ↦ idle refl other (
        contains_key-insert r.key k
          (record { started_at_ms = now; schedule = r.schedule; cancel = s.notifies }) s.running
        ∙ rw other refl)
  ]

  Effect-taken :
      (o : Option Loop) (r : Run) (c : ℕ)
      → (r.key == k) ≡ true
      → Effect k (begun r) s (taken o r c s)
  Effect-taken none r c h = hand_over h (dispatching r c) refl h refl
  Effect-taken (some l) r c h = keep h h refl

  Effect-not_taken :
      (o : Option Loop) (r : Run) (c : ℕ)
      → (r.key == k) ≡ false
      → Effect k (begun r) s (taken o r c s)
  Effect-not_taken none r c h = idle h refl refl
  Effect-not_taken (some l) r c h = idle h h refl

  Effect-with_cancel :
      (o : Option RunningInstance) (r : Run) (mine : Bool)
      → (r.key == k) ≡ mine
      → is_some o ≡ true
      → Effect k (begun r) s (with_cancel o r s)
  Effect-with_cancel none r mine h running = cc
  Effect-with_cancel (some inst) r true h running = Effect-taken r.from r inst.cancel h
  Effect-with_cancel (some inst) r false h running = Effect-not_taken r.from r inst.cancel h

  Effect-after_run :
      (o : Option Loop) (r : Run) (mine : Bool)
      → (r.key == k) ≡ mine
      → Effect k (recorded r) s (after_run o, record s { running = remove r.key s.running })
  Effect-after_run o r true h = release h refl (contains_key-remove r.key k s.running ∙ rw h refl)
  Effect-after_run none r false h = idle h refl (contains_key-remove r.key k s.running ∙ rw h refl)
  Effect-after_run (some l) r false h =
      idle h refl (contains_key-remove r.key k s.running ∙ rw h refl)

  Effect-dispatching :
      (r : Run) (c : ℕ) (mine : Bool) (s2 : SchedulerInner)
      → s2.running ≡ s.running
      → (r.key == k) ≡ mine
      → Effect k (dispatching r c) s (recorded r, s2)
  Effect-dispatching r c true s2 e h = keep h h refl
  Effect-dispatching r c false s2 e h = idle h h (ap (contains_key k) e)

  Effect-if :
      (t : Task) (b : Bool) (p q : Task × SchedulerInner)
      → Effect k t s p
      → Effect k t s q
      → Effect k t s (if b then p else q)
  Effect-if t true p q hp hq = hp
  Effect-if t false p q hp hq = hq

  Effect-option :
      {A : Type 0} (t : Task) (o : Option A) (p : Task × SchedulerInner)
      (q : A → Task × SchedulerInner)
      → Effect k t s p
      → ((a : A) → Effect k t s (q a))
      → Effect k t s (elim o [ none ↦ p | some a ↦ q a ])
  Effect-option t none p q hp hq = hp
  Effect-option t (some a) p q hp hq = hq a

  pub Effect-step_task :
      (t : Task)
      → ((j : JobKey) → owns j t ≡ true → contains_key j s.running ≡ true)
      → Effect k t s (step_task parses next_fire now worlds t s)
  unfolding step_task begin_running record_outcome record_skip
  Effect-step_task (calling key extras) h =
      Effect-option (calling key extras) (get key s.jobs) _ _ (idle refl refl refl)
        (λ entry. idle refl refl refl)
  Effect-step_task (starting l) h =
      Effect-if (starting l) (parses l.expr) _ _ (idle refl refl refl) (idle refl refl refl)
  Effect-step_task (looping l) h =
      Effect-option (looping l) (next_fire l.expr now) _ _ (idle refl refl refl)
        (λ next. idle refl refl refl)
  Effect-step_task (sleeping l next) h =
      Effect-if (sleeping l next) (ltbℤ now next) _ _ (idle refl refl refl) (
        Effect-if (sleeping l next) (allows l.spec.window now) _ _ (idle refl refl refl)
          (idle refl refl refl))
  Effect-step_task (ready r) h = Effect-with_begun r (contains_key r.key s.running) refl
  Effect-step_task (begun r) h =
      Effect-with_cancel (get r.key s.running) r (r.key == k) refl
        (sym (contains_key-get r.key s.running) ∙ h r.key (==_self r.key))
  Effect-step_task (dispatching r c) h = Effect-dispatching r c (r.key == k) _ refl refl
  Effect-step_task (recorded r) h = Effect-after_run r.from r (r.key == k) refl
  Effect-step_task (replied r) h = idle refl refl refl
  Effect-step_task returned h = idle refl refl refl
  Effect-step_task panicked h = idle refl refl refl
