-- ===== src/Scheduler/Tasks/Wiring/Steps.antt =====
-- Every step of a task, and every other event, keeps each dispatch at the handle of its run.
use mathlib.Core.Option.{some-injective}
use cron_manager.Base.{
  ℕ, zero, suc, ◌+◌, ◌≡◌, refl, ap, subst, ◌∙◌, inl, inr, Bool, Bool-cases, true, false, Option,
  none, some, [], ◌∷◌, arith, get_elem?, eqb, if◌then◌else◌, Option-cases,
}
use cron_manager.Base.Eq.{==_iff, ==_self}
use cron_manager.Base.Int.{ℤ, ltbℤ}
use cron_manager.Base.Map.{
  get, contains_key, insert, remove, get-insert, get-remove, contains_key-get,
}
use cron_manager.Base.Results.{ok, err}
use cron_manager.Base.Text.{Text}
use cron_manager.Error.{CronManagerError, job_already_running}
use cron_manager.Dsl.{JobKey, key_eq, allows}
use cron_manager.Executor.Dispatch.{AttemptWorld}
use cron_manager.Scheduler.{
  Loop, RunningInstance, Run, Task, calling, starting, looping, sleeping, ready, begun, dispatching,
  recorded, replied, returned, panicked, SchedulerInner, begin_running, record_outcome, record_skip,
}
use cron_manager.Scheduler.Registry.{instance_of}
use cron_manager.Scheduler.Tasks.{step_task, refused, taken, after_run, with_begun, with_cancel}
use cron_manager.Scheduler.Tasks.Exclusion.{IsExclusive, owned_runs}
use cron_manager.Scheduler.Tasks.Owners.{owns, one}
use cron_manager.Scheduler.Tasks.Wiring.{
  Running, Listens, IsWired, Wires, get_elem?-split, count-two, insert-Fresh, insert-Distinct,
  get_kept,
}

module _ (s : SchedulerInner) (i : ℕ) (t : Task) (x : IsExclusive s) (v : IsWired s)
    (at_i : get_elem? s.tasks i ≡ some t) where
  -- What a step does that leaves the map alone.
  abbrev Quiet : Task → Type 0
  Quiet u = Wires i u s.tasks s.running s.notifies

  quiet : (u : Task) → Listens s.running u → Quiet u
  quiet u h = record {
    others = λ j w d at_j. v.listens j w at_j;
    self = h;
    fresh = v.fresh;
    distinct = v.distinct;
  }

  abbrev StepWires : Task × SchedulerInner → Type 0
  StepWires (u, s2) = Wires i u s2.tasks s2.running s2.notifies

  refused-StepWires : (o : Option Loop) (e : CronManagerError) → StepWires (refused o e, s)
  refused-StepWires none e = quiet (replied (err e)) tt
  refused-StepWires (some l) e = quiet (looping l) tt

  taken-StepWires :
      (o : Option Loop) (r : Run) (inst : RunningInstance)
      → get r.key s.running ≡ some inst
      → StepWires (taken o r inst.cancel s)
  taken-StepWires none r inst h = record {
    others = λ j w d at_j.
        elim (get_elem?-split s.tasks (dispatching r inst.cancel ∷ []) j w at_j) [
          | inl old ↦ v.listens j w old
          | inr (k, added) ↦ listening k w added
        ];
    self = tt;
    fresh = v.fresh;
    distinct = v.distinct;
  }
    where
      listening :
          (k : ℕ) (w : Task)
          → get_elem? (dispatching r inst.cancel ∷ []) k ≡ some w
          → Listens s.running w
      listening zero w added =
          subst (Listens s.running) (some-injective (dispatching r inst.cancel) w added)
            (inst, h, refl)
      listening (suc k) w added = cc
  taken-StepWires (some l) r inst h = quiet (dispatching r inst.cancel) (inst, h, refl)

  with_cancel-StepWires :
      (o : Option RunningInstance) (r : Run)
      → get r.key s.running ≡ o
      → StepWires (with_cancel o r s)
  with_cancel-StepWires none r h = quiet panicked tt
  with_cancel-StepWires (some inst) r h = taken-StepWires r.from r inst h

  -- The others keep their entries where a key is added that was free.
  kept_on_insert :
      (key : JobKey) (inst : RunningInstance) (w : Task)
      → contains_key key s.running ≡ false
      → Listens s.running w
      → Listens (insert key inst s.running) w
  kept_on_insert key inst (dispatching r c) free (a, there, same) = (
    a,
    get-insert key r.key inst s.running
        ∙ ground (arith, free, there, ==_iff key r.key, contains_key-get key s.running),
    same,
  )
  kept_on_insert key inst (calling _ _) free h = tt
  kept_on_insert key inst (starting _) free h = tt
  kept_on_insert key inst (looping _) free h = tt
  kept_on_insert key inst (sleeping _ _) free h = tt
  kept_on_insert key inst (ready _) free h = tt
  kept_on_insert key inst (begun _) free h = tt
  kept_on_insert key inst (recorded _) free h = tt
  kept_on_insert key inst (replied _) free h = tt
  kept_on_insert key inst returned free h = tt
  kept_on_insert key inst panicked free h = tt

  begun-StepWires :
      (r : Run) (now : ℤ) (b : Bool)
      → contains_key r.key s.running ≡ b
      → StepWires (
          with_begun
            (if b
              then err (job_already_running r.key.group r.key.name)
              else ok (record s {
                running = insert r.key (instance_of s now r.schedule) s.running;
                notifies = s.notifies + 1;
              }))
            r
            s)
  begun-StepWires r now true h = refused-StepWires r.from _
  begun-StepWires r now false h = record {
    others =
        λ j w d at_j. kept_on_insert r.key (instance_of s now r.schedule) w h (v.listens j w at_j);
    self = tt;
    fresh = insert-Fresh s.running s.notifies r.key (instance_of s now r.schedule) refl v.fresh;
    distinct =
        insert-Distinct s.running s.notifies r.key (instance_of s now r.schedule) refl v.fresh
          v.distinct;
  }

  -- No other task dispatches a run of the key that the task owns.
  not_mine :
      (key : JobKey) (j : ℕ) (w : Task)
      → owns key t ≡ true
      → eqb i j ≡ false
      → get_elem? s.tasks j ≡ some w
      → owns key w ≡ false
  not_mine key j w mine d at_j = elim (Bool-cases (owns key w)) [
    | inl also ↦ absurd (
        omega (
          arith,
          x.owners key,
          ap one (owned_runs s i t x at_i key mine),
          count-two (owns key) s.tasks i j t w at_i at_j d mine also,
        ))
    | inr other ↦ other
  ]

  kept_on_remove :
      (key : JobKey) (w : Task)
      → owns key w ≡ false
      → Listens s.running w
      → Listens (remove key s.running) w
  kept_on_remove key (dispatching r c) other (a, there, same) = (
    a,
    get-remove key r.key s.running
        ∙ ground (arith, other, there, ==_iff key r.key, ==_iff r.key key),
    same,
  )
  kept_on_remove key (calling _ _) other h = tt
  kept_on_remove key (starting _) other h = tt
  kept_on_remove key (looping _) other h = tt
  kept_on_remove key (sleeping _ _) other h = tt
  kept_on_remove key (ready _) other h = tt
  kept_on_remove key (begun _) other h = tt
  kept_on_remove key (recorded _) other h = tt
  kept_on_remove key (replied _) other h = tt
  kept_on_remove key returned other h = tt
  kept_on_remove key panicked other h = tt

  removed :
      (r : Run) (u : Task)
      → owns r.key t ≡ true
      → ((m : Running) → Listens m u)
      → Wires i u s.tasks (remove r.key s.running) s.notifies
  removed r u mine h = record {
    others =
        λ j w d at_j. kept_on_remove r.key w (not_mine r.key j w mine d at_j) (v.listens j w at_j);
    self = h (remove r.key s.running);
    fresh = λ k a there. v.fresh k a (get_kept s.running r.key k a there);
    distinct = λ j k a b at_j at_k.
        v.distinct j k a b (get_kept s.running r.key j a at_j) (get_kept s.running r.key k b at_k);
  }

  after_run-StepWires :
      (o : Option Loop) (r : Run)
      → owns r.key t ≡ true
      → StepWires (after_run o, record s { running = remove r.key s.running })
  after_run-StepWires none r mine = removed r returned mine (λ m. tt)
  after_run-StepWires (some l) r mine = removed r (looping l) mine (λ m. tt)

module _ (parses : Text → Bool) (next_fire : Text → ℤ → Option ℤ) (now : ℤ)
    (worlds : ℕ → AttemptWorld) (s : SchedulerInner) (i : ℕ) (x : IsExclusive s)
    (v : IsWired s) where
  -- A step that leaves the map alone, whichever way it branches.
  pub step_task-StepWires :
      (t : Task) (at_i : get_elem? s.tasks i ≡ some t)
      → StepWires s i t x v at_i (step_task parses next_fire now worlds t s)
  unfolding step_task begin_running record_outcome record_skip
  step_task-StepWires (calling key extras) at_i = elim (Option-cases (get key s.jobs)) [
    | inl missing ↦ rw (step_task, missing) (quiet s i (calling key extras) x v at_i _ tt)
    | inr (entry, found) ↦ rw (step_task, found) (quiet s i (calling key extras) x v at_i _ tt)
  ]
  step_task-StepWires (starting l) at_i = elim (Bool-cases (parses l.expr)) [
    | inl valid ↦ rw (step_task, valid) (quiet s i (starting l) x v at_i _ tt)
    | inr invalid ↦ rw (step_task, invalid) (quiet s i (starting l) x v at_i _ tt)
  ]
  step_task-StepWires (looping l) at_i = elim (Option-cases (next_fire l.expr now)) [
    | inl never ↦ rw (step_task, never) (quiet s i (looping l) x v at_i _ tt)
    | inr (next, soon) ↦ rw (step_task, soon) (quiet s i (looping l) x v at_i _ tt)
  ]
  step_task-StepWires (sleeping l next) at_i = elim (Bool-cases (ltbℤ now next)) [
    | inl early ↦ rw (step_task, early) (quiet s i (sleeping l next) x v at_i _ tt)
    | inr due ↦ elim (Bool-cases (allows l.spec.window now)) [
      | inl inside ↦ rw (step_task, due, inside) (quiet s i (sleeping l next) x v at_i _ tt)
      | inr outside ↦ rw (step_task, due, outside) (quiet s i (sleeping l next) x v at_i _ tt)
    ]
  ]
  step_task-StepWires (ready r) at_i =
      begun-StepWires s i (ready r) x v at_i r now (contains_key r.key s.running) refl
  step_task-StepWires (begun r) at_i =
      with_cancel-StepWires s i (begun r) x v at_i (get r.key s.running) r refl
  step_task-StepWires (dispatching r c) at_i = quiet s i (dispatching r c) x v at_i (recorded r) tt
  step_task-StepWires (recorded r) at_i =
      after_run-StepWires s i (recorded r) x v at_i r.from r (==_self r.key)
  step_task-StepWires (replied r) at_i = quiet s i (replied r) x v at_i (replied r) tt
  step_task-StepWires returned at_i = quiet s i returned x v at_i returned tt
  step_task-StepWires panicked at_i = quiet s i panicked x v at_i panicked tt
