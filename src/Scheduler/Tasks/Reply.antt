-- ===== src/Scheduler/Tasks/Reply.antt =====
-- `trigger_now` comes to an end: how many steps of its task are left, over every interleaving.
use cron_manager.Base.{
  ℕ, ◌+◌, ◌-◌, ◌≤◌, ◌≡◌, refl, sym, ap, subst, ◌∙◌, inl, inr, Bool, Bool-cases, true, Option, none,
  some, List, [], ◌∷◌, arith, length, get_elem?, set, eqb, eqb_iff, is_some,
}
use mathlib.Core.Option.{some-injective, none-ne-some}
use cron_manager.Base.Int.{ℤ}
use cron_manager.Base.Eq.{==_self}
use cron_manager.Base.Map.{get, contains_key, contains_key-get}
use cron_manager.Base.Results.{Result, ok, err}
use cron_manager.Base.Text.{Text}
use cron_manager.Dsl.{JobKey, key_eq}
use cron_manager.Error.{CronManagerError, job_not_found}
use cron_manager.Executor.Dispatch.{AttemptWorld, DispatchExtras, ExecutorBundle}
use cron_manager.Scheduler.{
  Loop, Run, RunningInstance, RegisteredJob, Task, calling, starting, looping, sleeping, ready,
  begun, dispatching, recorded, replied, returned, panicked, SchedulerInner, new, begin_running,
  loops_of,
}
use cron_manager.Scheduler.Tasks.{
  Event, step, call, take_out, spawn, put_in, clear, notify, step_task, step_at, triggered,
  with_begun, with_cancel, apply, run,
}
use cron_manager.Scheduler.Tasks.Balance.{get_elem?-step_task}
use cron_manager.Scheduler.Tasks.Exclusion.{
  IsExclusive, owned_runs, apply-IsExclusive, one_run_per_key,
}
use cron_manager.Scheduler.Tasks.Lock.{stepped}
use cron_manager.Scheduler.Tasks.Owners.{
  owns, one, get_elem?-append, get_elem?-end, set_self, set_other,
}

-- A task of `trigger_now` that answers within so many of its own steps.
abbrev pub AnswersIn : ℕ → Task → Type 0
AnswersIn n (calling key extras) = 3 ≤ n
AnswersIn n (ready r) = (2 ≤ n) × (r.from ≡ none)
AnswersIn n (begun r) = (1 ≤ n) × (r.from ≡ none)
AnswersIn n (replied r) = Unit
AnswersIn n (starting l) = ⊥
AnswersIn n (looping l) = ⊥
AnswersIn n (sleeping l next) = ⊥
AnswersIn n (dispatching r c) = ⊥
AnswersIn n (recorded r) = ⊥
AnswersIn n returned = ⊥
AnswersIn n panicked = ⊥

-- The steps of a task among the events.
abbrev pub turn : ℕ → Option ℕ → ℕ
turn i none = 0
turn i (some j) = one (eqb j i)

abbrev pub turns : ℕ → List Event → ℕ
turns i [] = 0
turns i (e ∷ es) = turn i (stepped e) + turns i es

-- The task there answers within so many of its steps.
abbrev pub AnswersAt : ℕ → ℕ → SchedulerInner → Type 0
AnswersAt i n s = (t : Task) × (get_elem? s.tasks i ≡ some t) × AnswersIn n t

answered : (t : Task) → AnswersIn 0 t → (r : Result {0, 0} Unit CronManagerError) × (t ≡ replied r)
answered (calling key extras) h = absurd (omega arith)
answered (ready r) h = absurd (omega arith)
answered (begun r) h = absurd (omega arith)
answered (replied r) h = (r, refl)
answered (starting _) h = absurd h
answered (looping _) h = absurd h
answered (sleeping _ _) h = absurd h
answered (dispatching _ _) h = absurd h
answered (recorded _) h = absurd h
answered returned h = absurd h
answered panicked h = absurd h

unhurried : (n : ℕ) (t : Task) → AnswersIn n t → AnswersIn (n - 0) t
unhurried n t a = subst (λ m. AnswersIn m t) (omega arith) a

module _ (parses : Text → Bool) (next_fire : Text → ℤ → Option ℤ) where
  module _ (now : ℤ) (worlds : ℕ → AttemptWorld) (n : ℕ) (s : SchedulerInner) where
    answers-with_cancel :
        (r : Run) (o : Option Loop) (running : Option RunningInstance)
        → r.from ≡ o
        → o ≡ none
        → is_some running ≡ true
        → AnswersIn (n - 1) (with_cancel running r s).0
    answers-with_cancel r o none e h there = cc
    answers-with_cancel r none (some inst) e h there = rw e tt
    answers-with_cancel r (some l) (some inst) e h there = cc

    answers-with_begun :
        (r : Run) (o : Option Loop) (begun' : Result SchedulerInner CronManagerError)
        → r.from ≡ o
        → o ≡ none
        → 2 ≤ n
        → AnswersIn (n - 1) (with_begun begun' r s).0
    answers-with_begun r none (err e) h free less = rw h tt
    answers-with_begun r (some l) (err e) h free less = cc
    answers-with_begun r o (ok s2) h free less = (omega arith, h ∙ free)

    answers-looked_up :
        (key : JobKey) (extras : DispatchExtras) (o : Option RegisteredJob)
        → 3 ≤ n
        → let p : Task × SchedulerInner = elim o [
          | none ↦ (replied (err (job_not_found key.group key.name)), s)
          | some entry ↦ (ready (triggered key extras entry), s)
        ] in
          AnswersIn (n - 1) p.0
    answers-looked_up key extras none less = tt
    answers-looked_up key extras (some entry) less = (omega arith, refl)

    -- A step of the task itself leaves it one step less.
    answers-step_task :
        (t : Task)
        → ((j : JobKey) → owns j t ≡ true → contains_key j s.running ≡ true)
        → AnswersIn n t
        → AnswersIn (n - 1) (step_task parses next_fire now worlds t s).0
    unfolding step_task
    answers-step_task (calling key extras) h a = answers-looked_up key extras (get key s.jobs) a
    answers-step_task (ready r) h a =
        answers-with_begun r r.from (begin_running s r.key r.schedule now) refl a.1 a.0
    answers-step_task (begun r) h a =
        answers-with_cancel r r.from (get r.key s.running) refl a.1
          (sym (contains_key-get r.key s.running) ∙ h r.key (==_self r.key))
    answers-step_task (replied r) h a = tt
    answers-step_task (starting _) h a = absurd a
    answers-step_task (looping _) h a = absurd a
    answers-step_task (sleeping _ _) h a = absurd a
    answers-step_task (dispatching _ _) h a = absurd a
    answers-step_task (recorded _) h a = absurd a
    answers-step_task returned h a = absurd a
    answers-step_task panicked h a = absurd a

  answers-step_at :
      (i n j : ℕ) (now : ℤ) (worlds : ℕ → AttemptWorld) (o : Option Task) (s : SchedulerInner)
      → get_elem? s.tasks j ≡ o
      → IsExclusive s
      → AnswersAt i n s
      → AnswersAt i (n - turn i (some j)) (step_at parses next_fire j now worlds o s)
  unfolding step_at
  answers-step_at i n j now worlds none s at_j x (t, at_i, a) = elim (Bool-cases (eqb j i)) [
    | inl same ↦
        absurd (none-ne-some t (sym at_j ∙ ap (get_elem? s.tasks) ((eqb_iff j i).0 same) ∙ at_i))
    | inr other ↦ rw other (t, at_i, unhurried n t a)
  ]
  answers-step_at i n j now worlds (some u) s at_j x (t, at_i, a) =
      let p = step_task parses next_fire now worlds u s in
      elim (Bool-cases (eqb j i)) [
        | inl same ↦
            let is_t : u ≡ t =
              some-injective u t
                (sym at_j ∙ ap (get_elem? s.tasks) ((eqb_iff j i).0 same) ∙ at_i) in
            rw same (
              p.0,
              subst (λ k. get_elem? (set p.1.tasks j p.0) k ≡ some p.0) ((eqb_iff j i).0 same)
                  (set_self p.1.tasks j u p.0
                    (get_elem?-step_task parses next_fire now worlds s u u j at_j)),
              answers-step_task now worlds n s u (owned_runs s j u x at_j)
                  (subst (AnswersIn n) (sym is_t) a),
            )
        | inr other ↦ rw other (
          t,
          set_other p.1.tasks j i p.0 other
              ∙ get_elem?-step_task parses next_fire now worlds s u t i at_i,
          unhurried n t a,
        )
      ]

  stays :
      (i n : ℕ) (s s2 : SchedulerInner)
      → ((t : Task) → get_elem? s.tasks i ≡ some t → get_elem? s2.tasks i ≡ some t)
      → AnswersAt i n s
      → AnswersAt i (n - 0) s2
  stays i n s s2 kept (t, at_i, a) = (t, kept t at_i, unhurried n t a)

  apply-AnswersAt :
      (i n : ℕ) (e : Event) (s : SchedulerInner)
      → IsExclusive s
      → AnswersAt i n s
      → AnswersAt i (n - turn i (stepped e)) (apply parses next_fire e s)
  unfolding apply
  apply-AnswersAt i n (step j now worlds) s x a =
      answers-step_at i n j now worlds (get_elem? s.tasks j) s refl x a
  apply-AnswersAt i n (call key extras) s x a =
      stays i n s (apply parses next_fire (call key extras) s)
        (λ t. get_elem?-append s.tasks (calling key extras ∷ []) i t) a
  apply-AnswersAt i n (take_out key) s x a =
      stays i n s (apply parses next_fire (take_out key) s) (λ t h. h) a
  apply-AnswersAt i n (spawn spec) s x a =
      stays i n s (apply parses next_fire (spawn spec) s)
        (λ t. get_elem?-append s.tasks (loops_of spec spec.trigger (length s.cells)) i t) a
  apply-AnswersAt i n (put_in entry) s x a =
      stays i n s (apply parses next_fire (put_in entry) s) (λ t h. h) a
  apply-AnswersAt i n clear s x a = stays i n s (apply parses next_fire clear s) (λ t h. h) a
  apply-AnswersAt i n (notify ns) s x a =
      stays i n s (apply parses next_fire (notify ns) s) (λ t h. h) a

  run-AnswersAt :
      (i n : ℕ) (es : List Event) (s : SchedulerInner)
      → IsExclusive s
      → AnswersAt i n s
      → AnswersAt i (n - turns i es) (run parses next_fire es s)
  unfolding run
  run-AnswersAt i n [] s x a = stays i n s s (λ t h. h) a
  run-AnswersAt i n (e ∷ es) s x a =
      subst (λ m. AnswersAt i m (run parses next_fire es (apply parses next_fire e s)))
        (let same : n - turn i (stepped e) - turns i es ≡ n - (turn i (stepped e) + turns i es) =
            omega arith in
          same)
        (run-AnswersAt i (n - turn i (stepped e)) es (apply parses next_fire e s)
          (apply-IsExclusive parses next_fire e s x) (apply-AnswersAt i n e s x a))

  -- `trigger_now` comes to an end: after a call of it, in whatever state an interleaving from a new
  -- scheduler has reached, and over every interleaving that then follows in which its own task goes
  -- on three times, the task has its answer; what the other tasks and operations do in between
  -- can neither make it take more steps nor make it panic.
  pub call_is_replied :
      (bundle : ExecutorBundle) (before after : List Event) (key : JobKey) (extras : DispatchExtras)
      → let s = run parses next_fire before (new bundle) in
        3 ≤ turns (length s.tasks) after
        → (answer : Result {0, 0} Unit CronManagerError) × (get_elem?
              (run parses next_fire (call key extras ∷ after) s).tasks
              (length s.tasks)
            ≡ some (replied answer))
  unfolding run apply
  call_is_replied bundle before after key extras less =
      let s = run parses next_fire before (new bundle) in
      let called = apply parses next_fire (call key extras) s in
      let (t, at_i, a) =
        run-AnswersAt (length s.tasks) 3 after called
          (apply-IsExclusive parses next_fire (call key extras) s
            (one_run_per_key parses next_fire bundle before))
          (calling key extras, get_elem?-end s.tasks (calling key extras), omega arith) in
      let (answer, is_replied) = answered t (subst (λ m. AnswersIn m t) (omega (arith, less)) a) in
      (answer, at_i ∙ ap some is_replied)
