-- ===== src/Scheduler/Tasks/Refinement.antt =====
-- The scheduler's `running` is the lock of Lock.antt, for every key.
use cron_manager.Base.{
  ℕ, ◌≡◌, ◌≢◌, refl, sym, ap, ap₂, subst, ◌∙◌, inl, inr, Bool, Bool-cases, true, false, Option,
  none, some, List, [], ◌∷◌, arith, length, get_elem?, set,
}
use mathlib.Core.Option.{some-injective, none-ne-some}
use cron_manager.Base.Int.{ℤ}
use cron_manager.Base.Map.{contains_key}
use cron_manager.Base.Text.{Text}
use cron_manager.Dsl.{JobKey, key_eq}
use cron_manager.Executor.Dispatch.{AttemptWorld, ExecutorBundle}
use cron_manager.Scheduler.{Task, calling, SchedulerInner, new, loops_of}
use cron_manager.Scheduler.Tasks.{
  Event, step, call, take_out, spawn, put_in, clear, notify, step_task, step_at, put_back, apply,
  run,
}
use cron_manager.Scheduler.Tasks.Owners.{owns, get_elem?-append}
use cron_manager.Scheduler.Tasks.Exclusion.{
  IsExclusive, owned_runs, apply-IsExclusive, new-IsExclusive,
}
use cron_manager.Scheduler.Tasks.Lock.{
  Lock, free, held, LockStep, LockSteps, stepped, steps_left, Represents,
}
use cron_manager.Base.{eqb, eqb_iff}
use cron_manager.Scheduler.Tasks.Balance.{get_elem?-step_task}
use cron_manager.Scheduler.Tasks.Owners.{set_self, set_other, get_elem?-end, get_elem?-bound}
use cron_manager.Scheduler.Tasks.Effect.{
  Effect, idle, acquire, keep, hand_over, release, Effect-step_task,
}

module _ (k : JobKey) (s : SchedulerInner) (i : ℕ) (t : Task) (x : IsExclusive s)
    (at_i : get_elem? s.tasks i ≡ some t) where
  -- A key that no task owns.
  step_free :
      (p : Task × SchedulerInner)
      → get_elem? p.1.tasks i ≡ some t
      → contains_key k s.running ≡ false
      → Effect k t s p
      → (b : Lock) × LockStep (some i) free b × Represents k (put_back i p) b
  step_free (u, s2) kept h (idle mine after same) = (free, tt, same ∙ h)
  step_free (u, s2) kept h (acquire mine none_running after rank) =
      (held i 2, (refl, refl), (u, set_self s2.tasks i t u kept, after, sym rank))
  step_free (u, s2) kept h (keep mine after rank) = cc (owned_runs s i t x at_i k mine)
  step_free (u, s2) kept h (hand_over mine v tasks after rank) = cc (owned_runs s i t x at_i k mine)
  step_free (u, s2) kept h (release mine rank gone) = cc (owned_runs s i t x at_i k mine)

  -- A step of the owner.
  step_held :
      (p : Task × SchedulerInner)
      → get_elem? p.1.tasks i ≡ some t
      → owns k t ≡ true
      → Effect k t s p
      → (b : Lock) × LockStep (some i) (held i (steps_left t)) b × Represents k (put_back i p) b
  step_held (u, s2) kept h (idle mine after same) = cc
  step_held (u, s2) kept h (acquire mine none_running after rank) = cc
  step_held (u, s2) kept h (keep mine after rank) =
      (held i (steps_left u), inl (refl, rank), (u, set_self s2.tasks i t u kept, after, refl))
  step_held (u, s2) kept h (hand_over mine v tasks after rank) =
      (held (length s.tasks) (steps_left v), inl (refl, rank), (v, at_end, after, refl))
    where
      at_end : get_elem? (set s2.tasks i u) (length s.tasks) ≡ some v
      at_end =
          set_other s2.tasks i (length s.tasks) u (get_elem?-bound s.tasks i t at_i)
          ∙ ap (λ ts. get_elem? ts (length s.tasks)) tasks
          ∙ get_elem?-end s.tasks v
  step_held (u, s2) kept h (release mine rank gone) = (free, (refl, rank), gone)

  step_lock :
      (a : Lock) (p : Task × SchedulerInner)
      → ((u : Task) (j : ℕ) → get_elem? s.tasks j ≡ some u → get_elem? p.1.tasks j ≡ some u)
      → Represents k s a
      → Effect k t s p
      → (b : Lock) × LockStep (some i) a b × Represents k (put_back i p) b
  step_lock free p kept h effect = step_free p (kept t i at_i) h effect
  step_lock (held j n) p kept (v, at_j, mine, rank) effect = elim (Bool-cases (eqb i j)) [
    | inl same ↦
        subst (λ a. (b : Lock) × LockStep (some i) a b × Represents k (put_back i p) b)
          (ap₂ held ((eqb_iff i j).0 same) (ap steps_left (is_t ((eqb_iff i j).0 same)) ∙ sym rank))
          (step_held p (kept t i at_i) (ap (owns k) (is_t ((eqb_iff i j).0 same)) ∙ mine) effect)
    | inr other ↦ (
      held j n,
      inr (λ q. not_same other (some-injective i j q), refl, refl),
      (v, set_other p.1.tasks i j p.0 other ∙ kept v j at_j, mine, rank),
    )
  ]
    where
      is_t : i ≡ j → t ≡ v
      is_t e = some-injective t v (sym at_i ∙ ap (get_elem? s.tasks) e ∙ at_j)

      not_same : eqb i j ≡ false → i ≢ j
      not_same other e = ground (arith, other, e)

-- The lock that a state represents stays where other tasks and the other operations step.
appended :
    (k : JobKey) (a : Lock) (s s2 : SchedulerInner)
    → ((u : Task) (j : ℕ) → get_elem? s.tasks j ≡ some u → get_elem? s2.tasks j ≡ some u)
    → s2.running ≡ s.running
    → Represents k s a
    → (b : Lock) × LockStep none a b × Represents k s2 b
appended k free s s2 kept e h = (free, tt, ap (contains_key k) e ∙ h)
appended k (held j n) s s2 kept e (v, at_j, mine, rank) =
    (held j n, inr (λ q. cc, refl, refl), (v, kept v j at_j, mine, rank))

no_task :
    (ts : List Task) (i j : ℕ) (v : Task)
    → get_elem? ts i ≡ none
    → get_elem? ts j ≡ some v
    → some i ≢ some j
no_task ts i j v at_i at_j q =
    none-ne-some v (sym at_i ∙ ap (get_elem? ts) (some-injective i j q) ∙ at_j)

module _ (parses : Text → Bool) (next_fire : Text → ℤ → Option ℤ) (k : JobKey) where
  step_at-Represents :
      (a : Lock) (i : ℕ) (now : ℤ) (worlds : ℕ → AttemptWorld) (o : Option Task)
      (s : SchedulerInner)
      → get_elem? s.tasks i ≡ o
      → IsExclusive s
      → Represents k s a
      → (b : Lock) × LockStep (some i) a b
        × Represents k (step_at parses next_fire i now worlds o s) b
  unfolding step_at
  step_at-Represents free i now worlds none s at_i x h = (free, tt, h)
  step_at-Represents (held j n) i now worlds none s at_i x (v, at_j, mine, rank) =
      (held j n, inr (no_task s.tasks i j v at_i at_j, refl, refl), (v, at_j, mine, rank))
  step_at-Represents a i now worlds (some t) s at_i x h =
      step_lock k s i t x at_i a (step_task parses next_fire now worlds t s)
        (λ u j. get_elem?-step_task parses next_fire now worlds s t u j) h
        (Effect-step_task parses next_fire now worlds s k t (owned_runs s i t x at_i))

  -- Every event is a step of the lock of every key, of the task that the event steps.
  pub apply-Represents :
      (a : Lock) (e : Event) (s : SchedulerInner)
      → IsExclusive s
      → Represents k s a
      → (b : Lock) × LockStep (stepped e) a b × Represents k (apply parses next_fire e s) b
  unfolding apply
  apply-Represents a (step i now worlds) s x h =
      step_at-Represents a i now worlds (get_elem? s.tasks i) s refl x h
  apply-Represents a (call key extras) s x h =
      appended k a s (apply parses next_fire (call key extras) s)
        (λ u j. get_elem?-append s.tasks (calling key extras ∷ []) j u) refl h
  apply-Represents a (take_out key) s x h =
      appended k a s (apply parses next_fire (take_out key) s) (λ u j e. e) refl h
  apply-Represents a (spawn spec) s x h =
      appended k a s (apply parses next_fire (spawn spec) s)
        (λ u j. get_elem?-append s.tasks (loops_of spec spec.trigger (length s.cells)) j u) refl h
  apply-Represents a (put_in entry) s x h =
      appended k a s (apply parses next_fire (put_in entry) s) (λ u j e. e) refl h
  apply-Represents a clear s x h =
      appended k a s (apply parses next_fire clear s) (λ u j e. e) refl h
  apply-Represents a (notify ns) s x h =
      appended k a s (apply parses next_fire (notify ns) s) (λ u j e. e) refl h

  run-Represents :
      (a : Lock) (es : List Event) (s : SchedulerInner)
      → IsExclusive s
      → Represents k s a
      → (b : Lock) × LockSteps es a b × Represents k (run parses next_fire es s) b
  unfolding run
  run-Represents a [] s x h = (a, refl, h)
  run-Represents a (e ∷ es) s x h =
      let (c, first, h2) = apply-Represents a e s x h in
      let (b, later, h3) =
        run-Represents c es (apply parses next_fire e s) (apply-IsExclusive parses next_fire e s x)
          h2 in
      (b, (c, first, later), h3)

  -- Every interleaving of calls of `trigger_now`, of scheduling loops, of registrations, reloads and
  -- stops, from a new scheduler on, is a run of the lock of every key. A key that is free is taken
  -- only by a step of the task that then holds it; while it is held, no other event changes it, and
  -- each step of the holder uses up one of its steps left, where the holder may hand the lock to the
  -- task it spawns; the step after the last one frees the key. Where the lock is
  -- free `running` has no entry of the key, and where it is held the holder is a task that has begun a
  -- run of the key and not removed its entry.
  pub running-refines-lock :
      (bundle : ExecutorBundle) (es : List Event)
      → (b : Lock) × LockSteps es free b × Represents k (run parses next_fire es (new bundle)) b
  unfolding contains_key
  running-refines-lock bundle es = run-Represents free es (new bundle) (new-IsExclusive bundle) refl
