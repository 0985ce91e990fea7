-- ===== src/Scheduler/Tasks/Progress.antt =====
-- A run that has begun can always end.
use cron_manager.Base.{
  ℕ, zero, suc, ◌≡◌, ◌≤◌, refl, ap, ◌∙◌, Bool-cases, Bool, true, false, Option, some, List, [], ◌∷◌,
  length, arith, inl, inr, count, get_elem?,
}
use cron_manager.Base.Int.{ℤ}
use cron_manager.Base.Map.{contains_key}
use cron_manager.Base.Text.{Text}
use cron_manager.Dsl.{JobKey, key_eq}
use cron_manager.Executor.Dispatch.{AttemptWorld, ExecutorBundle}
use cron_manager.Scheduler.{SchedulerInner, Task, new}
use cron_manager.Scheduler.Tasks.{Event, step, run, apply}
use cron_manager.Scheduler.Tasks.Owners.{owns, one}
use cron_manager.Scheduler.Tasks.Exclusion.{IsExclusive, apply-IsExclusive, one_run_per_key}
use cron_manager.Scheduler.Tasks.Lock.{Lock, free, held, LockStep, steps_left, Represents}
use cron_manager.Scheduler.Tasks.Refinement.{apply-Represents}

abbrev Found : (Task → Bool) → List Task → Type 0
Found p ts = (i : ℕ) × (t : Task) × (get_elem? ts i ≡ some t) × (p t ≡ true)

found_later : (p : Task → Bool) (t : Task) (ts : List Task) → Found p ts → Found p (t ∷ ts)
found_later p t ts (i, u, at_i, own) = (suc i, u, at_i, own)

find_owner : (p : Task → Bool) (ts : List Task) → 1 ≤ count p ts → Found p ts
find_owner p [] h = absurd (omega (arith, h))
find_owner p (t ∷ ts) h = elim (Bool-cases (p t)) [
  | inl own ↦ (0, t, refl, own)
  | inr other ↦ found_later p t ts (find_owner p ts (ground (arith, h, other)))
]

steps_left-bound : (t : Task) → steps_left t ≤ 2
steps_left-bound t = ground arith

module _ (parses : Text → Bool) (next_fire : Text → ℤ → Option ℤ) (now : ℕ → ℤ)
    (worlds : ℕ → ℕ → AttemptWorld) where
  -- Steps of these tasks one after the other, each at its time and with what its run meets then.
  abbrev pub steps : ℕ → List ℕ → List Event
  steps c [] = []
  steps c (i ∷ is) = step i (now c) (worlds c) ∷ steps (suc c) is

  -- So many steps free the key.
  abbrev pub FreedIn : JobKey → ℕ → ℕ → SchedulerInner → Type 0
  FreedIn k n c s =
      (is : List ℕ) × (length is ≡ n)
      × (contains_key k (run parses next_fire (steps c is) s).running ≡ false)

  last_step :
      (k : JobKey) (i c : ℕ) (s : SchedulerInner)
      → ((b : Lock) × LockStep (some i) (held i 0) b
          × Represents k (apply parses next_fire (step i (now c) (worlds c)) s) b)
      → FreedIn k 1 c s
  unfolding run
  last_step k i c s (free, e, h) = (i ∷ [], refl, h)
  last_step k i c s (held j m, inl (e, less), h) = cc
  last_step k i c s (held j m, inr (other, e, same), h) = absurd (other refl)

  next_step :
      (k : JobKey) (n i c : ℕ) (s : SchedulerInner)
      → ((b : Lock) × LockStep (some i) (held i (suc n)) b
          × Represents k (apply parses next_fire (step i (now c) (worlds c)) s) b)
      → ((j : ℕ)
          → Represents k (apply parses next_fire (step i (now c) (worlds c)) s) (held j n)
          → FreedIn k (suc n) (suc c) (apply parses next_fire (step i (now c) (worlds c)) s))
      → FreedIn k (suc (suc n)) c s
  unfolding run
  next_step k n i c s (free, e, h) later = cc
  next_step k n i c s (held j m, inl (e, less), (t, at_j, mine, rank)) later =
      let (is, long, freed) = later j (t, at_j, mine, omega (arith, less, rank)) in
      (i ∷ is, ap suc long, freed)
  next_step k n i c s (held j m, inr (other, e, same), h) later = absurd (other refl)

  holders_free :
      (k : JobKey) (n i c : ℕ) (s : SchedulerInner)
      → IsExclusive s
      → Represents k s (held i n)
      → FreedIn k (suc n) c s
  holders_free k zero i c s x h =
      last_step k i c s
        (apply-Represents parses next_fire k (held i 0) (step i (now c) (worlds c)) s x h)
  holders_free k (suc n) i c s x h =
      next_step k n i c s
        (apply-Represents parses next_fire k (held i (suc n)) (step i (now c) (worlds c)) s x h)
        (λ j.
          holders_free k n j (suc c) (apply parses next_fire (step i (now c) (worlds c)) s)
            (apply-IsExclusive parses next_fire (step i (now c) (worlds c)) s x))

  running_key_is_freed :
      (k : JobKey) (s : SchedulerInner)
      → IsExclusive s
      → contains_key k s.running ≡ true
      → (n : ℕ) × (n ≤ 3) × FreedIn k n 0 s
  running_key_is_freed k s x h =
      let (i, t, at_i, mine) = find_owner (owns k) s.tasks (omega (arith, x.owners k ∙ ap one h)) in
      (
        suc (steps_left t),
        omega (arith, steps_left-bound t),
        holders_free k (steps_left t) i 0 s x (t, at_i, mine, refl),
      )

  -- A run can always end: in every state that an interleaving of calls, scheduling loops, registrations,
  -- reloads and stops reaches from a new scheduler and in which `running` has the key, at most three
  -- steps of tasks that are there take its entry out, whatever the times are and whatever the
  -- dispatch meets, failures included.
  pub running_is_freed :
      (bundle : ExecutorBundle) (es : List Event) (k : JobKey)
      → contains_key k (run parses next_fire es (new bundle)).running ≡ true
      → (n : ℕ) × (n ≤ 3) × FreedIn k n 0 (run parses next_fire es (new bundle))
  running_is_freed bundle es k h =
      running_key_is_freed k (run parses next_fire es (new bundle))
        (one_run_per_key parses next_fire bundle es) h
