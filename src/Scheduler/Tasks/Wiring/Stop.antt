-- ===== src/Scheduler/Tasks/Wiring/Stop.antt =====
-- Whom `stop` reaches, over every interleaving.
use mathlib.Core.Option.{some-injective}
use cron_manager.Base.{
  ℕ, zero, suc, ◌≡◌, ◌≢◌, refl, sym, ap, subst, ◌∙◌, ◌⊎◌, inl, inr, Bool, Bool-cases, true, Option,
  none, some, List, [], ◌∷◌, ◌++◌, length, get_elem?, All,
}
use mathlib.Core.List.{append-nil}
use cron_manager.Base.Eq.{◌==◌, ==_iff}
use cron_manager.Base.Int.{ℤ}
use cron_manager.Base.Map.{get, contains_key}
use cron_manager.Base.Results.{ok}
use cron_manager.Base.Text.{Text}
use cron_manager.Dsl.{JobKey, JobSpec, Trigger, cron, manual, key_eq}
use cron_manager.Executor.Dispatch.{AttemptWorld, DispatchExtras, ExecutorBundle}
use cron_manager.Scheduler.{
  RunningInstance, Run, Task, calling, dispatching, SchedulerInner, new, loops_of, stop,
}
use cron_manager.Scheduler.Tasks.{
  Event, step, call, take_out, spawn, put_in, clear, notify, step_task, step_at, apply, run,
}
use cron_manager.Scheduler.Tasks.Balance.{get_elem?-step_task}
use cron_manager.Scheduler.Tasks.Exclusion.{IsExclusive, apply-IsExclusive, new-IsExclusive}
use cron_manager.Scheduler.Tasks.Wiring.{
  Running, Listens, IsWired, get_elem?-split, put_back-IsWired,
}
use cron_manager.Scheduler.Tasks.Wiring.Steps.{step_task-StepWires}

-- Tasks that dispatch nothing.
loops-Listen :
    (m : Running) (spec : JobSpec) (t : Trigger) (state k : ℕ) (w : Task)
    → get_elem? (loops_of spec t state) k ≡ some w
    → Listens m w
loops-Listen m spec (cron e) state zero w h = subst (Listens m) (some-injective _ w h) tt
loops-Listen m spec (cron e) state (suc k) w h = cc
loops-Listen m spec manual state k w h = cc

more_tasks :
    (s : SchedulerInner) (ts : List Task)
    → IsWired s
    → ((k : ℕ) (w : Task) → get_elem? ts k ≡ some w → Listens s.running w)
    → IsWired (record s { tasks = s.tasks ++ ts })
more_tasks s ts v h = record {
  listens = λ j w at_j. elim (get_elem?-split s.tasks ts j w at_j) [
    | inl old ↦ v.listens j w old
    | inr (k, added) ↦ h k w added
  ];
  fresh = v.fresh;
  distinct = v.distinct;
}

call-Listens :
    (m : Running) (key : JobKey) (extras : DispatchExtras) (k : ℕ) (w : Task)
    → get_elem? (calling key extras ∷ []) k ≡ some w
    → Listens m w
call-Listens m key extras zero w h = subst (Listens m) (some-injective _ w h) tt
call-Listens m key extras (suc k) w h = cc

new-IsWired : (bundle : ExecutorBundle) → IsWired (new bundle)
unfolding get
new-IsWired bundle = record {
  listens = λ i t h. cc;
  fresh = λ k inst h. cc;
  distinct = λ j k a b h. cc;
}

module _ (parses : Text → Bool) (next_fire : Text → ℤ → Option ℤ) where
  step_at-IsWired :
      (i : ℕ) (now : ℤ) (worlds : ℕ → AttemptWorld) (o : Option Task) (s : SchedulerInner)
      → get_elem? s.tasks i ≡ o
      → IsExclusive s
      → IsWired s
      → IsWired (step_at parses next_fire i now worlds o s)
  unfolding step_at
  step_at-IsWired i now worlds none s h x v = v
  step_at-IsWired i now worlds (some t) s h x v =
      let p = step_task parses next_fire now worlds t s in
      put_back-IsWired p.1 i t p.0 (get_elem?-step_task parses next_fire now worlds s t t i h)
        (step_task-StepWires parses next_fire now worlds s i x v t h)

  apply-IsWired :
      (e : Event) (s : SchedulerInner)
      → IsExclusive s
      → IsWired s
      → IsWired (apply parses next_fire e s)
  unfolding apply
  apply-IsWired (step i now worlds) s x v =
      step_at-IsWired i now worlds (get_elem? s.tasks i) s refl x v
  apply-IsWired (call key extras) s x v =
      more_tasks s (calling key extras ∷ []) v (call-Listens s.running key extras)
  apply-IsWired (take_out key) s x v = record {
    listens = v.listens;
    fresh = v.fresh;
    distinct = v.distinct;
  }
  apply-IsWired (spawn spec) s x v =
      let w =
        more_tasks s (loops_of spec spec.trigger (length s.cells)) v
          (loops-Listen s.running spec spec.trigger (length s.cells)) in
      record { listens = w.listens; fresh = w.fresh; distinct = w.distinct }
  apply-IsWired (put_in entry) s x v = record {
    listens = v.listens;
    fresh = v.fresh;
    distinct = v.distinct;
  }
  apply-IsWired clear s x v = record { listens = v.listens; fresh = v.fresh; distinct = v.distinct }
  apply-IsWired (notify ns) s x v = record {
    listens = v.listens;
    fresh = v.fresh;
    distinct = v.distinct;
  }

  run-IsWired :
      (es : List Event) (s : SchedulerInner)
      → IsExclusive s
      → IsWired s
      → IsWired (run parses next_fire es s)
  unfolding run
  run-IsWired [] s x v = v
  run-IsWired (e ∷ es) s x v =
      run-IsWired es (apply parses next_fire e s) (apply-IsExclusive parses next_fire e s x)
        (apply-IsWired e s x v)

-- What a stop of a key does to a dispatch that listens to a handle.
abbrev pub StopMeets : SchedulerInner → JobKey → Run → ℕ → Type 0
StopMeets s key r c =
    ((r.key ≡ key) × (stop s key ≡ (ok true, record s { signalled = s.signalled ++ (c ∷ []) })))
    ⊎ ((r.key ≢ key)
        × (ns : List ℕ) × ((stop s key).1.signalled ≡ s.signalled ++ ns)
        × All (λ n. n ≢ c) ns)

module _ (s : SchedulerInner) (v : IsWired s) (key : JobKey) (r : Run) (c : ℕ)
    (inst : RunningInstance) (at_r : get r.key s.running ≡ some inst) (same : inst.cancel ≡ c)
    (there : contains_key key s.jobs ≡ true) where
  own_stop : r.key ≡ key → stop s key ≡ (ok true, record s { signalled = s.signalled ++ (c ∷ []) })
  unfolding stop
  own_stop e =
      rw (there, sym (ap (λ k. get k s.running) e) ∙ at_r)
        (ap (λ n. (ok true, record s { signalled = s.signalled ++ (n ∷ []) })) same)

  other_stop :
      r.key ≢ key
      → (o : Option RunningInstance) → get key s.running ≡ o
      → (ns : List ℕ) × ((stop s key).1.signalled ≡ s.signalled ++ ns) × All (λ n. n ≢ c) ns
  unfolding stop
  other_stop other none h = ([], rw (there, h) (sym (append-nil s.signalled)), tt)
  other_stop other (some own) h = (
    own.cancel ∷ [],
    rw (there, h) refl,
    (λ e. other (v.distinct r.key key inst own at_r h (same ∙ sym e)), tt),
  )

  reached : StopMeets s key r c
  reached = elim (Bool-cases (r.key == key)) [
    | inl mine ↦ inl ((==_iff r.key key).0 mine, own_stop ((==_iff r.key key).0 mine))
    | inr other ↦
        let apart : r.key ≢ key = λ e. cc (sym other ∙ (==_iff r.key key).1 e) in
        let (ns, signals, none_is_c) = other_stop apart (get key s.running) refl in
        inr (apart, ns, signals, none_is_c)
  ]

-- A stop reaches the run that it names, and no other: in every state that an interleaving of calls,
-- scheduling loops, registrations, reloads and stops reaches from a new scheduler, and for every
-- dispatch that is under way there, a stop of a registered key answers true and signals exactly
-- the cancel handle that this dispatch listens to, if the key is that of its run; and if it is
-- another key, the stop does not signal that handle.
pub stop_reaches_run :
    (parses : Text → Bool) (next_fire : Text → ℤ → Option ℤ) (bundle : ExecutorBundle)
    (es : List Event) (key : JobKey) (i : ℕ) (r : Run) (c : ℕ)
    → let s = run parses next_fire es (new bundle) in
      get_elem? s.tasks i ≡ some (dispatching r c)
      → contains_key key s.jobs ≡ true
      → StopMeets s key r c
stop_reaches_run parses next_fire bundle es key i r c at_i there =
    let s = run parses next_fire es (new bundle) in
    let v =
      run-IsWired parses next_fire es (new bundle) (new-IsExclusive bundle) (new-IsWired bundle) in
    let (inst, at_r, same) = v.listens i (dispatching r c) at_i in
    reached s v key r c inst at_r same there
