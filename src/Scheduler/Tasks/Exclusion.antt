-- ===== src/Scheduler/Tasks/Exclusion.antt =====
-- At most one run of a job, over every interleaving.
use cron_manager.Base.{
  ℕ, ◌≡◌, refl, ◌∙◌, Bool, true, false, Option, none, some, List, [], ◌∷◌, ◌++◌, arith, length,
  get_elem?, set, count, count-append,
}
use cron_manager.Base.Int.{ℤ}
use cron_manager.Base.Map.{contains_key}
use cron_manager.Base.Text.{Text}
use cron_manager.Dsl.{JobKey, JobSpec, Trigger, cron, manual, key_eq}
use cron_manager.Executor.Dispatch.{AttemptWorld, ExecutorBundle}
use cron_manager.Scheduler.{Loop, Task, calling, starting, SchedulerInner, new, loops_of}
use cron_manager.Scheduler.Tasks.{
  Event, step, call, take_out, spawn, put_in, clear, notify, step_task, step_at, put_back, apply,
  run,
}
use cron_manager.Scheduler.Tasks.Owners.{owns, has_panicked, one, count-set, count-get_elem?}
use cron_manager.Scheduler.Tasks.Balance.{
  Balanced, Sound, Balanced-step_task, Sound-step_task, get_elem?-step_task,
}

pub record IsExclusive (s : SchedulerInner) : Type 0 where
  pub owners : (k : JobKey) → count (owns k) s.tasks ≡ one (contains_key k s.running)
  pub sound : count has_panicked s.tasks ≡ 0

count-loops_of :
    (p : Task → Bool)
    → ((l : Loop) → p (starting l) ≡ false)
    → (spec : JobSpec) (t : Trigger) (state : ℕ) (ts : List Task)
    → count p (ts ++ loops_of spec t state) ≡ count p ts
count-loops_of p h spec (cron e) state ts = ground (
  arith,
  count-append p ts (loops_of spec (cron e) state),
  h (record { spec = spec; expr = e; state = state }),
)
count-loops_of p h spec manual state ts = omega (arith, count-append p ts [])

pub owned_runs :
    (s : SchedulerInner) (i : ℕ) (t : Task)
    → IsExclusive s
    → get_elem? s.tasks i ≡ some t
    → (j : JobKey) → owns j t ≡ true
    → contains_key j s.running ≡ true
owned_runs s i t x h j o = ground (arith, x.owners j, count-get_elem? (owns j) s.tasks i t h)

pub new-IsExclusive : (bundle : ExecutorBundle) → IsExclusive (new bundle)
unfolding contains_key
new-IsExclusive bundle = record { owners = λ k. refl; sound = refl }

module _ (parses : Text → Bool) (next_fire : Text → ℤ → Option ℤ) where
  IsExclusive-put_back :
      (s : SchedulerInner) (i : ℕ) (t : Task) (p : Task × SchedulerInner)
      → IsExclusive s
      → get_elem? s.tasks i ≡ some t
      → get_elem? p.1.tasks i ≡ some t
      → ((k : JobKey) → Balanced k t s p)
      → Sound t s p
      → IsExclusive (put_back i p)
  IsExclusive-put_back s i t (u, s2) x h h2 balanced sound = record {
    owners = λ k. owner k;
    sound = omega (arith, x.sound, sound, count-set has_panicked s2.tasks i t u h2);
  }
    where
      owner : (k : JobKey) → count (owns k) (set s2.tasks i u) ≡ one (contains_key k s2.running)
      owner k = omega (arith, x.owners k, balanced k, count-set (owns k) s2.tasks i t u h2)

  step_at-IsExclusive :
      (i : ℕ) (now : ℤ) (worlds : ℕ → AttemptWorld) (o : Option Task) (s : SchedulerInner)
      → get_elem? s.tasks i ≡ o
      → IsExclusive s
      → IsExclusive (step_at parses next_fire i now worlds o s)
  unfolding step_at
  step_at-IsExclusive i now worlds none s h x = x
  step_at-IsExclusive i now worlds (some t) s h x =
      IsExclusive-put_back s i t (step_task parses next_fire now worlds t s) x h
        (get_elem?-step_task parses next_fire now worlds s t t i h)
        (λ k. Balanced-step_task parses next_fire now worlds s k t (owned_runs s i t x h))
        (Sound-step_task parses next_fire now worlds s t (owned_runs s i t x h))

  pub apply-IsExclusive :
      (e : Event) (s : SchedulerInner) → IsExclusive s → IsExclusive (apply parses next_fire e s)
  unfolding apply
  apply-IsExclusive (step i now worlds) s x =
      step_at-IsExclusive i now worlds (get_elem? s.tasks i) s refl x
  apply-IsExclusive (call key extras) s x = record {
    owners =
        λ k. omega (arith, x.owners k, count-append (owns k) s.tasks (calling key extras ∷ []));
    sound = omega (arith, x.sound, count-append has_panicked s.tasks (calling key extras ∷ []));
  }
  apply-IsExclusive (take_out key) s x = record { owners = x.owners; sound = x.sound }
  apply-IsExclusive (spawn spec) s x = record {
    owners = λ k.
        count-loops_of (owns k) (λ l. refl) spec spec.trigger (length s.cells) s.tasks ∙ x.owners k;
    sound =
        count-loops_of has_panicked (λ l. refl) spec spec.trigger (length s.cells) s.tasks
        ∙ x.sound;
  }
  apply-IsExclusive (put_in entry) s x = record { owners = x.owners; sound = x.sound }
  apply-IsExclusive clear s x = record { owners = x.owners; sound = x.sound }
  apply-IsExclusive (notify ns) s x = record { owners = x.owners; sound = x.sound }

  pub run-IsExclusive :
      (es : List Event) (s : SchedulerInner)
      → IsExclusive s
      → IsExclusive (run parses next_fire es s)
  unfolding run
  run-IsExclusive [] s x = x
  run-IsExclusive (e ∷ es) s x =
      run-IsExclusive es (apply parses next_fire e s) (apply-IsExclusive e s x)

  -- Over every interleaving of calls of `trigger_now`, of scheduling loops, of registrations, reloads
  -- and stops, from a new scheduler on: the tasks that have begun a run of a key and not yet removed
  -- it are one when `running` has the key, and none when it does not; and no task is at the panic
  -- of `expect("just inserted")`.
  pub one_run_per_key :
      (bundle : ExecutorBundle) (es : List Event)
      → IsExclusive (run parses next_fire es (new bundle))
  one_run_per_key bundle es = run-IsExclusive es (new bundle) (new-IsExclusive bundle)
