-- ===== src/Scheduler/Describe/Rows.antt =====
-- What a snapshot lists for a group.
use cron_manager.Base.{
  ◌≡◌, ◌≢◌, ◌⊎◌, inl, inr, refl, sym, ap, subst, ◌∙◌, Bool, Bool-cases, true, Option, none, some,
  List, [], ◌∷◌, keep, map, arith, if◌then◌else◌, get_elem?,
}
use mathlib.Core.List.{Perm}
use cron_manager.Base.Int.{ℤ, pos}
use cron_manager.Base.Eq.{◌==◌, ==_iff, list_eq, nat_eq}
use cron_manager.Base.Map.{Map, get}
use cron_manager.Base.Text.{Text}
use cron_manager.Dsl.{JobKey, Trigger, cron, manual, key_eq}
use cron_manager.Scheduler.{
  SchedulerInner, RegisteredJob, RunningInstance, JobRuntimeState, schedule_of,
}
use cron_manager.Scheduler.Describe.{
  JobDescriptor, sort_rows, rows_or, push_rows, sort_groups, wanted, job_row, describe, running_row,
  describe_running,
}
use cron_manager.Scheduler.Describe.Sorting.{
  rows_of, Ascending, sort_rows-Ascending, sort_rows-perm, grouped,
}

-- The filter is for this group, or for none.
abbrev admits : Option Text → Text → Bool
admits none g = true
admits (some h) g = h == g

-- The entries of one group, with what is shown of each.
abbrev pub listed {ℓ} :
    {V : Type ℓ} → (JobKey × V → JobDescriptor) → Text → Map JobKey V → List JobDescriptor
listed show g m = map show (keep (λ e. e.0.group == g) m)

-- What is shown of a job: its name and schedule, its last run and its next, which are 0 where there
-- is none.
abbrev pub time_or_zero : Option ℤ → ℤ
time_or_zero none = pos 0
time_or_zero (some t) = t

abbrev pub next_run : (Text → ℤ → Option ℤ) → ℤ → Trigger → ℤ
next_run next_fire now (cron expr) = time_or_zero (next_fire expr now)
next_run next_fire now manual = pos 0

abbrev pub state_of : SchedulerInner → RegisteredJob → JobRuntimeState
state_of s entry = elim (get_elem? s.cells entry.state) [
  | some c ↦ c
  | none ↦ record { last_execution_ms = none; last_result = [] }
]

abbrev pub shown_job :
    (Text → ℤ → Option ℤ) → ℤ → SchedulerInner → JobKey × RegisteredJob → JobDescriptor
shown_job next_fire now s (key, entry) = record {
  name = key.name;
  schedule = schedule_of entry.spec.trigger;
  last_execution = time_or_zero (state_of s entry).last_execution_ms;
  next_execution = next_run next_fire now entry.spec.trigger;
  last_result = (state_of s entry).last_result;
}

-- The last result is that of the job, where it is still registered.
abbrev pub shown_run : SchedulerInner → JobKey × RunningInstance → JobDescriptor
shown_run s (key, inst) = record {
  name = key.name;
  schedule = inst.schedule;
  last_execution = inst.started_at_ms;
  next_execution = pos 0;
  last_result = elim (get key s.jobs) [ some entry ↦ (state_of s entry).last_result | none ↦ [] ];
}

-- The rows are a permutation of those given, in the order of the names; or there are none, if the
-- filter is for another group.
abbrev pub IsListing : Option Text → Text → List JobDescriptor → List JobDescriptor → Type 0
IsListing none g all rows = Perm rows all × Ascending rows
IsListing (some h) g all rows = ((h ≡ g) × Perm rows all × Ascending rows) ⊎ ((h ≢ g) × (rows ≡ []))

sorted_none : sort_rows [] ≡ []
unfolding sort_rows
sorted_none = refl

sorted-IsListing :
    (f : Option Text) (g : Text) (all rows : List JobDescriptor)
    → rows ≡ (if admits f g then all else [])
    → IsListing f g all (sort_rows rows)
sorted-IsListing none g all rows h =
    (subst (Perm (sort_rows rows)) h (sort_rows-perm rows), sort_rows-Ascending rows)
sorted-IsListing (some h) g all rows same = elim (Bool-cases (h == g)) [
  | inl this ↦ inl (
    (==_iff h g).0 this,
    subst (Perm (sort_rows rows)) (same ∙ rw this refl) (sort_rows-perm rows),
    sort_rows-Ascending rows,
  )
  | inr other ↦ inr (
    (λ e. ground (arith, other, (==_iff h g).1 e)),
    ap sort_rows (same ∙ rw other refl) ∙ sorted_none,
  )
]

rows_of-pushed {ℓ} :
    {V : Type ℓ} (row : JobKey × V → Text × JobDescriptor) (show : JobKey × V → JobDescriptor)
    → ((e : JobKey × V) → (row e).0 ≡ e.0.group)
    → ((e : JobKey × V) → (row e).1 ≡ show e)
    → (f : Option Text) (g : Text) (m : Map JobKey V)
    → rows_of g (map row (keep (λ e. wanted f e.0) m))
      ≡ (if admits f g then listed show g m else [])
rows_of-pushed row show keyed shown none g [] = refl
rows_of-pushed row show keyed shown none g (e ∷ m) =
    ground (arith, keyed e, shown e, rows_of-pushed row show keyed shown none g m)
rows_of-pushed row show keyed shown (some h) g [] = ground arith
rows_of-pushed row show keyed shown (some h) g (e ∷ m) = ground (
  arith,
  keyed e,
  shown e,
  ==_iff e.0.group h,
  ==_iff e.0.group g,
  ==_iff h g,
  rows_of-pushed row show keyed shown (some h) g m,
)

-- The rows that are pushed, of entries under keys.
module _ {ℓ} {V : Type ℓ} (row : JobKey × V → Text × JobDescriptor)
    (show : JobKey × V → JobDescriptor) (keyed : (e : JobKey × V) → (row e).0 ≡ e.0.group)
    (shown : (e : JobKey × V) → (row e).1 ≡ show e) (f : Option Text) (g : Text) where
  pushed-IsListing :
      (m : Map JobKey V)
      → IsListing f g
          (listed show g m)
          (rows_or (get g (sort_groups (push_rows (map row (keep (λ e. wanted f e.0) m)) []))))
  pushed-IsListing m =
      let rows = map row (keep (λ e. wanted f e.0) m) in
      subst (IsListing f g (listed show g m)) (sym (grouped g rows)) (
        sorted-IsListing f g (listed show g m) (rows_of g rows)
          (rows_of-pushed row show keyed shown f g m))

job_row-shown_job :
    (next_fire : Text → ℤ → Option ℤ) (now : ℤ) (s : SchedulerInner) (e : JobKey × RegisteredJob)
    → (job_row next_fire now s e).1 ≡ shown_job next_fire now s e
unfolding job_row
job_row-shown_job next_fire now s (key, entry) = ground arith

job_row-group :
    (next_fire : Text → ℤ → Option ℤ) (now : ℤ) (s : SchedulerInner) (e : JobKey × RegisteredJob)
    → (job_row next_fire now s e).0 ≡ e.0.group
unfolding job_row
job_row-group next_fire now s (key, entry) = refl

running_row-group :
    (s : SchedulerInner) (e : JobKey × RunningInstance) → (running_row s e).0 ≡ e.0.group
unfolding running_row
running_row-group s (key, inst) = refl

running_row-shown_run :
    (s : SchedulerInner) (e : JobKey × RunningInstance) → (running_row s e).1 ≡ shown_run s e
unfolding running_row
running_row-shown_run s (key, inst) = ground arith

-- For every filter and group: where there is no filter or it is for this group, `describe` lists
-- under the group the registered jobs with that group, each once, and `describe_running` the running
-- instances, in the order of the names; where the filter is for another group they list nothing
-- there. A row has the name and schedule of the job, its last run and result, and its next fire if it
-- has one; that of an instance its own schedule and start, and the last result of the job if that
-- is registered.
pub describe_lem :
    (next_fire : Text → ℤ → Option ℤ) (now : ℤ) (f : Option Text) (s : SchedulerInner) (g : Text)
    → IsListing f g
        (listed (shown_job next_fire now s) g s.jobs)
        (rows_or (get g (describe next_fire now f s)))
      × IsListing f g (listed (shown_run s) g s.running) (rows_or (get g (describe_running f s)))
unfolding describe describe_running
describe_lem next_fire now f s g = (
  pushed-IsListing (job_row next_fire now s) (shown_job next_fire now s)
      (job_row-group next_fire now s) (job_row-shown_job next_fire now s) f g s.jobs,
  pushed-IsListing (running_row s) (shown_run s) (running_row-group s) (running_row-shown_run s) f g
      s.running,
)
