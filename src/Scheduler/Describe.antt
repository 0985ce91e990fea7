-- ===== src/Scheduler/Describe.antt =====
-- src/scheduler.rs: the snapshots `describe` and `describe_running`. A `BTreeMap` is a Map here: the
-- order of its groups is not modelled. The order of `HashMap`s is that of the model's maps.
pub mod Rows
pub mod Sorting
use cron_manager.Base.{
  ℕ, zero, suc, Bool, true, false, Option, none, some, List, [], ◌∷◌, ◌++◌, if◌then◌else◌, ltb, eqb,
  keep, map,
}
use cron_manager.Base.Int.{ℤ, pos}
use cron_manager.Base.Eq.{◌==◌, list_eq, nat_eq}
use cron_manager.Base.Map.{Map, get, insert}
use cron_manager.Base.Text.{Text, codes}
use cron_manager.Dsl.{JobKey, JobSpec, Trigger, cron, manual, key_eq}
use cron_manager.Scheduler.{
  JobRuntimeState, RegisteredJob, RunningInstance, SchedulerInner, schedule_of,
}
use cron_manager.Base.{get_elem?}

pub record JobDescriptor : Type 0 where
  pub name : Text
  pub schedule : Text
  pub last_execution : ℤ
  pub next_execution : ℤ
  pub last_result : Text

-- `a.cmp(b)` is not `Greater`. The order of UTF-8 bytes is the order of code points.
unfoldable pub text_leb : Text → Text → Bool
text_leb [] t = true
text_leb (c ∷ s) [] = false
text_leb (c ∷ s) (d ∷ t) = if ltb c d then true else if eqb c d then text_leb s t else false

-- `sort_by` on the names, which is stable.
unfoldable pub insert_row : JobDescriptor → List JobDescriptor → List JobDescriptor
insert_row r [] = r ∷ []
insert_row r (s ∷ rows) = if text_leb r.name s.name then r ∷ s ∷ rows else s ∷ insert_row r rows

unfoldable pub sort_rows : List JobDescriptor → List JobDescriptor
unfolding insert_row
sort_rows [] = []
sort_rows (r ∷ rows) = insert_row r (sort_rows rows)

abbrev pub rows_or : Option (List JobDescriptor) → List JobDescriptor
rows_or none = []
rows_or (some rows) = rows

-- `out.entry(group).or_default().push(row)`.
unfoldable pub push_row :
    Text → JobDescriptor → Map Text (List JobDescriptor) → Map Text (List JobDescriptor)
push_row g row out = insert g (rows_or (get g out) ++ (row ∷ [])) out

unfoldable pub push_rows :
    List (Text × JobDescriptor) → Map Text (List JobDescriptor) → Map Text (List JobDescriptor)
unfolding push_row
push_rows [] out = out
push_rows ((g, row) ∷ rows) out = push_rows rows (push_row g row out)

unfoldable pub sort_groups : Map Text (List JobDescriptor) → Map Text (List JobDescriptor)
unfolding sort_rows
sort_groups [] = []
sort_groups ((g, rows) ∷ out) = (g, sort_rows rows) ∷ sort_groups out

abbrev pub wanted : Option Text → JobKey → Bool
wanted none key = true
wanted (some g) key = key.group == g

abbrev last_ms : Option JobRuntimeState → ℤ
last_ms none = pos 0
last_ms (some c) = elim c.last_execution_ms [ none ↦ pos 0 | some t ↦ t ]

abbrev last_text : Option JobRuntimeState → Text
last_text none = []
last_text (some c) = c.last_result

module _ (next_fire : Text → ℤ → Option ℤ) where
  abbrev next_fire_ms : ℤ → Trigger → ℤ
  next_fire_ms now (cron expr) = elim (next_fire expr now) [ some t ↦ t | none ↦ pos 0 ]
  next_fire_ms now manual = pos 0

  unfoldable pub job_row : ℤ → SchedulerInner → JobKey × RegisteredJob → Text × JobDescriptor
  job_row now s (key, entry) = (
    key.group,
    record {
      name = key.name;
      schedule = schedule_of entry.spec.trigger;
      last_execution = last_ms (get_elem? s.cells entry.state);
      next_execution = next_fire_ms now entry.spec.trigger;
      last_result = last_text (get_elem? s.cells entry.state);
    },
  )

  unfoldable pub describe : ℤ → Option Text → SchedulerInner → Map Text (List JobDescriptor)
  unfolding push_rows sort_groups job_row
  describe now group_filter s =
      sort_groups (push_rows (map (job_row now s) (keep (λ e. wanted group_filter e.0) s.jobs)) [])

abbrev result_of : SchedulerInner → Option RegisteredJob → Text
result_of s none = []
result_of s (some entry) = last_text (get_elem? s.cells entry.state)

unfoldable pub running_row : SchedulerInner → JobKey × RunningInstance → Text × JobDescriptor
running_row s (key, inst) = (
  key.group,
  record {
    name = key.name;
    schedule = inst.schedule;
    last_execution = inst.started_at_ms;
    next_execution = pos 0;
    last_result = result_of s (get key s.jobs);
  },
)

unfoldable pub describe_running : Option Text → SchedulerInner → Map Text (List JobDescriptor)
unfolding push_rows sort_groups running_row
describe_running group_filter s =
    sort_groups (push_rows (map (running_row s) (keep (λ e. wanted group_filter e.0) s.running)) [])
