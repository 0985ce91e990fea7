-- ===== src/Scheduler/Tasks/Window.antt =====
-- When a scheduling loop fires.
use cron_manager.Base.{
  ℕ, ◌≡◌, refl, ◌⊎◌, Bool, Bool-cases, Option, none, some, [], ◌∷◌, ◌++◌, arith, inl, inr, set,
}
use cron_manager.Base.Int.{ℤ, ltbℤ, ◌≤ℤ◌}
use cron_manager.Base.Text.{Text, codes}
use cron_manager.Dsl.{JobSpec, allows, allows_iff, FromStart, UntilEnd, type_label}
use cron_manager.Executor.Dispatch.{AttemptWorld}
use cron_manager.History.{HistoryEntry, skipped, outside_window}
use cron_manager.Scheduler.{Loop, looping, sleeping, ready, SchedulerInner, record_skip, skip_row}
use cron_manager.Scheduler.Tasks.{step_task, fired}

-- Both bounds of the window of a job, the ends included.
abbrev pub InWindow : JobSpec → ℤ → Type 0
InWindow spec now = FromStart spec.window.start_ms now × UntilEnd spec.window.end_ms now

-- A row is that of a skip of the job at the time.
pub record IsSkipRow (spec : JobSpec) (now : ℤ) (row : HistoryEntry) : Type 0 where
  pub name : row.job_name ≡ spec.key.name
  pub group : row.job_group ≡ spec.key.group
  pub kind : row.job_type ≡ type_label spec.kind
  pub time : row.execution_time ≡ now
  pub length : row.duration_ms ≡ some 0
  pub result : row.status ≡ skipped
  pub attempt : row.attempt_number ≡ 1
  pub attempts : row.max_attempts ≡ 1
  pub no_body : row.response_body ≡ none
  pub reason : row.error_message ≡ some outside_window

-- A state that differs from another in one row more, and in the state of one job.
pub record IsSkippedFrom (l : Loop) (now : ℤ) (s t : SchedulerInner) : Type 0 where
  pub row : HistoryEntry
  pub is_row : IsSkipRow l.spec now row
  pub rest : t ≡ record s {
    history = s.history ++ (row ∷ []);
    cells =
        set s.cells l.state
          (record { last_execution_ms = some now; last_result = codes "SKIPPED" });
  }

-- A loop that sleeps until its next fire: woken before it, it sleeps on and nothing changes; woken
-- then or later, and inside the window of its job, it goes on to `begin_running` and nothing else
-- changes; woken outside the window, it looks for its next fire, appends to the history the row of
-- its job with status SKIPPED, and writes the time and SKIPPED into the state of its job, and all
-- else is as it was: nothing runs.
pub sleeping_lem :
    (parses : Text → Bool) (next_fire : Text → ℤ → Option ℤ) (now : ℤ) (worlds : ℕ → AttemptWorld)
    (l : Loop) (next : ℤ) (s : SchedulerInner)
    → ((¬ (next ≤ℤ now))
        × (step_task parses next_fire now worlds (sleeping l next) s ≡ (sleeping l next, s)))
      ⊎ (((next ≤ℤ now)
            × InWindow l.spec now
            × (step_task parses next_fire now worlds (sleeping l next) s ≡ (ready (fired l), s)))
          ⊎ ((next ≤ℤ now)
              × (¬ InWindow l.spec now)
              × ((step_task parses next_fire now worlds (sleeping l next) s).0 ≡ looping l)
              × IsSkippedFrom l now s
                  (step_task parses next_fire now worlds (sleeping l next) s).1))
unfolding step_task record_skip skip_row
sleeping_lem parses next_fire now worlds l next s = elim (Bool-cases (ltbℤ now next)) [
  | inl early ↦ inl (ground (arith, early), rw early refl)
  | inr due ↦ elim (Bool-cases (allows l.spec.window now)) [
    | inl inside ↦
        inr (
          inl (ground (arith, due), (allows_iff l.spec.window now).0 inside, rw (due, inside) refl))
    | inr outside ↦ inr (
        inr (
          ground (arith, due),
          (λ h. ground (arith, outside, (allows_iff l.spec.window now).1 h)),
          rw (due, outside) refl,
          rw (due, outside) skipped_from,
        ))
  ]
]
  where
    skipped_from :
        IsSkippedFrom l now s
          (record_skip l.state now (record s { history = s.history ++ (skip_row l.spec now ∷ []) }))
    skipped_from = record {
      row = skip_row l.spec now;
      is_row = record {
        name = refl;
        group = refl;
        kind = refl;
        time = refl;
        length = refl;
        result = refl;
        attempt = refl;
        attempts = refl;
        no_body = refl;
        reason = refl;
      };
      rest = refl;
    }
