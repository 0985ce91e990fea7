-- ===== src/History.antt =====
-- src/history/mod.rs and src/history/postgres.rs: the rows of the execution history. A text that an
-- error prints is the error.
pub mod Stored
use cron_manager.Base.{ℕ, Bool, Option, List, [], ◌∷◌, ◌++◌, if◌then◌else◌}
use cron_manager.Base.Int.{ℤ}
use mathlib.Core.Option
use cron_manager.Base.Text.{Text, codes}
use cron_manager.Error.{CronManagerError}
use cron_manager.Security.Sanitize.{truncate_response_body}

pub data ExecutionStatus : Type 0 where
  success failed retrying skipped timeout offline : ExecutionStatus

unfoldable pub as_str : ExecutionStatus → Text
as_str success = codes "SUCCESS"
as_str failed = codes "FAILED"
as_str retrying = codes "RETRYING"
as_str skipped = codes "SKIPPED"
as_str timeout = codes "TIMEOUT"
as_str offline = codes "OFFLINE"

-- The error texts of rows and outcomes.
pub data ErrorText : Type 0 where
  of_error : CronManagerError → ErrorText
  outside_window aborted_by_stop offline_lever : ErrorText

pub record HistoryEntry : Type 0 where
  pub execution_time : ℤ
  pub job_name : Text
  pub job_group : Text
  pub job_type : Text
  pub duration_ms : Option ℕ
  pub status : ExecutionStatus
  pub http_method : Option Text
  pub http_url : Option Text
  pub http_status_code : Option ℕ
  pub attempt_number : ℕ
  pub max_attempts : ℕ
  pub response_body : Option Text
  pub error_message : Option ErrorText

-- `PostgresRecorder::record` on the rows stored so far; the flag says whether the database took
-- the row, and a row that it did not take is dropped with a WARN.
unfoldable pub record_postgres : ℕ → Bool → HistoryEntry → List HistoryEntry → List HistoryEntry
record_postgres stored_body_max_bytes taken entry rows =
    if taken
    then rows
      ++ record entry {
        response_body =
            Option.map (λ s. truncate_response_body s stored_body_max_bytes) entry.response_body;
      }
        ∷ []
    else rows

-- `HistoryRecorder`, as the process has chosen it: `PostgresRecorder` with its cap on a stored body,
-- or `NoopRecorder`, which drops the row.
pub data Recorder : Type 0 where
  postgres : ℕ → Recorder
  noop : Recorder

unfoldable pub record_entry : Recorder → Bool → HistoryEntry → List HistoryEntry → List HistoryEntry
unfolding record_postgres
record_entry (postgres cap) taken entry rows = record_postgres cap taken entry rows
record_entry noop taken entry rows = rows

-- The rows of a run, one after the other, each with whether the database took it.
unfoldable pub record_all :
    Recorder → List (Bool × HistoryEntry) → List HistoryEntry → List HistoryEntry
unfolding record_entry
record_all recorder [] rows = rows
record_all recorder ((taken, entry) ∷ entries) rows =
    record_all recorder entries (record_entry recorder taken entry rows)
