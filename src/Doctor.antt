-- ===== src/Doctor.antt =====
-- src/doctor.rs: the report of `cronmanager doctor`. The text of a finding on a gate is the list of
-- what the gate names; a line of the rendered report is a value.
pub mod Audit
pub mod Mild
pub mod Verdict
pub mod Settings
pub mod Warnings
use cron_manager.Base.{
  ℕ, Bool, true, false, Option, List, [], ◌∷◌, ◌++◌, if◌then◌else◌, ltb, length, keep, map,
}
use cron_manager.Base.Text.{Text, codes}
use cron_manager.EnvSafety.{Environment, WeakCred, PostureCheck}

pub data Severity : Type 0 where
  info weak break fatal : Severity

unfoldable pub label : Severity → Text
label fatal = codes "FATAL"
label break = codes "BREAK"
label weak = codes "WEAK "
label info = codes "INFO "

pub data Message : Type 0 where
  text : Text → Message
  creds : List WeakCred → Message
  posture : List PostureCheck → Message

pub record Finding : Type 0 where
  pub severity : Severity
  pub name : Text
  pub message : Message

abbrev pub finding : Severity → Text → Text → Finding
finding s name message = record { severity = s; name = name; message = text message }

pub record DoctorReport : Type 0 where
  pub env : Environment
  pub findings : List Finding

abbrev pub is_fatal : Severity → Bool
is_fatal fatal = true
is_fatal info = false
is_fatal weak = false
is_fatal break = false

abbrev pub is_break : Severity → Bool
is_break break = true
is_break info = false
is_break weak = false
is_break fatal = false

abbrev pub is_weak : Severity → Bool
is_weak weak = true
is_weak info = false
is_weak break = false
is_weak fatal = false

abbrev pub is_info : Severity → Bool
is_info info = true
is_info weak = false
is_info break = false
is_info fatal = false

-- The findings of a severity, counted.
unfoldable pub count_of : (Severity → Bool) → List Finding → ℕ
count_of p findings = length (keep (λ f. p f.severity) findings)

abbrev pub fatal_count : DoctorReport → ℕ
fatal_count report = count_of is_fatal report.findings

unfoldable pub exit_code : DoctorReport → ℕ
exit_code report = if ltb 0 (fatal_count report) then 1 else 0

pub data Line : Type 0 where
  title : Environment → Line
  row : Text → Text → Message → Line
  summary : ℕ → ℕ → ℕ → ℕ → Line

unfoldable pub render : DoctorReport → List Line
unfolding label
render report =
    title report.env
    ∷ (map (λ f. row (label f.severity) f.name f.message) report.findings
        ++ (summary (fatal_count report) (count_of is_break report.findings)
              (count_of is_weak report.findings) (count_of is_info report.findings)
            ∷ []))
