-- ===== src/Observability/Metrics.antt =====
-- src/observability/metrics.py and src/api/routers/metrics.py: the mean time to recovery and the
-- rates. A quotient of floats is kept as its dividend and its divisor; a duration is in microseconds.
pub mod Recovery
pub mod Recording
pub mod Rates
use agentic_engineering_url.Prelude.{
  ℕ, ◌+◌, String, Bool, true, false, ◌||◌, Option, none, some, List, [], ◌∷◌, ◌==◌, nat_eq,
  if◌then◌else◌, is_some, length, ℤ, pos, sub_ℕ, ◌+ℤ◌,
}
use agentic_engineering_url.Sql.{select, fetch_last, count}
use agentic_engineering_url.Schema.{Db, Workflow, Stage, AuditEvent}
use agentic_engineering_url.Schema.Status.{WorkflowStatus}

pub record Ratio : Type 0 where
  pub dividend : ℤ
  pub divisor : ℕ

-- result IN ('failed', 'failed_transient', 'failed_permanent')
abbrev pub is_failure_result : String → Bool
is_failure_result result =
    (result == "failed") || ((result == "failed_transient") || (result == "failed_permanent"))

abbrev pub is_failure : AuditEvent → Bool
is_failure e = is_failure_result e.result

abbrev pub recovers : ℕ → AuditEvent → Bool
recovers id e = elim e.recovery_of_event_id [ none ↦ false | some failure ↦ nat_eq failure id ]

-- recovery_by_failure.get(id): of several recoveries the dictionary keeps the last.
abbrev pub recovery_by_failure : List AuditEvent → ℕ → Option AuditEvent
recovery_by_failure recoveries id = fetch_last (recovers id) recoveries

-- The loop over the failures: the durations, and the number of those not recovered.
abbrev pub collect_one : Option AuditEvent → AuditEvent → List ℤ × ℕ → List ℤ × ℕ
collect_one none failure (durations, unrecovered) = (durations, unrecovered + 1)
collect_one (some recovery) failure (durations, unrecovered) =
    (sub_ℕ recovery.timestamp failure.timestamp ∷ durations, unrecovered)

unfoldable pub collect : (recoveries failures : List AuditEvent) → List ℤ × ℕ
collect recoveries [] = ([], 0)
collect recoveries (f ∷ fs) =
    collect_one (recovery_by_failure recoveries f.id) f (collect recoveries fs)

unfoldable pub sum : List ℤ → ℤ
sum [] = pos 0
sum (d ∷ ds) = d +ℤ sum ds

abbrev pub mean : List ℤ → Option Ratio
mean [] = none
mean (d ∷ ds) = some (record { dividend = sum (d ∷ ds); divisor = length (d ∷ ds) })

unfoldable pub compute_mttr_seconds : List AuditEvent → Option Ratio × ℕ
compute_mttr_seconds audit =
    let failures = select is_failure audit in
    let recoveries = select (λ e. is_some e.recovery_of_event_id) audit in
    let (durations, unrecovered) = collect recoveries failures in (mean durations, unrecovered)

abbrev pub is_completed : Workflow → Bool
is_completed w = elim w.status [ WorkflowStatus.completed ↦ true | _ ↦ false ]

-- status IN ('rejected', 'safe_stopped')
abbrev pub is_failed : Workflow → Bool
is_failed w = elim w.status [
  | WorkflowStatus.rejected ↦ true
  | WorkflowStatus.safe_stopped ↦ true
  | _ ↦ false
]

-- COALESCE(SUM(attempt_count), 0)
unfoldable pub total_attempts : List Stage → ℕ
total_attempts [] = 0
total_attempts (s ∷ ss) = s.attempt_count + total_attempts ss

abbrev pub zero_ratio : Ratio
zero_ratio = record { dividend = pos 0; divisor = 1 }

-- (part / whole) if whole else 0.0
abbrev pub rate : ℕ → ℕ → Ratio
rate part whole =
    if nat_eq whole 0 then zero_ratio else record { dividend = pos part; divisor = whole }

pub record ReliabilityMetrics : Type 0 where
  pub demonstration_data : Bool
  pub success_rate : Ratio
  pub failure_rate : Ratio
  pub retry_frequency : Ratio
  pub rollback_or_compensation_frequency : Ratio
  pub mttr_seconds : Option Ratio
  pub unrecovered_failure_count : ℕ

unfoldable pub compute_reliability_metrics : Db → ReliabilityMetrics
compute_reliability_metrics db =
    let (mttr, unrecovered) = compute_mttr_seconds db.audit in
    record {
      demonstration_data = true;
      success_rate = rate (count is_completed db.flow.workflows) (length db.flow.workflows);
      failure_rate = rate (count is_failed db.flow.workflows) (length db.flow.workflows);
      retry_frequency = rate (total_attempts db.flow.stages) (length db.flow.stages);
      rollback_or_compensation_frequency = zero_ratio;
      mttr_seconds = mttr;
      unrecovered_failure_count = unrecovered;
    }
