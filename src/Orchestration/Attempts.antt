-- ===== src/Orchestration/Attempts.antt =====
-- Eight operations on stages, as steps: src/orchestration/scheduler.py, reaper.py and replanning.py.
-- apply_fallback_or_safe_stop, the branch decisions and the promotion write to stages too and are
-- not among them.
pub mod Steps
pub mod Bound
use agentic_engineering_url.Prelude.{
  ℕ, ◌+◌, ◌≤◌, String, Bool, ◌||◌, Option, List, [], ◌∷◌, ◌==◌, if◌then◌else◌, All,
}
use agentic_engineering_url.Sql.{count}
use agentic_engineering_url.Schema.{FlowDb, Stage}
use agentic_engineering_url.Schema.Status.{is_pending, is_ready}
use agentic_engineering_url.Orchestration.Scheduler.{
  mark_ready, claim_stage, complete_stage, recover_on_startup, issue_retry_or_exhaust,
}
use agentic_engineering_url.Orchestration.Reaper.{sweep_stale_leases, reconcile_stage}
use agentic_engineering_url.Orchestration.Replanning.{invalidate_downstream}

-- A call of one of the eight operations, with its arguments.
pub data Operation : Type 0 where
  marked : List String → Operation
  claimed : (execution worker stage : String) → Operation
  completed : (execution stage : String) → Operation
  recovered : Operation
  retried : (stage : String) → Operation
  swept : Operation
  reconciled : (stage : String) → Option Bool → Operation
  invalidated : (workflow revision : String) → List String → Operation

unfoldable pub perform : Operation → ℕ → FlowDb → FlowDb
perform (marked ids) now db = mark_ready now ids db
perform (claimed execution worker stage) now db = (claim_stage execution worker now stage db).0
perform (completed execution stage) now db = (complete_stage execution stage now db).0
perform recovered now db = (recover_on_startup now db).0
perform (retried stage) now db = (issue_retry_or_exhaust now stage db).0
perform swept now db = (sweep_stale_leases now db).0
perform (reconciled stage probe) now db = (reconcile_stage now stage probe db).0
perform (invalidated workflow revision ids) now db =
    (invalidate_downstream now workflow revision ids db).0

unfoldable pub perform_all : List (Operation × ℕ) → FlowDb → FlowDb
perform_all [] db = db
perform_all ((op, now) ∷ ops) db = perform_all ops (perform op now db)

-- A stage that can still be claimed needs room for one more attempt.
abbrev pub spent : Stage → ℕ
spent s = s.attempt_count + (if is_pending s.status || is_ready s.status then 1 else 0)

abbrev pub IsBounded : Stage → Type 0
IsBounded s = spent s ≤ 3

-- The ids of the stages are unique, no stage has an attempt_count above three, and no pending or
-- ready one an attempt_count above two.
abbrev pub IsSound : List Stage → Type 0
IsSound stages = ((id : String) → count (λ s. s.id == id) stages ≤ 1) × All IsBounded stages
