-- ===== src/Orchestration/Replanning.antt =====
-- src/orchestration/replanning.py: material changes and what they invalidate.
pub mod Outdated
use agentic_engineering_url.Prelude.{
  ℕ, ◌+◌, String, Bool, true, false, not, ◌&&◌, ◌||◌, none, some, List, [], ◌∷◌, ◌++◌, map, ◌==◌,
  is_some,
}
use agentic_engineering_url.Sql.{select, fetch_last, update}
use agentic_engineering_url.Schema.{FlowDb, Stage, Approval}
use agentic_engineering_url.Schema.Status.{StageStatus, ExecutionStatus, is_live}
use agentic_engineering_url.Orchestration.Scheduler.{set_execution}

unfoldable pub classify_change : String → Bool
classify_change kind =
    (kind == "requirements")
    || ((kind == "architecture")
        || ((kind == "schema")
            || ((kind == "workflow_states")
                || ((kind == "security_controls") || (kind == "release_criteria")))))

abbrev pub reset_stage : String → ℕ → Stage → Stage
reset_stage revision now s = record s {
  status = StageStatus.pending;
  artifact_revision = revision;
  attempt_count = 0;
  updated_at = now;
}

-- workflow_instance_id=? AND artifact_revision != ? AND invalidated_at IS NULL
abbrev pub is_outdated : (workflow revision : String) → Approval → Bool
is_outdated workflow revision a =
    (a.workflow_instance_id == workflow)
    && (not (a.artifact_revision == revision) && not (is_some a.invalidated_at))

abbrev pub invalidated : ℕ → Approval → Approval
invalidated now a = record a { invalidated_at = some now }

-- The UPDATE for each selected approval.
unfoldable pub invalidate_approvals : ℕ → List Approval → List Approval → List Approval
invalidate_approvals now [] table = table
invalidate_approvals now (a ∷ as') table =
    invalidate_approvals now as' (update (λ b. b.id == a.id) (invalidated now) table)

pub record Invalidated : Type 0 where
  pub stages : List String
  pub approvals : List String

unfoldable pub invalidate_downstream :
    ℕ → (workflow revision : String) → List String → FlowDb → FlowDb × Invalidated
invalidate_downstream now workflow revision [] db = (db, record { stages = []; approvals = [] })
invalidate_downstream now workflow revision (id ∷ ids) db =
    let outdated = select (is_outdated workflow revision) db.approvals in
    let db' = record db {
      stages = update (λ s. s.id == id) (reset_stage revision now) db.stages;
      approvals = invalidate_approvals now outdated db.approvals;
    } in
    let (last, rest) = invalidate_downstream now workflow revision ids db' in
    (
      last,
      record { stages = id ∷ rest.stages; approvals = map (λ a. a.id) outdated ++ rest.approvals },
    )

-- The latest execution by `claimed_at`: the rows stand in the order in which they were claimed.
unfoldable pub invalidate_worktree : String → FlowDb → FlowDb × Bool
invalidate_worktree stage db =
    elim (fetch_last (λ e. (e.stage_id == stage) && is_live e.status) db.executions) [
      | none ↦ (db, false)
      | some row ↦ (
        record db {
          executions =
              update (λ e. e.id == row.id) (set_execution ExecutionStatus.abandoned) db.executions;
        },
        true,
      )
    ]
