-- ===== src/Orchestration/Lineage.antt =====
-- src/orchestration/lineage.py: the append-only lineage of a workflow's decisions, without the JSON of
-- their details. The id of an entry is its position, counted from 1, since no entry is deleted.
use agentic_engineering_url.Prelude.{
  ℕ, ◌+◌, String, Option, none, some, List, ◌==◌, if◌then◌else◌, is_some, length,
}
use agentic_engineering_url.Sql.{select, insert}
use agentic_engineering_url.Schema.{FlowDb, Decision}
use agentic_engineering_url.Orchestration.Models.{get_workflow_instance}

-- The workflow is a foreign key: `none` is the IntegrityError.
unfoldable pub append : ℕ → (workflow decision_type : String) → FlowDb → FlowDb × Option ℕ
append now workflow decision_type db =
    if is_some (get_workflow_instance db workflow)
    then (
      record db {
        lineage =
            insert
              (record {
                workflow_instance_id = workflow;
                decision_type = decision_type;
                created_at = now;
              })
              db.lineage;
      },
      some (length db.lineage + 1),
    )
    else (db, none)

unfoldable pub get_lineage : FlowDb → String → List Decision
get_lineage db workflow = select (λ d. d.workflow_instance_id == workflow) db.lineage
