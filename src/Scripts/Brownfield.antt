-- ===== src/Scripts/Brownfield.antt =====
-- scripts/demo_brownfield.py: a change whose implementation waits for its impact analysis, and whose
-- outcome is that of its regression tests, which run as a subprocess.
use agentic_engineering_url.Prelude.{
  String, Bool, true, false, Option, [], ◌∷◌, Result, ok, ◌>>=◌, ◌>>◌,
}
use agentic_engineering_url.Schema.{Db, Artifact}
use agentic_engineering_url.Schema.Status.{WorkflowStatus, ActorType}
use agentic_engineering_url.Orchestration.Models.{create_workflow_instance}
use agentic_engineering_url.Orchestration.Scheduler.{
  is_in, compute_ready_stages, mark_ready, claim_stage,
}
use agentic_engineering_url.Orchestration.Branching.{with_flow}
use agentic_engineering_url.Scripts.Demo.{
  Failure, check, Run, plain_stage, add, append_lineage, event, complete, move_workflow,
}

-- The ids that `add_stage` draws for the three stages.
pub record StageIds : Type 0 where
  pub impact_analysis : String
  pub implementation : String
  pub regression : String

module _ (run : Run) (ids : StageIds) where
  abbrev mark : String → Db → Db
  mark stage db = with_flow db (mark_ready run.now (stage ∷ []) db.flow)

  -- The claim, of which the script does not ask whether it was won.
  abbrev claim : String → Db → Db × Option String
  claim stage db =
      let (flow, won) = claim_stage (run.execution_id stage) run.worker run.now stage db.flow in
      (with_flow db flow, won)

  abbrev analyse : Db → Result Failure Db
  analyse db =
      let (claimed, won) = claim ids.impact_analysis (mark ids.impact_analysis db) in
      append_lineage run "impact_analysis_recorded" claimed >>= λ db'. ok (
        event run ActorType.human "impact_analysis_reviewed" (Artifact.workflow run.workflow)
          "approved" (complete run won ids.impact_analysis db'))

  abbrev implement : Db → Db
  implement db =
      let (claimed, won) = claim ids.implementation (mark ids.implementation db) in
      complete run won ids.implementation claimed

  -- What the tests' outcome makes of the workflow.
  abbrev conclude : (passed : Bool) → Option String → Db → Db
  conclude true won db =
      move_workflow run WorkflowStatus.completed (complete run won ids.regression db)
  conclude false won db = move_workflow run WorkflowStatus.safe_stopped db

  abbrev regress : (passed : Bool) → Db → Result Failure Db
  regress passed db =
      let (claimed, won) = claim ids.regression (mark ids.regression db) in
      append_lineage run "regression_evidence" claimed >>= λ db'. ok (conclude passed won db')

  abbrev begin : (change_request : String) → Db → Db
  begin change_request db =
      with_flow db
        (create_workflow_instance run.workflow change_request "brownfield" run.now db.flow)

  -- The script up to its last assertion: the tables, and so what they show after a failed test too.
  unfoldable pub brownfield_run :
      (change_request : String) → (passed : Bool) → Db → Result Failure Db
  brownfield_run change_request passed db =
      add run (plain_stage ids.impact_analysis "impact_analysis" []) (begin change_request db)
      >>= analyse
      >>= add run (plain_stage ids.implementation "implementation" (ids.impact_analysis ∷ []))
      >>= λ db1.
          check (is_in (compute_ready_stages db1.flow run.workflow) ids.implementation)
          >> (add run (plain_stage ids.regression "regression_tests" (ids.implementation ∷ []))
                (implement db1)
              >>= regress passed)

  -- `assert regression_passed` comes last.
  unfoldable pub brownfield_main :
      (change_request : String) → (passed : Bool) → Db → Result Failure Db
  brownfield_main change_request passed db =
      brownfield_run change_request passed db >>= λ db'. check passed >> ok db'
