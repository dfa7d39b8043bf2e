-- ===== src/Scripts/Ambiguous.antt =====
-- scripts/demo_ambiguous.py: a vague requirement, and a workflow that waits for its clarification.
use agentic_engineering_url.Prelude.{
  String, Bool, true, false, Option, none, some, [], ◌∷◌, is_some, Result, ok, ◌>>=◌, ◌>>◌,
}
use Prim.Native.Char.{Char}
use agentic_engineering_url.Scripts.Ambiguity.{detect_ambiguity}
use agentic_engineering_url.Schema.{Db, Workflow, Artifact}
use agentic_engineering_url.Schema.Status.{WorkflowStatus, ActorType}
use agentic_engineering_url.Orchestration.Models.{create_workflow_instance, get_workflow_instance}
use agentic_engineering_url.Orchestration.Scheduler.{
  is_in, compute_ready_stages, mark_ready, claim_stage,
}
use agentic_engineering_url.Orchestration.Branching.{with_flow}
use agentic_engineering_url.Scripts.Demo.{
  Failure, check, Run, plain_stage, add, append_lineage, event, complete, move_workflow,
}

abbrev is_suspended : Option Workflow → Bool
is_suspended none = false
is_suspended (some w) = elim w.status [ WorkflowStatus.awaiting_approval ↦ true | _ ↦ false ]

module _ (run : Run) (impact_stage : String) where
  abbrev begin : (requirement : String) → Db → Db
  begin requirement db =
      with_flow db (create_workflow_instance run.workflow requirement "ambiguous" run.now db.flow)

  -- Up to the suspended workflow.
  abbrev suspend : Db → Result Failure Db
  suspend db = append_lineage run "ambiguity_detected" db >>= λ db1.
      let db2 = move_workflow run WorkflowStatus.awaiting_approval (
        event run ActorType.system "ambiguity_detected" (Artifact.workflow run.workflow) "detected"
          db1) in
      check (is_suspended (get_workflow_instance db2.flow run.workflow)) >> ok db2

  abbrev clarify : Db → Result Failure Db
  clarify db = append_lineage run "clarification_decision" db >>= λ db1. ok (
      move_workflow run WorkflowStatus.running (
        event run ActorType.system "clarification_recorded" (Artifact.workflow run.workflow)
          "recorded" db1))

  -- The last stage; whether its claim was won is not asked.
  abbrev analyse : Db → Result Failure Db
  analyse db =
      check (is_in (compute_ready_stages db.flow run.workflow) impact_stage)
      >> (let (flow, won) =
            claim_stage (run.execution_id impact_stage) run.worker run.now impact_stage
              (mark_ready run.now (impact_stage ∷ []) db.flow) in
          append_lineage run "downstream_impact_analysis" (with_flow db flow) >>= λ db1.
          ok (move_workflow run WorkflowStatus.completed (complete run won impact_stage db1)))

  unfoldable pub ambiguous_main :
      (is_digit : Char → Bool) → (requirement : String) → Db → Result Failure Db
  ambiguous_main is_digit requirement db =
      check (is_some (detect_ambiguity is_digit requirement))
      >> (suspend (begin requirement db)
          >>= clarify
          >>= add run (plain_stage impact_stage "downstream_impact_analysis" [])
          >>= analyse)
