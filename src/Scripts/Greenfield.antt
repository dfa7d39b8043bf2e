-- ===== src/Scripts/Greenfield.antt =====
-- scripts/demo_greenfield.py: a requirement that goes through a chain of stages.
pub mod Steps
pub mod Build
pub mod Chain
pub mod Succeeds
use agentic_engineering_url.Prelude.{
  ℕ, ◌+◌, String, Bool, true, false, ◌&&◌, Option, none, some, List, [], ◌∷◌, map, nat_eq, length,
  Result, ok, err, ◌>>=◌, ◌>>◌, concat,
}
use agentic_engineering_url.Schema.{Db, FlowDb, Stage, Artifact}
use agentic_engineering_url.Schema.Status.{WorkflowStatus, ActorType, is_succeeded}
use agentic_engineering_url.Observability.Audit.{get_events_for_workflow}
use agentic_engineering_url.Orchestration.Models.{create_workflow_instance, get_stages}
use agentic_engineering_url.Orchestration.Scheduler.{
  is_in, compute_ready_stages, mark_ready, claim_stage,
}
use agentic_engineering_url.Orchestration.Branching.{with_flow}
use agentic_engineering_url.Policy.Manifest.{Manifest}
use agentic_engineering_url.Policy.Live.{Files, run_mandatory_policy_checks, is_release_ready}
use agentic_engineering_url.Scripts.Demo.{
  assertion_error, Failure, check, Run, plain_stage, add, append_lineage, event, complete,
  move_workflow,
}

abbrev stage_names : List String
stage_names =
    "decomposition" ∷ "design" ∷ "implementation" ∷ "testing" ∷ "documentation" ∷ "validation"
    ∷ "release_readiness" ∷ []

abbrev all_succeeded : List Stage → Bool
all_succeeded [] = true
all_succeeded (s ∷ ss) = is_succeeded s.status && all_succeeded ss

abbrev pub depends_on : Option String → List String
depends_on none = []
depends_on (some prev) = prev ∷ []

module _ (run : Run) where
  -- The first loop: each stage, an id with its name, depends on the one before it.
  unfoldable pub add_chain :
      (prev : Option String) → List (String × String) → Db → Result Failure Db
  add_chain prev [] db = ok db
  add_chain prev (s ∷ ss) db =
      add run (plain_stage (s.0) (s.1) (depends_on prev)) db >>= add_chain (some (s.0)) ss

  -- What follows a claim that was won.
  abbrev pub complete_and_record : String × String → (execution : String) → Db → Db
  complete_and_record s execution db =
      event run ActorType.system (concat "stage_" (concat (s.1) "_completed"))
        (Artifact.stage (s.0)) "succeeded" (complete run (some execution) (s.0) db)

  abbrev pub complete_claimed : String × String → Db → Option String → Result Failure Db
  complete_claimed s db none = err assertion_error
  complete_claimed s db (some execution) = ok (complete_and_record s execution db)

  abbrev pub claim_ready : String × String → Db → Result Failure Db
  claim_ready s db =
      let (flow, won) =
        claim_stage (run.execution_id (s.0)) run.worker run.now (s.0)
          (mark_ready run.now (s.0 ∷ []) db.flow) in
      complete_claimed s (with_flow db flow) won

  -- The second loop: every stage has to be ready when its turn comes.
  unfoldable pub drive_chain : List (String × String) → Db → Result Failure Db
  drive_chain [] db = ok db
  drive_chain (s ∷ ss) db =
      check (is_in (compute_ready_stages db.flow run.workflow) (s.0))
      >> (claim_ready s db >>= drive_chain ss)

  abbrev release : Files → Manifest → Db → Result Failure Db
  release files manifest db =
      let (policy, outcomes) =
        run_mandatory_policy_checks files manifest db.flow run.workflow "v1" run.now db.policy in
      check (is_release_ready manifest run.now run.workflow "v1" policy).0
      >> ok (move_workflow run WorkflowStatus.completed (record db { policy = policy }))

  abbrev verify : Db → Result Failure Db
  verify db =
      check (all_succeeded (get_stages db.flow run.workflow))
      >> (check (nat_eq (length (get_events_for_workflow db run.workflow)) (length stage_names + 1))
          >> ok db)

  abbrev begin : (requirement : String) → Db → Db
  begin requirement db =
      with_flow db (create_workflow_instance run.workflow requirement "greenfield" run.now db.flow)

  -- The whole script, on its new database, with the ids that the stages of these names get.
  unfoldable pub greenfield_main :
      (requirement : String)
      → (stage_id : String → String) → Files
      → Manifest
      → Db
      → Result Failure Db
  unfolding add_chain drive_chain
  greenfield_main requirement stage_id files manifest db =
      let chain = map (λ name. (stage_id name, name)) stage_names in
      append_lineage run "requirement_quality_check" (begin requirement db) >>= λ db1.
      let quality =
        event run ActorType.system "requirement_quality_check" (Artifact.workflow run.workflow)
          "passed" db1 in
      add_chain none chain quality >>= λ db2.
      drive_chain chain db2 >>= λ db3. release files manifest db3 >>= verify
