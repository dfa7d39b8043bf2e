-- ===== src/Examples/Pipeline.antt =====
-- src/api/routers/workflows.py at work: a workflow that is created with its pipeline.
use agentic_engineering_url.Prelude.{String, ◌≡◌, refl, Bool, true, none, List, [], ◌∷◌, map}
use agentic_engineering_url.Schema.{empty_db}
use agentic_engineering_url.Schema.Status.{StageStatus}
use agentic_engineering_url.Sql.{fetch, update, select}
use agentic_engineering_url.Observability.Audit.{record_event}
use agentic_engineering_url.Orchestration.Models.{
  add_stage, add_dependencies, get_stages, get_workflow_instance, get_dependencies,
  create_workflow_instance,
}
use agentic_engineering_url.Orchestration.Branching.{add_conditional_branch}
use agentic_engineering_url.Api.ShortLinks.{Reply}
use agentic_engineering_url.Api.Workflows.{
  FreshIds, WorkflowCreateRequest, WorkflowInstance, create_workflow, get_workflow, seed_and_answer,
  serialize, seed_auto_execute_pipeline,
}

abbrev ids : FreshIds
ids = record { workflow = "w"; intake = "i"; classify = "c"; proceed_path = "p"; hold_path = "h" }

abbrev request : Bool → WorkflowCreateRequest
request auto_execute = record {
  requirement = "shorten";
  scenario = none;
  auto_execute = auto_execute;
}

abbrev stage_graph : Reply WorkflowInstance → List (String × StageStatus × List String)
stage_graph (Reply.body w) = map (λ s. (s.name, s.status, s.depends_on)) w.stages
stage_graph (Reply.http_error status error) = []
stage_graph Reply.uncaught = []

pipeline_stages :
    let (db, reply) = create_workflow ids 5 (request true) empty_db in
    stage_graph (get_workflow db "w")
    ≡ ("intake", StageStatus.pending, [])
      ∷ ("classify", StageStatus.pending, "i" ∷ [])
      ∷ ("proceed_path", StageStatus.pending, "c" ∷ [])
      ∷ ("hold_path", StageStatus.pending, "c" ∷ [])
      ∷ []
unfolding create_workflow get_workflow seed_and_answer serialize seed_auto_execute_pipeline
    add_stage add_dependencies add_conditional_branch get_stages get_workflow_instance
    get_dependencies create_workflow_instance fetch record_event update select
pipeline_stages = refl
