-- ===== src/Api/Workflows.antt =====
-- src/api/routers/workflows.py: creating a workflow, with its demonstration pipeline if that is asked
-- for, and reading one.
use agentic_engineering_url.Prelude.{
  ℕ, String, Bool, true, false, Option, none, some, List, [], ◌∷◌, map, Result, ok, err,
}
use agentic_engineering_url.Schema.{
  Db, FlowDb, Workflow, Stage, Decision, Condition, Json, Artifact,
}
use agentic_engineering_url.Schema.Status.{WorkflowStatus, StageStatus, EffectClass, ActorType}
use agentic_engineering_url.Observability.Audit.{record_event}
use agentic_engineering_url.Orchestration.Models.{
  GraphError, StageSpec, create_workflow_instance, add_stage, get_workflow_instance, get_stages,
  get_dependencies,
}
use agentic_engineering_url.Orchestration.Branching.{with_flow, add_conditional_branch}
use agentic_engineering_url.Orchestration.Lineage.{get_lineage}
use agentic_engineering_url.Api.ShortLinks.{Reply}

-- The ids that the calls of `uuid.uuid4()` give, in their order.
pub record FreshIds : Type 0 where
  pub workflow : String
  pub intake : String
  pub classify : String
  pub proceed_path : String
  pub hold_path : String

pub record WorkflowCreateRequest : Type 0 where
  pub requirement : String
  pub scenario : Option String
  pub auto_execute : Bool

pub record WorkflowStage : Type 0 where
  pub id : String
  pub name : String
  pub status : StageStatus
  pub attempt_count : ℕ
  pub artifact_revision : String
  pub depends_on : List String

pub record WorkflowInstance : Type 0 where
  pub id : String
  pub feature_ref : String
  pub scenario : String
  pub status : WorkflowStatus
  pub stages : List WorkflowStage
  pub decision_lineage : List Decision

abbrev view_stage : FlowDb → Stage → WorkflowStage
view_stage db s = record {
  id = s.id;
  name = s.name;
  status = s.status;
  attempt_count = s.attempt_count;
  artifact_revision = s.artifact_revision;
  depends_on = get_dependencies db s.id;
}

abbrev view : FlowDb → Workflow → WorkflowInstance
view db w = record {
  id = w.id;
  feature_ref = w.feature_ref;
  scenario = w.scenario;
  status = w.status;
  stages = map (view_stage db) (get_stages db w.id);
  decision_lineage = get_lineage db w.id;
}

-- `assert wf is not None` fails uncaught.
unfoldable pub serialize : FlowDb → String → Reply WorkflowInstance
serialize db id = elim (get_workflow_instance db id) [
  | none ↦ Reply.uncaught
  | some w ↦ Reply.body (view db w)
]

abbrev stage_spec : (id name : String) → List String → StageSpec
stage_spec id name deps = record {
  id = id;
  name = name;
  effect_class = EffectClass.idempotent;
  artifact_revision = "v1";
  timeout_seconds = 5;
  depends_on = deps;
}

abbrev decision_is : String → Condition
decision_is value = record {
  field = some "decision";
  op = some "eq";
  value = some (Json.text value);
}

-- The next statement, unless an exception was raised.
abbrev then_do :
    FlowDb × Result GraphError (Unit {0})
    → (FlowDb → FlowDb × Result GraphError (Unit {0}))
    → FlowDb × Result GraphError (Unit {0})
then_do (db, err e) next = (db, err e)
then_do (db, ok u) next = next db

unfoldable pub seed_auto_execute_pipeline :
    FreshIds → ℕ → FlowDb → FlowDb × Result GraphError (Unit {0})
seed_auto_execute_pipeline ids now db =
    then_do (add_stage ids.workflow (stage_spec ids.intake "intake" []) now db) (λ db1.
      then_do
        (add_stage ids.workflow (stage_spec ids.classify "classify" (ids.intake ∷ [])) now db1)
        (λ db2.
          then_do
            (add_conditional_branch ids.workflow ids.proceed_path "proceed_path" ids.classify
              "outcome_branch" (decision_is "proceed") "v1" now db2)
            (λ db3.
              add_conditional_branch ids.workflow ids.hold_path "hold_path" ids.classify
                "outcome_branch" (decision_is "hold") "v1" now db3)))

abbrev event_of : FreshIds → ℕ → (action result : String) → Db → Db
event_of ids now action result =
    record_event ActorType.system action (Artifact.workflow ids.workflow) result (some ids.workflow)
      now

abbrev answer : FreshIds → Db → Db × Reply WorkflowInstance
answer ids db = (db, serialize db.flow ids.workflow)

-- The pipeline, if it is asked for, and the answer.
unfoldable pub seed_and_answer : FreshIds → ℕ → Bool → Db → Db × Reply WorkflowInstance
seed_and_answer ids now false db = answer ids db
seed_and_answer ids now true db =
    let (flow, seeded) = seed_auto_execute_pipeline ids now db.flow in
    elim seeded [
      | err e ↦ (with_flow db flow, Reply.uncaught)
      | ok u ↦
          answer ids (event_of ids now "auto_execute_pipeline_seeded" "seeded" (with_flow db flow))
    ]

abbrev scenario_or_none : Option String → String
scenario_or_none none = "n/a"
scenario_or_none (some scenario) = scenario

unfoldable pub create_workflow :
    FreshIds → ℕ → WorkflowCreateRequest → Db → Db × Reply WorkflowInstance
unfolding seed_and_answer
create_workflow ids now req db =
    let flow =
      create_workflow_instance ids.workflow req.requirement (scenario_or_none req.scenario) now
        db.flow in
    seed_and_answer ids now req.auto_execute
      (event_of ids now "create_workflow" "created" (with_flow db flow))

unfoldable pub get_workflow : Db → String → Reply WorkflowInstance
unfolding serialize
get_workflow db id = elim (get_workflow_instance db.flow id) [
  | none ↦ Reply.http_error 404 "not_found"
  | some w ↦ serialize db.flow id
]
