-- ===== src/Orchestration/Models.antt =====
-- src/orchestration/models.py: creating workflows and stages, and reading the dependency graph.
use agentic_engineering_url.Prelude.{
  ℕ, String, Bool, ◌&&◌, Option, List, [], ◌∷◌, map, ◌==◌, if◌then◌else◌, is_some, Result, ok, err,
}
use agentic_engineering_url.Sql.{select, fetch, insert}
use agentic_engineering_url.Schema.{FlowDb, Workflow, Stage, Preconditions, Postconditions}
use agentic_engineering_url.Schema.Status.{WorkflowStatus, StageStatus, EffectClass}

-- sqlite3.IntegrityError
pub data GraphError : Type 0 where
  duplicate_key missing_reference : GraphError

-- INSERT INTO orchestration_workflow_instance, with the given fresh id
unfoldable pub create_workflow_instance : (id feature_ref scenario : String) → ℕ → FlowDb → FlowDb
create_workflow_instance id feature_ref scenario now db = record db {
  workflows =
      insert
        (record {
          id = id;
          feature_ref = feature_ref;
          scenario = scenario;
          status = WorkflowStatus.running;
          updated_at = now;
        })
        db.workflows;
}

-- The arguments of `add_stage`, with the fresh id of the stage.
pub record StageSpec : Type 0 where
  pub id : String
  pub name : String
  pub effect_class : EffectClass
  pub artifact_revision : String
  pub timeout_seconds : ℕ
  pub depends_on : List String

abbrev pub new_stage : String → StageSpec → ℕ → Stage
new_stage workflow spec now = record {
  id = spec.id;
  workflow_instance_id = workflow;
  name = spec.name;
  status = StageStatus.pending;
  attempt_count = 0;
  effect_class = spec.effect_class;
  artifact_revision = spec.artifact_revision;
  preconditions = Preconditions.null;
  postconditions = Postconditions.null;
  timeout_seconds = spec.timeout_seconds;
  updated_at = now;
}

abbrev pub has_stage : String → FlowDb → Bool
has_stage id db = is_some (fetch (λ s. s.id == id) db.stages)

abbrev pub has_edge : String → String → FlowDb → Bool
has_edge stage dep db =
    is_some (fetch (λ d. (d.stage_id == stage) && (d.depends_on_stage_id == dep)) db.dependencies)

-- The loop over `depends_on`: the pair is the primary key, and both ends refer to stages.
unfoldable pub add_dependencies :
    (workflow stage : String) → List String → FlowDb → FlowDb × Result GraphError (Unit {0})
add_dependencies workflow stage [] db = (db, ok tt)
add_dependencies workflow stage (dep ∷ deps) db =
    let rest = add_dependencies workflow stage deps (record db {
      dependencies =
          insert
            (record {
              workflow_instance_id = workflow;
              stage_id = stage;
              depends_on_stage_id = dep;
            })
            db.dependencies;
    }) in
    if has_edge stage dep db
    then (db, err duplicate_key)
    else if has_stage stage db && has_stage dep db
    then rest
    else (db, err missing_reference)

unfoldable pub add_stage : String → StageSpec → ℕ → FlowDb → FlowDb × Result GraphError (Unit {0})
unfolding add_dependencies
add_stage workflow spec now db =
    if has_stage spec.id db
    then (db, err duplicate_key)
    else if is_some (fetch (λ w. w.id == workflow) db.workflows)
    then add_dependencies workflow spec.id spec.depends_on
        (record db { stages = insert (new_stage workflow spec now) db.stages })
    else (db, err missing_reference)

unfoldable pub get_workflow_instance : FlowDb → String → Option Workflow
get_workflow_instance db id = fetch (λ w. w.id == id) db.workflows

-- ORDER BY created_at is the order of insertion.
unfoldable pub get_stages : FlowDb → String → List Stage
get_stages db workflow = select (λ s. s.workflow_instance_id == workflow) db.stages

unfoldable pub get_dependencies : FlowDb → String → List String
get_dependencies db stage =
    map (λ d. d.depends_on_stage_id) (select (λ d. d.stage_id == stage) db.dependencies)
