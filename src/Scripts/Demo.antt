-- ===== src/Scripts/Demo.antt =====
-- What the demonstration scripts share: scripts/demo_greenfield.py, scripts/demo_brownfield.py and
-- scripts/demo_ambiguous.py. A run that fails leaves nothing, since its database is a temporary file.
use agentic_engineering_url.Prelude.{
  ℕ, String, Bool, true, false, Option, none, some, List, ◌==◌, Result, ok, err,
}
use agentic_engineering_url.Sql.{update}
use agentic_engineering_url.Schema.{Db, FlowDb, Artifact}
use agentic_engineering_url.Schema.Status.{WorkflowStatus, EffectClass, ActorType}
use agentic_engineering_url.Observability.Audit.{record_event}
use agentic_engineering_url.Orchestration.Models.{GraphError, StageSpec, add_stage}
use agentic_engineering_url.Orchestration.Lineage.{append}
use agentic_engineering_url.Orchestration.Scheduler.{complete_stage}
use agentic_engineering_url.Orchestration.Branching.{with_flow}

-- The exceptions with which a script ends.
pub data Failure : Type 0 where
  assertion_error : Failure
  integrity_error : GraphError → Failure

-- `assert`
abbrev pub check : Bool → Result Failure (Unit {0})
check true = ok tt
check false = err assertion_error

-- What a run is given: the id of its workflow, its worker, the clock, and the id that a stage's
-- execution will get.
pub record Run : Type 0 where
  pub workflow : String
  pub worker : String
  pub now : ℕ
  pub execution_id : String → String

-- The arguments of `add_stage`, with its defaults.
abbrev pub plain_stage : (id name : String) → List String → StageSpec
plain_stage id name deps = record {
  id = id;
  name = name;
  effect_class = EffectClass.idempotent;
  artifact_revision = "v1";
  timeout_seconds = 5;
  depends_on = deps;
}

abbrev pub added : Db → FlowDb × Result GraphError (Unit {0}) → Result Failure Db
added db (flow, ok u) = ok (with_flow db flow)
added db (flow, err e) = err (integrity_error e)

abbrev appended : Db → FlowDb × Option ℕ → Result Failure Db
appended db (flow, some id) = ok (with_flow db flow)
appended db (flow, none) = err (integrity_error GraphError.missing_reference)

module _ (run : Run) where
  abbrev pub add : StageSpec → Db → Result Failure Db
  add spec db = added db (add_stage run.workflow spec run.now db.flow)

  abbrev pub append_lineage : (decision_type : String) → Db → Result Failure Db
  append_lineage decision_type db = appended db (append run.now run.workflow decision_type db.flow)

  abbrev pub event : ActorType → (action : String) → Artifact → (result : String) → Db → Db
  event actor action affected result =
      record_event actor action affected result (some run.workflow) run.now

  -- `complete_stage`; with None for the execution it changes nothing.
  abbrev pub complete : Option String → (stage : String) → Db → Db
  complete none stage db = db
  complete (some execution) stage db =
      with_flow db (complete_stage execution stage run.now db.flow).0

  -- UPDATE … SET status=… WHERE id=?, which leaves the time of the last update.
  abbrev pub move_workflow : WorkflowStatus → Db → Db
  move_workflow status db = with_flow db (record db.flow {
    workflows =
        update (λ w. w.id == run.workflow) (λ w. record w { status = status }) db.flow.workflows;
  })
