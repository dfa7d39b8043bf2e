-- ===== src/Schema.antt =====
-- src/persistence/schema.py: the rows of the SQLite tables, the values that their CHECK constraints
-- allow, and the database. A table is the list of its rows, oldest first.
-- Ids, codes, names and revisions are texts; a timestamp is a number of microseconds, since the
-- texts that `datetime.now(UTC).isoformat()` writes are ordered as the instants that they name.
pub mod Status
use agentic_engineering_url.Prelude.{ℕ, String, Option, List, [], Bool, none}
use Status.{
  LinkStatus, DrainStatus, Completeness, SystemState, WorkflowStatus, StageStatus, EffectClass,
  ExecutionStatus, Role, Verdict, Outcome, ActorType,
}

-- domain_short_link
pub record ShortLink : Type 0 where
  pub short_code : String
  pub destination_url : String
  pub created_at : ℕ
  pub expires_at : Option String
  pub status : LinkStatus
  pub deleted_at : Option ℕ

-- domain_idempotency_record
pub record IdempotencyRecord : Type 0 where
  pub idempotency_key : String
  pub validated_payload_hash : String
  pub short_code : String
  pub created_at : ℕ

-- domain_analytics_outbox
pub record OutboxEvent : Type 0 where
  pub event_id : String
  pub short_code : String
  pub redirected_at : ℕ
  pub drain_status : DrainStatus

-- applied_events
pub record AppliedEvent : Type 0 where
  pub event_id : String
  pub applied_at : ℕ

-- analytics_system_status, whose only row has id 1
pub record SystemStatus : Type 0 where
  pub state : SystemState
  pub started_at : ℕ
  pub clean_shutdown_at : Option ℕ
  pub degraded_since : Option ℕ

-- domain_short_link_analytics_summary
pub record Summary : Type 0 where
  pub short_code : String
  pub successful_redirect_count : ℕ
  pub last_successful_redirect_at : Option ℕ
  pub completeness_status : Completeness

-- orchestration_workflow_instance
pub record Workflow : Type 0 where
  pub id : String
  pub feature_ref : String
  pub scenario : String
  pub status : WorkflowStatus
  pub updated_at : ℕ

-- A value that `json.loads` gives for a stage's payload, as far as the program looks at it.
pub data Json : Type 0 where
  text : String → Json
  number : ℕ → Json
  boolean : Bool → Json
  null : Json

-- A JSON object of plain values.
abbrev pub Payload : Type 0
Payload = List (String × Json)

-- The `condition` object of a branch: each key may be missing.
pub record Condition : Type 0 where
  pub field : Option String
  pub op : Option String
  pub value : Option Json

-- What the text column `preconditions` holds.
pub data Preconditions : Type 0 where
  null : Preconditions
  invalid : Preconditions
  plain : Preconditions
  branch : (group : String) → Condition → Preconditions

-- What the text column `postconditions` holds.
pub data Postconditions : Type 0 where
  null : Postconditions
  invalid : Postconditions
  outcome : Payload → Postconditions

-- orchestration_workflow_stage
pub record Stage : Type 0 where
  pub id : String
  pub workflow_instance_id : String
  pub name : String
  pub status : StageStatus
  pub attempt_count : ℕ
  pub effect_class : EffectClass
  pub artifact_revision : String
  pub preconditions : Preconditions
  pub postconditions : Postconditions
  pub timeout_seconds : ℕ
  pub updated_at : ℕ

-- The object of the text column `outcome_detail`: what a validator has found.
pub record Evidence : Type 0 where
  pub validator_command : String
  pub validator_exit_code : ℕ
  pub validator_output_hash : String
  pub artifact_hashes : List (String × String)

-- orchestration_stage_execution
pub record Execution : Type 0 where
  pub id : String
  pub stage_id : String
  pub attempt_number : ℕ
  pub claimed_by_worker_id : String
  pub claimed_at : ℕ
  pub lease_expires_at : ℕ
  pub status : ExecutionStatus
  pub outcome_detail : Option Evidence

-- orchestration_stage_dependency
pub record Dependency : Type 0 where
  pub workflow_instance_id : String
  pub stage_id : String
  pub depends_on_stage_id : String

-- orchestration_decision_lineage, without the JSON of `detail`
pub record Decision : Type 0 where
  pub workflow_instance_id : String
  pub decision_type : String
  pub created_at : ℕ

-- orchestration_approval_decision
pub record Approval : Type 0 where
  pub id : String
  pub workflow_instance_id : String
  pub gate_id : String
  pub identity : String
  pub role : Role
  pub decision : Verdict
  pub rationale : Option String
  pub artifact_revision : String
  pub created_at : ℕ
  pub invalidated_at : Option ℕ

-- policy_evaluation
pub record Evaluation : Type 0 where
  pub id : ℕ
  pub workflow_instance_id : Option String
  pub policy_id : String
  pub policy_version : String
  pub artifact_revision : Option String
  pub outcome : Outcome
  pub evaluated_at : ℕ

-- policy_exception
pub record PolicyException : Type 0 where
  pub id : String
  pub policy_evaluation_id : ℕ
  pub reason : String
  pub scope : String
  pub approving_identity : String
  pub compensating_control : String
  pub approved_at : ℕ
  pub expires_at : ℕ

-- What the text `affected_artifact_or_state` names, by its prefix.
pub data Artifact : Type 0 where
  short_code idempotency_key destination_url gate workflow stage agent : String → Artifact

-- audit_events; the free text of `reason` and `detail` is left out
pub record AuditEvent : Type 0 where
  pub id : ℕ
  pub workflow_instance_id : Option String
  pub actor_type : ActorType
  pub action : String
  pub affected : Artifact
  pub result : String
  pub timestamp : ℕ
  pub recovery_of_event_id : Option ℕ

-- The domain_* tables with those that the drain worker writes beside them.
pub record LinkDb : Type 0 where
  pub links : List ShortLink
  pub idempotency : List IdempotencyRecord
  pub outbox : List OutboxEvent
  pub applied : List AppliedEvent
  pub summaries : List Summary
  pub system_status : Option SystemStatus

-- The orchestration_* tables.
pub record FlowDb : Type 0 where
  pub workflows : List Workflow
  pub stages : List Stage
  pub executions : List Execution
  pub dependencies : List Dependency
  pub lineage : List Decision
  pub approvals : List Approval

-- The policy_* tables.
pub record PolicyDb : Type 0 where
  pub evaluations : List Evaluation
  pub exceptions : List PolicyException

-- The whole database.
pub record Db : Type 0 where
  pub link : LinkDb
  pub flow : FlowDb
  pub policy : PolicyDb
  pub audit : List AuditEvent

abbrev pub empty_link : LinkDb
empty_link = record {
  links = [];
  idempotency = [];
  outbox = [];
  applied = [];
  summaries = [];
  system_status = none;
}

abbrev pub empty_flow : FlowDb
empty_flow = record {
  workflows = [];
  stages = [];
  executions = [];
  dependencies = [];
  lineage = [];
  approvals = [];
}

abbrev pub empty_db : Db
empty_db = record {
  link = empty_link;
  flow = empty_flow;
  policy = record { evaluations = []; exceptions = [] };
  audit = [];
}
