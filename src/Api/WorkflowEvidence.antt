-- ===== src/Api/WorkflowEvidence.antt =====
-- src/api/routers/workflow_evidence.py: the audit trail and the policy evaluations of a workflow,
-- without the free text of the reasons.
pub mod Trail
use agentic_engineering_url.Prelude.{ℕ, String, List, map, some, equals?}
use agentic_engineering_url.Sql.{select}
use agentic_engineering_url.Schema.{Db, AuditEvent, Evaluation, Artifact}
use agentic_engineering_url.Schema.Status.{ActorType, Outcome}
use agentic_engineering_url.Observability.Audit.{get_events_for_workflow}

pub record AuditEventOut : Type 0 where
  pub actor_type : ActorType
  pub action : String
  pub timestamp : ℕ
  pub affected_artifact_or_state : Artifact
  pub result : String

pub record PolicyEvaluationOut : Type 0 where
  pub policy_id : String
  pub policy_version : String
  pub outcome : Outcome
  pub evaluated_at : ℕ

abbrev pub event_out : AuditEvent → AuditEventOut
event_out e = record {
  actor_type = e.actor_type;
  action = e.action;
  timestamp = e.timestamp;
  affected_artifact_or_state = e.affected;
  result = e.result;
}

abbrev evaluation_out : Evaluation → PolicyEvaluationOut
evaluation_out e = record {
  policy_id = e.policy_id;
  policy_version = e.policy_version;
  outcome = e.outcome;
  evaluated_at = e.evaluated_at;
}

unfoldable pub get_workflow_audit_events : Db → String → List AuditEventOut
unfolding get_events_for_workflow
get_workflow_audit_events db workflow = map event_out (get_events_for_workflow db workflow)

unfoldable pub get_workflow_policy_evaluations : Db → String → List PolicyEvaluationOut
get_workflow_policy_evaluations db workflow =
    map evaluation_out
      (select (λ e. equals? e.workflow_instance_id (some workflow)) db.policy.evaluations)
