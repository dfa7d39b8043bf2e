-- ===== src/Api/Approvals.antt =====
-- src/api/routers/approvals.py: the endpoints that approve or reject a gate.
pub mod Gates
use agentic_engineering_url.Prelude.{ℕ, String, not, Option, none, some, if◌then◌else◌, is_some}
use agentic_engineering_url.Sql.{insert}
use agentic_engineering_url.Schema.{Db, Approval, Artifact}
use agentic_engineering_url.Schema.Status.{Verdict, ActorType, same_role}
use agentic_engineering_url.Observability.Audit.{record_event}
use agentic_engineering_url.Orchestration.Models.{get_workflow_instance}
use agentic_engineering_url.Api.ShortLinks.{Reply}
use agentic_engineering_url.Api.Bearer.{extract_bearer}
use agentic_engineering_url.Api.Auth.{
  Identity, Credentials, resolve_identity, required_role_for_gate,
}

-- What an attempt meets: the hash, the credentials, the clock, and the fresh id of the decision.
pub record Attempt : Type 0 where
  pub sha256 : String → String
  pub credentials : Credentials
  pub now : ℕ
  pub decision_id : String

pub record GateRequest : Type 0 where
  pub workflow_id : String
  pub gate_id : String
  pub rationale : Option String
  pub authorization : Option String

-- What _authenticate_and_authorize answers: the identity, or the status and the error it raises.
pub data Access : Type 0 where
  granted : Identity → Access
  denied : (status : ℕ) → (error : String) → Access

module _ (env : Attempt) (req : GateRequest) where
  abbrev audit : ActorType → (action result : String) → Db → Db
  audit actor action result db =
      record_event actor action (Artifact.gate req.gate_id) result (some req.workflow_id) env.now db

  unfoldable pub authorize : Option Identity → Db → Db × Access
  authorize none db = (
    audit ActorType.system "approval_attempt_rejected" "rejected_unauthenticated" db,
    denied 401 "unauthenticated",
  )
  authorize (some who) db =
      if who.is_agent
      then (
        audit ActorType.agent "approval_attempt_rejected" "rejected_agent_identity" db,
        denied 403 "agent_identity_forbidden",
      )
      else if not (same_role who.role (required_role_for_gate req.gate_id))
      then (
        audit ActorType.human "approval_attempt_rejected" "rejected_wrong_role" db,
        denied 403 "wrong_role_for_gate",
      )
      else (db, granted who)

  unfoldable pub authenticate_and_authorize : Db → Db × Access
  unfolding authorize
  authenticate_and_authorize db =
      authorize (resolve_identity env.sha256 env.credentials (extract_bearer req.authorization)) db

  abbrev pub decision_row : Verdict → Identity → Approval
  decision_row verdict who = record {
    id = env.decision_id;
    workflow_instance_id = req.workflow_id;
    gate_id = req.gate_id;
    identity = who.identity;
    role = who.role;
    decision = verdict;
    rationale = req.rationale;
    artifact_revision = "v1";
    created_at = env.now;
    invalidated_at = none;
  }

  -- INSERT INTO orchestration_approval_decision, and the audit event
  unfoldable pub record_decision :
      Verdict → (action result : String) → Access → Db → Db × Reply Approval
  record_decision verdict action result (denied status error) db =
      (db, Reply.http_error status error)
  record_decision verdict action result (granted who) db =
      if is_some (get_workflow_instance db.flow req.workflow_id)
      then (
        audit ActorType.human action result (record db {
          flow = record db.flow { approvals = insert (decision_row verdict who) db.flow.approvals };
        }),
        Reply.body (decision_row verdict who),
      )
      else (db, Reply.http_error 404 "not_found")

  unfoldable pub approve_gate : Db → Db × Reply Approval
  unfolding record_decision
  approve_gate db =
      let (db', access) = authenticate_and_authorize db in
      record_decision Verdict.approved "approve_gate" "approved" access db'

  unfoldable pub reject_gate : Db → Db × Reply Approval
  unfolding record_decision
  reject_gate db =
      let (db', access) = authenticate_and_authorize db in
      record_decision Verdict.rejected "reject_gate" "rejected" access db'
