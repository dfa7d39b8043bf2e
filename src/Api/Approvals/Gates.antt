-- ===== src/Api/Approvals/Gates.antt =====
-- Who can decide a gate, for src/api/routers/approvals.py.
use agentic_engineering_url.Prelude.{
  String, ◌≡◌, refl, ◌⊎◌, inl, inr, Bool, not, ◌&&◌, ◌||◌, ◌==◌, ◌++◌, [], ◌∷◌, Option, none, some,
  List, arith, if◌then◌else◌, is_some,
}
use agentic_engineering_url.Schema.{Db, Approval}
use agentic_engineering_url.Schema.Status.{Verdict, Role}
use agentic_engineering_url.Observability.Audit.{record_event}
use agentic_engineering_url.Orchestration.Models.{get_workflow_instance}
use agentic_engineering_url.Api.Bearer.{extract_bearer}
use agentic_engineering_url.Api.Auth.{Identity, resolve_identity, required_role_for_gate}
use agentic_engineering_url.Api.Approvals.{
  Attempt, GateRequest, authorize, authenticate_and_authorize, record_decision, approve_gate,
  reject_gate,
}

-- Whom a gate is for: the release owner decides release_readiness and final_submission, and the
-- reviewer every other gate.
abbrev gate_is_for : String → Role → Bool
gate_is_for gate Role.release_owner = (gate == "release_readiness") || (gate == "final_submission")
gate_is_for gate Role.reviewer_approver =
    not ((gate == "release_readiness") || (gate == "final_submission"))

-- The identity may decide the gate of the workflow: it is no agent, the gate is for its role, and the
-- workflow exists.
abbrev pub may_decide : GateRequest → Db → Identity → Bool
may_decide req db who =
    not who.is_agent
    && (gate_is_for req.gate_id who.role && is_some (get_workflow_instance db.flow req.workflow_id))

-- The decisions that there are afterwards.
abbrev pub recorded : Attempt → GateRequest → Verdict → Db → Option Identity → List Approval
recorded env req verdict db none = db.flow.approvals
recorded env req verdict db (some who) =
    if may_decide req db who
    then db.flow.approvals
      ++ record {
        id = env.decision_id;
        workflow_instance_id = req.workflow_id;
        gate_id = req.gate_id;
        identity = who.identity;
        role = who.role;
        decision = verdict;
        rationale = req.rationale;
        artifact_revision = "v1";
        created_at = env.now;
        invalidated_at = none;
      }
        ∷ []
    else db.flow.approvals

Role-cases : (r : Role) → (r ≡ Role.release_owner) ⊎ (r ≡ Role.reviewer_approver)
Role-cases Role.release_owner = inl refl
Role-cases Role.reviewer_approver = inr refl

decided_by :
    (env : Attempt) (req : GateRequest) (verdict : Verdict) (action result : String) (db : Db)
    (who : Option Identity)
    → let (db', access) = authorize env req who db in
      (record_decision env req verdict action result access db').0.flow.approvals
      ≡ recorded env req verdict db who
unfolding authorize record_decision record_event required_role_for_gate
decided_by env req verdict action result db none = refl
decided_by env req verdict action result db (some who) = elim (Role-cases who.role) [
  | inl o ↦ ground (arith, o)
  | inr r ↦ ground (arith, r)
]

-- Approving and rejecting a gate: exactly one decision is added, of the identity that the bearer
-- token resolves to, with the request's workflow, gate and rationale, when that identity is no agent,
-- is the release owner for release_readiness and final_submission and the reviewer for every other
-- gate, and the workflow exists. In every other case the decisions are left as they were.
pub decision_needs_right :
    (env : Attempt) (req : GateRequest) (db : Db)
    → let who = resolve_identity env.sha256 env.credentials (extract_bearer req.authorization) in
      ((approve_gate env req db).0.flow.approvals ≡ recorded env req Verdict.approved db who)
      × ((reject_gate env req db).0.flow.approvals ≡ recorded env req Verdict.rejected db who)
unfolding approve_gate reject_gate authenticate_and_authorize
decision_needs_right env req db =
    let who = resolve_identity env.sha256 env.credentials (extract_bearer req.authorization) in
    (
      decided_by env req Verdict.approved "approve_gate" "approved" db who,
      decided_by env req Verdict.rejected "reject_gate" "rejected" db who,
    )
