-- ===== src/Scripts/Approve/Roundtrip.antt =====
-- From a provisioned token to a recorded decision: scripts/approve.py with src/api/credentials.py,
-- src/api/auth.py and src/api/routers/approvals.py.
use agentic_engineering_url.Prelude.{
  ℕ, String, ◌≡◌, refl, Bool, false, not, ◌&&◌, some, List, [], ◌∷◌, ◌++◌, map, arith, ◌==◌,
  if◌then◌else◌, is_some,
}
use agentic_engineering_url.Sql.{insert}
use agentic_engineering_url.Schema.{Db, Approval}
use agentic_engineering_url.Schema.Status.{Verdict, same_role}
use agentic_engineering_url.Observability.Audit.{record_event}
use agentic_engineering_url.Orchestration.Models.{get_workflow_instance}
use agentic_engineering_url.Orchestration.Scheduler.Ready.{AreDistinct}
use agentic_engineering_url.Api.Bearer.Header.{HasNoSpace, bearer_roundtrip}
use agentic_engineering_url.Api.Auth.{
  Provision, SecretFiles, Identity, resolve_identity, required_role_for_gate,
}
use agentic_engineering_url.Api.Auth.Provisioned.{
  provisioned, bootstrapped, read_provisioned, resolve_provisioned, NoCollision,
}
use agentic_engineering_url.Api.Approvals.{
  Attempt, authorize, authenticate_and_authorize, decision_row, record_decision, approve_gate,
  reject_gate,
}
use agentic_engineering_url.Scripts.BootstrapCredentials.{bootstrap_main}
use agentic_engineering_url.Scripts.Approve.{
  Choice, Arguments, Outcome, request_of, endpoint, outcome_of_reply, submit_decision, approve_main,
}

abbrev pub verdict_of : Choice → Verdict
verdict_of Choice.approve = Verdict.approved
verdict_of Choice.reject = Verdict.rejected

-- The service and the script of a deployment, which read the same files.
abbrev pub deployed : (sha256 : String → String) → (now : ℕ) → (id : String) → SecretFiles → Attempt
deployed sha256 now id files = record {
  sha256 = sha256;
  credentials = record { test_store = []; files = files };
  now = now;
  decision_id = id;
}

abbrev pub person : Provision → Identity
person p = record { identity = p.identity; role = p.role; is_agent = false }

abbrev pub row_of : Attempt → Arguments → Provision → Approval
row_of env args p = decision_row env (request_of args p.token) (verdict_of args.decision) (person p)

-- What the script should print for a person, and the decisions that there should be then.
abbrev pub expected : Attempt → Arguments → Provision → Db → Outcome × List Approval
expected env args p db =
    if not (same_role p.role (required_role_for_gate args.gate))
    then (Outcome.refused 403 "wrong_role_for_gate", db.flow.approvals)
    else if is_some (get_workflow_instance db.flow args.workflow)
    then (Outcome.decided (row_of env args p), insert (row_of env args p) db.flow.approvals)
    else (Outcome.refused 404 "not_found", db.flow.approvals)

authorized :
    (env : Attempt) (args : Arguments) (p : Provision) (db : Db)
    → resolve_identity env.sha256 env.credentials (some p.token) ≡ some (person p)
    → HasNoSpace p.token
    → authenticate_and_authorize env (request_of args p.token) db
      ≡ authorize env (request_of args p.token) (some (person p)) db
unfolding authenticate_and_authorize
authorized env args p db r h = rw (bearer_roundtrip p.token h, r) refl

answered :
    (c : Choice) (env : Attempt) (args : Arguments) (p : Provision) (db : Db)
    → args.decision ≡ c
    → authenticate_and_authorize env (request_of args p.token) db
      ≡ authorize env (request_of args p.token) (some (person p)) db
    → let (db', reply) = endpoint c env (request_of args p.token) db in
      (outcome_of_reply reply, db'.flow.approvals) ≡ expected env args p db
unfolding approve_gate reject_gate authorize record_decision record_event
answered Choice.approve env args p db d e = rw (e, d) (ground arith)
answered Choice.reject env args p db d e = rw (e, d) (ground arith)

submitted :
    (env : Attempt) (args : Arguments) (p : Provision) (db : Db)
    → resolve_identity env.sha256 env.credentials (some p.token) ≡ some (person p)
    → HasNoSpace p.token
    → let (db', out) = submit_decision env args p.token db in
      (out, db'.flow.approvals) ≡ expected env args p db
unfolding submit_decision
submitted env args p db r h =
    answered args.decision env args p db refl (authorized env args p db r h)

-- After a bootstrap that is not refused, with distinct identities and tokens that are not empty, have
-- no white space and do not collide under a salt: the script, run for one of the persons, prints and
-- records a decision of that person and role if the role is the gate's and the workflow exists;
-- otherwise it exits with 403 or 404, and the decisions are as they were.
pub provisioned_person_decides :
    (sha256 : String → String) (before : List Provision) (p : Provision) (after : List Provision)
    (force : Bool) (files : SecretFiles) (now : ℕ) (id : String) (args : Arguments) (db : Db)
    → (is_some files.hashed && not force) ≡ false
    → AreDistinct (map (λ q. q.identity) (before ++ p ∷ after))
    → AreDistinct (map (λ q. q.token) (before ++ p ∷ after))
    → NoCollision sha256 p before
    → (p.token == "") ≡ false
    → HasNoSpace p.token
    → args.identity ≡ p.identity
    → let files' = (bootstrap_main sha256 (before ++ p ∷ after) force files).0 in
      let env = deployed sha256 now id files' in
      let (db', out) = approve_main env args db in
      (out, db'.flow.approvals) ≡ expected env args p db
unfolding bootstrap_main approve_main
provisioned_person_decides sha256 before p after force files now id args db g a t c e h i =
    rw
      (
        bootstrapped sha256 (before ++ p ∷ after) force files g a,
        i,
        read_provisioned sha256 before p after a,
      )
      (submitted (deployed sha256 now id (provisioned sha256 before p after)) args p db
        (resolve_provisioned sha256 before p after t c e) h)
