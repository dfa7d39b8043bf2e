-- ===== src/Examples/Gates.antt =====
-- Policy checks that are recorded and stand, and gates that are decided.
use agentic_engineering_url.Prelude.{
  ◌<◌, String, ◌≡◌, refl, ◌↔◌, true, false, none, some, List, [], ◌∷◌, All,
}
use agentic_engineering_url.Sql.{count, fetch}
use agentic_engineering_url.Schema.{PolicyDb, Db, empty_db, empty_flow}
use agentic_engineering_url.Schema.Status.{Outcome, Role, Verdict}
use agentic_engineering_url.Policy.Manifest.{Manifest, policy_ids}
use agentic_engineering_url.Policy.Live.{is_release_ready}
use agentic_engineering_url.Policy.Live.Readiness.{IsCurrent, is_open_fail, ready_iff_IsCurrent}
use agentic_engineering_url.Api.Bearer.{extract_bearer, after_prefix, strip_left, strip_right}
use agentic_engineering_url.Api.Auth.{
  Provision, SecretFiles, bootstrap, provision_all, verify_token, resolve_identity,
}
use agentic_engineering_url.Api.Auth.Tokens.{is_issued, verifies_only_issued}
use agentic_engineering_url.Api.Approvals.{Attempt, GateRequest, approve_gate, reject_gate}
use agentic_engineering_url.Api.Approvals.Gates.{recorded, decision_needs_right}
use agentic_engineering_url.Examples.Data.{workflow_a, evaluation_of}

abbrev one_fail : PolicyDb
one_fail = record { evaluations = evaluation_of Outcome.fail ∷ []; exceptions = [] }

abbrev one_policy : Manifest
one_policy = record { version = "1"; policies = "change-control" ∷ [] }

ready_iff_IsCurrent_example : ((is_release_ready one_policy 9 "w1" "v1" one_fail).0 ≡ true) ↔ (
    (count (is_open_fail 9 "w1" one_fail) one_fail.evaluations ≡ 0)
    × All (IsCurrent one_fail "w1" "v1") (policy_ids one_policy))
ready_iff_IsCurrent_example = ready_iff_IsCurrent one_policy 9 "w1" "v1" one_fail

abbrev identity_hash : String → String
identity_hash text = text

abbrev provisions : List Provision
provisions =
    record { identity = "alice"; role = Role.reviewer_approver; token = "t1"; salt = "s1" } ∷ []

abbrev no_files : SecretFiles
no_files = record { raw = none; hashed = none }

verifies_only_issued_example :
    0 < count (is_issued identity_hash "t1" "alice" Role.reviewer_approver) provisions
unfolding bootstrap provision_all verify_token fetch count
verifies_only_issued_example =
    verifies_only_issued identity_hash provisions false no_files "t1" "alice" Role.reviewer_approver
      refl (refl, tt) refl

abbrev attempt_of_alice : Attempt
attempt_of_alice = record {
  sha256 = identity_hash;
  credentials = record {
    test_store = [];
    files = (bootstrap identity_hash provisions false no_files).0;
  };
  now = 6;
  decision_id = "d1";
}

abbrev gate_request : GateRequest
gate_request = record {
  workflow_id = "w1";
  gate_id = "architecture_approval";
  rationale = none;
  authorization = some "Bearer t1";
}

abbrev db_workflow : Db
db_workflow = record empty_db { flow = record empty_flow { workflows = workflow_a ∷ [] } }

mixed_case_bearer : extract_bearer (some "bEARer   t1 ") ≡ some "t1"
unfolding extract_bearer after_prefix strip_left strip_right
mixed_case_bearer = refl

basic_credentials : extract_bearer (some "Basic t1") ≡ none
unfolding extract_bearer after_prefix
basic_credentials = refl

decision_needs_right_example :
    let who =
      resolve_identity identity_hash attempt_of_alice.credentials
        (extract_bearer (some "Bearer t1")) in
    ((approve_gate attempt_of_alice gate_request db_workflow).0.flow.approvals
      ≡ recorded attempt_of_alice gate_request Verdict.approved db_workflow who)
    × ((reject_gate attempt_of_alice gate_request db_workflow).0.flow.approvals
        ≡ recorded attempt_of_alice gate_request Verdict.rejected db_workflow who)
decision_needs_right_example = decision_needs_right attempt_of_alice gate_request db_workflow
