-- ===== src/Examples/Operators.antt =====
-- Operators: credentials that are provisioned, and a gate that is decided with them.
use agentic_engineering_url.Prelude.{String, ◌≡◌, refl, false, none, [], ◌∷◌, arith, eq_iff}
use agentic_engineering_url.Schema.{Db, empty_db, empty_flow}
use agentic_engineering_url.Schema.Status.{Role}
use agentic_engineering_url.Api.Auth.{Provision, SecretFiles}
use agentic_engineering_url.Scripts.BootstrapCredentials.{bootstrap_main}
use agentic_engineering_url.Scripts.Approve.{Choice, Arguments, approve_main}
use agentic_engineering_url.Scripts.Approve.Roundtrip.{
  deployed, expected, provisioned_person_decides,
}
use agentic_engineering_url.Examples.Data.{workflow_a}

abbrev same_text : String → String
same_text text = text

abbrev alice : Provision
alice = record { identity = "alice"; role = Role.reviewer_approver; token = "t1"; salt = "s1" }

abbrev bob : Provision
bob = record { identity = "bob"; role = Role.release_owner; token = "t2"; salt = "s2" }

abbrev nothing_stored : SecretFiles
nothing_stored = record { raw = none; hashed = none }

abbrev one_workflow : Db
one_workflow = record empty_db { flow = record empty_flow { workflows = workflow_a ∷ [] } }

abbrev release : Arguments
release = record {
  identity = "bob";
  workflow = "w1";
  gate = "release_readiness";
  decision = Choice.approve;
  rationale = none;
}

provisioned_person_decides_example :
    let files = (bootstrap_main same_text (alice ∷ bob ∷ []) false nothing_stored).0 in
    let env = deployed same_text 9 "d1" files in
    let (db', out) = approve_main env release one_workflow in
    (out, db'.flow.approvals) ≡ expected env release bob one_workflow
provisioned_person_decides_example =
    provisioned_person_decides same_text (alice ∷ []) bob [] false nothing_stored 9 "d1" release
      one_workflow refl (refl, (refl, tt)) (refl, (refl, tt))
      (λ e. absurd (ground (arith, eq_iff "s1t2" "s1t1", e)), tt) refl (refl, (refl, tt)) refl
