-- ===== src/Scripts/Approve.antt =====
-- scripts/approve.py: deciding a gate from the command line. The request that urllib sends is taken
-- to reach the endpoint with its path, its body and its Authorization header.
pub mod Roundtrip
use agentic_engineering_url.Prelude.{ℕ, String, Option, some, Result, ok, err, concat}
use agentic_engineering_url.Schema.{Db, Approval}
use agentic_engineering_url.Api.ShortLinks.{Reply}
use agentic_engineering_url.Api.Auth.{CredentialError, read_raw_token}
use agentic_engineering_url.Api.Approvals.{Attempt, GateRequest, approve_gate, reject_gate}

-- The choices of `--decision`.
pub data Choice : Type 0 where
  approve reject : Choice

-- The parsed command line; the base URL is that of the service.
pub record Arguments : Type 0 where
  pub identity : String
  pub workflow : String
  pub gate : String
  pub decision : Choice
  pub rationale : Option String

-- What the program prints: the decision, or the error with which it exits.
pub data Outcome : Type 0 where
  decided : Approval → Outcome
  no_token : CredentialError → Outcome
  refused : (status : ℕ) → (error : String) → Outcome

-- An exception that the service does not catch is its answer 500.
abbrev outcome_of_reply : Reply Approval → Outcome
outcome_of_reply (Reply.body decision) = Outcome.decided decision
outcome_of_reply (Reply.http_error status error) = Outcome.refused status error
outcome_of_reply Reply.uncaught = Outcome.refused 500 "Internal Server Error"

abbrev pub request_of : Arguments → (token : String) → GateRequest
request_of args token = record {
  workflow_id = args.workflow;
  gate_id = args.gate;
  rationale = args.rationale;
  authorization = some (concat "Bearer " token);
}

abbrev endpoint : Choice → Attempt → GateRequest → Db → Db × Reply Approval
endpoint Choice.approve env req db = approve_gate env req db
endpoint Choice.reject env req db = reject_gate env req db

unfoldable pub submit_decision : Attempt → Arguments → (token : String) → Db → Db × Outcome
submit_decision env args token db =
    let (db', reply) = endpoint args.decision env (request_of args token) db in
    (db', outcome_of_reply reply)

abbrev with_token : Attempt → Arguments → Db → Result CredentialError String → Db × Outcome
with_token env args db (err e) = (db, Outcome.no_token e)
with_token env args db (ok token) = submit_decision env args token db

-- The token is looked up in the files under the operator's key.
unfoldable pub approve_main : Attempt → Arguments → Db → Db × Outcome
unfolding submit_decision
approve_main env args db =
    with_token env args db (read_raw_token env.credentials.files args.identity)
