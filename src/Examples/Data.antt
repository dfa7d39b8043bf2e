-- ===== src/Examples/Data.antt =====
-- The tables, the rows and the library calls of the examples.
use agentic_engineering_url.Prelude.{
  ℕ, zero, suc, String, false, none, some, [], ◌∷◌, ◌==◌, if◌then◌else◌,
}
use agentic_engineering_url.Schema.{
  Condition, LinkDb, Db, ShortLink, Summary, OutboxEvent, empty_link, empty_flow, empty_db, Stage,
  FlowDb, Workflow, Execution, Preconditions, Postconditions, Json, Evaluation,
}
use agentic_engineering_url.Schema.Status.{
  LinkStatus, DrainStatus, Completeness, StageStatus, EffectClass, ExecutionStatus, WorkflowStatus,
  Outcome,
}
use agentic_engineering_url.Domain.Validation.{Outside, Lookup}
use agentic_engineering_url.Api.ShortLinks.{Surroundings, CreateRequest}

abbrev pub link_a : ShortLink
link_a = record {
  short_code = "abc1234";
  destination_url = "https://example.org/a";
  created_at = 1;
  expires_at = none;
  status = LinkStatus.active;
  deleted_at = none;
}

abbrev pub summary_a : Summary
summary_a = record {
  short_code = "abc1234";
  successful_redirect_count = 0;
  last_successful_redirect_at = none;
  completeness_status = Completeness.complete;
}

abbrev pub event_a : OutboxEvent
event_a = record {
  event_id = "e1";
  short_code = "abc1234";
  redirected_at = 5;
  drain_status = DrainStatus.pending;
}

-- One link that has not been followed.
abbrev pub links_a : LinkDb
links_a = record empty_link { links = link_a ∷ []; summaries = summary_a ∷ [] }

-- One link with one pending event.
abbrev pub links_pending : LinkDb
links_pending = record links_a { outbox = event_a ∷ [] }

abbrev pub db_a : Db
db_a = record empty_db { link = links_a }

abbrev pub at_seven : String → ℕ
at_seven id = 7

-- A public address for every host; the only timestamp that is understood has no offset.
abbrev pub outside : Outside
outside = record {
  urlparse = λ url.
      some (record { scheme = "https"; netloc = "example.org"; hostname = some "example.org" });
  ip_address = λ text.
      if text == "example.org"
      then none
      else some (record {
        is_loopback = false;
        is_private = false;
        is_link_local = false;
        is_reserved = false;
      });
  getaddrinfo = λ host. Lookup.resolved ("203.0.113.9" ∷ []);
  fromisoformat = λ text.
      if text == "2030-01-01T00:00:00"
      then some (record { instant = 900; is_aware = false })
      else none;
}

abbrev pub codes : ℕ → String
codes zero = "abc1234"
codes (suc n) = "xyz9876"

abbrev pub surroundings : Surroundings
surroundings = record { os = outside; sha256 = λ text. text; codes = codes; now = 10 }

abbrev pub request_b : CreateRequest
request_b = record {
  destination_url = "https://example.org/b";
  expires_at = none;
  idempotency_key = some "key-0123456789abcdef";
}

abbrev pub stage_of : (id name : String) → StageStatus → Preconditions → Stage
stage_of id name status pre = record {
  id = id;
  workflow_instance_id = "w1";
  name = name;
  status = status;
  attempt_count = 0;
  effect_class = EffectClass.idempotent;
  artifact_revision = "v1";
  preconditions = pre;
  postconditions = Postconditions.null;
  timeout_seconds = 5;
  updated_at = 1;
}

abbrev pub workflow_a : Workflow
workflow_a = record {
  id = "w1";
  feature_ref = "shorten";
  scenario = "n/a";
  status = WorkflowStatus.running;
  updated_at = 1;
}

abbrev pub execution_of : ExecutionStatus → Execution
execution_of status = record {
  id = "x1";
  stage_id = "s1";
  attempt_number = 1;
  claimed_by_worker_id = "worker";
  claimed_at = 2;
  lease_expires_at = 3;
  status = status;
  outcome_detail = none;
}

abbrev pub proceeds : Condition
proceeds = record { field = some "decision"; op = some "eq"; value = some (Json.text "proceed") }

abbrev pub branch_row : Stage
branch_row =
    stage_of "s2" "proceed_path" StageStatus.pending
      (Preconditions.branch "outcome_branch" proceeds)

-- A finished stage with an outcome, and a branch that depends on it.
abbrev pub flow_branch : FlowDb
flow_branch = record empty_flow {
  workflows = workflow_a ∷ [];
  stages =
      record (stage_of "s1" "classify" StageStatus.succeeded Preconditions.null) {
        postconditions = Postconditions.outcome (("decision", Json.text "proceed") ∷ []);
      }
      ∷ stage_of "s2" "proceed_path" StageStatus.pending (
          Preconditions.branch "outcome_branch" (record {
            field = some "decision";
            op = some "eq";
            value = some (Json.text "proceed");
          }))
      ∷ [];
  dependencies =
      record { workflow_instance_id = "w1"; stage_id = "s2"; depends_on_stage_id = "s1" } ∷ [];
}

-- A stage that runs, claimed by one execution.
abbrev pub flow_running : FlowDb
flow_running = record empty_flow {
  workflows = workflow_a ∷ [];
  stages = stage_of "s1" "build" StageStatus.running Preconditions.null ∷ [];
  executions = execution_of ExecutionStatus.claimed ∷ [];
}

abbrev pub evaluation_of : Outcome → Evaluation
evaluation_of outcome = record {
  id = 1;
  workflow_instance_id = some "w1";
  policy_id = "change-control";
  policy_version = "1";
  artifact_revision = some "v1";
  outcome = outcome;
  evaluated_at = 4;
}
