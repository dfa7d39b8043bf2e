-- ===== src/Api/Requests.antt =====
-- src/api/routers/: the requests whose handlers write to the tables. A handler that only reads
-- changes nothing that a later one meets.
pub mod Creation
pub mod Status
use agentic_engineering_url.Prelude.{ℕ, String}
use agentic_engineering_url.Schema.{Db}
use agentic_engineering_url.Domain.Validation.{Outside}
use agentic_engineering_url.Api.ShortLinks.{
  Surroundings, CreateRequest, create_short_link_endpoint, delete_short_link_endpoint,
}
use agentic_engineering_url.Api.Redirect.{follow}
use agentic_engineering_url.Api.Approvals.{Attempt, GateRequest, approve_gate, reject_gate}
use agentic_engineering_url.Api.Workflows.{FreshIds, WorkflowCreateRequest, create_workflow}
use agentic_engineering_url.Api.Health.{get_health}

-- A request, with what its handler meets.
pub data Request : Type 0 where
  create_link : Surroundings → CreateRequest → Request
  follow_link :
      Outside → (event_id : String) → (clock : String → ℕ) → (now : ℕ) → (code : String) → Request
  delete_link : (now : ℕ) → (code : String) → Request
  create_flow : FreshIds → (now : ℕ) → WorkflowCreateRequest → Request
  approve reject : Attempt → GateRequest → Request
  health : (now : ℕ) → Request

-- The tables after the handler, and after the background task of a redirect.
unfoldable pub handle : Request → Db → Db
handle (Request.create_link env req) db = (create_short_link_endpoint env req db).0
handle (Request.follow_link os event_id clock now code) db =
    (follow os event_id clock now code db).0
handle (Request.delete_link now code) db = (delete_short_link_endpoint now code db).0
handle (Request.create_flow ids now req) db = (create_workflow ids now req db).0
handle (Request.approve env req) db = (approve_gate env req db).0
handle (Request.reject env req) db = (reject_gate env req db).0
handle (Request.health now) db = (get_health now db).0
