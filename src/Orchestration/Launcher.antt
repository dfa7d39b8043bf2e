-- ===== src/Orchestration/Launcher.antt =====
-- src/orchestration/adapters/launcher.py: the launch of an external agent, which is blocked.
use agentic_engineering_url.Prelude.{ℕ, String, Option, List, Result, err}
use agentic_engineering_url.Schema.{Db, Artifact}
use agentic_engineering_url.Schema.Status.{ActorType}
use agentic_engineering_url.Observability.Audit.{record_event}

pub record LaunchRequest : Type 0 where
  pub agent_name : String
  pub command : List String
  pub stage_id : Option String
  pub workflow_instance_id : Option String

pub data LaunchError : Type 0 where
  external_agent_launch_blocked : LaunchError

unfoldable pub launch_external_agent : ℕ → LaunchRequest → Db → Db × Result LaunchError (Unit {0})
launch_external_agent now request db = (
  record_event ActorType.system "external_agent_launch_blocked" (Artifact.agent request.agent_name)
      "blocked" request.workflow_instance_id now db,
  err LaunchError.external_agent_launch_blocked,
)
