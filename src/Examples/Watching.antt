-- ===== src/Examples/Watching.antt =====
-- What operators are shown: the audit trail, the recovery times, and stopped workflows.
use agentic_engineering_url.Prelude.{
  String, ◌≡◌, ◌+◌, refl, not, ◌&&◌, none, some, List, [], ◌∷◌, ◌++◌, arith, if◌then◌else◌,
}
use agentic_engineering_url.Sql.{count, fetch}
use agentic_engineering_url.Schema.{Db, Workflow, AuditEvent, Artifact, empty_db, empty_flow}
use agentic_engineering_url.Schema.Status.{ActorType, WorkflowStatus}
use agentic_engineering_url.Observability.Audit.{record_event}
use agentic_engineering_url.Observability.Metrics.{
  is_failure, is_failure_result, compute_mttr_seconds,
}
use agentic_engineering_url.Observability.Metrics.Recovery.{
  quotient, total_span, is_recovered, failures_partitioned,
}
use agentic_engineering_url.Observability.Metrics.Recording.{recording_keeps_mttr}
use agentic_engineering_url.Api.WorkflowEvidence.{get_workflow_audit_events}
use agentic_engineering_url.Api.WorkflowEvidence.Trail.{
  Entry, record_all, shown, recorded_events_are_read,
}
use agentic_engineering_url.Orchestration.LiveScheduler.{Pass, scheduler_loop}
use agentic_engineering_url.Orchestration.LiveScheduler.Stopped.{stored, stopped_stays}
use agentic_engineering_url.Examples.Data.{workflow_a}

abbrev failure : AuditEvent
failure = record {
  id = 1;
  workflow_instance_id = some "w1";
  actor_type = ActorType.system;
  action = "build";
  affected = Artifact.stage "s1";
  result = "failed";
  timestamp = 5;
  recovery_of_event_id = none;
}

abbrev recovery : AuditEvent
recovery = record failure {
  id = 2;
  result = "succeeded";
  timestamp = 9;
  recovery_of_event_id = some 1;
}

abbrev trail : Db
trail = record empty_db { audit = failure ∷ recovery ∷ [] }

failures_partitioned_example :
    let (mttr, unrecovered) = compute_mttr_seconds trail.audit in
    (mttr
      ≡ quotient
          (total_span trail.audit trail.audit)
          (count (λ e. is_failure e && is_recovered trail.audit e) trail.audit))
    × (unrecovered ≡ count (λ e. is_failure e && not (is_recovered trail.audit e)) trail.audit)
failures_partitioned_example = failures_partitioned trail.audit

recording_keeps_mttr_example :
    let (mttr, unrecovered) = compute_mttr_seconds trail.audit in
    compute_mttr_seconds
      (record_event ActorType.system "test"
        (Artifact.stage "s2")
        "failed"
        (some "w1")
        12
        trail).audit
    ≡ (mttr, if is_failure_result "failed" then unrecovered + 1 else unrecovered)
recording_keeps_mttr_example =
    recording_keeps_mttr ActorType.system "test" (Artifact.stage "s2") "failed" (some "w1") 12 trail
      ((omega arith, λ n b. refl), ((omega arith, λ n b. ground arith), tt))

abbrev entry_of : String → Entry
entry_of workflow = record {
  actor = ActorType.system;
  action = "build";
  affected = Artifact.stage "s1";
  result = "succeeded";
  workflow = workflow;
  now = 7;
}

abbrev entries : List Entry
entries = entry_of "w1" ∷ entry_of "w2" ∷ []

recorded_events_are_read_example :
    get_workflow_audit_events (record_all entries trail) "w1"
    ≡ get_workflow_audit_events trail "w1" ++ shown "w1" entries
recorded_events_are_read_example = recorded_events_are_read entries "w1" trail

abbrev stopped : Workflow
stopped = record workflow_a { status = WorkflowStatus.safe_stopped }

abbrev one_stopped : Db
one_stopped = record empty_db {
  flow = record empty_flow { workflows = stopped ∷ record workflow_a { id = "w2" } ∷ [] };
}

abbrev pass_at : Pass
pass_at = record {
  now = 9;
  worker = "";
  files = record { lockfile = none; pyproject = none };
  manifest = record { version = "1"; policies = "dependency-secret-scan" ∷ [] };
  execution_id = λ id. id;
  order = λ ids. ids;
}

stopped_stays_example :
    stored (scheduler_loop "bg-worker" (pass_at ∷ pass_at ∷ []) one_stopped).flow.workflows "w1"
    ≡ (some stopped, 1)
unfolding fetch count
stopped_stays_example =
    stopped_stays "bg-worker" (pass_at ∷ pass_at ∷ []) "w1" stopped one_stopped refl refl
