-- ===== src/Observability/Audit.antt =====
-- src/observability/audit.py: the append-only audit trail, without the free text of `reason` and
-- `detail`. No event is deleted, so the id that AUTOINCREMENT assigns is the event's position.
use agentic_engineering_url.Prelude.{
  ℕ, ◌+◌, String, Option, none, some, List, equals?, length, nat_eq, if◌then◌else◌,
}
use agentic_engineering_url.Sql.{select, count, insert}
use agentic_engineering_url.Schema.{Db, AuditEvent, Artifact}
use agentic_engineering_url.Schema.Status.{ActorType}

-- The row that is inserted; `recovery` is the event that this one recovers from.
abbrev pub audit_row :
    ActorType
    → (action : String) → Artifact
    → (result : String) → (workflow : Option String) → (recovery : Option ℕ) → (now : ℕ) → Db
    → AuditEvent
audit_row actor action affected result workflow recovery now db = record {
  id = length db.audit + 1;
  workflow_instance_id = workflow;
  actor_type = actor;
  action = action;
  affected = affected;
  result = result;
  timestamp = now;
  recovery_of_event_id = recovery;
}

-- INSERT INTO audit_events, by a call that recovers from nothing, as every call in the program.
unfoldable pub record_event :
    ActorType
    → (action : String) → Artifact
    → (result : String) → (workflow : Option String) → (now : ℕ) → Db
    → Db
record_event actor action affected result workflow now db = record db {
  audit = insert (audit_row actor action affected result workflow none now db) db.audit;
}

-- The same, by a call that passes `recovery_of_event_id`. An event of that id has to be there: the
-- foreign key.
unfoldable pub record_recovery :
    ActorType
    → (action : String) → Artifact
    → (result : String) → (workflow : Option String) → (failure : ℕ) → (now : ℕ) → Db
    → Option Db
record_recovery actor action affected result workflow failure now db =
    if nat_eq (count (λ e. nat_eq e.id failure) db.audit) 0
    then none
    else some (record db {
      audit =
          insert (audit_row actor action affected result workflow (some failure) now db) db.audit;
    })

unfoldable pub get_events_for_workflow : Db → String → List AuditEvent
get_events_for_workflow db workflow =
    select (λ e. equals? e.workflow_instance_id (some workflow)) db.audit
