-- ===== src/Api/WorkflowEvidence/Trail.antt =====
-- The trail that is read is the trail that was recorded: src/api/routers/workflow_evidence.py with
-- src/observability/audit.py.
use mathlib.Core.List.{append-nil, append_assoc, map-append}
use agentic_engineering_url.Prelude.{
  ℕ, String, ◌≡◌, refl, sym, ap, ◌∙◌, inl, inr, some, List, [], ◌∷◌, ◌++◌, map, ◌==◌, equals?,
  Bool-cases,
}
use agentic_engineering_url.Sql.{select}
use agentic_engineering_url.Sql.Laws.{select-append}
use agentic_engineering_url.Schema.{Db, Artifact}
use agentic_engineering_url.Schema.Status.{ActorType}
use agentic_engineering_url.Observability.Audit.{record_event}
use agentic_engineering_url.Api.WorkflowEvidence.{AuditEventOut, get_workflow_audit_events}

-- An event of one workflow, recorded in sequence.
pub record Entry : Type 0 where
  pub actor : ActorType
  pub action : String
  pub affected : Artifact
  pub result : String
  pub workflow : String
  pub now : ℕ

abbrev pub record_entry : Entry → Db → Db
record_entry e db = record_event e.actor e.action e.affected e.result (some e.workflow) e.now db

pub record_all : List Entry → Db → Db
record_all [] db = db
record_all (e ∷ es) db = record_all es (record_entry e db)

abbrev pub entry_out : Entry → AuditEventOut
entry_out e = record {
  actor_type = e.actor;
  action = e.action;
  timestamp = e.now;
  affected_artifact_or_state = e.affected;
  result = e.result;
}

-- The entries of a workflow, as the endpoint shows them.
abbrev pub shown : String → List Entry → List AuditEventOut
shown workflow es = map entry_out (select (λ e. e.workflow == workflow) es)

one_shown :
    (workflow : String) (e : Entry) (db : Db)
    → get_workflow_audit_events (record_entry e db) workflow
      ≡ get_workflow_audit_events db workflow ++ shown workflow (e ∷ [])
unfolding get_workflow_audit_events record_event select
one_shown workflow e db =
    let events = select (λ x. equals? x.workflow_instance_id (some workflow)) db.audit in
    elim (Bool-cases (e.workflow == workflow)) [
      | inl y ↦
          rw
            (
              select-append (λ x. equals? x.workflow_instance_id (some workflow)) db.audit _,
              y,
              map-append,
            )
            refl
      | inr n ↦
          rw
            (
              select-append (λ x. equals? x.workflow_instance_id (some workflow)) db.audit _,
              n,
              map-append,
            )
            refl
    ]

shown-cons :
    (workflow : String) (e : Entry) (es : List Entry)
    → shown workflow (e ∷ []) ++ shown workflow es ≡ shown workflow (e ∷ es)
unfolding select
shown-cons workflow e es = elim (Bool-cases (e.workflow == workflow)) [
  | inl y ↦ rw y refl
  | inr n ↦ rw n refl
]

-- Whatever events are recorded, of whatever workflows: the endpoint of a workflow shows what it showed
-- before and then the events of that workflow, each once and in their order.
pub recorded_events_are_read :
    (es : List Entry) (workflow : String) (db : Db)
    → get_workflow_audit_events (record_all es db) workflow
      ≡ get_workflow_audit_events db workflow ++ shown workflow es
unfolding record_all select
recorded_events_are_read [] workflow db = sym (append-nil (get_workflow_audit_events db workflow))
recorded_events_are_read (e ∷ es) workflow db =
    recorded_events_are_read es workflow (record_entry e db)
    ∙ ap (λ xs. xs ++ shown workflow es) (one_shown workflow e db)
    ∙ append_assoc (get_workflow_audit_events db workflow) (shown workflow (e ∷ []))
        (shown workflow es)
    ∙ ap (λ xs. get_workflow_audit_events db workflow ++ xs) (shown-cons workflow e es)
