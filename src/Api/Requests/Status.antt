-- ===== src/Api/Requests/Status.antt =====
-- No request changes the row of the system status or a link that is not active: src/api/routers/.
use agentic_engineering_url.Prelude.{
  ap, ◌&&◌, ℕ, String, ◌≡◌, refl, ◌∙◌, inl, inr, Bool, true, false, Option, none, some, List, [],
  ◌∷◌, ◌==◌, arith, is_some, Bool-cases, Option-cases, Result, ok, err, Result-cases,
}
use agentic_engineering_url.Sql.{fetch}
use agentic_engineering_url.Sql.Laws.{fetch-update}
use agentic_engineering_url.Schema.{Db, LinkDb, ShortLink, SystemStatus, OutboxEvent}
use agentic_engineering_url.Schema.Status.{is_active, Verdict, same_role, LinkStatus}
use agentic_engineering_url.Domain.Validation.{Outside, DomainError}
use agentic_engineering_url.Domain.ShortLink.{get_short_link, is_expired, delete_short_link}
use agentic_engineering_url.Domain.Analytics.{
  enqueue_redirect_event, insert_event, drain_outbox, drain_rows, pending_rows, row_writes,
  run_writes, was_applied, set_drained, insert_applied, increment,
}
use agentic_engineering_url.Observability.Audit.{record_event}
use agentic_engineering_url.Observability.SystemStatus.{get_status}
use agentic_engineering_url.Orchestration.Models.{get_workflow_instance}
use agentic_engineering_url.Api.ShortLinks.{
  create_short_link_endpoint, Reply, body, http_error, uncaught, delete_short_link_endpoint,
}
use agentic_engineering_url.Api.Redirect.{
  write_analytics_after_response, resolve_link, resolve_short_link, run_task, follow,
}
use agentic_engineering_url.Api.Auth.{Identity, required_role_for_gate}
use agentic_engineering_url.Api.Approvals.{
  Attempt, GateRequest, Access, authorize, authenticate_and_authorize, record_decision,
  approve_gate, reject_gate,
}
use agentic_engineering_url.Api.Workflows.{
  FreshIds, seed_auto_execute_pipeline, seed_and_answer, create_workflow,
}
use agentic_engineering_url.Api.Health.{get_health}
use agentic_engineering_url.Api.Requests.{Request, handle}
use agentic_engineering_url.Api.Requests.Creation.{link_at, KeepsRows, create_endpoint-KeepsRows}

abbrev pub status_of : Db → Option SystemStatus
status_of db = db.link.system_status

-- What most requests leave as it is.
abbrev rows : LinkDb → Option SystemStatus × List ShortLink
rows db = (db.system_status, db.links)

row_writes-rows :
    (row : OutboxEvent) (now : ℕ) (already : Bool) (db : LinkDb)
    → rows (run_writes (row_writes row now already) db) ≡ rows db
unfolding run_writes row_writes set_drained insert_applied increment
row_writes-rows row now true db = refl
row_writes-rows row now false db = refl

drain_rows-rows :
    (clock : String → ℕ) (pending : List OutboxEvent) (db : LinkDb)
    → rows (drain_rows clock pending db).0 ≡ rows db
unfolding drain_rows
drain_rows-rows clock [] db = refl
drain_rows-rows clock (row ∷ pending) db =
    drain_rows-rows clock pending _
    ∙ row_writes-rows row (clock row.event_id) (was_applied row.event_id db) db

enqueue-rows :
    (event_id code : String) (now : ℕ) (db links : LinkDb)
    → enqueue_redirect_event event_id code now db ≡ ok links
    → rows links ≡ rows db
unfolding enqueue_redirect_event insert_event
enqueue-rows event_id code now db links e =
    elim (Bool-cases (is_some (fetch (λ x. x.event_id == event_id) db.outbox))) [
      | inl y ↦ absurd (ground (arith, y, e))
      | inr n ↦ elim (Bool-cases (is_some (fetch (λ l. l.short_code == code) db.links))) [
        | inl y ↦ ground (arith, n, y, e)
        | inr k ↦ absurd (ground (arith, n, k, e))
      ]
    ]

analytics-rows :
    (event_id : String) (clock : String → ℕ) (now : ℕ) (code : String) (db : Db)
    → rows (write_analytics_after_response event_id clock now code db).link ≡ rows db.link
unfolding write_analytics_after_response drain_outbox
analytics-rows event_id clock now code db =
    elim (Result-cases (enqueue_redirect_event event_id code now db.link)) [
      | inl q ↦
          rw (q.1, write_analytics_after_response)
            (drain_rows-rows clock (pending_rows q.0) q.0
              ∙ enqueue-rows event_id code now db.link q.0 q.1)
      | inr q ↦ rw (q.1, write_analytics_after_response) refl
    ]

resolve_link-rows :
    (now : ℕ) (code : String) (link : ShortLink) (expired : Result DomainError Bool) (db : Db)
    → rows (resolve_link now code link expired db).0.link ≡ rows db.link
unfolding resolve_link record_event
resolve_link-rows now code link (err e) db = refl
resolve_link-rows now code link (ok true) db = refl
resolve_link-rows now code link (ok false) db = elim (Bool-cases (is_active link.status)) [
  | inl y ↦ rw y refl
  | inr n ↦ rw n refl
]

resolve-rows :
    (os : Outside) (now : ℕ) (code : String) (db : Db)
    → rows (resolve_short_link os now code db).0.link ≡ rows db.link
unfolding resolve_short_link record_event
resolve-rows os now code db = elim (Option-cases (get_short_link db.link code)) [
  | inl n ↦ rw (n, resolve_short_link) refl
  | inr q ↦ rw (q.1, resolve_short_link) (resolve_link-rows now code q.0 (is_expired os now q.0) db)
]

run_task-rows :
    (task : Db → Db) (x : Db × Reply String)
    → ((db : Db) → rows (task db).link ≡ rows db.link)
    → rows (run_task task x).0.link ≡ rows x.0.link
unfolding run_task
run_task-rows task (db, body url) h = h db
run_task-rows task (db, http_error status error) h = refl
run_task-rows task (db, uncaught) h = refl

seed-rows :
    (ids : FreshIds) (now : ℕ) (auto : Bool) (db : Db)
    → rows (seed_and_answer ids now auto db).0.link ≡ rows db.link
unfolding seed_and_answer record_event
seed-rows ids now false db = refl
seed-rows ids now true db = elim (Result-cases (seed_auto_execute_pipeline ids now db.flow).1) [
  | inl q ↦ rw (q.1, seed_and_answer) refl
  | inr q ↦ rw (q.1, seed_and_answer) refl
]

module _ (env : Attempt) (req : GateRequest) where
  authorize-rows :
      (who : Option Identity) (db : Db) → rows (authorize env req who db).0.link ≡ rows db.link
  unfolding authorize record_event
  authorize-rows none db = refl
  authorize-rows (some who) db = elim (Bool-cases who.is_agent) [
    | inl y ↦ rw y refl
    | inr n ↦ elim (Bool-cases (same_role who.role (required_role_for_gate req.gate_id))) [
      | inl y ↦ rw (n, y) refl
      | inr k ↦ rw (n, k) refl
    ]
  ]

  decision-rows :
      (verdict : Verdict) (action result : String) (access : Access) (db : Db)
      → rows (record_decision env req verdict action result access db).0.link ≡ rows db.link
  unfolding record_decision record_event
  decision-rows verdict action result (Access.denied status error) db = refl
  decision-rows verdict action result (Access.granted who) db =
      elim (Bool-cases (is_some (get_workflow_instance db.flow req.workflow_id))) [
        | inl y ↦ rw y refl
        | inr n ↦ rw n refl
      ]

  approve-rows : (db : Db) → rows (approve_gate env req db).0.link ≡ rows db.link
  unfolding approve_gate authenticate_and_authorize
  approve-rows db =
      let (db', access) = authenticate_and_authorize env req db in
      decision-rows Verdict.approved "approve_gate" "approved" access db' ∙ authorize-rows _ db

  reject-rows : (db : Db) → rows (reject_gate env req db).0.link ≡ rows db.link
  unfolding reject_gate authenticate_and_authorize
  reject-rows db =
      let (db', access) = authenticate_and_authorize env req db in
      decision-rows Verdict.rejected "reject_gate" "rejected" access db' ∙ authorize-rows _ db

-- A status row is the same, and so is a link that is not active.
abbrev pub IsKept : Db → Db → Type 0
IsKept db db' =
    ((row : SystemStatus) → status_of db ≡ some row → status_of db' ≡ some row)
    × ((code : String) (l : ShortLink)
        → link_at db.link code ≡ some l
        → is_active l.status ≡ false
        → link_at db'.link code ≡ some l)

rows-IsKept : (db db' : Db) → rows db'.link ≡ rows db.link → IsKept db db'
rows-IsKept db db' e = (
  λ row h. ap (λ x. x.0) e ∙ h,
  λ code l h n. ap (λ x. fetch (λ k. k.short_code == code) x.1) e ∙ h,
)

KeepsRows-IsKept : (db db' : Db) → KeepsRows db.link db'.link → IsKept db db'
KeepsRows-IsKept db db' k = (λ row h. k.0 ∙ h, λ code l h n. k.1 code l h)

deleted_gone :
    (now : ℕ) (other code : String) (l : ShortLink) (db : LinkDb)
    → link_at db code ≡ some l
    → is_active l.status ≡ false
    → link_at (delete_short_link now other db).0 code ≡ some l
unfolding delete_short_link
deleted_gone now other code l db h n =
    rw
      (
        fetch-update (λ x. (x.short_code == other) && is_active x.status)
            (λ x. x.short_code == code)
            (λ x. record x { status = LinkStatus.deleted; deleted_at = some now }) (λ x t. refl)
            db.links,
        h,
      )
      (elim (Bool-cases (l.short_code == other)) [ inl y ↦ rw (y, n) refl | inr k ↦ rw k refl ])

delete-IsKept :
    (now : ℕ) (code : String) (db : Db) → IsKept db (delete_short_link_endpoint now code db).0
unfolding delete_short_link_endpoint record_event
delete-IsKept now code db = elim (Bool-cases (delete_short_link now code db.link).1) [
  | inl y ↦
      rw y
        (λ row h. unfold delete_short_link in h, λ c l h n. deleted_gone now code c l db.link h n)
  | inr n ↦
      rw n
        (λ row h. unfold delete_short_link in h, λ c l h n. deleted_gone now code c l db.link h n)
]

-- No request changes a status row, or a link that is not active.
pub handle-IsKept : (r : Request) (db : Db) → IsKept db (handle r db)
unfolding handle follow create_workflow record_event get_health get_status
handle-IsKept (Request.create_link env req) db =
    KeepsRows-IsKept db (create_short_link_endpoint env req db).0
      (create_endpoint-KeepsRows env req db)
handle-IsKept (Request.follow_link os event_id clock now code) db =
    rows-IsKept db (follow os event_id clock now code db).0 (
      run_task-rows (write_analytics_after_response event_id clock now code)
        (resolve_short_link os now code db) (analytics-rows event_id clock now code)
      ∙ resolve-rows os now code db)
handle-IsKept (Request.delete_link now code) db = delete-IsKept now code db
handle-IsKept (Request.create_flow ids now req) db =
    rows-IsKept db (create_workflow ids now req db).0 (seed-rows ids now req.auto_execute _)
handle-IsKept (Request.approve env req) db =
    rows-IsKept db (approve_gate env req db).0 (approve-rows env req db)
handle-IsKept (Request.reject env req) db =
    rows-IsKept db (reject_gate env req db).0 (reject-rows env req db)
handle-IsKept (Request.health now) db = (λ row h. rw h refl, λ code l h n. h)
