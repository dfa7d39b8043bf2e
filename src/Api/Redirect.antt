-- ===== src/Api/Redirect.antt =====
-- src/api/routers/redirect.py: following a short link, and the analytics write that comes after the
-- response.
pub mod Outcomes
use agentic_engineering_url.Prelude.{
  ℕ, String, Bool, true, false, none, some, if◌then◌else◌, Result, ok, err,
}
use agentic_engineering_url.Schema.{Db, ShortLink, Artifact}
use agentic_engineering_url.Schema.Status.{ActorType, is_active}
use agentic_engineering_url.Domain.Validation.{Outside, DomainError}
use agentic_engineering_url.Domain.ShortLink.{get_short_link, is_expired}
use agentic_engineering_url.Domain.Analytics.{enqueue_redirect_event, drain_outbox}
use agentic_engineering_url.Observability.Audit.{record_event}
use agentic_engineering_url.Api.ShortLinks.{Reply, body, http_error, uncaught, with_link}

-- The task that runs after the response; an IntegrityError of the insert ends it.
unfoldable pub write_analytics_after_response :
    (event_id : String) → (clock : String → ℕ) → (now : ℕ) → String → Db → Db
write_analytics_after_response event_id clock now code db =
    elim (enqueue_redirect_event event_id code now db.link) [
      | ok links ↦ with_link db (drain_outbox clock links).0
      | err _ ↦ db
    ]

abbrev refused : (now : ℕ) → String → (result : String) → Db → Db
refused now code result =
    record_event ActorType.system "resolve_short_link" (Artifact.short_code code) result none now

-- The last checks on a link that is there; a redirect answers with its destination.
unfoldable pub resolve_link :
    ℕ → String → ShortLink → Result DomainError Bool → Db → Db × Reply String
resolve_link now code link (err _) db = (db, uncaught)
resolve_link now code link (ok true) db = (refused now code "gone" db, http_error 410 "gone")
resolve_link now code link (ok false) db =
    if is_active link.status
    then (db, body link.destination_url)
    else (db, http_error 404 "not_found")

-- The handler: the answer, before any analytics write.
unfoldable pub resolve_short_link : Outside → ℕ → String → Db → Db × Reply String
unfolding resolve_link
resolve_short_link os now code db = elim (get_short_link db.link code) [
  | none ↦ (refused now code "not_found" db, http_error 404 "not_found")
  | some link ↦ resolve_link now code link (is_expired os now link) db
]

-- The background task is added only on the way to a redirect.
unfoldable pub run_task : (task : Db → Db) → Db × Reply String → Db × Reply String
run_task task (db, body url) = (task db, body url)
run_task task (db, http_error status error) = (db, http_error status error)
run_task task (db, uncaught) = (db, uncaught)

-- The whole request: the answer is sent, and then a redirect is written to the analytics tables.
unfoldable pub follow :
    Outside
    → (event_id : String) → (clock : String → ℕ) → (now : ℕ) → String
    → Db
    → Db × Reply String
unfolding resolve_short_link run_task
follow os event_id clock now code db =
    run_task (write_analytics_after_response event_id clock now code)
      (resolve_short_link os now code db)
