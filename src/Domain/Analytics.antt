-- ===== src/Domain/Analytics.antt =====
-- src/domain/analytics.py: the outbox, the drain worker and the completeness status.
-- The connection is opened with `isolation_level=None` (src/persistence/db.py), so every statement
-- is committed by itself and `conn.commit()` does nothing: a crash falls between two statements.
pub mod Outbox
pub mod Counts
pub mod Runs
pub mod Exact
pub mod Complete
pub mod Crash
pub mod Reports
use agentic_engineering_url.Prelude.{
  ℕ, zero, suc, ◌+◌, String, Bool, true, false, ◌&&◌, Option, none, some, List, [], ◌∷◌, ◌==◌,
  if◌then◌else◌, is_some, Result, ok, err, take,
}
use agentic_engineering_url.Sql.{select, fetch, update, insert}
use agentic_engineering_url.Schema.{LinkDb, OutboxEvent, Summary, SystemStatus}
use agentic_engineering_url.Schema.Status.{DrainStatus, Completeness, is_drain_pending, is_complete}

-- The exceptions of a write that breaks a constraint: sqlite3.IntegrityError.
pub data WriteError : Type 0 where
  duplicate_key missing_reference : WriteError

-- INSERT INTO domain_analytics_outbox … 'pending'
unfoldable pub insert_event : String → String → ℕ → LinkDb → LinkDb
insert_event event_id code now db = record db {
  outbox =
      insert
        (record {
          event_id = event_id;
          short_code = code;
          redirected_at = now;
          drain_status = DrainStatus.pending;
        })
        db.outbox;
}

-- `event_id` is the primary key, and `short_code` refers to domain_short_link.
unfoldable pub enqueue_redirect_event : String → String → ℕ → LinkDb → Result WriteError LinkDb
enqueue_redirect_event event_id code now db =
    if is_some (fetch (λ e. e.event_id == event_id) db.outbox)
    then err duplicate_key
    else if is_some (fetch (λ l. l.short_code == code) db.links)
    then ok (insert_event event_id code now db)
    else err missing_reference

-- SELECT 1 FROM applied_events WHERE event_id = ?
unfoldable pub was_applied : String → LinkDb → Bool
was_applied event_id db = is_some (fetch (λ a. a.event_id == event_id) db.applied)

-- UPDATE domain_analytics_outbox SET drain_status='applied' WHERE event_id=?
unfoldable pub set_drained : String → LinkDb → LinkDb
set_drained event_id db = record db {
  outbox =
      update (λ e. e.event_id == event_id) (λ e. record e { drain_status = DrainStatus.applied })
        db.outbox;
}

-- INSERT INTO applied_events
unfoldable pub insert_applied : String → ℕ → LinkDb → LinkDb
insert_applied event_id now db = record db {
  applied = insert (record { event_id = event_id; applied_at = now }) db.applied;
}

abbrev pub counted : ℕ → Summary → Summary
counted now s = record s {
  successful_redirect_count = s.successful_redirect_count + 1;
  last_successful_redirect_at = some now;
}

-- UPDATE … SET successful_redirect_count = successful_redirect_count + 1, …
unfoldable pub increment : String → ℕ → LinkDb → LinkDb
increment code now db = record db {
  summaries = update (λ s. s.short_code == code) (counted now) db.summaries;
}

-- The statements that the loop's body makes for one pending row, in order.
unfoldable pub row_writes : OutboxEvent → ℕ → Bool → List (LinkDb → LinkDb)
row_writes row now true = set_drained row.event_id ∷ []
row_writes row now false =
    insert_applied row.event_id now ∷ increment row.short_code now ∷ set_drained row.event_id ∷ []

unfoldable pub run_writes : List (LinkDb → LinkDb) → LinkDb → LinkDb
run_writes [] db = db
run_writes (w ∷ ws) db = run_writes ws (w db)

-- The loop of `drain_outbox`; `clock` gives the time at which a row is handled.
unfoldable pub drain_rows : (String → ℕ) → List OutboxEvent → LinkDb → LinkDb × ℕ
drain_rows clock [] db = (db, 0)
drain_rows clock (row ∷ rows) db =
    let already = was_applied row.event_id db in
    let db' = run_writes (row_writes row (clock row.event_id) already) db in
    let (last, applied) = drain_rows clock rows db' in
    (last, if already then applied else applied + 1)

unfoldable pub pending_rows : LinkDb → List OutboxEvent
pending_rows db = select (λ e. is_drain_pending e.drain_status) db.outbox

unfoldable pub drain_outbox : (String → ℕ) → LinkDb → LinkDb × ℕ
drain_outbox clock db = drain_rows clock (pending_rows db) db

unfoldable pub crash_rows : (String → ℕ) → ℕ → ℕ → List OutboxEvent → LinkDb → LinkDb
crash_rows clock done writes [] db = db
crash_rows clock zero writes (row ∷ rows) db =
    run_writes (take writes (row_writes row (clock row.event_id) (was_applied row.event_id db))) db
crash_rows clock (suc done) writes (row ∷ rows) db =
    crash_rows clock done writes rows
      (run_writes (row_writes row (clock row.event_id) (was_applied row.event_id db)) db)

-- A drain that stops after `done` whole rows and `writes` statements of the next one.
unfoldable pub drain_crashed : (String → ℕ) → ℕ → ℕ → LinkDb → LinkDb
unfolding crash_rows
drain_crashed clock done writes db = crash_rows clock done writes (pending_rows db) db

unfoldable pub mark_incomplete : String → LinkDb → LinkDb
mark_incomplete code db = record db {
  summaries =
      update (λ s. s.short_code == code)
        (λ s. record s { completeness_status = Completeness.incomplete }) db.summaries;
}

unfoldable pub get_summary : LinkDb → String → Option Summary
get_summary db code = fetch (λ s. s.short_code == code) db.summaries

-- `status_row is not None and status_row["degraded_since_unclean_shutdown_at"] is not None`
unfoldable pub is_flagged : Option SystemStatus → Bool
is_flagged none = false
is_flagged (some row) = is_some row.degraded_since

status_of : Option Summary → Bool → Completeness
status_of none flagged = Completeness.complete
status_of (some row) flagged =
    if flagged && is_complete row.completeness_status
    then Completeness.degraded
    else row.completeness_status

unfoldable pub effective_completeness_status : LinkDb → String → Completeness
unfolding status_of is_flagged get_summary
effective_completeness_status db code =
    status_of (get_summary db code) (is_flagged db.system_status)
