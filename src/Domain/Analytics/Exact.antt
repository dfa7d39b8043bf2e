-- ===== src/Domain/Analytics/Exact.antt =====
-- The counts of drains that are not cut off, for src/domain/analytics.py.
use agentic_engineering_url.Prelude.{
  ℕ, ◌+◌, ◌≤◌, String, ◌≡◌, refl, ap, inl, inr, Bool, false, ◌&&◌, List, [], ◌∷◌, arith, ◌==◌,
  eq_iff, if◌then◌else◌, eq→≡, Bool-cases, All, All-map,
}
use agentic_engineering_url.Sql.{count}
use agentic_engineering_url.Sql.Laws.{All-update, count-le-add, add-le-count, count_mono}
use agentic_engineering_url.Schema.{LinkDb, OutboxEvent}
use agentic_engineering_url.Domain.Analytics.{
  was_applied, set_drained, insert_applied, increment, row_writes, run_writes, drain_rows,
  pending_rows, drain_outbox, counted,
}
use agentic_engineering_url.Domain.Analytics.Outbox.{handle_row, count-handle_row}
use agentic_engineering_url.Domain.Analytics.Counts.{
  applied_for, IsRecorded, same_event, applied_for-lt, applied_for_mono, applied_for-set_drained,
  applied_for-increment, was_applied-insert, still-IsRecorded, pending-IsRecorded,
}

-- `event_id` is the primary key of the outbox.
abbrev pub IsKeyed : LinkDb → Type 0
IsKeyed db = (id : String) → count (λ e. e.event_id == id) db.outbox ≤ 1

-- Every summary counts exactly the events of its code that were entered in applied_events.
abbrev pub IsExact : LinkDb → Type 0
IsExact db = All (λ s. s.successful_redirect_count ≡ applied_for db s.short_code) db.summaries

abbrev id_and_code : OutboxEvent → String → OutboxEvent → Bool
id_and_code row code e = (e.event_id == row.event_id) && (e.short_code == code)

-- An event of another code with this id would be a second row of the same key.
other_code :
    (row : OutboxEvent) (db : LinkDb) (code : String)
    → IsKeyed db
    → IsRecorded db row
    → (code == row.short_code) ≡ false
    → count (id_and_code row code) db.outbox ≡ 0
other_code row db code key r ne = omega (
  arith,
  key row.event_id,
  add-le-count (λ (e : OutboxEvent). e.event_id == row.event_id) (same_event row)
      (id_and_code row code)
      (λ e t. (
        ground (
          arith,
          eq_iff e.short_code row.short_code,
          eq_iff e.short_code code,
          eq_iff code row.short_code,
        ),
        ground arith,
      ))
      (λ e t. ground arith) db.outbox,
)

-- Entering an event adds at most the rows that have its id.
applied_for-le :
    (row : OutboxEvent) (now : ℕ) (db : LinkDb) (code : String)
    → applied_for (insert_applied row.event_id now db) code
      ≤ applied_for db code + count (id_and_code row code) db.outbox
applied_for-le row now db code =
    unfold insert_applied in
    count-le-add _ _ _
      (λ e t. ground (
        arith,
        was_applied-insert e.event_id row.event_id now db,
        eq_iff row.event_id e.event_id,
        eq_iff e.event_id row.event_id,
      ))
      db.outbox

applied_for-new :
    (row : OutboxEvent) (now : ℕ) (db : LinkDb) (code : String)
    → IsKeyed db
    → IsRecorded db row
    → was_applied row.event_id db ≡ false
    → applied_for (insert_applied row.event_id now db) code
      ≡ applied_for db code + (if code == row.short_code then 1 else 0)
applied_for-new row now db code key r new = elim (Bool-cases (code == row.short_code)) [
  | inl e ↦ rw e (
      omega (
        arith,
        applied_for-le row now db code,
        applied_for-lt row now db r new,
        ap (applied_for db) (eq→≡ code row.short_code e),
        ap (applied_for (insert_applied row.event_id now db)) (eq→≡ code row.short_code e),
        count_mono (id_and_code row code) (λ e'. e'.event_id == row.event_id) (λ e' t. ground arith)
            db.outbox,
        key row.event_id,
      ))
  | inr ne ↦ rw ne (
      omega (
        arith,
        applied_for-le row now db code,
        applied_for_mono row.event_id now db code,
        other_code row db code key r ne,
      ))
]

set_drained-IsExact : (id : String) (db : LinkDb) → IsExact db → IsExact (set_drained id db)
set_drained-IsExact id db h =
    unfold set_drained in
    All-map db.summaries (λ s k. omega (arith, applied_for-set_drained id db s.short_code)) h

count_new-IsExact :
    (row : OutboxEvent) (now : ℕ) (db : LinkDb)
    → IsKeyed db
    → IsRecorded db row
    → was_applied row.event_id db ≡ false
    → IsExact db
    → IsExact (increment row.short_code now (insert_applied row.event_id now db))
count_new-IsExact row now db key r new h =
    let entered = insert_applied row.event_id now db in
    All-map (increment row.short_code now entered).summaries
      (λ s k. rw (applied_for-increment row.short_code now entered s.short_code) k)
      (unfold increment insert_applied in
        All-update (λ s. s.successful_redirect_count ≡ applied_for db s.short_code)
          (λ s.
            s.successful_redirect_count
            ≡ applied_for (insert_applied row.event_id now db) s.short_code)
          (λ s. s.short_code == row.short_code) (counted now)
          (λ s k t. ground (arith, applied_for-new row now db s.short_code key r new))
          (λ s k t. ground (arith, applied_for-new row now db s.short_code key r new)) db.summaries
          h)

handle_row-IsExact :
    (clock : String → ℕ) (row : OutboxEvent) (db : LinkDb)
    → IsKeyed db
    → IsRecorded db row
    → IsExact db
    → IsExact (handle_row clock row db)
unfolding row_writes run_writes
handle_row-IsExact clock row db key r h = elim (Bool-cases (was_applied row.event_id db)) [
  | inl old ↦ rw old (set_drained-IsExact row.event_id db h)
  | inr new ↦ rw new (
      set_drained-IsExact row.event_id _
        (count_new-IsExact row (clock row.event_id) db key r new h))
]

handle_row-IsKeyed :
    (clock : String → ℕ) (row : OutboxEvent) (db : LinkDb)
    → IsKeyed db
    → IsKeyed (handle_row clock row db)
handle_row-IsKeyed clock row db key id =
    omega (arith, key id, count-handle_row (λ e. e.event_id == id) (λ e. refl) clock row db)

drain_rows-IsExact :
    (clock : String → ℕ) (rows : List OutboxEvent) (db : LinkDb)
    → IsKeyed db
    → All (IsRecorded db) rows
    → IsExact db
    → IsExact (drain_rows clock rows db).0
unfolding drain_rows
drain_rows-IsExact clock [] db key r h = h
drain_rows-IsExact clock (row ∷ rows) db key r h =
    drain_rows-IsExact clock rows (handle_row clock row db) (handle_row-IsKeyed clock row db key)
      (still-IsRecorded clock row db rows r.1) (handle_row-IsExact clock row db key r.0 h)

pub drain_outbox-IsExact :
    (clock : String → ℕ) (db : LinkDb) → IsKeyed db → IsExact db → IsExact (drain_outbox clock db).0
unfolding drain_outbox
drain_outbox-IsExact clock db key h =
    drain_rows-IsExact clock (pending_rows db) db key (pending-IsRecorded db) h
