-- ===== src/Domain/Analytics/Counts.antt =====
-- Bounds on the redirect counts, for src/domain/analytics.py.
use agentic_engineering_url.Prelude.{
  ℕ, zero, suc, ◌+◌, ◌≤◌, ◌<◌, String, ◌≡◌, refl, ap, subst, inl, inr, Bool, true, false, ◌&&◌,
  ◌||◌, List, [], ◌∷◌, arith, ◌==◌, eq_iff, eq_refl, eq→≡, Bool-cases, All, take, All-map,
}
use agentic_engineering_url.Sql.{fetch, count}
use agentic_engineering_url.Sql.Laws.{
  All-select, All-update, fetch-append, count-update_same, count_mono, count-lt, All-counted,
}
use agentic_engineering_url.Schema.{LinkDb, OutboxEvent, Summary, AppliedEvent}
use agentic_engineering_url.Domain.Analytics.Outbox.{handle_row, count-handle_row}
use agentic_engineering_url.Domain.Analytics.{
  was_applied, set_drained, insert_applied, increment, row_writes, run_writes, drain_rows,
  pending_rows, drain_outbox, crash_rows, drain_crashed, counted,
}

-- The events of a code that the worker has entered in applied_events.
abbrev pub applied_for : LinkDb → String → ℕ
applied_for db code = count (λ e. (e.short_code == code) && was_applied e.event_id db) db.outbox

abbrev pub IsNotOvercounted : LinkDb → Type 0
IsNotOvercounted db =
    All (λ s. s.successful_redirect_count ≤ applied_for db s.short_code) db.summaries

abbrev pub same_event : OutboxEvent → OutboxEvent → Bool
same_event row e = (e.event_id == row.event_id) && (e.short_code == row.short_code)

-- The outbox holds the row, whatever its drain status is now.
abbrev pub IsRecorded : LinkDb → OutboxEvent → Type 0
IsRecorded db row = 0 < count (same_event row) db.outbox

pub was_applied-insert :
    (j id : String) (now : ℕ) (db : LinkDb)
    → was_applied j (insert_applied id now db) ≡ (was_applied j db || (id == j))
unfolding was_applied insert_applied fetch
was_applied-insert j id now db = ground (
  arith,
  fetch-append (λ (a : AppliedEvent). a.event_id == j) db.applied
      (record { event_id = id; applied_at = now } ∷ []),
)

pub applied_for-set_drained :
    (id : String) (db : LinkDb) (code : String)
    → applied_for (set_drained id db) code ≡ applied_for db code
unfolding set_drained was_applied
applied_for-set_drained id db code = count-update_same _ _ _ (λ e. refl) db.outbox

pub set_drained-keeps :
    (id : String) (db : LinkDb) → IsNotOvercounted db → IsNotOvercounted (set_drained id db)
set_drained-keeps id db h =
    unfold set_drained in
    All-map db.summaries (λ s k. omega (arith, applied_for-set_drained id db s.short_code)) h

-- Entering one event more makes no code's number smaller.
pub applied_for_mono :
    (id : String) (now : ℕ) (db : LinkDb) (code : String)
    → applied_for db code ≤ applied_for (insert_applied id now db) code
applied_for_mono id now db code =
    unfold insert_applied in
    count_mono _ _ (λ e t. ground (arith, was_applied-insert e.event_id id now db)) db.outbox

insert_applied-keeps :
    (id : String) (now : ℕ) (db : LinkDb)
    → IsNotOvercounted db
    → IsNotOvercounted (insert_applied id now db)
insert_applied-keeps id now db h =
    unfold insert_applied in
    All-map db.summaries (λ s k. omega (arith, applied_for_mono id now db s.short_code)) h

-- Entering an event that is new makes its code's number grow.
pub applied_for-lt :
    (row : OutboxEvent) (now : ℕ) (db : LinkDb)
    → IsRecorded db row
    → was_applied row.event_id db ≡ false
    → applied_for db row.short_code + 1
      ≤ applied_for (insert_applied row.event_id now db) row.short_code
applied_for-lt row now db r new =
    unfold insert_applied in
    count-lt _ _ (same_event row)
      (λ e t. ground (arith, was_applied-insert e.event_id row.event_id now db))
      (λ e t. (
        ground (arith, eq_iff e.event_id row.event_id),
        ground (
          arith,
          was_applied-insert e.event_id row.event_id now db,
          eq_iff e.event_id row.event_id,
          eq_iff row.event_id e.event_id,
        ),
      ))
      db.outbox r

pub applied_for-increment :
    (code' : String) (now : ℕ) (db : LinkDb) (code : String)
    → applied_for (increment code' now db) code ≡ applied_for db code
unfolding increment was_applied
applied_for-increment code' now db code = refl

count_row :
    (row : OutboxEvent) (now : ℕ) (db : LinkDb)
    → IsRecorded db row
    → was_applied row.event_id db ≡ false
    → (s : Summary) → s.successful_redirect_count ≤ applied_for db s.short_code
    → (s.short_code == row.short_code) ≡ true
    → s.successful_redirect_count + 1
      ≤ applied_for (insert_applied row.event_id now db) s.short_code
count_row row now db r new s k t =
    let e = eq→≡ s.short_code row.short_code t in
    omega (
      arith,
      applied_for-lt row now db r new,
      ap (applied_for db) e,
      ap (applied_for (insert_applied row.event_id now db)) e,
    )

-- The two statements that enter a new event and count it.
count_new-keeps :
    (row : OutboxEvent) (now : ℕ) (db : LinkDb)
    → IsRecorded db row
    → was_applied row.event_id db ≡ false
    → IsNotOvercounted db
    → IsNotOvercounted (increment row.short_code now (insert_applied row.event_id now db))
count_new-keeps row now db r new h =
    let entered = insert_applied row.event_id now db in
    All-map (increment row.short_code now entered).summaries
      (λ s k. rw (applied_for-increment row.short_code now entered s.short_code) k)
      (unfold increment insert_applied in
        All-update (λ s. s.successful_redirect_count ≤ applied_for db s.short_code)
          (λ s.
            s.successful_redirect_count
            ≤ applied_for (insert_applied row.event_id now db) s.short_code)
          (λ s. s.short_code == row.short_code) (counted now) (count_row row now db r new)
          (λ s k t. omega (arith, applied_for_mono row.event_id now db s.short_code)) db.summaries
          h)

first_writes-keeps :
    (k : ℕ) (row : OutboxEvent) (now : ℕ) (db : LinkDb)
    → IsRecorded db row
    → was_applied row.event_id db ≡ false
    → IsNotOvercounted db
    → IsNotOvercounted (run_writes (take k (row_writes row now false)) db)
unfolding run_writes row_writes
first_writes-keeps zero row now db r new h = h
first_writes-keeps (suc zero) row now db r new h = insert_applied-keeps row.event_id now db h
first_writes-keeps (suc (suc zero)) row now db r new h = count_new-keeps row now db r new h
first_writes-keeps (suc (suc (suc zero))) row now db r new h =
    set_drained-keeps row.event_id _ (count_new-keeps row now db r new h)
first_writes-keeps (suc (suc (suc (suc k)))) row now db r new h =
    set_drained-keeps row.event_id _ (count_new-keeps row now db r new h)

repeat_writes-keeps :
    (k : ℕ) (row : OutboxEvent) (now : ℕ) (db : LinkDb)
    → IsNotOvercounted db
    → IsNotOvercounted (run_writes (take k (row_writes row now true)) db)
unfolding run_writes row_writes
repeat_writes-keeps zero row now db h = h
repeat_writes-keeps (suc zero) row now db h = set_drained-keeps row.event_id db h
repeat_writes-keeps (suc (suc k)) row now db h = set_drained-keeps row.event_id db h

-- Any number of the statements of one row.
row_writes-keeps :
    (k : ℕ) (row : OutboxEvent) (now : ℕ) (db : LinkDb)
    → IsRecorded db row
    → IsNotOvercounted db
    → IsNotOvercounted (run_writes (take k (row_writes row now (was_applied row.event_id db))) db)
row_writes-keeps k row now db r h = elim (Bool-cases (was_applied row.event_id db)) [
  | inl old ↦ rw old (repeat_writes-keeps k row now db h)
  | inr new ↦ rw new (first_writes-keeps k row now db r new h)
]

take_all :
    (row : OutboxEvent) (now : ℕ) (b : Bool) → take 3 (row_writes row now b) ≡ row_writes row now b
unfolding row_writes
take_all row now true = refl
take_all row now false = refl

handle_row-keeps :
    (clock : String → ℕ) (row : OutboxEvent) (db : LinkDb)
    → IsRecorded db row
    → IsNotOvercounted db
    → IsNotOvercounted (handle_row clock row db)
handle_row-keeps clock row db r h =
    subst (λ ws. IsNotOvercounted (run_writes ws db))
      (take_all row (clock row.event_id) (was_applied row.event_id db))
      (row_writes-keeps 3 row (clock row.event_id) db r h)

recorded-handle_row :
    (clock : String → ℕ) (row : OutboxEvent) (db : LinkDb) (other : OutboxEvent)
    → count (same_event other) (handle_row clock row db).outbox ≡ count (same_event other) db.outbox
recorded-handle_row clock row db other =
    count-handle_row (same_event other) (λ e. refl) clock row db

pub still-IsRecorded :
    (clock : String → ℕ) (row : OutboxEvent) (db : LinkDb) (rows : List OutboxEvent)
    → All (IsRecorded db) rows
    → All (IsRecorded (handle_row clock row db)) rows
still-IsRecorded clock row db rows h =
    All-map rows (λ other r. omega (arith, recorded-handle_row clock row db other)) h

drain_rows-keeps :
    (clock : String → ℕ) (rows : List OutboxEvent) (db : LinkDb)
    → All (IsRecorded db) rows
    → IsNotOvercounted db
    → IsNotOvercounted (drain_rows clock rows db).0
unfolding drain_rows
drain_rows-keeps clock [] db r h = h
drain_rows-keeps clock (row ∷ rows) db r h =
    drain_rows-keeps clock rows (handle_row clock row db) (still-IsRecorded clock row db rows r.1)
      (handle_row-keeps clock row db r.0 h)

crash_rows-keeps :
    (clock : String → ℕ) (done writes : ℕ) (rows : List OutboxEvent) (db : LinkDb)
    → All (IsRecorded db) rows
    → IsNotOvercounted db
    → IsNotOvercounted (crash_rows clock done writes rows db)
unfolding crash_rows
crash_rows-keeps clock zero writes [] db r h = h
crash_rows-keeps clock (suc done) writes [] db r h = h
crash_rows-keeps clock zero writes (row ∷ rows) db r h =
    row_writes-keeps writes row (clock row.event_id) db r.0 h
crash_rows-keeps clock (suc done) writes (row ∷ rows) db r h =
    crash_rows-keeps clock done writes rows (handle_row clock row db)
      (still-IsRecorded clock row db rows r.1) (handle_row-keeps clock row db r.0 h)

pub pending-IsRecorded : (db : LinkDb) → All (IsRecorded db) (pending_rows db)
unfolding pending_rows
pending-IsRecorded db = All-select _ _ db.outbox (
    All-counted same_event (λ e. ground (arith, eq_refl e.event_id, eq_refl e.short_code))
      db.outbox)

pub drain_outbox-keeps :
    (clock : String → ℕ) (db : LinkDb)
    → IsNotOvercounted db
    → IsNotOvercounted (drain_outbox clock db).0
unfolding drain_outbox
drain_outbox-keeps clock db h =
    drain_rows-keeps clock (pending_rows db) db (pending-IsRecorded db) h

pub drain_crashed-keeps :
    (clock : String → ℕ) (done writes : ℕ) (db : LinkDb)
    → IsNotOvercounted db
    → IsNotOvercounted (drain_crashed clock done writes db)
unfolding drain_crashed
drain_crashed-keeps clock done writes db h =
    crash_rows-keeps clock done writes (pending_rows db) db (pending-IsRecorded db) h
