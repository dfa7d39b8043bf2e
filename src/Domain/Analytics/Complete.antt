-- ===== src/Domain/Analytics/Complete.antt =====
-- What a drain that runs to its end leaves, for src/domain/analytics.py.
use agentic_engineering_url.Prelude.{
  ℕ, ◌<◌, String, ◌≡◌, refl, sym, ◌∙◌, subst, ◌⊎◌, inl, inr, Bool, true, false, ◌||◌, List, [], ◌∷◌,
  arith, ◌==◌, eq_iff, eq_refl, Bool-cases, All, All-map, All-both,
}
use agentic_engineering_url.Sql.{select, count}
use agentic_engineering_url.Sql.Laws.{All-update, count_of_All, All-selected}
use agentic_engineering_url.Schema.{LinkDb, OutboxEvent}
use agentic_engineering_url.Schema.Status.{DrainStatus, is_drain_pending}
use agentic_engineering_url.Domain.Analytics.{
  was_applied, set_drained, insert_applied, increment, row_writes, run_writes, drain_rows,
  pending_rows, drain_outbox,
}
use agentic_engineering_url.Domain.Analytics.Outbox.{handle_row}
use agentic_engineering_url.Domain.Analytics.Counts.{applied_for, was_applied-insert}
use agentic_engineering_url.Domain.Analytics.Exact.{IsKeyed, IsExact, drain_outbox-IsExact}

-- The rows that the worker has before it name the event.
abbrev IsAhead : List OutboxEvent → OutboxEvent → Type 0
IsAhead rows e = 0 < count (λ r. r.event_id == e.event_id) rows

-- An event was entered and is not pending any more, or is still ahead.
abbrev IsHandled : LinkDb → List OutboxEvent → OutboxEvent → Type 0
IsHandled db rows e =
    ((was_applied e.event_id db ≡ true) × (is_drain_pending e.drain_status ≡ false))
    ⊎ IsAhead rows e

-- Every row of the outbox that is not pending was entered in applied_events.
abbrev pub IsSettled : LinkDb → Type 0
IsSettled db =
    All (λ e. (was_applied e.event_id db ≡ true) ⊎ (is_drain_pending e.drain_status ≡ true))
      db.outbox

was_applied-set_drained :
    (id j : String) (db : LinkDb) → was_applied id (set_drained j db) ≡ was_applied id db
unfolding was_applied set_drained
was_applied-set_drained id j db = refl

was_applied-increment :
    (id code : String) (now : ℕ) (db : LinkDb)
    → was_applied id (increment code now db) ≡ was_applied id db
unfolding was_applied increment
was_applied-increment id code now db = refl

was_applied-handle_row :
    (clock : String → ℕ) (row : OutboxEvent) (db : LinkDb) (id : String)
    → was_applied id (handle_row clock row db) ≡ (was_applied id db || (row.event_id == id))
unfolding row_writes run_writes
was_applied-handle_row clock row db id = elim (Bool-cases (was_applied row.event_id db)) [
  | inl old ↦
      rw old (ground (arith, was_applied-set_drained id row.event_id db, eq_iff row.event_id id))
  | inr new ↦ rw new (
      ground (
        arith,
        was_applied-set_drained id row.event_id (
            increment row.short_code (clock row.event_id)
              (insert_applied row.event_id (clock row.event_id) db)),
        was_applied-increment id row.short_code (clock row.event_id)
            (insert_applied row.event_id (clock row.event_id) db),
        was_applied-insert id row.event_id (clock row.event_id) db,
      ))
]

outbox-handle_row :
    (clock : String → ℕ) (row : OutboxEvent) (db : LinkDb)
    → (handle_row clock row db).outbox ≡ (set_drained row.event_id db).outbox
unfolding row_writes run_writes set_drained insert_applied increment
outbox-handle_row clock row db = ground arith

still-IsHandled :
    (clock : String → ℕ) (row : OutboxEvent) (rows : List OutboxEvent) (db : LinkDb)
    (e : OutboxEvent)
    → IsHandled db (row ∷ rows) e
    → (e.event_id == row.event_id) ≡ false
    → IsHandled (handle_row clock row db) rows e
unfolding count
still-IsHandled clock row rows db e (inl k) t =
    inl (ground (arith, was_applied-handle_row clock row db e.event_id), k.1)
still-IsHandled clock row rows db e (inr k) t =
    inr (ground (arith, eq_iff e.event_id row.event_id, eq_iff row.event_id e.event_id))

handle_row-IsHandled :
    (clock : String → ℕ) (row : OutboxEvent) (rows : List OutboxEvent) (db : LinkDb)
    → All (IsHandled db (row ∷ rows)) db.outbox
    → All (IsHandled (handle_row clock row db) rows) (handle_row clock row db).outbox
handle_row-IsHandled clock row rows db h =
    subst (All (IsHandled (handle_row clock row db) rows)) (sym (outbox-handle_row clock row db)) (
      unfold set_drained in
      All-update (IsHandled db (row ∷ rows)) (IsHandled (handle_row clock row db) rows)
        (λ e. e.event_id == row.event_id) (λ e. record e { drain_status = DrainStatus.applied })
        (λ e k t. inl (
          ground (
            arith,
            was_applied-handle_row clock row db e.event_id,
            eq_iff e.event_id row.event_id,
            eq_iff row.event_id e.event_id,
          ),
          refl,
        ))
        (λ e k t. still-IsHandled clock row rows db e k t) db.outbox h)

drain_rows-IsHandled :
    (clock : String → ℕ) (rows : List OutboxEvent) (db : LinkDb)
    → All (IsHandled db rows) db.outbox
    → All (IsHandled (drain_rows clock rows db).0 []) (drain_rows clock rows db).0.outbox
unfolding drain_rows
drain_rows-IsHandled clock [] db h = h
drain_rows-IsHandled clock (row ∷ rows) db h =
    drain_rows-IsHandled clock rows (handle_row clock row db)
      (handle_row-IsHandled clock row rows db h)

settled_start : (db : LinkDb) → IsSettled db → All (IsHandled db (pending_rows db)) db.outbox
unfolding pending_rows
settled_start db h =
    All-map db.outbox
      (λ e k. elim (Bool-cases (is_drain_pending e.drain_status)) [
        | inl t ↦ inr (k.1 t)
        | inr t ↦ elim k.0 [ inl w ↦ inl (w, t) | inr u ↦ absurd (cc) ]
      ])
      (All-both _ _ db.outbox h (
        All-selected (λ e r. r.event_id == e.event_id) (λ e. is_drain_pending e.drain_status)
          (λ e. eq_refl e.event_id) db.outbox))

-- What a drain leaves: every event of the outbox entered, none pending.
abbrev pub IsDone : LinkDb → Type 0
IsDone db =
    All (λ e. (was_applied e.event_id db ≡ true) × (is_drain_pending e.drain_status ≡ false))
      db.outbox

drain_outbox-IsDone :
    (clock : String → ℕ) (db : LinkDb) → IsSettled db → IsDone (drain_outbox clock db).0
unfolding drain_outbox count
drain_outbox-IsDone clock db h =
    All-map (drain_rows clock (pending_rows db) db).0.outbox
      (λ e k. elim k [ inl d ↦ d | inr a ↦ absurd (omega arith) ])
      (drain_rows-IsHandled clock (pending_rows db) db (settled_start db h))

applied_for-IsDone :
    (db : LinkDb) (code : String)
    → IsDone db
    → applied_for db code ≡ count (λ e. e.short_code == code) db.outbox
applied_for-IsDone db code h =
    count_of_All _ _ db.outbox (All-map db.outbox (λ e k. ground arith) h)

-- When event ids are unique, no drained row is missing from applied_events and the summaries are
-- exact, then after a drain every summary counts each event of its code in the outbox exactly once.
pub drain_counts_once :
    (clock : String → ℕ) (db : LinkDb)
    → IsKeyed db
    → IsSettled db
    → IsExact db
    → let db' = (drain_outbox clock db).0 in
      All
        (λ s. s.successful_redirect_count ≡ count (λ e. e.short_code == s.short_code) db'.outbox)
        db'.summaries
drain_counts_once clock db key settled exact =
    All-map (drain_outbox clock db).0.summaries
      (λ s k.
        k
        ∙ applied_for-IsDone (drain_outbox clock db).0 s.short_code
            (drain_outbox-IsDone clock db settled))
      (drain_outbox-IsExact clock db key exact)

select_none :
    (p : OutboxEvent → Bool) (xs : List OutboxEvent) → All (λ e. p e ≡ false) xs → select p xs ≡ []
unfolding select
select_none p [] h = refl
select_none p (x ∷ xs) h = ground (arith, select_none p xs)

-- When no drained row is missing from applied_events, after a drain that ran to its end a second
-- drain, at any time, applies nothing and changes nothing.
pub drain_outbox_twice :
    (clock later : String → ℕ) (db : LinkDb)
    → IsSettled db
    → drain_outbox later (drain_outbox clock db).0 ≡ ((drain_outbox clock db).0, 0)
unfolding drain_outbox drain_rows
drain_outbox_twice clock later db h =
    let e : pending_rows (drain_outbox clock db).0 ≡ [] =
      unfold pending_rows in
      select_none _ _
        (All-map (drain_outbox clock db).0.outbox (λ x k. k.1) (drain_outbox-IsDone clock db h)) in
    subst (λ rows. drain_rows later rows (drain_outbox clock db).0 ≡ ((drain_outbox clock db).0, 0))
      (sym e) refl
