-- ===== src/Domain/Analytics/Outbox.antt =====
-- What the drain worker of src/domain/analytics.py does to the outbox.
use agentic_engineering_url.Prelude.{
  ℕ, zero, suc, String, ◌≡◌, refl, ◌∙◌, inl, inr, Bool, true, false, List, [], ◌∷◌, Bool-cases,
  take,
}
use agentic_engineering_url.Sql.{count}
use agentic_engineering_url.Sql.Laws.{count-update_same}
use agentic_engineering_url.Schema.{LinkDb, OutboxEvent}
use agentic_engineering_url.Schema.Status.{DrainStatus}
use agentic_engineering_url.Domain.Analytics.{
  was_applied, set_drained, insert_applied, increment, row_writes, run_writes, drain_rows,
  crash_rows,
}

-- The body of the worker's loop.
abbrev pub handle_row : (String → ℕ) → OutboxEvent → LinkDb → LinkDb
handle_row clock row db =
    run_writes (row_writes row (clock row.event_id) (was_applied row.event_id db)) db

module _ (q : OutboxEvent → Bool)
    (blind : (e : OutboxEvent) → q (record e { drain_status = DrainStatus.applied }) ≡ q e) where
  pub count-set_drained :
      (id : String) (db : LinkDb) → count q (set_drained id db).outbox ≡ count q db.outbox
  unfolding set_drained
  count-set_drained id db = count-update_same _ q _ blind db.outbox

  pub count-writes :
      (k : ℕ) (row : OutboxEvent) (now : ℕ) (b : Bool) (db : LinkDb)
      → count q (run_writes (take k (row_writes row now b)) db).outbox ≡ count q db.outbox
  unfolding row_writes run_writes insert_applied increment
  count-writes zero row now true db = refl
  count-writes zero row now false db = refl
  count-writes (suc zero) row now true db = count-set_drained row.event_id db
  count-writes (suc (suc k)) row now true db = count-set_drained row.event_id db
  count-writes (suc zero) row now false db = refl
  count-writes (suc (suc zero)) row now false db = refl
  count-writes (suc (suc (suc zero))) row now false db = count-set_drained row.event_id _
  count-writes (suc (suc (suc (suc k)))) row now false db = count-set_drained row.event_id _

  pub count-handle_row :
      (clock : String → ℕ) (row : OutboxEvent) (db : LinkDb)
      → count q (handle_row clock row db).outbox ≡ count q db.outbox
  unfolding row_writes run_writes insert_applied increment
  count-handle_row clock row db = elim (Bool-cases (was_applied row.event_id db)) [
    | inl old ↦ rw old (count-set_drained row.event_id db)
    | inr new ↦ rw new (count-set_drained row.event_id _)
  ]

  pub count-drain_rows :
      (clock : String → ℕ) (rows : List OutboxEvent) (db : LinkDb)
      → count q (drain_rows clock rows db).0.outbox ≡ count q db.outbox
  unfolding drain_rows
  count-drain_rows clock [] db = refl
  count-drain_rows clock (row ∷ rows) db =
      count-drain_rows clock rows (handle_row clock row db) ∙ count-handle_row clock row db

  pub count-crash_rows :
      (clock : String → ℕ) (done writes : ℕ) (rows : List OutboxEvent) (db : LinkDb)
      → count q (crash_rows clock done writes rows db).outbox ≡ count q db.outbox
  unfolding crash_rows
  count-crash_rows clock zero writes [] db = refl
  count-crash_rows clock (suc done) writes [] db = refl
  count-crash_rows clock zero writes (row ∷ rows) db =
      count-writes writes row (clock row.event_id) (was_applied row.event_id db) db
  count-crash_rows clock (suc done) writes (row ∷ rows) db =
      count-crash_rows clock done writes rows (handle_row clock row db)
      ∙ count-handle_row clock row db
