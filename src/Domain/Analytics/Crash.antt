-- ===== src/Domain/Analytics/Crash.antt =====
-- A crash right after the INSERT into applied_events, for src/domain/analytics.py.
use agentic_engineering_url.Prelude.{
  ℕ, String, ◌≡◌, refl, sym, subst, true, false, [], ◌∷◌, arith, ◌==◌, eq_refl, All,
}
use agentic_engineering_url.Sql.Laws.{select-update-All}
use agentic_engineering_url.Schema.Status.{is_drain_pending}
use agentic_engineering_url.Schema.{LinkDb, OutboxEvent}
use agentic_engineering_url.Domain.Analytics.{
  was_applied, set_drained, insert_applied, row_writes, run_writes, drain_rows, pending_rows,
  drain_outbox, crash_rows, drain_crashed,
}
use agentic_engineering_url.Domain.Analytics.Counts.{was_applied-insert}

module _ (clock : String → ℕ) (db : LinkDb) (row : OutboxEvent)
    (pending : pending_rows db ≡ row ∷ []) (new : was_applied row.event_id db ≡ false) where
  crashed-eq : drain_crashed clock 0 1 db ≡ insert_applied row.event_id (clock row.event_id) db
  unfolding drain_crashed crash_rows row_writes run_writes
  crashed-eq = rw (pending, new)

  pending-crashed : pending_rows (drain_crashed clock 0 1 db) ≡ row ∷ []
  pending-crashed = rw crashed-eq (unfold pending_rows insert_applied in pending)

  entered-crashed : was_applied row.event_id (drain_crashed clock 0 1 db) ≡ true
  entered-crashed = rw crashed-eq (
      ground (
        arith,
        was_applied-insert row.event_id row.event_id (clock row.event_id) db,
        eq_refl row.event_id,
      ))

  nothing_pending : pending_rows (set_drained row.event_id (drain_crashed clock 0 1 db)) ≡ []
  unfolding pending_rows set_drained
  nothing_pending =
      select-update-All (λ e. is_drain_pending e.drain_status) (λ e. e.event_id == row.event_id) _
        (λ e. refl) (drain_crashed clock 0 1 db).outbox
        (subst (All (λ e. (e.event_id == row.event_id) ≡ true)) (sym pending-crashed)
          (eq_refl row.event_id, tt))

  -- With one pending event that is not yet entered: the worker stops after its first statement, and
  -- the next drain, at any time, applies no event and leaves every summary as before the crash, so
  -- the redirect is never counted.
  pub crash_loses_event :
      (later : String → ℕ)
      → let (last, applied) = drain_outbox later (drain_crashed clock 0 1 db) in
        (last.summaries ≡ db.summaries) × (applied ≡ 0) × (pending_rows last ≡ [])
  unfolding drain_outbox drain_rows row_writes run_writes
  crash_loses_event later =
      rw (pending-crashed, entered-crashed)
        (rw crashed-eq (unfold set_drained insert_applied in refl), refl, nothing_pending)
