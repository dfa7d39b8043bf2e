-- ===== src/Domain/Analytics/Reports.antt =====
-- What the completeness status of src/domain/analytics.py says of a code.
use agentic_engineering_url.Prelude.{
  ℕ, zero, suc, String, ◌≡◌, refl, ◌⊎◌, ◌↔◌, inl, inr, Bool, true, false, Option, none, some, List,
  [], ◌∷◌, arith, ◌==◌, Bool-cases, Option-cases, All, take,
}
use agentic_engineering_url.Sql.Laws.{All-update, All-fetch, fetch-holds}
use agentic_engineering_url.Schema.{LinkDb, OutboxEvent, Summary, SystemStatus}
use agentic_engineering_url.Schema.Status.{Completeness}
use agentic_engineering_url.Domain.Analytics.{
  was_applied, set_drained, insert_applied, increment, row_writes, run_writes, drain_rows, counted,
  pending_rows, drain_outbox, crash_rows, drain_crashed, mark_incomplete, get_summary, is_flagged,
  effective_completeness_status, insert_event,
}
use agentic_engineering_url.Domain.Analytics.Outbox.{handle_row}
use agentic_engineering_url.Domain.Analytics.Runs.{
  Event, redirected, drained, crashed, enqueued_cases, run,
}

abbrev pub IsComplete : LinkDb → String → Type 0
IsComplete db code =
    (get_summary db code ≡ none)
    ⊎ ((s : Summary) × (get_summary db code ≡ some s)
        × (s.completeness_status ≡ Completeness.complete)
        × (is_flagged db.system_status ≡ false))

reported_complete-of :
    (db : LinkDb) (code : String)
    → effective_completeness_status db code ≡ Completeness.complete
    → IsComplete db code
unfolding effective_completeness_status
reported_complete-of db code h = elim (Option-cases (get_summary db code)) [
  | inl n ↦ inl n
  | inr q ↦ let (s, e) = q in inr (s, e, ground arith, ground arith)
]

reported_complete_if :
    (db : LinkDb) (code : String)
    → IsComplete db code
    → effective_completeness_status db code ≡ Completeness.complete
unfolding effective_completeness_status
reported_complete_if db code h = ground arith

-- A code is reported `complete` exactly when it has no summary, or its summary says so while the
-- degradation flag is not set.
pub reported_complete_iff :
    (db : LinkDb) (code : String)
    → (effective_completeness_status db code ≡ Completeness.complete) ↔ IsComplete db code
reported_complete_iff db code = (reported_complete-of db code, reported_complete_if db code)

module _ (P : Summary → Type 0) (keep : (now : ℕ) (s : Summary) → P s → P (counted now s)) where
  writes-keep :
      (k : ℕ) (row : OutboxEvent) (now : ℕ) (b : Bool) (db : LinkDb)
      → All P db.summaries
      → All P (run_writes (take k (row_writes row now b)) db).summaries
  unfolding row_writes run_writes set_drained insert_applied increment
  writes-keep zero row now true db h = h
  writes-keep zero row now false db h = h
  writes-keep (suc zero) row now true db h = h
  writes-keep (suc (suc k)) row now true db h = h
  writes-keep (suc zero) row now false db h = h
  writes-keep (suc (suc zero)) row now false db h =
      All-update P P _ (counted now) (λ s k _. keep now s k) (λ s k _. k) db.summaries h
  writes-keep (suc (suc (suc zero))) row now false db h =
      All-update P P _ (counted now) (λ s k _. keep now s k) (λ s k _. k) db.summaries h
  writes-keep (suc (suc (suc (suc k)))) row now false db h =
      All-update P P _ (counted now) (λ s k _. keep now s k) (λ s k _. k) db.summaries h

  handle_row-keep :
      (clock : String → ℕ) (row : OutboxEvent) (db : LinkDb)
      → All P db.summaries
      → All P (handle_row clock row db).summaries
  unfolding row_writes
  handle_row-keep clock row db h = elim (Bool-cases (was_applied row.event_id db)) [
    | inl e ↦ rw e (writes-keep 3 row (clock row.event_id) true db h)
    | inr e ↦ rw e (writes-keep 3 row (clock row.event_id) false db h)
  ]

  drain_rows-keep :
      (clock : String → ℕ) (rows : List OutboxEvent) (db : LinkDb)
      → All P db.summaries
      → All P (drain_rows clock rows db).0.summaries
  unfolding drain_rows
  drain_rows-keep clock [] db h = h
  drain_rows-keep clock (row ∷ rows) db h =
      drain_rows-keep clock rows (handle_row clock row db) (handle_row-keep clock row db h)

  crash_rows-keep :
      (clock : String → ℕ) (done writes : ℕ) (rows : List OutboxEvent) (db : LinkDb)
      → All P db.summaries
      → All P (crash_rows clock done writes rows db).summaries
  unfolding crash_rows
  crash_rows-keep clock zero writes [] db h = h
  crash_rows-keep clock (suc done) writes [] db h = h
  crash_rows-keep clock zero writes (row ∷ rows) db h =
      writes-keep writes row (clock row.event_id) (was_applied row.event_id db) db h
  crash_rows-keep clock (suc done) writes (row ∷ rows) db h =
      crash_rows-keep clock done writes rows (handle_row clock row db)
        (handle_row-keep clock row db h)

  run-keep : (es : List Event) (db : LinkDb) → All P db.summaries → All P (run es db).summaries
  unfolding run drain_outbox drain_crashed
  run-keep [] db h = h
  run-keep (redirected id code now ∷ es) db h =
      run-keep es _
        (enqueued_cases (λ db'. All P db'.summaries) id code now db h (unfold insert_event in h))
  run-keep (drained clock ∷ es) db h = run-keep es _ (drain_rows-keep clock (pending_rows db) db h)
  run-keep (crashed clock done writes ∷ es) db h =
      run-keep es _ (crash_rows-keep clock done writes (pending_rows db) db h)

abbrev IsMarked : String → Summary → Type 0
IsMarked code s = (s.short_code == code) ≡ true → s.completeness_status ≡ Completeness.incomplete

mark_incomplete-IsMarked :
    (code : String) (db : LinkDb) → All (IsMarked code) (mark_incomplete code db).summaries
unfolding mark_incomplete
mark_incomplete-IsMarked code db =
    All-update (λ _. Unit {0}) (IsMarked code) (λ s. s.short_code == code) _ (λ s _ e _. refl)
      (λ s _ e t. absurd (cc (e, t))) db.summaries (trivial db.summaries)
  where
    trivial : (xs : List Summary) → All (λ (_ : Summary). Unit {0}) xs
    trivial [] = tt
    trivial (x ∷ xs) = (tt, trivial xs)

reported-marked :
    (code : String) (db : LinkDb) (s : Summary)
    → All (IsMarked code) db.summaries
    → get_summary db code ≡ some s
    → effective_completeness_status db code ≡ Completeness.incomplete
unfolding effective_completeness_status
reported-marked code db s h e = ground (
  arith,
  All-fetch (IsMarked code) (λ s. s.short_code == code) db.summaries s h e
      (fetch-holds (λ s. s.short_code == code) db.summaries s e),
)

-- Once a code is marked incomplete, as long as it has a summary, no run of redirects, drains and
-- crashes, and no later state of the system status (a startup, a shutdown, an acknowledgement),
-- makes it be reported as anything else.
pub incomplete_for_ever :
    (code : String) (db : LinkDb) (es : List Event) (status : Option SystemStatus) (s : Summary)
    → get_summary (record (run es (mark_incomplete code db)) { system_status = status }) code
      ≡ some s
    → effective_completeness_status
        (record (run es (mark_incomplete code db)) { system_status = status })
        code
      ≡ Completeness.incomplete
incomplete_for_ever code db es status s e =
    reported-marked code _ s
      (run-keep (IsMarked code) (λ now s k. k) es (mark_incomplete code db)
        (mark_incomplete-IsMarked code db))
      e
