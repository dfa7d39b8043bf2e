-- ===== src/Domain/Analytics/Runs.antt =====
-- Any run of redirects, drains and drains cut off by a crash, for src/domain/analytics.py.
use agentic_engineering_url.Prelude.{
  ℕ, suc, ◌+◌, ◌≤◌, String, ◌≡◌, refl, inl, inr, ◌&&◌, List, [], ◌∷◌, arith, ◌==◌, if◌then◌else◌,
  is_some, Bool-cases, All, Result, ok, err, All-map,
}
use agentic_engineering_url.Sql.{fetch, count}
use agentic_engineering_url.Sql.Laws.{count-append, count_mono}
use agentic_engineering_url.Schema.{LinkDb, OutboxEvent, ShortLink}
use agentic_engineering_url.Domain.Analytics.{
  was_applied, pending_rows, drain_outbox, drain_crashed, enqueue_redirect_event, WriteError,
  insert_event,
}
use agentic_engineering_url.Domain.Analytics.Outbox.{count-drain_rows, count-crash_rows}
use agentic_engineering_url.Domain.Analytics.Counts.{
  applied_for, IsNotOvercounted, drain_outbox-keeps, drain_crashed-keeps,
}

-- What happens to the analytics tables: a redirect's event, a drain, and a drain cut off by a crash.
pub data Event : Type 0 where
  redirected : (event_id code : String) → ℕ → Event
  drained : (String → ℕ) → Event
  crashed : (String → ℕ) → (done writes : ℕ) → Event

abbrev pub enqueued : LinkDb → Result WriteError LinkDb → LinkDb
enqueued db (ok db') = db'
enqueued db (err e) = db

unfoldable pub run : List Event → LinkDb → LinkDb
run [] db = db
run (redirected id code now ∷ es) db = run es (enqueued db (enqueue_redirect_event id code now db))
run (drained clock ∷ es) db = run es (drain_outbox clock db).0
run (crashed clock done writes ∷ es) db = run es (drain_crashed clock done writes db)

-- How often a code is redirected in a run.
abbrev pub redirects : String → List Event → ℕ
redirects code [] = 0
redirects code (redirected id c now ∷ es) =
    let rest = redirects code es in if c == code then suc rest else rest
redirects code (_ ∷ es) = redirects code es

-- The events of a code in the outbox.
abbrev pub events_of : String → LinkDb → ℕ
events_of code db = count (λ e. e.short_code == code) db.outbox

-- An attempt to enqueue either inserts the event or changes nothing.
pub enqueued_cases :
    (P : LinkDb → Type 0) (id code : String) (now : ℕ) (db : LinkDb)
    → P db
    → P (insert_event id code now db)
    → P (enqueued db (enqueue_redirect_event id code now db))
unfolding enqueue_redirect_event
enqueued_cases P id code now db h k =
    elim (Bool-cases (is_some (fetch (λ (e : OutboxEvent). e.event_id == id) db.outbox))) [
      | inl e ↦ rw e h
      | inr n ↦
          rw n
            (elim (Bool-cases
              (is_some (fetch (λ (l : ShortLink). l.short_code == code) db.links))) [
                | inr m ↦ rw m h
                | inl m ↦ rw m k
              ])
    ]

applied_for-insert_event :
    (id c : String) (now : ℕ) (db : LinkDb) (code : String)
    → applied_for db code ≤ applied_for (insert_event id c now db) code
unfolding insert_event was_applied
applied_for-insert_event id c now db code = omega (arith, count-append _ db.outbox _)

enqueue-keeps :
    (id code : String) (now : ℕ) (db : LinkDb)
    → IsNotOvercounted db
    → IsNotOvercounted (enqueued db (enqueue_redirect_event id code now db))
unfolding enqueue_redirect_event
enqueue-keeps id code now db h = enqueued_cases IsNotOvercounted id code now db h (
    unfold insert_event in
    All-map db.summaries
      (λ s k. omega (arith, applied_for-insert_event id code now db s.short_code)) h)

run-keeps : (es : List Event) (db : LinkDb) → IsNotOvercounted db → IsNotOvercounted (run es db)
unfolding run
run-keeps [] db h = h
run-keeps (redirected id code now ∷ es) db h = run-keeps es _ (enqueue-keeps id code now db h)
run-keeps (drained clock ∷ es) db h = run-keeps es _ (drain_outbox-keeps clock db h)
run-keeps (crashed clock done writes ∷ es) db h =
    run-keeps es _ (drain_crashed-keeps clock done writes db h)

events_of-insert_event :
    (id c : String) (now : ℕ) (db : LinkDb) (code : String)
    → events_of code (insert_event id c now db) ≡ events_of code db + (if c == code then 1 else 0)
unfolding insert_event count
events_of-insert_event id c now db code =
    count-append (λ (e : OutboxEvent). e.short_code == code) db.outbox _

events_of-enqueue :
    (id c : String) (now : ℕ) (db : LinkDb) (code : String)
    → events_of code (enqueued db (enqueue_redirect_event id c now db))
      ≤ events_of code db + (if c == code then 1 else 0)
events_of-enqueue id c now db code =
    enqueued_cases (λ db'. events_of code db' ≤ events_of code db + (if c == code then 1 else 0)) id
      c now db (omega arith) (omega (arith, events_of-insert_event id c now db code))

events_of-run :
    (es : List Event) (db : LinkDb) (code : String)
    → events_of code (run es db) ≤ events_of code db + redirects code es
unfolding run drain_outbox drain_crashed
events_of-run [] db code = omega arith
events_of-run (redirected id c now ∷ es) db code = ground (
  arith,
  events_of-enqueue id c now db code,
  events_of-run es (enqueued db (enqueue_redirect_event id c now db)) code,
)
events_of-run (drained clock ∷ es) db code = omega (
  arith,
  count-drain_rows (λ e. e.short_code == code) (λ e. refl) clock (pending_rows db) db,
  events_of-run es (drain_outbox clock db).0 code,
)
events_of-run (crashed clock done writes ∷ es) db code = omega (
  arith,
  count-crash_rows (λ e. e.short_code == code) (λ e. refl) clock done writes (pending_rows db) db,
  events_of-run es (drain_crashed clock done writes db) code,
)

-- From tables that count nothing too often, after any run of redirects, drains and crashes between
-- any two statements, no summary counts more redirects than the run and the outbox before it had.
pub run-le-redirects :
    (es : List Event) (db : LinkDb)
    → IsNotOvercounted db
    → All
        (λ s. s.successful_redirect_count ≤ events_of s.short_code db + redirects s.short_code es)
        (run es db).summaries
run-le-redirects es db h =
    All-map (run es db).summaries
      (λ s k. omega (
        arith,
        events_of-run es db s.short_code,
        count_mono
            (λ (e : OutboxEvent).
              (e.short_code == s.short_code) && was_applied e.event_id (run es db))
            (λ e. e.short_code == s.short_code) (λ e t. ground arith) (run es db).outbox,
      ))
      (run-keeps es db h)
