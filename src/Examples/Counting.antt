-- ===== src/Examples/Counting.antt =====
-- Events that are counted, lost and reported.
use agentic_engineering_url.Prelude.{
  ◌+◌, ◌≤◌, ◌≡◌, refl, inr, none, some, List, [], ◌∷◌, arith, ◌==◌, All,
}
use agentic_engineering_url.Sql.{count, select, fetch, update}
use agentic_engineering_url.Schema.{LinkDb, Summary}
use agentic_engineering_url.Schema.Status.{Completeness}
use agentic_engineering_url.Domain.Analytics.{
  drain_outbox, drain_crashed, pending_rows, was_applied, mark_incomplete, get_summary,
  effective_completeness_status, enqueue_redirect_event, insert_event, drain_rows, row_writes,
  run_writes, insert_applied, increment, set_drained,
}
use agentic_engineering_url.Domain.Analytics.Runs.{
  Event, run, redirects, events_of, run-le-redirects,
}
use agentic_engineering_url.Domain.Analytics.Exact.{IsKeyed}
use agentic_engineering_url.Domain.Analytics.Complete.{drain_counts_once}
use agentic_engineering_url.Domain.Analytics.Crash.{crash_loses_event}
use agentic_engineering_url.Domain.Analytics.Reports.{incomplete_for_ever}
use agentic_engineering_url.Examples.Data.{links_a, links_pending, event_a, summary_a, at_seven}

abbrev followed_twice : List Event
followed_twice =
    Event.redirected "e1" "abc1234" 5
    ∷ Event.crashed at_seven 0 1
    ∷ Event.redirected "e2" "abc1234" 6
    ∷ Event.drained at_seven
    ∷ []

run-le-redirects_example :
    All
      (λ s.
        s.successful_redirect_count
        ≤ events_of s.short_code links_a + redirects s.short_code followed_twice)
      (run followed_twice links_a).summaries
run-le-redirects_example = run-le-redirects followed_twice links_a (omega arith, tt)

pending-IsKeyed : IsKeyed links_pending
unfolding count
pending-IsKeyed id = ground arith

drain_counts_once_example :
    let db' = (drain_outbox at_seven links_pending).0 in
    All
      (λ s. s.successful_redirect_count ≡ count (λ e. e.short_code == s.short_code) db'.outbox)
      db'.summaries
unfolding count was_applied fetch
drain_counts_once_example =
    drain_counts_once at_seven links_pending pending-IsKeyed (inr refl, tt) (refl, tt)

crash_loses_event_example :
    let (last, applied) = drain_outbox (λ id. 9) (drain_crashed at_seven 0 1 links_pending) in
    (last.summaries ≡ links_pending.summaries) × (applied ≡ 0) × (pending_rows last ≡ [])
unfolding pending_rows select was_applied fetch
crash_loses_event_example = crash_loses_event at_seven links_pending event_a refl refl (λ id. 9)

abbrev follow_and_drain : List Event
follow_and_drain = Event.redirected "e9" "abc1234" 5 ∷ Event.drained at_seven ∷ []

abbrev marked : Summary
marked = record summary_a {
  successful_redirect_count = 1;
  last_successful_redirect_at = some 7;
  completeness_status = Completeness.incomplete;
}

abbrev marked_and_followed : LinkDb
marked_and_followed = record (run follow_and_drain (mark_incomplete "abc1234" links_a)) {
  system_status = none;
}

incomplete_for_ever_example :
    effective_completeness_status marked_and_followed "abc1234" ≡ Completeness.incomplete
unfolding run mark_incomplete get_summary fetch update drain_outbox enqueue_redirect_event
    insert_event pending_rows select drain_rows row_writes run_writes insert_applied increment
    set_drained was_applied
incomplete_for_ever_example =
    incomplete_for_ever "abc1234" links_a follow_and_drain none marked refl
