-- ===== src/Examples/Lives.antt =====
-- Lives of the application: some that crash, and one that is shut down.
use agentic_engineering_url.Prelude.{String, ◌≡◌, ◌≢◌, refl, true, none, some, [], ◌∷◌, is_some}
use agentic_engineering_url.Schema.{Db, ShortLink, SystemStatus, empty_db}
use agentic_engineering_url.Orchestration.LiveScheduler.{Pass}
use agentic_engineering_url.Api.Requests.{Request}
use agentic_engineering_url.Api.Application.{Event, Life, before_yield, run_lives}
use agentic_engineering_url.Api.Application.Deleted.{deleted_for_ever}
use agentic_engineering_url.Api.ShortLinks.{body}
use agentic_engineering_url.Api.Redirect.{resolve_short_link}
use agentic_engineering_url.Examples.Data.{
  links_a, link_a, outside, surroundings, request_b, at_seven,
}
use agentic_engineering_url.Schema.Status.{LinkStatus}
use agentic_engineering_url.Sql.{fetch}
use agentic_engineering_url.Api.Application.Lives.{lives_flag_open_crash}
use agentic_engineering_url.Api.Requests.Status.{status_of}

abbrev pass_by : String → Pass
pass_by worker = record {
  now = 9;
  worker = worker;
  files = record { lockfile = none; pyproject = none };
  manifest = record { version = "1"; policies = "dependency-secret-scan" ∷ [] };
  execution_id = λ id. id;
  order = λ ids. ids;
}

abbrev crashing : Life
crashing = record {
  started = 1;
  worker = "bg-1";
  events = Event.request (Request.health 2) ∷ Event.pass (pass_by "bg-1") ∷ [];
  ended = none;
}

abbrev ending : Life
ending = record {
  started = 20;
  worker = "bg-2";
  events = Event.acknowledgement ∷ Event.pass (pass_by "bg-1") ∷ [];
  ended = some 30;
}

lives_flag_open_crash_example :
    (row : SystemStatus) × (status_of
        (before_yield "bg-3" 40 (run_lives (ending ∷ crashing ∷ []) empty_db)).db
      ≡ some row)
    × (is_some row.degraded_since ≡ true)
lives_flag_open_crash_example =
    lives_flag_open_crash (ending ∷ crashing ∷ []) empty_db "bg-3" 40 refl

-- The link of the tables, deleted.
abbrev deleted_link : ShortLink
deleted_link = record link_a { status = LinkStatus.deleted; deleted_at = some 11 }

abbrev one_deleted : Db
one_deleted = record empty_db { link = record links_a { links = deleted_link ∷ [] } }

abbrev following : Life
following = record crashing {
  events =
      Event.request (Request.create_link surroundings request_b)
      ∷ Event.request (Request.follow_link outside "e1" at_seven 10 "abc1234")
      ∷ [];
}

deleted_for_ever_example :
    (resolve_short_link outside 50 "abc1234" (run_lives (following ∷ ending ∷ []) one_deleted)).1
    ≢ body "https://example.org/a"
unfolding fetch
deleted_for_ever_example =
    deleted_for_ever (following ∷ ending ∷ []) "abc1234" deleted_link one_deleted refl refl outside
      50 "https://example.org/a"
