-- ===== src/Examples/Links.antt =====
-- Links that are created, replayed, refused, followed and deleted.
use agentic_engineering_url.Prelude.{String, ◌≡◌, refl, ◌⊎◌, ◌↔◌, true, false, none, some, ok}
use agentic_engineering_url.Sql.{fetch}
use agentic_engineering_url.Schema.{Db, ShortLink}
use agentic_engineering_url.Schema.Status.{LinkStatus}
use agentic_engineering_url.Domain.Validation.{
  validate_destination_url, validate_expires_at, reject_private_or_internal_address,
  reject_internal, candidates,
}
use agentic_engineering_url.Domain.Validation.Accepted.{IsAcceptable, accepted_iff}
use agentic_engineering_url.Domain.ShortLink.{
  create_short_link, create_attempts, new_link, insert_link, insert_summary,
}
use agentic_engineering_url.Domain.ShortLink.Create.{
  HasOwners, IsCreated, IsExhausted, IsNew, create_takes_first_free, created_link-IsNew,
}
use agentic_engineering_url.Domain.Idempotency.{
  check_replay, find_existing, hash_payload, record_key, insert_record, validate_key_length,
}
use agentic_engineering_url.Observability.Audit.{record_event}
use agentic_engineering_url.Api.ShortLinks.{
  body, http_error, uncaught, Created, response, CreateRequest, with_link,
  create_short_link_endpoint, create_with_key, create_new, store_key,
}
use agentic_engineering_url.Api.ShortLinks.Replay.{replay_returns_first, conflict_is_refused}
use agentic_engineering_url.Api.Redirect.{
  resolve_short_link, write_analytics_after_response, follow,
}
use agentic_engineering_url.Api.Redirect.Outcomes.{
  Leads, redirects_iff, only_redirects_are_counted, naive_expiry_breaks_link,
}
use agentic_engineering_url.Examples.Data.{
  links_a, db_a, outside, codes, surroundings, request_b, at_seven,
}

accepted_iff_example :
    (validate_destination_url outside "https://example.org/b" ≡ ok tt)
    ↔ IsAcceptable outside "https://example.org/b"
accepted_iff_example = accepted_iff outside "https://example.org/b"

abbrev url_b : String
url_b = "https://example.org/b"

abbrev link_b : ShortLink
link_b = new_link "xyz9876" url_b 10 none

create_takes_first_free_example :
    let result = create_short_link outside codes 10 url_b none links_a in
    IsCreated codes url_b 10 none links_a 5 0 result
    ⊎ IsExhausted codes url_b 10 none links_a 5 0 result
unfolding validate_destination_url validate_expires_at reject_private_or_internal_address
    reject_internal candidates fetch
create_takes_first_free_example =
    create_takes_first_free outside codes 10 url_b none links_a (refl, tt) refl

created_link-IsNew_example :
    let db' = (create_short_link outside codes 10 url_b none links_a).0 in
    (link_b ≡ record {
      short_code = link_b.short_code;
      destination_url = url_b;
      created_at = 10;
      expires_at = none;
      status = LinkStatus.active;
      deleted_at = none;
    })
    × IsNew link_b links_a db'
    × HasOwners db'
unfolding create_short_link create_attempts insert_link insert_summary validate_destination_url
    validate_expires_at reject_private_or_internal_address reject_internal candidates fetch
created_link-IsNew_example =
    created_link-IsNew outside codes 10 url_b none links_a (refl, tt) link_b refl

-- The tables and the answer after `request_b`.
abbrev after_b : Db
after_b = (create_short_link_endpoint surroundings request_b db_a).0

abbrev answer_b : Created
answer_b = response false link_b

replay_returns_first_example :
    create_short_link_endpoint surroundings request_b after_b
    ≡ (after_b, body (record answer_b { idempotent_replay = true }))
unfolding create_short_link_endpoint create_with_key create_new store_key create_short_link
    create_attempts insert_link insert_summary validate_destination_url validate_expires_at
    reject_private_or_internal_address reject_internal candidates fetch check_replay find_existing
    hash_payload record_key insert_record validate_key_length record_event
replay_returns_first_example =
    replay_returns_first surroundings request_b "key-0123456789abcdef" db_a after_b answer_b refl
      (refl, tt) refl refl surroundings request_b refl refl refl

abbrev request_c : CreateRequest
request_c = record request_b { destination_url = "https://example.org/c" }

conflict_is_refused_example :
    let (last, reply) = create_short_link_endpoint surroundings request_c after_b in
    (reply ≡ http_error 409 "idempotency_conflict") × (last.link ≡ after_b.link)
unfolding create_short_link_endpoint create_with_key create_new store_key create_short_link
    create_attempts insert_link insert_summary validate_destination_url validate_expires_at
    reject_private_or_internal_address reject_internal candidates fetch check_replay find_existing
    hash_payload record_key insert_record validate_key_length record_event
conflict_is_refused_example =
    conflict_is_refused surroundings request_b "key-0123456789abcdef" db_a after_b answer_b refl
      (refl, tt) refl refl surroundings request_c refl refl refl

redirects_iff_example :
    ((resolve_short_link outside 10 "abc1234" db_a).1 ≡ body "https://example.org/a")
    ↔ Leads outside 10 "abc1234" db_a "https://example.org/a"
redirects_iff_example = redirects_iff outside 10 "abc1234" db_a "https://example.org/a"

only_redirects_are_counted_example :
    ((follow outside "e1" at_seven 10 "abc1234" db_a).0.link ≡ db_a.link)
    ⊎ ((url : String) × Leads outside 10 "abc1234" db_a url
        × (follow outside "e1" at_seven 10 "abc1234" db_a
            ≡ (write_analytics_after_response "e1" at_seven 10 "abc1234" db_a, body url)))
only_redirects_are_counted_example =
    only_redirects_are_counted outside "e1" at_seven 10 "abc1234" db_a

abbrev naive : String
naive = "2030-01-01T00:00:00"

naive_expiry_breaks_link_example :
    let db' = with_link db_a (create_short_link outside codes 10 url_b (some naive) links_a).0 in
    resolve_short_link outside 20 "xyz9876" db' ≡ (db', uncaught)
unfolding create_short_link create_attempts insert_link insert_summary validate_destination_url
    validate_expires_at reject_private_or_internal_address reject_internal candidates fetch
naive_expiry_breaks_link_example =
    naive_expiry_breaks_link outside codes 10 url_b naive
      (record { instant = 900; is_aware = false }) db_a (new_link "xyz9876" url_b 10 (some naive))
      20 refl refl (refl, tt) refl
