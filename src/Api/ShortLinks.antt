-- ===== src/Api/ShortLinks.antt =====
-- src/api/routers/short_links.py: the handlers that create a link, report on it and delete it.
pub mod Replay
use agentic_engineering_url.Prelude.{
  ℕ, String, Bool, true, false, Option, none, some, if◌then◌else◌, is_some, Result, ok, err,
}
use agentic_engineering_url.Schema.{LinkDb, Db, ShortLink, Summary, Artifact}
use agentic_engineering_url.Schema.Status.{ActorType, Completeness}
use agentic_engineering_url.Domain.Validation.{Outside, DomainError, is_validation_error}
use agentic_engineering_url.Domain.ShortLink.{create_short_link, get_short_link, delete_short_link}
use agentic_engineering_url.Domain.Idempotency.{validate_key_length, check_replay, record_key}
use agentic_engineering_url.Domain.Analytics.{get_summary, effective_completeness_status}
use agentic_engineering_url.Observability.Audit.{record_event}

-- What a handler answers: a body, an HTTPException with its status and its `error` field, or an
-- exception that nothing catches, which the client sees as a 500.
pub data Reply {ℓ} (A : Type ℓ) : Type ℓ where
  body : A → Reply A
  http_error : (status : ℕ) → (error : String) → Reply A
  uncaught : Reply A

-- ShortLinkCreateResponse
pub record Created : Type 0 where
  pub short_code : String
  pub destination_url : String
  pub created_at : ℕ
  pub expires_at : Option String
  pub idempotent_replay : Bool

abbrev pub response : Bool → ShortLink → Created
response replay link = record {
  short_code = link.short_code;
  destination_url = link.destination_url;
  created_at = link.created_at;
  expires_at = link.expires_at;
  idempotent_replay = replay;
}

-- What a request meets: the library calls, the hash, the random codes and the clock.
pub record Surroundings : Type 0 where
  pub os : Outside
  pub sha256 : String → String
  pub codes : ℕ → String
  pub now : ℕ

-- ShortLinkCreateRequest, with the Idempotency-Key header
pub record CreateRequest : Type 0 where
  pub destination_url : String
  pub expires_at : Option String
  pub idempotency_key : Option String

abbrev pub with_link : Db → LinkDb → Db
with_link db link = record db { link = link }

module _ (env : Surroundings) (req : CreateRequest) where
  abbrev audit : String → Artifact → String → Db → Db
  audit action affected result = record_event ActorType.system action affected result none env.now

  -- The audit entry and the answer once the link and, if there is a key, its record are stored.
  abbrev answer_created : ShortLink → Db → Db × Reply Created
  answer_created link db = (
    audit "create_short_link" (Artifact.short_code link.short_code) "created" db,
    body (response false link),
  )

  -- `record_idempotency` raises IntegrityError uncaught: the link stays.
  unfoldable pub store_key : Option String → ShortLink → Db → Db × Reply Created
  store_key none link db = answer_created link db
  store_key (some key) link db =
      elim (record_key env.sha256 env.now key req.destination_url req.expires_at link.short_code
        db.link) [ ok links ↦ answer_created link (with_link db links) | err e ↦ (db, uncaught) ]

  unfoldable pub answer_failure : DomainError → Db → Db × Reply Created
  answer_failure DomainError.codes_exhausted db = (db, http_error 503 "short_code_exhausted")
  answer_failure e db =
      if is_validation_error e
      then (
        audit "create_short_link_rejected" (Artifact.destination_url req.destination_url) "rejected"
            db,
        http_error 400 "validation_error",
      )
      else (db, uncaught)

  abbrev finish : Db → LinkDb × Result DomainError ShortLink → Db × Reply Created
  finish db made =
      let (links, result) = made in
      elim result [
        | ok link ↦ store_key req.idempotency_key link (with_link db links)
        | err e ↦ answer_failure e (with_link db links)
      ]

  unfoldable pub create_new : Db → Db × Reply Created
  unfolding store_key answer_failure
  create_new db =
      finish db
        (create_short_link env.os env.codes env.now req.destination_url req.expires_at db.link)

  -- `assert link is not None` fails uncaught.
  unfoldable pub answer_replay : String → Db → Db × Reply Created
  answer_replay code db = elim (get_short_link db.link code) [
    | none ↦ (db, uncaught)
    | some link ↦ (db, body (response true link))
  ]

  unfoldable pub create_with_key : String → Db → Db × Reply Created
  unfolding create_new answer_replay
  create_with_key key db = elim (validate_key_length key) [
    | err _ ↦ (db, http_error 400 "idempotency_key_too_short")
    | ok _ ↦ elim (check_replay env.sha256 db.link key req.destination_url req.expires_at) [
      | err _ ↦ (
        audit "create_short_link_idempotency_conflict" (Artifact.idempotency_key key) "rejected" db,
        http_error 409 "idempotency_conflict",
      )
      | ok none ↦ create_new db
      | ok (some code) ↦ answer_replay code db
    ]
  ]

  unfoldable pub create_short_link_endpoint : Db → Db × Reply Created
  unfolding create_with_key
  create_short_link_endpoint db = elim req.idempotency_key [
    | none ↦ create_new db
    | some key ↦ create_with_key key db
  ]

-- ShortLinkAnalyticsSummary
pub record AnalyticsReport : Type 0 where
  pub short_code : String
  pub successful_redirect_count : ℕ
  pub last_successful_redirect_at : Option ℕ
  pub completeness_status : Completeness

abbrev report : String → Option Summary → Completeness → AnalyticsReport
report code summary status = record {
  short_code = code;
  successful_redirect_count = elim summary [ none ↦ 0 | some s ↦ s.successful_redirect_count ];
  last_successful_redirect_at = elim summary [
    | none ↦ none
    | some s ↦ s.last_successful_redirect_at
  ];
  completeness_status = status;
}

unfoldable pub get_analytics : Db → String → Reply AnalyticsReport
get_analytics db code =
    if is_some (get_short_link db.link code)
    then body (report code (get_summary db.link code) (effective_completeness_status db.link code))
    else http_error 404 "not_found"

unfoldable pub delete_short_link_endpoint : ℕ → String → Db → Db × Reply (Unit {0})
delete_short_link_endpoint now code db =
    let (links, deleted) = delete_short_link now code db.link in
    if deleted
    then (
      record_event ActorType.system "delete_short_link" (Artifact.short_code code) "deleted" none
          now (with_link db links),
      body tt,
    )
    else (with_link db links, http_error 404 "not_found")
