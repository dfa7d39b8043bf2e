-- ===== src/Domain/ShortLink.antt =====
-- src/domain/short_link.py: creating, reading and deleting short links.
-- The random code of each attempt is given by `codes`, a function from the attempt's number.
pub mod Create
use agentic_engineering_url.Prelude.{
  ℕ, zero, suc, ◌+◌, String, Bool, false, ◌&&◌, Option, none, some, ◌==◌, ltb, leb, if◌then◌else◌,
  is_some, Result, ok, err, ◌>>=◌, ◌>>◌,
}
use agentic_engineering_url.Sql.{fetch, update, count, insert}
use agentic_engineering_url.Schema.{LinkDb, ShortLink, Summary}
use agentic_engineering_url.Schema.Status.{LinkStatus, Completeness, is_active}
use agentic_engineering_url.Domain.Validation.{
  Outside, Stamp, DomainError, or_raise, validate_destination_url, validate_expires_at,
}

abbrev pub max_collision_retries : ℕ
max_collision_retries = 5

-- `datetime.now(UTC) >= expires` raises TypeError where `expires` is naive.
abbrev later_or_type_error : ℕ → Stamp → Result DomainError Bool
later_or_type_error now expires =
    if expires.is_aware then ok (leb expires.instant now) else err DomainError.type_error

unfoldable pub is_expired : Outside → ℕ → ShortLink → Result DomainError Bool
is_expired os now link = elim link.expires_at [
  | none ↦ ok false
  | some text ↦ or_raise (os.fromisoformat text) DomainError.value_error >>= later_or_type_error now
]

abbrev pub new_link : String → String → ℕ → Option String → ShortLink
new_link code url now expires = record {
  short_code = code;
  destination_url = url;
  created_at = now;
  expires_at = expires;
  status = LinkStatus.active;
  deleted_at = none;
}

abbrev pub new_summary : String → Summary
new_summary code = record {
  short_code = code;
  successful_redirect_count = 0;
  last_successful_redirect_at = none;
  completeness_status = Completeness.complete;
}

abbrev pub has_link : String → LinkDb → Bool
has_link code db = is_some (fetch (λ l. l.short_code == code) db.links)

abbrev pub has_summary : String → LinkDb → Bool
has_summary code db = is_some (fetch (λ s. s.short_code == code) db.summaries)

-- INSERT INTO domain_short_link
unfoldable pub insert_link : ShortLink → LinkDb → LinkDb
insert_link link db = record db { links = insert link db.links }

-- INSERT INTO domain_short_link_analytics_summary
unfoldable pub insert_summary : String → LinkDb → LinkDb
insert_summary code db = record db { summaries = insert (new_summary code) db.summaries }

-- The loop over the attempts that are left. A code that is taken is an IntegrityError, after which
-- the loop continues; so is a summary that is there already, when the link has been inserted.
unfoldable pub create_attempts :
    (codes : ℕ → String) (url : String) (now : ℕ) (expires : Option String)
    → (left attempt : ℕ) → LinkDb
    → LinkDb × Result DomainError ShortLink
create_attempts codes url now expires zero attempt db = (db, err DomainError.codes_exhausted)
create_attempts codes url now expires (suc left) attempt db =
    let link = new_link (codes attempt) url now expires in
    let taken = create_attempts codes url now expires left (attempt + 1) db in
    let orphan = create_attempts codes url now expires left (attempt + 1) (insert_link link db) in
    if has_link (codes attempt) db
    then taken
    else if has_summary (codes attempt) db
    then orphan
    else (insert_summary (codes attempt) (insert_link link db), ok link)

unfoldable pub create_short_link :
    Outside
    → (codes : ℕ → String) → (now : ℕ) → (url : String) → (expires : Option String) → LinkDb
    → LinkDb × Result DomainError ShortLink
create_short_link os codes now url expires db =
    elim (validate_destination_url os url >> validate_expires_at os now expires) [
      | err e ↦ (db, err e)
      | ok _ ↦ create_attempts codes url now expires max_collision_retries 0 db
    ]

unfoldable pub get_short_link : LinkDb → String → Option ShortLink
get_short_link db code = fetch (λ l. l.short_code == code) db.links

-- WHERE short_code=? AND status='active'
abbrev deletable : String → ShortLink → Bool
deletable code l = (l.short_code == code) && is_active l.status

-- The new tables, and `cur.rowcount > 0`.
unfoldable pub delete_short_link : ℕ → String → LinkDb → LinkDb × Bool
delete_short_link now code db = (
  record db {
    links =
        update (deletable code)
          (λ l. record l { status = LinkStatus.deleted; deleted_at = some now }) db.links;
  },
  ltb 0 (count (deletable code) db.links),
)
