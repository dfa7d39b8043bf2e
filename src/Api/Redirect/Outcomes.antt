-- ===== src/Api/Redirect/Outcomes.antt =====
-- When a short link redirects, and what the answers leave behind, for src/api/routers/redirect.py.
use agentic_engineering_url.Prelude.{
  ℕ, String, ◌≡◌, ◌≢◌, refl, ◌⊎◌, ◌↔◌, inl, inr, true, false, ◌&&◌, some, arith, ◌==◌,
  if◌then◌else◌, Bool-cases, Option-cases, ok, Result-cases,
}
use agentic_engineering_url.Sql.{fetch}
use agentic_engineering_url.Sql.Laws.{fetch-update, fetch-holds}
use mathlib.Core.Option
use agentic_engineering_url.Schema.{LinkDb, Db, ShortLink}
use agentic_engineering_url.Schema.Status.{LinkStatus, is_active}
use agentic_engineering_url.Domain.Validation.{Outside, Stamp}
use agentic_engineering_url.Domain.ShortLink.{
  create_short_link, get_short_link, delete_short_link, is_expired,
}
use agentic_engineering_url.Domain.ShortLink.Create.{HasOwners, created_link-IsNew}
use agentic_engineering_url.Observability.Audit.{record_event}
use agentic_engineering_url.Api.ShortLinks.{body, uncaught, with_link}
use agentic_engineering_url.Api.Redirect.{
  write_analytics_after_response, resolve_short_link, follow,
}

-- The code leads to an active link that has not expired.
abbrev pub Leads : Outside → ℕ → String → Db → String → Type 0
Leads os now code db url =
    (link : ShortLink) × (get_short_link db.link code ≡ some link)
    × (is_expired os now link ≡ ok false)
    × (is_active link.status ≡ true)
    × (link.destination_url ≡ url)

redirects-of :
    (os : Outside) (now : ℕ) (code : String) (db : Db) (url : String)
    → (resolve_short_link os now code db).1 ≡ body url
    → Leads os now code db url
unfolding resolve_short_link
redirects-of os now code db url h = elim (Option-cases (get_short_link db.link code)) [
  | inl n ↦ absurd (ground arith)
  | inr q ↦ (q.0, q.1, ground arith, ground arith, ground arith)
]

redirects_if :
    (os : Outside) (now : ℕ) (code : String) (db : Db) (url : String)
    → Leads os now code db url
    → (resolve_short_link os now code db).1 ≡ body url
unfolding resolve_short_link
redirects_if os now code db url h = ground arith

-- A code redirects exactly when it has a link that is active and not expired, and then to the
-- link's destination.
pub redirects_iff :
    (os : Outside) (now : ℕ) (code : String) (db : Db) (url : String)
    → ((resolve_short_link os now code db).1 ≡ body url) ↔ Leads os now code db url
redirects_iff os now code db url =
    (redirects-of os now code db url, redirects_if os now code db url)

-- A request either leaves the links, the outbox and the counts as they were, or it leads to a
-- link, is answered with its destination, and leaves what the analytics write makes of the tables.
pub only_redirects_are_counted :
    (os : Outside) (event_id : String) (clock : String → ℕ) (now : ℕ) (code : String) (db : Db)
    → ((follow os event_id clock now code db).0.link ≡ db.link)
      ⊎ ((url : String) × Leads os now code db url
          × (follow os event_id clock now code db
              ≡ (write_analytics_after_response event_id clock now code db, body url)))
unfolding follow record_event
only_redirects_are_counted os event_id clock now code db =
    elim (Option-cases (get_short_link db.link code)) [
      | inl n ↦ inl (ground arith)
      | inr q ↦ elim (Result-cases (is_expired os now q.0)) [
        | inr x ↦ inl (ground arith)
        | inl b ↦ elim (Bool-cases b.0) [
          | inl t ↦ inl (ground arith)
          | inr f ↦ elim (Bool-cases (is_active q.0.status)) [
            | inr no' ↦ inl (ground arith)
            | inl a ↦ inr (q.0.destination_url, (q.0, q.1, ground arith, a, refl), ground arith)
          ]
        ]
      ]
    ]

-- A link that is created with an expiry timestamp that names no offset, while every summary
-- belongs to a link, answers every later request with an exception that nothing catches.
pub naive_expiry_breaks_link :
    (os : Outside) (codes : ℕ → String) (now : ℕ) (url text : String) (stamp : Stamp) (db : Db)
    (link : ShortLink) (later : ℕ)
    → os.fromisoformat text ≡ some stamp
    → stamp.is_aware ≡ false
    → HasOwners db.link
    → (create_short_link os codes now url (some text) db.link).1 ≡ ok link
    → let db' = with_link db (create_short_link os codes now url (some text) db.link).0 in
      resolve_short_link os later link.short_code db' ≡ (db', uncaught)
naive_expiry_breaks_link os codes now url text stamp db link later iso naive own made =
    let new = created_link-IsNew os codes now url (some text) db.link own link made in
    unfold resolve_short_link is_expired in ground (arith, new.1.1, new.0)

deleted_is_inactive :
    (now : ℕ) (code : String) (db : LinkDb) (link : ShortLink)
    → get_short_link (delete_short_link now code db).0 code ≡ some link
    → is_active link.status ≡ false
unfolding get_short_link delete_short_link
deleted_is_inactive now code db link e =
    elim (Option-cases (fetch (λ (l : ShortLink). l.short_code == code) db.links)) [
      | inl n ↦ absurd (ground (arith, moved))
      | inr q ↦
          ground
            (arith, moved, fetch-holds (λ (l : ShortLink). l.short_code == code) db.links q.0 q.1)
    ]
  where
    moved :
        fetch (λ (l : ShortLink). l.short_code == code) (delete_short_link now code db).0.links
        ≡ Option.map
            (λ l.
              if (l.short_code == code) && is_active l.status
              then record l { status = LinkStatus.deleted; deleted_at = some now }
              else l)
            (fetch (λ (l : ShortLink). l.short_code == code) db.links)
    moved = fetch-update _ (λ (l : ShortLink). l.short_code == code) _ (λ x t. refl) db.links

-- After a deletion of a code, whether or not it had an active link, it never redirects again.
pub deleted_never_redirects :
    (os : Outside) (now later : ℕ) (code url : String) (db : Db)
    → (resolve_short_link os later code (with_link db (delete_short_link now code db.link).0)).1
      ≢ body url
deleted_never_redirects os now later code url db e =
    let (link, found, _, active, _) = redirects-of os later code _ url e in
    cc (active, deleted_is_inactive now code db.link link found)
