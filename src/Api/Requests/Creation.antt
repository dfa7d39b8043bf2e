-- ===== src/Api/Requests/Creation.antt =====
-- The creation of a short link changes neither the row of the system status nor a link that is there:
-- src/api/routers/short_links.py.
use agentic_engineering_url.Prelude.{
  ap, sym, subst, [], ◌∷◌, ℕ, zero, suc, ◌+◌, String, ◌≡◌, refl, ◌∙◌, inl, inr, Option, none, some,
  arith, ◌==◌, is_some, Bool-cases, Option-cases, ok, Result-cases, ◌>>◌,
}
use agentic_engineering_url.Sql.{fetch}
use agentic_engineering_url.Schema.{Db, LinkDb, ShortLink}
use agentic_engineering_url.Sql.Laws.{fetch-append}
use agentic_engineering_url.Domain.Validation.{
  Outside, DomainError, validate_destination_url, validate_expires_at,
}
use agentic_engineering_url.Domain.ShortLink.{
  new_link, get_short_link, create_attempts, create_short_link, has_link, has_summary, insert_link,
  insert_summary, max_collision_retries,
}
use agentic_engineering_url.Domain.Idempotency.{
  record_key, insert_record, find_existing, check_replay, validate_key_length,
}
use agentic_engineering_url.Observability.Audit.{record_event}
use agentic_engineering_url.Api.ShortLinks.{
  with_link, Surroundings, CreateRequest, store_key, answer_failure, create_new, answer_replay,
  create_with_key, create_short_link_endpoint,
}

abbrev pub link_at : LinkDb → String → Option ShortLink
link_at db code = fetch (λ l. l.short_code == code) db.links

-- The system status is the same, and so is every link that was there.
abbrev pub KeepsRows : LinkDb → LinkDb → Type 0
KeepsRows db db' =
    (db'.system_status ≡ db.system_status)
    × ((code : String) (l : ShortLink) → link_at db code ≡ some l → link_at db' code ≡ some l)

KeepsRows-trans : (a b c : LinkDb) → KeepsRows a b → KeepsRows b c → KeepsRows a c
KeepsRows-trans a b c f g = (g.0 ∙ f.0, λ code l h. g.1 code l (f.1 code l h))

insert_link-KeepsRows : (link : ShortLink) (db : LinkDb) → KeepsRows db (insert_link link db)
unfolding insert_link
insert_link-KeepsRows link db =
    (refl, λ code l h. rw (fetch-append (λ x. x.short_code == code) db.links (link ∷ []), h) refl)

create_attempts-KeepsRows :
    (codes : ℕ → String) (url : String) (now : ℕ) (expires : Option String) (left attempt : ℕ)
    (db : LinkDb)
    → KeepsRows db (create_attempts codes url now expires left attempt db).0
unfolding create_attempts insert_summary
create_attempts-KeepsRows codes url now expires zero attempt db = (refl, λ code l h. h)
create_attempts-KeepsRows codes url now expires (suc left) attempt db =
    let link = new_link (codes attempt) url now expires in
    let inserted = insert_link link db in
    let once = insert_link-KeepsRows link db in
    elim (Bool-cases (has_link (codes attempt) db)) [
      | inl y ↦ rw y (create_attempts-KeepsRows codes url now expires left (attempt + 1) db)
      | inr n ↦ elim (Bool-cases (has_summary (codes attempt) db)) [
        | inl y ↦
            rw (n, y)
              (KeepsRows-trans db inserted
                (create_attempts codes url now expires left (attempt + 1) inserted).0 once
                (create_attempts-KeepsRows codes url now expires left (attempt + 1) inserted))
        | inr k ↦ rw (n, k) once
      ]
    ]

create_short_link-KeepsRows :
    (os : Outside) (codes : ℕ → String) (now : ℕ) (url : String) (expires : Option String)
    (db : LinkDb)
    → KeepsRows db (create_short_link os codes now url expires db).0
unfolding create_short_link
create_short_link-KeepsRows os codes now url expires db =
    elim (Result-cases (validate_destination_url os url >> validate_expires_at os now expires)) [
      | inl q ↦
          rw (q.1, create_short_link)
            (create_attempts-KeepsRows codes url now expires max_collision_retries 0 db)
      | inr q ↦ rw (q.1, create_short_link) (refl, λ code l h. h)
    ]

record_key-KeepsRows :
    (sha256 : String → String) (now : ℕ) (key url : String) (expires : Option String)
    (code : String) (db links : LinkDb)
    → record_key sha256 now key url expires code db ≡ ok links
    → KeepsRows db links
unfolding record_key insert_record
record_key-KeepsRows sha256 now key url expires code db links e =
    elim (Bool-cases (is_some (find_existing db key))) [
      | inl y ↦ absurd (ground (arith, y, e))
      | inr n ↦ elim (Bool-cases (is_some (fetch (λ l. l.short_code == code) db.links))) [
        | inl y ↦ (
          ground (arith, n, y, e),
          λ c l h.
              let same : links.links ≡ db.links = ground (arith, n, y, e) in
              ap (fetch (λ x. x.short_code == c)) same ∙ h,
        )
        | inr k ↦ absurd (ground (arith, n, k, e))
      ]
    ]

module _ (env : Surroundings) (req : CreateRequest) where
  store_key-KeepsRows :
      (key : Option String) (link : ShortLink) (db : Db)
      → KeepsRows db.link (store_key env req key link db).0.link
  unfolding store_key record_event
  store_key-KeepsRows none link db = (refl, λ code l h. h)
  store_key-KeepsRows (some key) link db =
      let stored =
        record_key env.sha256 env.now key req.destination_url req.expires_at link.short_code
          db.link in
      elim (Result-cases stored) [
        | inl q ↦
            rw (q.1, store_key)
              (record_key-KeepsRows env.sha256 env.now key req.destination_url req.expires_at
                link.short_code db.link q.0 q.1)
        | inr q ↦ rw (q.1, store_key) (refl, λ code l h. h)
      ]

  answer_failure-link : (e : DomainError) (db : Db) → (answer_failure env req e db).0.link ≡ db.link
  unfolding answer_failure record_event
  answer_failure-link DomainError.empty_url db = refl
  answer_failure-link DomainError.bad_scheme db = refl
  answer_failure-link DomainError.no_location db = refl
  answer_failure-link DomainError.no_hostname db = refl
  answer_failure-link DomainError.private_address db = refl
  answer_failure-link DomainError.bad_timestamp db = refl
  answer_failure-link DomainError.not_in_future db = refl
  answer_failure-link DomainError.value_error db = refl
  answer_failure-link DomainError.type_error db = refl
  answer_failure-link DomainError.codes_exhausted db = refl

  create_new-KeepsRows : (db : Db) → KeepsRows db.link (create_new env req db).0.link
  unfolding create_new
  create_new-KeepsRows db =
      let made =
        create_short_link env.os env.codes env.now req.destination_url req.expires_at db.link in
      let same =
        create_short_link-KeepsRows env.os env.codes env.now req.destination_url req.expires_at
          db.link in
      elim (Result-cases made.1) [
        | inl q ↦
            let stored = store_key env req req.idempotency_key q.0 (with_link db made.0) in
            rw (q.1, create_new)
              (KeepsRows-trans db.link made.0 stored.0.link same
                (store_key-KeepsRows req.idempotency_key q.0 (with_link db made.0)))
        | inr q ↦
            rw (q.1, create_new)
              (subst (KeepsRows db.link) (sym (answer_failure-link q.0 (with_link db made.0))) same)
      ]

  create_with_key-KeepsRows :
      (key : String) (db : Db) → KeepsRows db.link (create_with_key env req key db).0.link
  unfolding create_with_key answer_replay record_event
  create_with_key-KeepsRows key db = elim (Result-cases (validate_key_length key)) [
    | inr q ↦ rw (q.1, create_with_key) (refl, λ code l h. h)
    | inl q ↦
        let replay = check_replay env.sha256 db.link key req.destination_url req.expires_at in
        elim (Result-cases replay) [
          | inr e ↦ rw (q.1, create_with_key, e.1) (refl, λ code l h. h)
          | inl (none, e) ↦ rw (q.1, create_with_key, e) (create_new-KeepsRows db)
          | inl (some code, e) ↦ elim (Option-cases (get_short_link db.link code)) [
            | inl n ↦ rw (q.1, create_with_key, e, answer_replay, n) (refl, λ code l h. h)
            | inr y ↦ rw (q.1, create_with_key, e, answer_replay, y.1) (refl, λ code l h. h)
          ]
        ]
  ]

  pub create_endpoint-KeepsRows :
      (db : Db) → KeepsRows db.link (create_short_link_endpoint env req db).0.link
  unfolding create_short_link_endpoint
  create_endpoint-KeepsRows db = elim (Option-cases req.idempotency_key) [
    | inl n ↦ rw (n, create_short_link_endpoint) (create_new-KeepsRows db)
    | inr q ↦ rw (q.1, create_short_link_endpoint) (create_with_key-KeepsRows q.0 db)
  ]
