-- ===== src/Api/ShortLinks/Replay.antt =====
-- What a second request with an Idempotency-Key is answered, for src/api/routers/short_links.py.
use agentic_engineering_url.Prelude.{
  String, ◌≡◌, refl, sym, ap, subst, inl, inr, true, false, none, some, [], ◌∷◌, arith, ◌==◌,
  eq_refl, if◌then◌else◌, or_else, Option-cases, ok, Result-cases,
}
use agentic_engineering_url.Sql.{fetch}
use agentic_engineering_url.Sql.Laws.{fetch-append}
use agentic_engineering_url.Schema.{LinkDb, Db, ShortLink, IdempotencyRecord}
use agentic_engineering_url.Domain.ShortLink.{create_short_link, get_short_link}
use agentic_engineering_url.Domain.ShortLink.Create.{HasOwners, created_link-IsNew}
use agentic_engineering_url.Domain.Idempotency.{
  raw_payload, hash_payload, validate_key_length, find_existing, check_replay, insert_record,
  record_key,
}
use agentic_engineering_url.Observability.Audit.{record_event}
use agentic_engineering_url.Api.ShortLinks.{
  body, http_error, Created, response, Surroundings, CreateRequest, create_short_link_endpoint,
}

-- How a request with a key comes to create a link.
abbrev CreatesWith : Surroundings → CreateRequest → String → Db → LinkDb → ShortLink → Type 0
CreatesWith env req key db links link =
    let made =
      create_short_link env.os env.codes env.now req.destination_url req.expires_at db.link in
    (validate_key_length key ≡ ok tt)
    × (find_existing db.link key ≡ none)
    × (made.1 ≡ ok link)
    × (record_key env.sha256 env.now key req.destination_url req.expires_at link.short_code made.0
        ≡ ok links)

creates_of :
    (env : Surroundings) (req : CreateRequest) (key : String) (db db' : Db) (c : Created)
    → req.idempotency_key ≡ some key
    → create_short_link_endpoint env req db ≡ (db', body c)
    → c.idempotent_replay ≡ false
    → (links : LinkDb) × (link : ShortLink) × CreatesWith env req key db links link
      × (db'.link ≡ links)
      × (c ≡ response false link)
unfolding create_short_link_endpoint check_replay record_event
creates_of env req key db db' c k e new = elim (Result-cases (validate_key_length key)) [
  | inr short ↦ absurd (ground arith)
  | inl valid ↦ elim (Option-cases (find_existing db.link key)) [
    | inr old ↦ absurd (ground arith)
    | inl first ↦
        elim (Result-cases
          (create_short_link env.os env.codes env.now req.destination_url req.expires_at
            db.link).1) [
              | inr failed ↦ absurd (ground arith)
              | inl made ↦
                  elim (Result-cases (
                    record_key env.sha256 env.now key req.destination_url req.expires_at
                      made.0.short_code
                      (create_short_link env.os env.codes env.now req.destination_url req.expires_at
                        db.link).0)) [
                          | inr refused ↦ absurd (ground arith)
                          | inl stored ↦ (
                            stored.0,
                            made.0,
                            (ground arith, first, made.1, stored.1),
                            ground arith,
                            ground arith,
                          )
                        ]
            ]
  ]
]

abbrev key_record : Surroundings → CreateRequest → String → String → IdempotencyRecord
key_record env req key code = record {
  idempotency_key = key;
  validated_payload_hash = hash_payload env.sha256 req.destination_url req.expires_at;
  short_code = code;
  created_at = env.now;
}

record_key-eq :
    (env : Surroundings) (req : CreateRequest) (key code : String) (db links : LinkDb)
    → record_key env.sha256 env.now key req.destination_url req.expires_at code db ≡ ok links
    → (find_existing db key ≡ none) × (links ≡ insert_record (key_record env req key code) db)
unfolding record_key
record_key-eq env req key code db links h = elim (Option-cases (find_existing db key)) [
  | inl n ↦ (n, ground arith)
  | inr q ↦ absurd (ground arith)
]

find-insert_record :
    (r : IdempotencyRecord) (db : LinkDb) (key : String)
    → find_existing (insert_record r db) key
      ≡ or_else (find_existing db key) (if r.idempotency_key == key then some r else none)
unfolding find_existing insert_record fetch
find-insert_record r db key = fetch-append _ db.idempotency (r ∷ [])

get-insert_record :
    (r : IdempotencyRecord) (db : LinkDb) (code : String)
    → get_short_link (insert_record r db) code ≡ get_short_link db code
unfolding get_short_link insert_record
get-insert_record r db code = refl

-- What the tables hold of a key after the request that created its link.
abbrev IsRemembered : Surroundings → CreateRequest → String → LinkDb → ShortLink → Type 0
IsRemembered env req key links link =
    (validate_key_length key ≡ ok tt)
    × (find_existing links key ≡ some (key_record env req key link.short_code))
    × (get_short_link links link.short_code ≡ some link)

remembered :
    (env : Surroundings) (req : CreateRequest) (key : String) (db : Db) (links : LinkDb)
    (link : ShortLink)
    → HasOwners db.link
    → CreatesWith env req key db links link
    → IsRemembered env req key links link
remembered env req key db links link own (valid, first, made, stored) =
    let tables =
      (create_short_link env.os env.codes env.now req.destination_url req.expires_at db.link).0 in
    let (unused, e) = record_key-eq env req key link.short_code tables links stored in
    let new =
      (created_link-IsNew env.os env.codes env.now req.destination_url req.expires_at db.link own
        link made).1 in
    (valid, rw (e, find-insert_record, unused, eq_refl key), rw (e, get-insert_record) new.1)

module _ (env : Surroundings) (req : CreateRequest) (key : String) (db db' : Db) (c : Created)
    (keyed : req.idempotency_key ≡ some key) (own : HasOwners db.link)
    (first : create_short_link_endpoint env req db ≡ (db', body c))
    (new : c.idempotent_replay ≡ false) (env' : Surroundings) (req' : CreateRequest)
    (same_hash : env'.sha256 ≡ env.sha256) (same_key : req'.idempotency_key ≡ some key) where
  known : (link : ShortLink) × IsRemembered env req key db'.link link × (c ≡ response false link)
  known =
      let (links, link, creates, e, made) = creates_of env req key db db' c keyed first new in
      (
        link,
        subst (λ l. IsRemembered env req key l link) (sym e)
            (remembered env req key db links link own creates),
        made,
      )

  -- After a request with a key created a link, while every summary belonged to a link, a later
  -- request with that key whose payload text is the same, under the same hash function, is
  -- answered with the first answer, marked as a replay, and changes nothing.
  pub replay_returns_first :
      raw_payload req'.destination_url req'.expires_at
        ≡ raw_payload req.destination_url req.expires_at
      → create_short_link_endpoint env' req' db'
        ≡ (db', body (record c { idempotent_replay = true }))
  unfolding create_short_link_endpoint check_replay
  replay_returns_first same =
      let (link, (valid, found, leads), made) = known in
      ground (
        arith,
        ap env'.sha256 same,
        ap (λ (f : String → String). f (raw_payload req.destination_url req.expires_at)) same_hash,
        eq_refl (env.sha256 (raw_payload req.destination_url req.expires_at)),
      )

  -- After a request with a key created a link, while every summary belonged to a link, a later
  -- request with that key whose payload has another hash is answered 409, whether or not its URL
  -- and expiry are valid, and changes no link and no key.
  pub conflict_is_refused :
      (env.sha256 (raw_payload req.destination_url req.expires_at)
          == env.sha256 (raw_payload req'.destination_url req'.expires_at))
        ≡ false
      → let (last, reply) = create_short_link_endpoint env' req' db' in
        (reply ≡ http_error 409 "idempotency_conflict") × (last.link ≡ db'.link)
  unfolding create_short_link_endpoint check_replay record_event
  conflict_is_refused other =
      let (link, (valid, found, leads), made) = known in
      ground (
        arith,
        ap (λ (f : String → String). f (raw_payload req'.destination_url req'.expires_at))
            same_hash,
      )
