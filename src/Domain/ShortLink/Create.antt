-- ===== src/Domain/ShortLink/Create.antt =====
-- What `create_short_link` of src/domain/short_link.py does to the tables, on every branch.
use agentic_engineering_url.Prelude.{
  ℕ, zero, suc, ◌+◌, ◌≤◌, ◌<◌, String, ◌≡◌, refl, ap, subst, ◌⊎◌, inl, inr, true, false, Option,
  none, some, [], ◌∷◌, arith, ◌==◌, eq_refl, if◌then◌else◌, or_else, eq→≡, Bool-cases, Option-cases,
  All, All-append, Result, ok, err, ◌>>◌, All-map, Result-cases,
}
use native.Mathlib.Decide.{ℕ_discrete}
use agentic_engineering_url.Sql.{fetch}
use agentic_engineering_url.Sql.Laws.{All-fetch, fetch-holds, fetch-append}
use agentic_engineering_url.Schema.{LinkDb, ShortLink, Summary}
use agentic_engineering_url.Schema.Status.{LinkStatus}
use agentic_engineering_url.Domain.Validation.{
  Outside, DomainError, validate_destination_url, validate_expires_at,
}
use agentic_engineering_url.Domain.ShortLink.{
  new_link, new_summary, has_link, has_summary, insert_link, insert_summary, create_attempts,
  create_short_link, get_short_link,
}

-- The foreign key of the summaries: each belongs to a link.
abbrev pub HasOwners : LinkDb → Type 0
HasOwners db = All (λ s. has_link s.short_code db ≡ true) db.summaries

summary_has_link :
    (code : String) (db : LinkDb)
    → HasOwners db
    → has_link code db ≡ false
    → has_summary code db ≡ false
summary_has_link code db own free =
    elim (Option-cases (fetch (λ (s : Summary). s.short_code == code) db.summaries)) [
      | inl n ↦ rw n
      | inr q ↦
          let (s, e) = q in
          let same =
            eq→≡ s.short_code code
              (fetch-holds (λ (s : Summary). s.short_code == code) db.summaries s e) in
          let has =
            All-fetch (λ (s : Summary). has_link s.short_code db ≡ true) _ db.summaries s own e in
          absurd (cc (has, ap (λ c. has_link c db) same, free))
    ]

module _ (codes : ℕ → String) (url : String) (now : ℕ) (expires : Option String) (db : LinkDb) where
  -- The first free code, at most `left` attempts after `attempt`, was given to the new link.
  abbrev pub IsCreated : (left attempt : ℕ) → LinkDb × Result DomainError ShortLink → Type 0
  IsCreated left attempt result =
      (k : ℕ) × (attempt ≤ k)
      × (k < attempt + left)
      × ((j : ℕ) → attempt ≤ j → j < k → has_link (codes j) db ≡ true)
      × (has_link (codes k) db ≡ false)
      × (result ≡ (
        insert_summary (codes k) (insert_link (new_link (codes k) url now expires) db),
        ok (new_link (codes k) url now expires),
      ))

  abbrev pub IsExhausted : (left attempt : ℕ) → LinkDb × Result DomainError ShortLink → Type 0
  IsExhausted left attempt result =
      ((j : ℕ) → attempt ≤ j → j < attempt + left → has_link (codes j) db ≡ true)
      × (result ≡ (db, err DomainError.codes_exhausted))

  first_or_later :
      (attempt : ℕ)
      → has_link (codes attempt) db ≡ true
      → (j : ℕ) → attempt ≤ j
      → (attempt + 1 ≤ j → has_link (codes j) db ≡ true)
      → has_link (codes j) db ≡ true
  first_or_later attempt taken j h later = elim (ℕ_discrete attempt j) [
    | yes p ↦ subst (λ k. has_link (codes k) db ≡ true) p taken
    | no p ↦ later (omega arith)
  ]

  attempts_lem :
      HasOwners db
      → (left attempt : ℕ)
      → let result = create_attempts codes url now expires left attempt db in
        IsCreated left attempt result ⊎ IsExhausted left attempt result
  unfolding create_attempts
  attempts_lem own zero attempt = inr (λ j h k. absurd (omega arith), refl)
  attempts_lem own (suc left) attempt = elim (Bool-cases (has_link (codes attempt) db)) [
    | inl taken ↦ rw taken (elim (attempts_lem own left (attempt + 1)) [
      | inl q ↦
          let (k, low, high, before, free, e) = q in
          inl (
            k,
            omega arith,
            omega arith,
            λ j h u. first_or_later attempt taken j h (λ h'. before j h' u),
            free,
            e,
          )
      | inr q ↦
          let (all, e) = q in
          inr (λ j h u. first_or_later attempt taken j h (λ h'. all j h' (omega arith)), e)
    ])
    | inr free ↦
        rw (free, summary_has_link (codes attempt) db own free)
          (inl (attempt, omega arith, omega arith, λ j h k. absurd (omega arith), free, refl))
  ]

module _ (os : Outside) (codes : ℕ → String) (now : ℕ) (url : String) (expires : Option String)
    (db : LinkDb) where
  -- A valid request gets the first free one of five codes, with a link and a summary inserted for it,
  -- or all five are taken and nothing changes; this while every summary belongs to a link.
  pub create_takes_first_free :
      HasOwners db
      → (validate_destination_url os url >> validate_expires_at os now expires) ≡ ok tt
      → let result = create_short_link os codes now url expires db in
        IsCreated codes url now expires db 5 0 result
        ⊎ IsExhausted codes url now expires db 5 0 result
  unfolding create_short_link
  create_takes_first_free own valid =
      rw (valid, create_short_link) (attempts_lem codes url now expires db own 5 0)

  -- An invalid request is refused with the validation's error, and changes nothing.
  create_invalid :
      (e : DomainError)
      → (validate_destination_url os url >> validate_expires_at os now expires) ≡ err e
      → create_short_link os codes now url expires db ≡ (db, err e)
  unfolding create_short_link
  create_invalid e invalid = rw (invalid, create_short_link)

get-insert_link :
    (link : ShortLink) (db : LinkDb) (code : String)
    → get_short_link (insert_link link db) code
      ≡ or_else (get_short_link db code) (if link.short_code == code then some link else none)
unfolding get_short_link insert_link fetch
get-insert_link link db code = fetch-append _ db.links (link ∷ [])

has_link-new :
    (code : String) (url : String) (now : ℕ) (expires : Option String) (db : LinkDb)
    → has_link code (insert_link (new_link code url now expires) db) ≡ true
unfolding insert_link fetch
has_link-new code url now expires db = ground (
  arith,
  fetch-append (λ (l : ShortLink). l.short_code == code) db.links
      (new_link code url now expires ∷ []),
  eq_refl code,
)

get-insert_summary :
    (c : String) (db : LinkDb) (code : String)
    → get_short_link (insert_summary c db) code ≡ get_short_link db code
unfolding get_short_link insert_summary
get-insert_summary c db code = refl

-- What a new link changes for a reader: its own code, which was free, now leads to it.
abbrev pub IsNew : ShortLink → LinkDb → LinkDb → Type 0
IsNew link db db' =
    (get_short_link db link.short_code ≡ none)
    × (get_short_link db' link.short_code ≡ some link)
    × ((code : String)
        → (link.short_code == code) ≡ false
        → get_short_link db' code ≡ get_short_link db code)

created-IsNew :
    (code : String) (url : String) (now : ℕ) (expires : Option String) (db : LinkDb)
    → has_link code db ≡ false
    → IsNew
        (new_link code url now expires)
        db
        (insert_summary code (insert_link (new_link code url now expires) db))
created-IsNew code url now expires db free =
    let link = new_link code url now expires in
    let none_yet : get_short_link db code ≡ none = unfold get_short_link in ground arith in
    (
      none_yet,
      ground (
        arith,
        get-insert_summary code (insert_link link db) code,
        get-insert_link link db code,
        eq_refl code,
      ),
      λ c ne. ground (
        arith,
        get-insert_summary code (insert_link link db) c,
        get-insert_link link db c,
        Option-cases (get_short_link db c),
      ),
    )

module _ (os : Outside) (codes : ℕ → String) (now : ℕ) (url : String) (expires : Option String)
    (db : LinkDb) where
  result_cases :
      HasOwners db
      → (link : ShortLink) → (create_short_link os codes now url expires db).1 ≡ ok link
      → IsCreated codes url now expires db 5 0 (create_short_link os codes now url expires db)
  result_cases own link e =
      elim (Result-cases (validate_destination_url os url >> validate_expires_at os now expires)) [
        | inl q ↦ elim (create_takes_first_free os codes now url expires db own q.1) [
          | inl c ↦ c
          | inr x ↦ absurd (cc (e, ap (λ (p : LinkDb × Result DomainError ShortLink). p.1) x.1))
        ]
        | inr q ↦ absurd (
            cc (
              e,
              ap (λ (p : LinkDb × Result DomainError ShortLink). p.1)
                  (create_invalid os codes now url expires db q.0 q.1),
            ))
      ]

  created-HasOwners :
      (code : String)
      → HasOwners db
      → HasOwners (insert_summary code (insert_link (new_link code url now expires) db))
  unfolding insert_summary insert_link
  created-HasOwners code own =
      All-append _ db.summaries (new_summary code ∷ [])
        (All-map db.summaries
          (λ s k. ground (
            arith,
            fetch-append (λ (l : ShortLink). l.short_code == s.short_code) db.links
                (new_link code url now expires ∷ []),
          ))
          own)
        (has_link-new code url now expires db, tt)

  -- A link that is created has the requested destination and expiry, is active, created now and not
  -- deleted, has a code that was
  -- free, and is what the code leads to afterwards; every other code leads where it led. This holds
  -- while every summary belongs to a link, and that is kept.
  pub created_link-IsNew :
      HasOwners db
      → (link : ShortLink) → (create_short_link os codes now url expires db).1 ≡ ok link
      → let db' = (create_short_link os codes now url expires db).0 in
        (link ≡ record {
          short_code = link.short_code;
          destination_url = url;
          created_at = now;
          expires_at = expires;
          status = LinkStatus.active;
          deleted_at = none;
        })
        × IsNew link db db'
        × HasOwners db'
  created_link-IsNew own link e =
      let (k, _, _, _, free, p) = result_cases own link e in
      let made : new_link (codes k) url now expires ≡ link =
        cc (e, ap (λ (p : LinkDb × Result DomainError ShortLink). p.1) p) in
      let db' = (create_short_link os codes now url expires db).0 in
      let kept =
        subst (λ l. IsNew l db db') made (rw p (created-IsNew (codes k) url now expires db free)) in
      let owners : HasOwners db' = rw p (created-HasOwners (codes k) own) in
      (subst (λ l. l ≡ new_link l.short_code url now expires) made refl, kept, owners)
