-- ===== src/Api/Auth/Provisioned.antt =====
-- What a bootstrap writes is what is read and verified, for src/api/credentials.py.
use mathlib.Core.Option
use mathlib.Core.List.{append_assoc, append-nil}
use agentic_engineering_url.Prelude.{
  String, ◌≡◌, refl, ◌∙◌, inl, inr, Bool, true, false, not, ◌&&◌, some, List, [], ◌∷◌, ◌++◌, map,
  arith, ◌==◌, eq_iff, eq_refl, eq→≡, Bool-cases, All, All-of, ok, is_some,
}
use agentic_engineering_url.Sql.{fetch, count}
use agentic_engineering_url.Sql.Laws.{count-append}
use agentic_engineering_url.Orchestration.Scheduler.{is_in}
use agentic_engineering_url.Orchestration.Scheduler.Ready.{AreDistinct}
use agentic_engineering_url.Api.Auth.{
  Provision, HashedEntry, SecretFiles, hash_token, hashed_entry, provision_all, bootstrap,
  verify_token, read_raw_token, resolve_identity,
}

abbrev raw_entry : Provision → String × String
raw_entry p = (p.identity, p.token)

module _ {ℓ κ} {A : Type ℓ} {B : Type κ} where
  fetch-map :
      (q : B → Bool) (f : A → B) (xs : List A)
      → fetch q (map f xs) ≡ Option.map f (fetch (λ x. q (f x)) xs)
  unfolding fetch
  fetch-map q f [] = refl
  fetch-map q f (x ∷ xs) = ground (arith, fetch-map q f xs)

module _ {ℓ} {A : Type ℓ} where
  fetch_middle :
      (r : A → Bool) (before after : List A) (a : A)
      → All (λ x. r x ≡ false) before
      → r a ≡ true
      → fetch r (before ++ a ∷ after) ≡ some a
  unfolding fetch
  fetch_middle r [] after a h k = rw k refl
  fetch_middle r (x ∷ xs) after a h k = rw h.0 (fetch_middle r xs after a h.1 k)

  apart_middle :
      (g : A → String) (b : A) (xs after : List A) (a : A)
      → is_in (map g (xs ++ a ∷ after)) (g b) ≡ false
      → (g b == g a) ≡ false
  apart_middle g b [] after a h = ground arith
  apart_middle g b (x ∷ xs) after a h = apart_middle g b xs after a (ground arith)

  -- In a list of distinct keys those that stand earlier are other keys.
  distinct_before :
      (g : A → String) (before after : List A) (a : A)
      → AreDistinct (map g (before ++ a ∷ after))
      → All (λ x. (g x == g a) ≡ false) before
  distinct_before g [] after a h = tt
  distinct_before g (x ∷ xs) after a h =
      (apart_middle g x xs after a h.0, distinct_before g xs after a h.1)

module _ (sha256 : String → String) where
  abbrev IsNewTo : List (String × String) → List HashedEntry → Provision → Type 0
  IsNewTo raw hashed q =
      (count (λ x. x.0 == q.identity) raw ≡ 0) × (count (λ x. x.identity == q.identity) hashed ≡ 0)

  still_new :
      (p : Provision) (rest : List Provision) (raw : List (String × String))
      (hashed : List HashedEntry)
      → is_in (map (λ q. q.identity) rest) p.identity ≡ false
      → All (IsNewTo raw hashed) rest
      → All (IsNewTo (raw ++ raw_entry p ∷ []) (hashed ++ hashed_entry sha256 p ∷ [])) rest
  unfolding count
  still_new p [] raw hashed a h = tt
  still_new p (q ∷ qs) raw hashed a h = (
    (
      ground (arith, count-append (λ x. x.0 == q.identity) raw (raw_entry p ∷ []), h.0.0, a),
      ground (
        arith,
        count-append (λ x. x.identity == q.identity) hashed (hashed_entry sha256 p ∷ []),
        h.0.1,
        a,
      ),
    ),
    still_new p qs raw hashed (ground (arith, a)) h.1,
  )

  provision_all-distinct :
      (ps : List Provision) (raw : List (String × String)) (hashed : List HashedEntry)
      → AreDistinct (map (λ q. q.identity) ps)
      → All (IsNewTo raw hashed) ps
      → provision_all sha256 ps raw hashed
        ≡ (raw ++ map raw_entry ps, hashed ++ map (hashed_entry sha256) ps)
  unfolding provision_all
  provision_all-distinct [] raw hashed a h = rw (append-nil raw, append-nil hashed) refl
  provision_all-distinct (p ∷ ps) raw hashed a h =
      rw (h.0.0, h.0.1)
        (provision_all-distinct ps (raw ++ raw_entry p ∷ []) (hashed ++ hashed_entry sha256 p ∷ [])
            a.1 (still_new p ps raw hashed a.0 h.1)
          ∙ rw
              (
                append_assoc raw (raw_entry p ∷ []) (map raw_entry ps),
                append_assoc hashed (hashed_entry sha256 p ∷ []) (map (hashed_entry sha256) ps),
              )
              refl)

  nothing_before : (ps : List Provision) → All (IsNewTo [] []) ps
  unfolding count
  nothing_before ps = All-of (IsNewTo [] []) (λ q. (refl, refl)) ps

  -- The files after a bootstrap that is not refused.
  pub bootstrapped :
      (ps : List Provision) (force : Bool) (files : SecretFiles)
      → (is_some files.hashed && not force) ≡ false
      → AreDistinct (map (λ q. q.identity) ps)
      → (bootstrap sha256 ps force files).0
        ≡ record { raw = some (map raw_entry ps); hashed = some (map (hashed_entry sha256) ps) }
  unfolding bootstrap
  bootstrapped ps force files g a =
      rw (g, provision_all-distinct ps [] [] a (nothing_before ps)) refl

  -- Two tokens that are salted alike and hashed to the same digest are the same.
  abbrev pub NoCollision : Provision → List Provision → Type 0
  NoCollision p =
      All (λ q.
        hash_token sha256 p.token q.salt ≡ hash_token sha256 q.token q.salt → p.token ≡ q.token)

  module _ (before : List Provision) (p : Provision) (after : List Provision) where
    abbrev pub provisioned : SecretFiles
    provisioned = record {
      raw = some (map raw_entry (before ++ p ∷ after));
      hashed = some (map (hashed_entry sha256) (before ++ p ∷ after));
    }

    pub read_provisioned :
        AreDistinct (map (λ q. q.identity) (before ++ p ∷ after))
        → read_raw_token provisioned p.identity ≡ ok p.token
    unfolding read_raw_token
    read_provisioned a =
        rw
          (
            fetch-map (λ x. x.0 == p.identity) raw_entry (before ++ p ∷ after),
            fetch_middle (λ q. q.identity == p.identity) before after p
                (distinct_before (λ q. q.identity) before after p a) (eq_refl p.identity),
            read_raw_token,
          )
          refl

    other_fails :
        (q : Provision)
        → (q.token == p.token) ≡ false
        → (hash_token sha256 p.token q.salt ≡ hash_token sha256 q.token q.salt → p.token ≡ q.token)
        → (hash_token sha256 p.token q.salt == hash_token sha256 q.token q.salt) ≡ false
    other_fails q t h =
        elim (Bool-cases (hash_token sha256 p.token q.salt == hash_token sha256 q.token q.salt)) [
          | inl y ↦
              let same =
                h (eq→≡ (hash_token sha256 p.token q.salt) (hash_token sha256 q.token q.salt) y) in
              absurd (ground (arith, eq_iff q.token p.token, t, same))
          | inr n ↦ n
        ]

    others_fail :
        (xs : List Provision)
        → All (λ q. (q.token == p.token) ≡ false) xs
        → NoCollision p xs
        → All
            (λ q. (hash_token sha256 p.token q.salt == hash_token sha256 q.token q.salt) ≡ false)
            xs
    others_fail [] t h = tt
    others_fail (q ∷ qs) t h = (other_fails q t.0 h.0, others_fail qs t.1 h.1)

    verify_provisioned :
        AreDistinct (map (λ q. q.token) (before ++ p ∷ after))
        → NoCollision p before
        → verify_token sha256 provisioned p.token ≡ some (p.identity, p.role)
    unfolding verify_token
    verify_provisioned t h =
        rw
          (
            fetch-map (λ e. hash_token sha256 p.token e.salt == e.token_hash) (hashed_entry sha256)
                (before ++ p ∷ after),
            fetch_middle (λ q. hash_token sha256 p.token q.salt == hash_token sha256 q.token q.salt)
                before after p
                (others_fail before (distinct_before (λ q. q.token) before after p t) h)
                (eq_refl (hash_token sha256 p.token p.salt)),
            verify_token,
          )
          refl

    -- The bearer of a provisioned token is the person that it was provisioned for.
    pub resolve_provisioned :
        AreDistinct (map (λ q. q.token) (before ++ p ∷ after))
        → NoCollision p before
        → (p.token == "") ≡ false
        → resolve_identity sha256 (record { test_store = []; files = provisioned }) (some p.token)
          ≡ some (record { identity = p.identity; role = p.role; is_agent = false })
    unfolding resolve_identity fetch
    resolve_provisioned t h e = rw (e, verify_provisioned t h) refl
