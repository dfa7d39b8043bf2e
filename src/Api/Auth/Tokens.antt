-- ===== src/Api/Auth/Tokens.antt =====
-- Which tokens a bootstrap makes valid, for src/api/credentials.py.
use agentic_engineering_url.Prelude.{
  ◌<◌, String, ◌≡◌, refl, sym, ap, ◌∙◌, subst, inl, inr, Bool, true, false, not, ◌&&◌, none, some,
  List, [], ◌∷◌, arith, ◌==◌, eq_refl, nat_eq, is_some, eq→≡, Bool-cases, Option-cases, All,
  All-append,
}
use agentic_engineering_url.Sql.{fetch, count}
use agentic_engineering_url.Sql.Laws.{All-fetch, All-update, count_mono, fetch-holds, All-counted}
use agentic_engineering_url.Schema.Status.{Role, same_role}
use agentic_engineering_url.Api.Auth.{
  Provision, HashedEntry, SecretFiles, hash_token, hashed_entry, assign_hashed, assign_raw,
  provision_all, bootstrap, verify_token,
}

same_role_refl : (r : Role) → same_role r r ≡ true
same_role_refl Role.reviewer_approver = refl
same_role_refl Role.release_owner = refl

module _ (sha256 : String → String) where
  -- The entry is the provision's.
  abbrev is_from : HashedEntry → Provision → Bool
  is_from e p =
      (p.identity == e.identity)
      && (same_role p.role e.role
          && ((p.salt == e.salt) && (hash_token sha256 p.token p.salt == e.token_hash)))

  -- The token gives the provision's hash, under the provision's identity and role.
  abbrev accepts : (token identity : String) → Role → Provision → Bool
  accepts token identity role p =
      (p.identity == identity)
      && (same_role p.role role
          && (hash_token sha256 token p.salt == hash_token sha256 p.token p.salt))

  abbrev IsIssued : List Provision → HashedEntry → Type 0
  IsIssued ps e = 0 < count (is_from e) ps

  own_entry : (p : Provision) → is_from (hashed_entry sha256 p) p ≡ true
  own_entry p = ground (
    arith,
    eq_refl p.identity,
    same_role_refl p.role,
    eq_refl p.salt,
    eq_refl (hash_token sha256 p.token p.salt),
  )

  own_entries : (ps : List Provision) → All (λ p. IsIssued ps (hashed_entry sha256 p)) ps
  own_entries ps = All-counted (λ p q. is_from (hashed_entry sha256 p) q) own_entry ps

  assign_hashed-IsIssued :
      (ps : List Provision) (e : HashedEntry) (xs : List HashedEntry)
      → IsIssued ps e
      → All (IsIssued ps) xs
      → All (IsIssued ps) (assign_hashed e xs)
  assign_hashed-IsIssued ps e xs h k =
      elim (Bool-cases (nat_eq (count (λ x. x.identity == e.identity) xs) 0)) [
        | inl y ↦ rw y (All-append (IsIssued ps) xs (e ∷ []) k (h, tt))
        | inr n ↦ rw n (
            All-update (IsIssued ps) (IsIssued ps) (λ x. x.identity == e.identity) (λ x. e)
              (λ x i t. h) (λ x i t. i) xs k)
      ]

  provision_all-IsIssued :
      (ps rest : List Provision) (raw : List (String × String)) (hashed : List HashedEntry)
      → All (λ p. IsIssued ps (hashed_entry sha256 p)) rest
      → All (IsIssued ps) hashed
      → All (IsIssued ps) ((provision_all sha256 rest raw hashed).1)
  unfolding provision_all
  provision_all-IsIssued ps [] raw hashed h k = k
  provision_all-IsIssued ps (p ∷ rest) raw hashed h k =
      provision_all-IsIssued ps rest (assign_raw (p.identity, p.token) raw)
        (assign_hashed (hashed_entry sha256 p) hashed) h.1
        (assign_hashed-IsIssued ps (hashed_entry sha256 p) hashed h.0 k)

  accepted :
      (token : String) (e : HashedEntry)
      → (hash_token sha256 token e.salt == e.token_hash) ≡ true
      → (p : Provision) → is_from e p ≡ true
      → accepts token e.identity e.role p ≡ true
  accepted token e t p h =
      let salt = eq→≡ p.salt e.salt (ground arith) in
      let hash = eq→≡ (hash_token sha256 p.token p.salt) e.token_hash (ground arith) in
      let own : (hash_token sha256 token p.salt == hash_token sha256 p.token p.salt) ≡ true =
        subst (λ z. (hash_token sha256 token p.salt == z) ≡ true) (sym hash)
          (subst (λ z. (hash_token sha256 token z == e.token_hash) ≡ true) (sym salt) t) in
      ground arith

  verified-issued :
      (ps : List Provision) (files : SecretFiles) (cfg : List HashedEntry) (token identity : String)
      (role : Role)
      → files.hashed ≡ some cfg
      → All (IsIssued ps) cfg
      → verify_token sha256 files token ≡ some (identity, role)
      → 0 < count (accepts token identity role) ps
  unfolding verify_token
  verified-issued ps files cfg token identity role h k v =
      elim (Option-cases (fetch (λ e. hash_token sha256 token e.salt == e.token_hash) cfg)) [
        | inl n ↦ absurd (ground (arith, h, n))
        | inr q ↦
            let issued =
              All-fetch (IsIssued ps) (λ e. hash_token sha256 token e.salt == e.token_hash) cfg q.0
                k q.1 in
            let hit =
              fetch-holds (λ e. hash_token sha256 token e.salt == e.token_hash) cfg q.0 q.1 in
            let found : verify_token sha256 files token ≡ some (q.0.identity, q.0.role) =
              ground (arith, h, q.1) in
            let both = sym found ∙ v in
            let same : (q.0.identity ≡ identity) × (q.0.role ≡ role) = (
              ap (λ o. elim o [ none ↦ identity | some x ↦ x.0 ]) both,
              ap (λ o. elim o [ none ↦ role | some x ↦ x.1 ]) both,
            ) in
            let more =
              count_mono (is_from q.0) (accepts token q.0.identity q.0.role)
                (accepted token q.0 hit) ps in
            subst (λ i. 0 < count (accepts token i role) ps) same.0
              (subst (λ r. 0 < count (accepts token q.0.identity r) ps) same.1
                (omega (arith, issued, more)))
      ]

  -- Verified tokens share the hash of a provision of the bootstrap.
  verifies_only_hashed :
      (ps : List Provision) (force : Bool) (files : SecretFiles) (token identity : String)
      (role : Role)
      → is_some files.hashed && not force ≡ false
      → verify_token sha256 ((bootstrap sha256 ps force files).0) token ≡ some (identity, role)
      → 0 < count (accepts token identity role) ps
  unfolding bootstrap verify_token
  verifies_only_hashed ps force files token identity role g v =
      verified-issued ps (bootstrap sha256 ps force files).0 ((provision_all sha256 ps [] []).1)
        token identity role (ground (arith, g))
        (provision_all-IsIssued ps ps [] [] (own_entries ps) tt) v

  -- The provision has drawn this token for the identity and the role.
  abbrev pub is_issued : (token identity : String) → Role → Provision → Bool
  is_issued token identity role p =
      (p.token == token) && ((p.identity == identity) && same_role p.role role)

  -- The provision's hash meets that of no other token.
  abbrev IsApart : String → Provision → Type 0
  IsApart token p =
      ((hash_token sha256 token p.salt == hash_token sha256 p.token p.salt)
        && not (p.token == token))
      ≡ false

  issued-accepted :
      (token identity : String) (role : Role) (ps : List Provision)
      → All (IsApart token) ps
      → 0 < count (accepts token identity role) ps
      → 0 < count (is_issued token identity role) ps
  unfolding count
  issued-accepted token identity role [] h n = n
  issued-accepted token identity role (p ∷ ps) h n =
      elim (Bool-cases (accepts token identity role p)) [
        | inl y ↦ ground (arith, y, h.0)
        | inr f ↦ ground (arith, issued-accepted token identity role ps h.1 (ground (arith, f)))
      ]

  -- After a bootstrap that was forced or met no configuration, a token whose hash, under the salts of
  -- the bootstrap, meets that of no other token that the bootstrap has drawn, is verified only as an
  -- identity and a role for which the bootstrap has drawn that same token. So a token of an earlier
  -- bootstrap that was not drawn again is void.
  pub verifies_only_issued :
      (ps : List Provision) (force : Bool) (files : SecretFiles) (token identity : String)
      (role : Role)
      → is_some files.hashed && not force ≡ false
      → All (IsApart token) ps
      → verify_token sha256 ((bootstrap sha256 ps force files).0) token ≡ some (identity, role)
      → 0 < count (is_issued token identity role) ps
  verifies_only_issued ps force files token identity role g h v =
      issued-accepted token identity role ps h
        (verifies_only_hashed ps force files token identity role g v)
