-- ===== src/Api/Auth.antt =====
-- src/api/credentials.py and src/api/auth.py: the provisioned tokens, and who presents one.
-- `sha256` is hashlib's digest of a text's UTF-8 bytes, in hexadecimal; the tokens and the salts of
-- a bootstrap are what `secrets` has drawn. A JSON file is the object that it holds.
pub mod Tokens
pub mod Provisioned
use agentic_engineering_url.Prelude.{
  ◌+◌, String, Bool, false, not, ◌&&◌, ◌||◌, Option, none, some, List, [], ◌∷◌, ◌++◌, ◌==◌, nat_eq,
  if◌then◌else◌, is_some, Result, ok, err, concat,
}
use agentic_engineering_url.Sql.{fetch, update, count}
use agentic_engineering_url.Schema.Status.{Role}

-- ProvisionedIdentity, with the token and the salt drawn for it
pub record Provision : Type 0 where
  pub identity : String
  pub role : Role
  pub token : String
  pub salt : String

-- A member of the hash-only configuration, with its key.
pub record HashedEntry : Type 0 where
  pub identity : String
  pub role : Role
  pub salt : String
  pub token_hash : String

-- The two files under local-secrets/.
pub record SecretFiles : Type 0 where
  pub raw : Option (List (String × String))
  pub hashed : Option (List HashedEntry)

pub data CredentialError : Type 0 where
  file_exists file_not_found key_error : CredentialError

abbrev pub hash_token : (sha256 : String → String) → (token salt : String) → String
hash_token sha256 token salt = sha256 (concat salt token)

abbrev hashed_entry : (sha256 : String → String) → Provision → HashedEntry
hashed_entry sha256 p = record {
  identity = p.identity;
  role = p.role;
  salt = p.salt;
  token_hash = hash_token sha256 p.token p.salt;
}

-- A dict's assignment: a key keeps its place.
abbrev assign_raw : String × String → List (String × String) → List (String × String)
assign_raw kv xs =
    if nat_eq (count (λ x. x.0 == kv.0) xs) 0
    then xs ++ kv ∷ []
    else update (λ x. x.0 == kv.0) (λ x. kv) xs

abbrev assign_hashed : HashedEntry → List HashedEntry → List HashedEntry
assign_hashed e xs =
    if nat_eq (count (λ x. x.identity == e.identity) xs) 0
    then xs ++ e ∷ []
    else update (λ x. x.identity == e.identity) (λ x. e) xs

unfoldable pub provision_all :
    (sha256 : String → String)
    → List Provision
    → List (String × String)
    → List HashedEntry
    → List (String × String) × List HashedEntry
provision_all sha256 [] raw hashed = (raw, hashed)
provision_all sha256 (p ∷ ps) raw hashed =
    provision_all sha256 ps (assign_raw (p.identity, p.token) raw)
      (assign_hashed (hashed_entry sha256 p) hashed)

unfoldable pub bootstrap :
    (sha256 : String → String)
    → List Provision
    → (force : Bool) → SecretFiles
    → SecretFiles × Result CredentialError (List (String × String))
bootstrap sha256 provisions force files =
    if is_some files.hashed && not force
    then (files, err CredentialError.file_exists)
    else let (raw, hashed) = provision_all sha256 provisions [] [] in
      (record { raw = some raw; hashed = some hashed }, ok raw)

abbrev pub load_hashed_config : SecretFiles → List HashedEntry
load_hashed_config files = elim files.hashed [ none ↦ [] | some entries ↦ entries ]

-- The loop over the configuration: the first entry whose hash the token gives.
unfoldable pub verify_token :
    (sha256 : String → String) → SecretFiles → String → Option (String × Role)
verify_token sha256 files token =
    elim (fetch (λ e. hash_token sha256 token e.salt == e.token_hash) (load_hashed_config files)) [
      | none ↦ none
      | some e ↦ some (e.identity, e.role)
    ]

unfoldable pub read_raw_token : SecretFiles → String → Result CredentialError String
read_raw_token files identity = elim files.raw [
  | none ↦ err CredentialError.file_not_found
  | some raw ↦ elim (fetch (λ x. x.0 == identity) raw) [
    | none ↦ err CredentialError.key_error
    | some x ↦ ok (x.1)
  ]
]

pub record Identity : Type 0 where
  pub identity : String
  pub role : Role
  pub is_agent : Bool

-- The in-memory store for tests, which the application leaves empty, and the files.
pub record Credentials : Type 0 where
  pub test_store : List (String × Identity)
  pub files : SecretFiles

abbrev human : Option (String × Role) → Option Identity
human none = none
human (some (identity, role)) = some (record { identity = identity; role = role; is_agent = false })

abbrev find_identity : (sha256 : String → String) → Credentials → String → Option Identity
find_identity sha256 store token = elim (fetch (λ x. x.0 == token) store.test_store) [
  | some x ↦ some (x.1)
  | none ↦ human (verify_token sha256 store.files token)
]

unfoldable pub resolve_identity :
    (sha256 : String → String) → Credentials → Option String → Option Identity
resolve_identity sha256 store none = none
resolve_identity sha256 store (some token) =
    if token == "" then none else find_identity sha256 store token

unfoldable pub required_role_for_gate : String → Role
required_role_for_gate gate =
    if (gate == "release_readiness") || (gate == "final_submission")
    then Role.release_owner
    else Role.reviewer_approver
