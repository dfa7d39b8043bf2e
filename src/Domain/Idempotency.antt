-- ===== src/Domain/Idempotency.antt =====
-- src/domain/idempotency.py: the records of the Idempotency-Keys.
-- `hashlib.sha256(…).hexdigest()` is the parameter `sha256`.
use agentic_engineering_url.Prelude.{
  ℕ, String, Option, none, some, ◌==◌, ltb, if◌then◌else◌, is_some, Result, ok, err, concat,
  text_length,
}
use agentic_engineering_url.Sql.{fetch, insert}
use agentic_engineering_url.Schema.{LinkDb, IdempotencyRecord}

abbrev pub min_key_length : ℕ
min_key_length = 16

pub data IdempotencyError : Type 0 where
  key_too_short conflict duplicate_key missing_reference : IdempotencyError

-- f"{destination_url}|{expires_at or ''}"
abbrev pub raw_payload : String → Option String → String
raw_payload url none = concat url (concat "|" "")
raw_payload url (some expires) = concat url (concat "|" expires)

unfoldable pub hash_payload : (sha256 : String → String) → String → Option String → String
hash_payload sha256 url expires = sha256 (raw_payload url expires)

unfoldable pub validate_key_length : String → Result IdempotencyError (Unit {0})
validate_key_length key =
    if ltb (text_length key) min_key_length then err IdempotencyError.key_too_short else ok tt

unfoldable pub find_existing : LinkDb → String → Option IdempotencyRecord
find_existing db key = fetch (λ r. r.idempotency_key == key) db.idempotency

-- The short code of the first request with the key, if this is a replay of it.
unfoldable pub check_replay :
    (sha256 : String → String)
    → LinkDb
    → (key url : String) → Option String
    → Result IdempotencyError (Option String)
unfolding find_existing hash_payload
check_replay sha256 db key url expires = elim (find_existing db key) [
  | none ↦ ok none
  | some existing ↦
      if existing.validated_payload_hash == hash_payload sha256 url expires
      then ok (some existing.short_code)
      else err IdempotencyError.conflict
]

-- INSERT INTO domain_idempotency_record
unfoldable pub insert_record : IdempotencyRecord → LinkDb → LinkDb
insert_record r db = record db { idempotency = insert r db.idempotency }

-- `idempotency_key` is the primary key, and `short_code` refers to domain_short_link.
unfoldable pub record_key :
    (sha256 : String → String)
    → (now : ℕ) → (key url : String) → Option String
    → (code : String) → LinkDb
    → Result IdempotencyError LinkDb
unfolding hash_payload find_existing
record_key sha256 now key url expires code db =
    if is_some (find_existing db key)
    then err IdempotencyError.duplicate_key
    else if is_some (fetch (λ l. l.short_code == code) db.links)
    then ok (
        insert_record
          (record {
            idempotency_key = key;
            validated_payload_hash = hash_payload sha256 url expires;
            short_code = code;
            created_at = now;
          })
          db)
    else err IdempotencyError.missing_reference
