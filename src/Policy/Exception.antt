-- ===== src/Policy/Exception.antt =====
-- src/policy/exception.py: exceptions to a policy evaluation. `expires_at`, a text that the caller
-- gives, is taken to be in the format that the code itself writes.
use agentic_engineering_url.Prelude.{ℕ, String, Bool, Option, none, some, ◌==◌, leb}
use agentic_engineering_url.Sql.{fetch, insert}
use agentic_engineering_url.Schema.{PolicyDb, PolicyException}

-- INSERT INTO policy_exception, with the fresh id and `approved_at` in the row
unfoldable pub create_exception : PolicyException → PolicyDb → PolicyDb
create_exception row db = record db { exceptions = insert row db.exceptions }

-- `none` is the ValueError of an unknown id.
unfoldable pub is_expired : ℕ → String → PolicyDb → Option Bool
is_expired now id db = elim (fetch (λ x. x.id == id) db.exceptions) [
  | none ↦ none
  | some x ↦ some (leb x.expires_at now)
]
