-- ===== src/Policy/Evaluator.antt =====
-- src/policy/evaluator.py: recording the outcome of a policy check, and the FAILs that stand.
pub mod Records
use agentic_engineering_url.Prelude.{
  ℕ, ◌+◌, max, String, Bool, true, false, ◌&&◌, Option, none, some, List, [], ◌∷◌, ◌==◌, ltb,
  nat_eq, if◌then◌else◌, is_some, same_text?, equals?,
}
use agentic_engineering_url.Sql.{select, fetch, insert}
use agentic_engineering_url.Schema.{PolicyDb, Evaluation}
use agentic_engineering_url.Schema.Status.{Outcome, is_fail}

-- The key (workflow_instance_id, policy_id, artifact_revision), in which a NULL differs from every
-- other.
abbrev pub same_key : Option String → String → Option String → Evaluation → Bool
same_key workflow policy revision e =
    equals? e.workflow_instance_id workflow
    && ((e.policy_id == policy) && equals? e.artifact_revision revision)

-- workflow_instance_id IS ? AND policy_id = ? AND artifact_revision IS ?
abbrev pub is_key : Option String → String → Option String → Evaluation → Bool
is_key workflow policy revision e =
    same_text? e.workflow_instance_id workflow
    && ((e.policy_id == policy) && same_text? e.artifact_revision revision)

-- AUTOINCREMENT: one more than the largest id so far
unfoldable pub next_id : List Evaluation → ℕ
next_id [] = 1
next_id (e ∷ es) = max (e.id + 1) (next_id es)

-- INSERT OR IGNORE, and the id of the row that holds the key. An id that is looked for in vain would
-- be a TypeError.
unfoldable pub evaluate_policy :
    (policy version : String)
    → Outcome
    → (workflow revision : Option String) → ℕ
    → PolicyDb
    → PolicyDb × Option ℕ
evaluate_policy policy version outcome workflow revision now db =
    if is_some (fetch (same_key workflow policy revision) db.evaluations)
    then (
      db,
      elim (fetch (is_key workflow policy revision) db.evaluations) [
        | none ↦ none
        | some e ↦ some e.id
      ],
    )
    else (
      record db {
        evaluations =
            insert
              (record {
                id = next_id db.evaluations;
                workflow_instance_id = workflow;
                policy_id = policy;
                policy_version = version;
                artifact_revision = revision;
                outcome = outcome;
                evaluated_at = now;
              })
              db.evaluations;
      },
      some (next_id db.evaluations),
    )

-- policy_evaluation_id = ? AND expires_at > ?
abbrev pub is_excused : ℕ → PolicyDb → Evaluation → Bool
is_excused now db e =
    is_some (fetch (λ x. nat_eq x.policy_evaluation_id e.id && ltb now x.expires_at) db.exceptions)

-- The loop over the FAIL rows.
unfoldable pub any_unexcused : ℕ → PolicyDb → List Evaluation → Bool
any_unexcused now db [] = false
any_unexcused now db (e ∷ es) =
    let later = any_unexcused now db es in if is_excused now db e then later else true

unfoldable pub has_unresolved_fail : ℕ → String → PolicyDb → Bool
unfolding any_unexcused
has_unresolved_fail now workflow db = any_unexcused now db (
    select (λ e. equals? e.workflow_instance_id (some workflow) && is_fail e.outcome)
      db.evaluations)
