-- ===== src/Policy/Evaluator/Records.antt =====
-- The records of the checks, and which FAILs stand, for src/policy/evaluator.py.
use agentic_engineering_url.Prelude.{
  ℕ, String, ◌≡◌, refl, inl, inr, Bool, not, ◌&&◌, some, List, [], ◌∷◌, arith, eq_refl, ltb,
  equals?, Option-cases,
}
use agentic_engineering_url.Sql.{select, fetch, count}
use agentic_engineering_url.Sql.Laws.{fetch-append}
use agentic_engineering_url.Schema.{PolicyDb, Evaluation}
use agentic_engineering_url.Schema.Status.{Outcome, is_fail}
use agentic_engineering_url.Policy.Evaluator.{
  same_key, is_key, next_id, evaluate_policy, is_excused, any_unexcused, has_unresolved_fail,
}

module _ (policy version : String) (outcome : Outcome) (workflow revision : String) (now : ℕ)
    (db : PolicyDb) where
  new_row : Evaluation
  new_row = record {
    id = next_id db.evaluations;
    workflow_instance_id = some workflow;
    policy_id = policy;
    policy_version = version;
    artifact_revision = some revision;
    outcome = outcome;
    evaluated_at = now;
  }

  -- A check that is run again for a workflow, a policy and a revision, with whatever version and
  -- outcome and at whatever time, changes nothing and returns the id of the first record.
  pub evaluated_once :
      (version' : String) (outcome' : Outcome) (now' : ℕ)
      → let (db', id) =
          evaluate_policy policy version outcome (some workflow) (some revision) now db in
        evaluate_policy policy version' outcome' (some workflow) (some revision) now' db'
        ≡ (db', id)
  unfolding evaluate_policy fetch new_row
  evaluated_once version' outcome' now' =
      elim (Option-cases (fetch (same_key (some workflow) policy (some revision)) db.evaluations)) [
        | inr q ↦ ground arith
        | inl n ↦ ground (
          arith,
          n,
          fetch-append (same_key (some workflow) policy (some revision)) db.evaluations
              (new_row ∷ []),
          fetch-append (is_key (some workflow) policy (some revision)) db.evaluations
              (new_row ∷ []),
          eq_refl workflow,
          eq_refl policy,
          eq_refl revision,
        )
      ]

-- A FAIL of the workflow that no exception excuses at `now`.
abbrev pub stands : ℕ → String → PolicyDb → Evaluation → Bool
stands now workflow db e =
    (equals? e.workflow_instance_id (some workflow) && is_fail e.outcome)
    && not (is_excused now db e)

any_unexcused-eq :
    (now : ℕ) (workflow : String) (db : PolicyDb) (es : List Evaluation)
    → any_unexcused now db
        (select (λ e. equals? e.workflow_instance_id (some workflow) && is_fail e.outcome) es)
      ≡ ltb 0 (count (stands now workflow db) es)
unfolding any_unexcused select count
any_unexcused-eq now workflow db [] = refl
any_unexcused-eq now workflow db (e ∷ es) = ground (arith, any_unexcused-eq now workflow db es)

-- A workflow has an unresolved FAIL exactly when one of its evaluations is a FAIL and no exception
-- to it expires later than now.
pub unresolved_iff :
    (now : ℕ) (workflow : String) (db : PolicyDb)
    → has_unresolved_fail now workflow db ≡ ltb 0 (count (stands now workflow db) db.evaluations)
unfolding has_unresolved_fail
unresolved_iff now workflow db = any_unexcused-eq now workflow db db.evaluations
