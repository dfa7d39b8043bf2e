-- ===== src/Policy/Live.antt =====
-- src/policy/live.py: the policy checks of a workflow, and its release readiness.
pub mod Readiness
use agentic_engineering_url.Prelude.{
  ℕ, ◌+◌, ◌-◌, String, Bool, true, false, ◌&&◌, Option, none, some, List, [], ◌∷◌, ◌++◌, ◌==◌, leb,
  if◌then◌else◌, is_some, same_text?, equals?,
}
use agentic_engineering_url.Sql.{fetch, fetch_last}
use agentic_engineering_url.Schema.{FlowDb, PolicyDb, Evaluation}
use agentic_engineering_url.Schema.Status.{Outcome, is_succeeded}
use agentic_engineering_url.Policy.Manifest.{Manifest, policy_ids}
use agentic_engineering_url.Policy.Evaluator.{evaluate_policy, has_unresolved_fail}

-- The modification times of uv.lock and pyproject.toml, where they exist.
pub record Files : Type 0 where
  pub lockfile : Option ℕ
  pub pyproject : Option ℕ

unfoldable pub check_dependency_secret_scan : Files → Outcome
check_dependency_secret_scan files = elim files.lockfile [
  | none ↦ Outcome.fail
  | some locked ↦ elim files.pyproject [
    | none ↦ Outcome.not_applicable
    | some changed ↦ if leb changed locked then Outcome.pass else Outcome.fail
  ]
]

unfoldable pub check_change_control : FlowDb → String → Outcome
check_change_control db workflow =
    if is_some (
      fetch
        (λ d.
          (d.workflow_instance_id == workflow) && (d.decision_type == "material_change_detected"))
        db.lineage)
    then if is_some (
        fetch
          (λ s.
            (s.workflow_instance_id == workflow)
            && ((s.name == "impact_analysis") && is_succeeded s.status))
          db.stages)
      then Outcome.pass
      else Outcome.fail
    else Outcome.pass

-- _CHECK_FUNCTIONS.get(policy_id), and "NOT-APPLICABLE" for a policy that has none
unfoldable pub check_policy : Files → FlowDb → String → String → Outcome
unfolding check_dependency_secret_scan check_change_control
check_policy files db workflow policy =
    if policy == "dependency-secret-scan"
    then check_dependency_secret_scan files
    else if policy == "change-control"
    then check_change_control db workflow
    else Outcome.not_applicable

-- The loop over the manifest's policies: the new tables, and the outcome of each policy.
unfoldable pub run_checks :
    Files
    → FlowDb
    → (workflow revision version : String) → ℕ
    → List String
    → PolicyDb
    → PolicyDb × List (String × Outcome)
unfolding check_policy
run_checks files flow workflow revision version now [] db = (db, [])
run_checks files flow workflow revision version now (policy ∷ policies) db =
    let outcome = check_policy files flow workflow policy in
    let db' = (evaluate_policy policy version outcome (some workflow) (some revision) now db).0 in
    let (last, rest) = run_checks files flow workflow revision version now policies db' in
    (last, (policy, outcome) ∷ rest)

unfoldable pub run_mandatory_policy_checks :
    Files
    → Manifest
    → FlowDb
    → (workflow revision : String) → ℕ
    → PolicyDb
    → PolicyDb × List (String × Outcome)
unfolding run_checks
run_mandatory_policy_checks files manifest flow workflow revision now db =
    run_checks files flow workflow revision manifest.version now (policy_ids manifest) db

pub data Reason : Type 0 where
  unresolved_fail : Reason
  never_evaluated stale : (policy : String) → Reason

-- SELECT … ORDER BY id DESC LIMIT 1
abbrev pub latest : PolicyDb → (workflow policy : String) → Option Evaluation
latest db workflow policy =
    fetch_last (λ e. equals? e.workflow_instance_id (some workflow) && (e.policy_id == policy))
      db.evaluations

unfoldable pub policy_reasons : String → String → Option Evaluation → List Reason
policy_reasons current policy none = never_evaluated policy ∷ []
policy_reasons current policy (some e) =
    if same_text? e.artifact_revision (some current) then [] else stale policy ∷ []

unfoldable pub all_policy_reasons :
    PolicyDb → (workflow current : String) → List String → List Reason
unfolding policy_reasons
all_policy_reasons db workflow current [] = []
all_policy_reasons db workflow current (policy ∷ policies) =
    policy_reasons current policy (latest db workflow policy)
    ++ all_policy_reasons db workflow current policies

abbrev fail_reasons : Bool → List Reason
fail_reasons true = unresolved_fail ∷ []
fail_reasons false = []

abbrev is_empty : List Reason → Bool
is_empty [] = true
is_empty (r ∷ rs) = false

unfoldable pub is_release_ready :
    Manifest → ℕ → (workflow current : String) → PolicyDb → Bool × List Reason
unfolding all_policy_reasons
is_release_ready manifest now workflow current db =
    let reasons =
      fail_reasons (has_unresolved_fail now workflow db)
      ++ all_policy_reasons db workflow current (policy_ids manifest) in
    (is_empty reasons, reasons)
