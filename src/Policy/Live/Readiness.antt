-- ===== src/Policy/Live/Readiness.antt =====
-- When a workflow is ready for release, for src/policy/live.py.
use agentic_engineering_url.Prelude.{
  ℕ, suc, String, ◌≡◌, refl, sym, ap, ◌∙◌, ◌↔◌, inl, inr, Bool, true, false, not, ◌&&◌, Option,
  none, some, List, [], ◌∷◌, ◌++◌, arith, ◌==◌, eq_refl, eq→≡, ltb, nat_eq, is_some, same_text?,
  equals?, Bool-cases, All,
}
use agentic_engineering_url.Sql.{fetch, count}
use agentic_engineering_url.Sql.Last.{IsLast, fetch_last-IsLast, IsLast-fetch_last}
use agentic_engineering_url.Schema.Status.{is_fail}
use agentic_engineering_url.Policy.Evaluator.Records.{stands, unresolved_iff}
use agentic_engineering_url.Schema.{PolicyDb, Evaluation, PolicyException}
use agentic_engineering_url.Policy.Manifest.{Manifest, policy_ids}
use agentic_engineering_url.Policy.Evaluator.{has_unresolved_fail}
use agentic_engineering_url.Policy.Live.{
  Reason, latest, policy_reasons, all_policy_reasons, is_release_ready,
}

abbrev pub is_about : (workflow policy : String) → Evaluation → Bool
is_about workflow policy e =
    equals? e.workflow_instance_id (some workflow) && (e.policy_id == policy)

-- An evaluation of the policy for the workflow is for the current revision, and none was recorded
-- after it.
abbrev pub IsCurrent : PolicyDb → (workflow current policy : String) → Type 0
IsCurrent db workflow current policy =
    (e : Evaluation) × (e.artifact_revision ≡ some current)
    × IsLast (is_about workflow policy) db.evaluations e

-- A FAIL of the workflow, to which no exception expires later than now.
abbrev pub is_open_fail : ℕ → String → PolicyDb → Evaluation → Bool
is_open_fail now workflow db e =
    (equals? e.workflow_instance_id (some workflow) && is_fail e.outcome)
    && nat_eq
        (count (λ x. nat_eq x.policy_evaluation_id e.id && ltb now x.expires_at) db.exceptions) 0

not_fetched-count :
    (p : PolicyException → Bool) (xs : List PolicyException)
    → not (is_some (fetch p xs)) ≡ nat_eq (count p xs) 0
unfolding fetch count
not_fetched-count p [] = refl
not_fetched-count p (x ∷ xs) = ground (arith, not_fetched-count p xs)

open_fails-stand :
    (now : ℕ) (workflow : String) (db : PolicyDb) (es : List Evaluation)
    → count (stands now workflow db) es ≡ count (is_open_fail now workflow db) es
unfolding count
open_fails-stand now workflow db [] = refl
open_fails-stand now workflow db (e ∷ es) =
    let same =
      ap (λ b. (equals? e.workflow_instance_id (some workflow) && is_fail e.outcome) && b)
        (not_fetched-count (λ x. nat_eq x.policy_evaluation_id e.id && ltb now x.expires_at)
          db.exceptions) in
    let rest = open_fails-stand now workflow db es in
    elim (Bool-cases (is_open_fail now workflow db e)) [
      | inl y ↦ rw (same ∙ y, y) (ap suc rest)
      | inr n ↦ rw (same ∙ n, n) rest
    ]

no_open_fail-of :
    (now : ℕ) (workflow : String) (db : PolicyDb)
    → has_unresolved_fail now workflow db ≡ false
    → count (is_open_fail now workflow db) db.evaluations ≡ 0
no_open_fail-of now workflow db h =
    let none_stands : count (stands now workflow db) db.evaluations ≡ 0 =
      ground (arith, sym (unresolved_iff now workflow db) ∙ h) in
    sym (open_fails-stand now workflow db db.evaluations) ∙ none_stands

no_open_fail_if :
    (now : ℕ) (workflow : String) (db : PolicyDb)
    → count (is_open_fail now workflow db) db.evaluations ≡ 0
    → has_unresolved_fail now workflow db ≡ false
no_open_fail_if now workflow db h =
    unresolved_iff now workflow db
    ∙ ap (ltb 0) (open_fails-stand now workflow db db.evaluations ∙ h)

no_reason-of :
    (current policy : String) (o : Option Evaluation)
    → policy_reasons current policy o ≡ []
    → (e : Evaluation) × (o ≡ some e) × (same_text? e.artifact_revision (some current) ≡ true)
unfolding policy_reasons
no_reason-of current policy none h = absurd (ground arith)
no_reason-of current policy (some e) h = (e, refl, ground arith)

revision-of :
    (revision : Option String) (current : String)
    → same_text? revision (some current) ≡ true
    → revision ≡ some current
revision-of none current h = absurd (ground arith)
revision-of (some r) current h = ap some (eq→≡ r current h)

IsCurrent-of :
    (db : PolicyDb) (workflow current policy : String)
    → policy_reasons current policy (latest db workflow policy) ≡ []
    → IsCurrent db workflow current policy
IsCurrent-of db workflow current policy h =
    let (e, found, same) = no_reason-of current policy (latest db workflow policy) h in
    (
      e,
      revision-of e.artifact_revision current same,
      fetch_last-IsLast (is_about workflow policy) db.evaluations e found,
    )

no_reason_if :
    (db : PolicyDb) (workflow current policy : String)
    → IsCurrent db workflow current policy
    → policy_reasons current policy (latest db workflow policy) ≡ []
unfolding policy_reasons
no_reason_if db workflow current policy (e, r, last) =
    ground (
      arith,
      IsLast-fetch_last (is_about workflow policy) db.evaluations e last,
      r,
      eq_refl current,
    )

append-nil-parts : (xs ys : List Reason) → xs ++ ys ≡ [] → (xs ≡ []) × (ys ≡ [])
append-nil-parts [] ys h = (refl, h)
append-nil-parts (x ∷ xs) ys h = absurd (cc h)

All-IsCurrent-of :
    (db : PolicyDb) (workflow current : String) (ps : List String)
    → all_policy_reasons db workflow current ps ≡ []
    → All (IsCurrent db workflow current) ps
unfolding all_policy_reasons
All-IsCurrent-of db workflow current [] h = tt
All-IsCurrent-of db workflow current (p ∷ ps) h =
    let (here, rest) = append-nil-parts (policy_reasons current p (latest db workflow p)) _ h in
    (IsCurrent-of db workflow current p here, All-IsCurrent-of db workflow current ps rest)

All-current_if :
    (db : PolicyDb) (workflow current : String) (ps : List String)
    → All (IsCurrent db workflow current) ps
    → all_policy_reasons db workflow current ps ≡ []
unfolding all_policy_reasons
All-current_if db workflow current [] h = refl
All-current_if db workflow current (p ∷ ps) h =
    ground
      (arith, no_reason_if db workflow current p h.0, All-current_if db workflow current ps h.1)

-- A workflow is ready for release exactly when each of its FAILs has an exception that expires later
-- than now, and every policy of the manifest has an evaluation for the workflow, of which the last
-- recorded is for the current revision. An outcome EXCEPTION-REQUESTED does not count against it.
pub ready_iff_IsCurrent :
    (manifest : Manifest) (now : ℕ) (workflow current : String) (db : PolicyDb)
    → ((is_release_ready manifest now workflow current db).0 ≡ true) ↔ (
        (count (is_open_fail now workflow db) db.evaluations ≡ 0)
        × All (IsCurrent db workflow current) (policy_ids manifest))
unfolding is_release_ready
ready_iff_IsCurrent manifest now workflow current db = (
  λ h. (
    no_open_fail-of now workflow db (ground arith),
    All-IsCurrent-of db workflow current manifest.policies (ground arith),
  ),
  λ h. ground (
    arith,
    no_open_fail_if now workflow db h.0,
    All-current_if db workflow current manifest.policies h.1,
  ),
)
