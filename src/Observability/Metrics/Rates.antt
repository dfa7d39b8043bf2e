-- ===== src/Observability/Metrics/Rates.antt =====
-- The rates of src/observability/metrics.py lie between 0 and 1.
use agentic_engineering_url.Prelude.{
  ◌+◌, ◌≤◌, ◌≡◌, refl, inl, inr, Bool, true, false, List, [], ◌∷◌, arith, nat_eq, Bool-cases,
  length, pos_part, neg_part,
}
use agentic_engineering_url.Sql.{count}
use agentic_engineering_url.Sql.Laws.{add-le-count}
use agentic_engineering_url.Schema.{Db, Workflow}
use agentic_engineering_url.Observability.Metrics.{
  is_completed, is_failed, compute_reliability_metrics,
}

count-le-length {ℓ} : {A : Type ℓ} (p : A → Bool) (xs : List A) → count p xs ≤ length xs
unfolding count
count-le-length p [] = omega arith
count-le-length p (x ∷ xs) = ground (arith, count-le-length p xs)

completed_apart : (w : Workflow) → is_completed w ≡ true → is_failed w ≡ false
completed_apart w c = ground arith

-- The success rate and the failure rate have the same divisor, and together are at most 1.
pub rates_within_one :
    (db : Db)
    → let metrics = compute_reliability_metrics db in
      (metrics.success_rate.divisor ≡ metrics.failure_rate.divisor)
      × (pos_part metrics.success_rate.dividend + pos_part metrics.failure_rate.dividend
          ≤ metrics.success_rate.divisor)
      × (neg_part metrics.success_rate.dividend + neg_part metrics.failure_rate.dividend ≡ 0)
unfolding compute_reliability_metrics
rates_within_one db = elim (Bool-cases (nat_eq (length db.flow.workflows) 0)) [
  | inl y ↦ rw y (refl, omega arith, refl)
  | inr n ↦ rw n (
    refl,
    omega (
      arith,
      add-le-count (λ (w : Workflow). true) is_completed is_failed
          (λ w c. (completed_apart w c, refl)) (λ w c. refl) db.flow.workflows,
      count-le-length (λ (w : Workflow). true) db.flow.workflows,
    ),
    refl,
  )
]
