-- ===== src/Observability/Metrics/Recovery.antt =====
-- Which failures the mean time to recovery is about: src/observability/metrics.py.
use agentic_engineering_url.Prelude.{
  ℕ, ◌≡◌, refl, ◌∙◌, inl, inr, Bool, not, ◌&&◌, Option, none, some, List, [], ◌∷◌, arith, ltb,
  Bool-cases, Option-cases, is_some, length, ap, nat_eq, if◌then◌else◌, ℤ, pos, sub_ℕ, ◌+ℤ◌,
}
use agentic_engineering_url.Sql.{select, fetch_last, count}
use agentic_engineering_url.Schema.{AuditEvent}
use agentic_engineering_url.Observability.Metrics.{
  Ratio, is_failure, recovers, recovery_by_failure, collect, sum, mean, compute_mttr_seconds,
}

-- Some event of the trail recovers from this one.
abbrev pub is_recovered : List AuditEvent → AuditEvent → Bool
is_recovered audit e = ltb 0 (count (recovers e.id) audit)

-- From a failure to the last event that recovers from it, in microseconds, and 0 without one.
abbrev pub span : List AuditEvent → AuditEvent → ℤ
span audit failure = elim (fetch_last (recovers failure.id) audit) [
  | none ↦ pos 0
  | some recovery ↦ sub_ℕ recovery.timestamp failure.timestamp
]

-- The spans of the failures among `events` that are recovered, added up.
unfoldable pub total_span : (audit events : List AuditEvent) → ℤ
total_span audit [] = pos 0
total_span audit (e ∷ es) =
    let rest = total_span audit es in
    if is_failure e && is_recovered audit e then span audit e +ℤ rest else rest

-- `total` over `n`, if there is anything to divide by.
abbrev pub quotient : (total : ℤ) → ℕ → Option Ratio
quotient total n = if nat_eq n 0 then none else some (record { dividend = total; divisor = n })

mean-quotient : (ds : List ℤ) → mean ds ≡ quotient (sum ds) (length ds)
mean-quotient [] = refl
mean-quotient (d ∷ ds) = ground arith

-- The rows that the dictionary leaves out recover from nothing.
same_recovery :
    (id : ℕ) (audit : List AuditEvent)
    → recovery_by_failure (select (λ e. is_some e.recovery_of_event_id) audit) id
      ≡ fetch_last (recovers id) audit
unfolding fetch_last select
same_recovery id [] = refl
same_recovery id (e ∷ es) = elim (Option-cases e.recovery_of_event_id) [
  | inl n ↦ elim (Option-cases (fetch_last (recovers id) es)) [
    | inl m ↦ ground (arith, n, m, same_recovery id es)
    | inr q ↦ ground (arith, n, q.1, same_recovery id es)
  ]
  | inr q ↦ ground (arith, q.1, same_recovery id es)
]

-- What the dictionary of recoveries is asked is whether there is a recovery.
pub found_last :
    (id : ℕ) (audit : List AuditEvent)
    → is_some (recovery_by_failure (select (λ e. is_some e.recovery_of_event_id) audit) id)
      ≡ ltb 0 (count (recovers id) audit)
unfolding fetch_last count select
found_last id [] = refl
found_last id (e ∷ es) = elim (Option-cases e.recovery_of_event_id) [
  | inl n ↦ ground (arith, n, found_last id es)
  | inr q ↦
      let earlier = recovery_by_failure (select (λ e. is_some e.recovery_of_event_id) es) id in
      elim (Option-cases earlier) [
        | inl n ↦ ground (arith, q.1, n, found_last id es)
        | inr y ↦ ground (arith, q.1, y.1, found_last id es)
      ]
]

collected :
    (audit fs : List AuditEvent)
    → let (ds, u) =
        collect (select (λ e. is_some e.recovery_of_event_id) audit) (select is_failure fs) in
      (length ds ≡ count (λ e. is_failure e && is_recovered audit e) fs)
      × (sum ds ≡ total_span audit fs)
      × (u ≡ count (λ e. is_failure e && not (is_recovered audit e)) fs)
unfolding collect count select sum total_span
collected audit [] = (refl, refl, refl)
collected audit (f ∷ fs) = elim (Bool-cases (is_failure f)) [
  | inr n ↦ rw n (collected audit fs)
  | inl y ↦
      let recoveries = select (λ e. is_some e.recovery_of_event_id) audit in
      elim (Option-cases (recovery_by_failure recoveries f.id)) [
        | inl n ↦
            ground
              (arith, y, n, found_last f.id audit, same_recovery f.id audit, collected audit fs)
        | inr q ↦
            ground
              (arith, y, q.1, found_last f.id audit, same_recovery f.id audit, collected audit fs)
      ]
]

-- The mean is the sum, over the failures that some event recovers from, of the time from the failure
-- to the last event that recovers from it, divided by the number of those failures, and is absent if
-- there are none. The other failures are counted apart.
pub failures_partitioned :
    (audit : List AuditEvent)
    → let (mttr, unrecovered) = compute_mttr_seconds audit in
      (mttr
        ≡ quotient
            (total_span audit audit)
            (count (λ e. is_failure e && is_recovered audit e) audit))
      × (unrecovered ≡ count (λ e. is_failure e && not (is_recovered audit e)) audit)
unfolding compute_mttr_seconds
failures_partitioned audit =
    let recoveries = select (λ e. is_some e.recovery_of_event_id) audit in
    let durations = (collect recoveries (select is_failure audit)).0 in
    let parts = collected audit audit in
    (
      mean-quotient durations
          ∙ ap (quotient (sum durations)) parts.0
          ∙ ap (λ total. quotient total (count (λ e. is_failure e && is_recovered audit e) audit))
              parts.1,
      parts.2,
    )
