-- ===== src/Observability/Metrics/Recording.antt =====
-- What recording an event does to the mean time to recovery: src/observability/audit.py with
-- src/observability/metrics.py.
use mathlib.Core.List.{append-nil}
use agentic_engineering_url.Prelude.{
  ℕ, ◌+◌, ◌≤◌, ◌<◌, String, ◌≡◌, refl, sym, ap, ◌∙◌, subst, inl, inr, false, Option, none, some,
  List, [], ◌∷◌, ◌++◌, arith, nat_eq, if◌then◌else◌, Bool-cases, Option-cases, is_some, length,
  length-append, All, All-append, All-map, ℤ,
}
use agentic_engineering_url.Sql.{select, count}
use agentic_engineering_url.Sql.Laws.{select-append, count_of_none}
use agentic_engineering_url.Schema.{Db, AuditEvent, Artifact}
use agentic_engineering_url.Schema.Status.{ActorType}
use agentic_engineering_url.Observability.Audit.{audit_row, record_event, record_recovery}
use agentic_engineering_url.Observability.Metrics.{
  is_failure_result, is_failure, recovers, recovery_by_failure, collect_one, collect, mean,
  compute_mttr_seconds,
}
use agentic_engineering_url.Observability.Metrics.Recovery.{found_last}

-- The ids of a trail are at most its length, and a recovery names an id that is not beyond it.
abbrev pub IsLinkedUpTo : ℕ → AuditEvent → Type 0
IsLinkedUpTo size e = (e.id ≤ size) × ((n : ℕ) → size < n → recovers n e ≡ false)

abbrev pub IsLinked : List AuditEvent → Type 0
IsLinked audit = All (IsLinkedUpTo (length audit)) audit

grown :
    (audit : List AuditEvent) (row : AuditEvent)
    → IsLinked audit
    → IsLinkedUpTo (length audit + 1) row
    → IsLinked (audit ++ row ∷ [])
grown audit row h k =
    subst (λ n. All (IsLinkedUpTo n) (audit ++ row ∷ [])) (sym (length-append audit (row ∷ [])))
      (All-append (IsLinkedUpTo (length audit + 1)) audit (row ∷ [])
        (All-map audit (λ e l. (omega (arith, l.0), λ n b. l.1 n (omega arith))) h) (k, tt))

failure_exists :
    (failure : ℕ) (size : ℕ) (xs : List AuditEvent)
    → All (IsLinkedUpTo size) xs
    → 0 < count (λ e. nat_eq e.id failure) xs
    → failure ≤ size
unfolding count
failure_exists failure size [] h c = absurd (omega arith)
failure_exists failure size (e ∷ es) h c = elim (Bool-cases (nat_eq e.id failure)) [
  | inl y ↦ ground (arith, y, h.0.0)
  | inr n ↦ failure_exists failure size es h.1 (ground (arith, n, c))
]

one_more :
    (o : Option AuditEvent) (f : AuditEvent) (x : List ℤ × ℕ)
    → collect_one o f (x.0, x.1 + 1) ≡ ((collect_one o f x).0, (collect_one o f x).1 + 1)
one_more none f (ds, u) = refl
one_more (some r) f (ds, u) = refl

collect-append_unrecovered :
    (recoveries fs : List AuditEvent) (row : AuditEvent)
    → recovery_by_failure recoveries row.id ≡ none
    → collect recoveries (fs ++ row ∷ [])
      ≡ ((collect recoveries fs).0, (collect recoveries fs).1 + 1)
unfolding collect
collect-append_unrecovered recoveries [] row h = rw h refl
collect-append_unrecovered recoveries (f ∷ fs) row h =
    rw (collect-append_unrecovered recoveries fs row h)
      (one_more (recovery_by_failure recoveries f.id) f (collect recoveries fs))

-- No recovery names an id beyond the trail.
not_recovered_yet :
    (audit : List AuditEvent)
    → IsLinked audit
    → recovery_by_failure (select (λ e. is_some e.recovery_of_event_id) audit) (length audit + 1)
      ≡ none
not_recovered_yet audit h =
    let found =
      recovery_by_failure (select (λ e. is_some e.recovery_of_event_id) audit) (length audit + 1) in
    let unnamed =
      count_of_none (recovers (length audit + 1)) audit
        (All-map audit (λ e l. l.1 (length audit + 1) (omega arith)) h) in
    elim (Option-cases found) [
      | inl n ↦ n
      | inr q ↦ absurd (ground (arith, q.1, unnamed, found_last (length audit + 1) audit))
    ]

module _ (actor : ActorType) (action : String) (affected : Artifact) (result : String)
    (workflow : Option String) (now : ℕ) (db : Db) where
  recovered :
      (failure : ℕ) (db' : Db)
      → IsLinked db.audit
      → record_recovery actor action affected result workflow failure now db ≡ some db'
      → IsLinked db'.audit
  unfolding record_recovery
  recovered failure db' h e =
      elim (Bool-cases (nat_eq (count (λ e. nat_eq e.id failure) db.audit) 0)) [
        | inl y ↦ absurd (ground (arith, y, e))
        | inr n ↦
            let row = audit_row actor action affected result workflow (some failure) now db in
            let known = failure_exists failure (length db.audit) db.audit h (ground (arith, n)) in
            let same : db.audit ++ row ∷ [] ≡ db'.audit = ground (arith, n, e) in
            subst IsLinked same (grown db.audit row h (omega arith, λ n b. ground arith))
      ]

  -- Recording an event keeps the trail linked, and so does recording a recovery.
  pub record-IsLinked :
      IsLinked db.audit
      → IsLinked (record_event actor action affected result workflow now db).audit
        × ((failure : ℕ) (db' : Db)
            → record_recovery actor action affected result workflow failure now db ≡ some db'
            → IsLinked db'.audit)
  unfolding record_event record_recovery
  record-IsLinked h = (
    grown db.audit (audit_row actor action affected result workflow none now db) h
        (omega arith, λ n b. refl),
    λ failure db' e. recovered failure db' h e,
  )

  abbrev row : AuditEvent
  row = audit_row actor action affected result workflow none now db

  abbrev recoveries_of : List AuditEvent → List AuditEvent
  recoveries_of audit = select (λ e. is_some e.recovery_of_event_id) audit

  same_recoveries : recoveries_of (db.audit ++ row ∷ []) ≡ recoveries_of db.audit
  unfolding select
  same_recoveries =
      select-append (λ e. is_some e.recovery_of_event_id) db.audit (row ∷ [])
      ∙ append-nil (recoveries_of db.audit)

  more_failures :
      select is_failure (db.audit ++ row ∷ [])
      ≡ select is_failure db.audit ++ (if is_failure_result result then row ∷ [] else [])
  unfolding select
  more_failures = select-append is_failure db.audit (row ∷ [])

  collect_recorded :
      IsLinked db.audit
      → let before = collect (recoveries_of db.audit) (select is_failure db.audit) in
        collect (recoveries_of (db.audit ++ row ∷ [])) (select is_failure (db.audit ++ row ∷ []))
        ≡ (before.0, if is_failure_result result then before.1 + 1 else before.1)
  collect_recorded h =
      rw (same_recoveries, more_failures)
        (elim (Bool-cases (is_failure_result result)) [
          | inl y ↦ rw y (
              collect-append_unrecovered (recoveries_of db.audit) (select is_failure db.audit) row
                (not_recovered_yet db.audit h))
          | inr n ↦ rw (n, append-nil (select is_failure db.audit)) refl
        ])

  -- Recording an event that recovers from nothing leaves the mean time to recovery as it was, in a
  -- linked trail; the failures that are not recovered are one more if the event is a failure.
  pub recording_keeps_mttr :
      IsLinked db.audit
      → let (mttr, unrecovered) = compute_mttr_seconds db.audit in
        compute_mttr_seconds (record_event actor action affected result workflow now db).audit
        ≡ (mttr, if is_failure_result result then unrecovered + 1 else unrecovered)
  unfolding record_event compute_mttr_seconds
  recording_keeps_mttr h = ap (λ x. (mean x.0, x.1)) (collect_recorded h)
