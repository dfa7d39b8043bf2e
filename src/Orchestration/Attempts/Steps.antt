-- ===== src/Orchestration/Attempts/Steps.antt =====
-- What each step on the stages keeps: src/orchestration/scheduler.py, reaper.py and replanning.py.
use agentic_engineering_url.Prelude.{
  ℕ, ◌≤◌, ◌<◌, String, ◌≡◌, refl, sym, ap, subst, inl, inr, Bool, true, false, ◌&&◌, ◌||◌, Option,
  some, List, [], ◌∷◌, arith, ◌==◌, leb, nat_eq, Bool-cases, Option-cases, All, Result, ok, err,
  All-map, All-both,
}
use agentic_engineering_url.Sql.{fetch, update, count}
use agentic_engineering_url.Sql.Laws.{All-update, count-update_same, count-zero}
use agentic_engineering_url.Schema.{FlowDb, Stage, Execution}
use agentic_engineering_url.Schema.Status.{
  StageStatus, is_pending, is_ready, is_running, is_failed_transient,
}
use agentic_engineering_url.Orchestration.Scheduler.{
  set_status, mark_ready, claimable, claimed_stage, claim_stage, claim_selected, fenced,
  complete_stage, retry_stage, issue_retry_or_exhaust,
}
use agentic_engineering_url.Orchestration.Reaper.{
  abandon, abandon_all, reconcile_stage, apply_result, decide_effect, ReconciliationResult,
  ReconcileError,
}
use agentic_engineering_url.Orchestration.Replanning.{reset_stage, invalidate_downstream}
use agentic_engineering_url.Orchestration.Attempts.{IsBounded, IsSound}

update-IsSound :
    (p : Stage → Bool) (f : Stage → Stage) (stages : List Stage)
    → ((s : Stage) → (f s).id ≡ s.id)
    → ((s : Stage) → IsBounded s → p s ≡ true → IsBounded (f s))
    → IsSound stages
    → IsSound (update p f stages)
update-IsSound p f stages same hit h = (
  λ id.
      subst (λ n. n ≤ 1)
        (sym (count-update_same p (λ s. s.id == id) f (λ s. ap (λ i. i == id) (same s)) stages))
        (h.0 id),
  All-update IsBounded IsBounded p f hit (λ s k t. k) stages h.1,
)

only_row :
    (id : String) (s : Stage) (stages : List Stage)
    → count (λ r. r.id == id) stages ≤ 1
    → fetch (λ r. r.id == id) stages ≡ some s
    → All (λ r. (r.id == id) ≡ true → r.attempt_count ≡ s.attempt_count) stages
unfolding count fetch
only_row id s [] u f = tt
only_row id s (r ∷ rs) u f = elim (Bool-cases (r.id == id)) [
  | inl y ↦ (
    λ t. ground (arith, f, y),
    All-map rs (λ x k t. absurd (ground (arith, k, t)))
        (count-zero (λ x. x.id == id) rs (ground (arith, u, y))),
  )
  | inr n ↦ (
    λ t. absurd (ground (arith, n, t)),
    only_row id s rs (ground (arith, u, n)) (ground (arith, f, n)),
  )
]

-- A status that cannot be claimed spends nothing more.
closed-IsBounded :
    (status : StageStatus) (now : ℕ) (s : Stage)
    → (is_pending status || is_ready status) ≡ false
    → IsBounded s
    → IsBounded (set_status status now s)
closed-IsBounded status now s c h = ground (arith, c, h)

pub mark_ready-IsSound :
    (now : ℕ) (ids : List String) (db : FlowDb)
    → IsSound db.stages
    → IsSound (mark_ready now ids db).stages
unfolding mark_ready
mark_ready-IsSound now [] db h = h
mark_ready-IsSound now (id ∷ ids) db h = mark_ready-IsSound now ids _ (
    update-IsSound (λ s. (s.id == id) && is_pending s.status) (set_status StageStatus.ready now)
      db.stages (λ s. refl) (λ s k t. ground (arith, k, t)) h)

claim_selected-IsSound :
    (execution worker id : String) (now : ℕ) (stage : Stage) (db : FlowDb)
    → IsSound db.stages
    → IsSound (claim_selected execution worker now stage id db).0.stages
unfolding claim_selected
claim_selected-IsSound execution worker id now stage db h =
    elim (Bool-cases (nat_eq (count (claimable id) db.stages) 0)) [
      | inl lost ↦ rw lost h
      | inr won ↦ rw won (
          update-IsSound (claimable id) (claimed_stage now) db.stages (λ s. refl)
            (λ s k t. ground (arith, k, t)) h)
    ]

pub claim_stage-IsSound :
    (execution worker id : String) (now : ℕ) (db : FlowDb)
    → IsSound db.stages
    → IsSound (claim_stage execution worker now id db).0.stages
unfolding claim_stage
claim_stage-IsSound execution worker id now db h =
    elim (Option-cases (fetch (λ s. s.id == id) db.stages)) [
      | inl n ↦ rw (n, claim_stage) h
      | inr q ↦ rw (q.1, claim_stage) (claim_selected-IsSound execution worker id now q.0 db h)
    ]

pub set_closed-IsSound :
    (p : Stage → Bool) (status : StageStatus) (now : ℕ) (stages : List Stage)
    → (is_pending status || is_ready status) ≡ false
    → IsSound stages
    → IsSound (update p (set_status status now) stages)
set_closed-IsSound p status now stages c h =
    update-IsSound p (set_status status now) stages (λ s. refl)
      (λ s k t. closed-IsBounded status now s c k) h

pub complete_stage-IsSound :
    (execution stage : String) (now : ℕ) (db : FlowDb)
    → IsSound db.stages
    → IsSound (complete_stage execution stage now db).0.stages
unfolding complete_stage
complete_stage-IsSound execution stage now db h =
    elim (Bool-cases (nat_eq (count (fenced execution) db.executions) 0)) [
      | inl y ↦ rw y h
      | inr n ↦
          rw n (set_closed-IsSound (λ s. s.id == stage) StageStatus.succeeded now db.stages refl h)
    ]

-- Setting a stage with attempts left ready again, when its id is unique.
reopen-IsSound :
    (now : ℕ) (id : String) (stage : Stage) (stages : List Stage)
    → fetch (λ s. s.id == id) stages ≡ some stage
    → stage.attempt_count < 3
    → IsSound stages
    → IsSound (update (λ s. s.id == id) (set_status StageStatus.ready now) stages)
reopen-IsSound now id stage stages f left h = (
  λ i.
      subst (λ n. n ≤ 1)
        (sym (
          count-update_same (λ s. s.id == id) (λ s. s.id == i) (set_status StageStatus.ready now)
            (λ s. refl) stages))
        (h.0 i),
  All-update (λ r. IsBounded r × ((r.id == id) ≡ true → r.attempt_count ≡ stage.attempt_count))
      IsBounded (λ s. s.id == id) (set_status StageStatus.ready now)
      (λ s k t. omega (arith, k.1 t, left)) (λ s k t. k.0) stages
      (All-both IsBounded (λ r. (r.id == id) ≡ true → r.attempt_count ≡ stage.attempt_count) stages
        h.1 (only_row id stage stages (h.0 id) f)),
)

retry_stage-IsSound :
    (now : ℕ) (id : String) (stage : Stage) (db : FlowDb)
    → fetch (λ s. s.id == id) db.stages ≡ some stage
    → IsSound db.stages
    → IsSound (retry_stage now stage id db).0.stages
retry_stage-IsSound now id stage db f h = elim (Bool-cases (is_failed_transient stage.status)) [
  | inr n ↦ rw n h
  | inl y ↦ elim (Bool-cases (leb 3 stage.attempt_count)) [
    | inl full ↦
        rw (y, full)
          (set_closed-IsSound (λ s. s.id == id) StageStatus.failed_permanent now db.stages refl h)
    | inr room ↦ rw (y, room) (reopen-IsSound now id stage db.stages f (ground (arith, room)) h)
  ]
]

pub issue_retry-IsSound :
    (now : ℕ) (id : String) (db : FlowDb)
    → IsSound db.stages
    → IsSound (issue_retry_or_exhaust now id db).0.stages
unfolding issue_retry_or_exhaust
issue_retry-IsSound now id db h = elim (Option-cases (fetch (λ s. s.id == id) db.stages)) [
  | inl n ↦ rw (n, issue_retry_or_exhaust) h
  | inr q ↦ rw (q.1, issue_retry_or_exhaust) (retry_stage-IsSound now id q.0 db q.1 h)
]

pub abandon_all-IsSound :
    (now : ℕ) (rows : List Execution) (db : FlowDb)
    → IsSound db.stages
    → IsSound (abandon_all now rows db).stages
unfolding abandon_all abandon
abandon_all-IsSound now [] db h = h
abandon_all-IsSound now (row ∷ rows) db h = abandon_all-IsSound now rows (abandon now row db) (
    set_closed-IsSound (λ s. (s.id == row.stage_id) && is_running s.status)
      StageStatus.awaiting_reconciliation now db.stages refl h)

apply_result-IsSound :
    (now : ℕ) (id : String) (r : Result ReconcileError ReconciliationResult) (db : FlowDb)
    → IsSound db.stages
    → IsSound (apply_result now id r db).0.stages
unfolding apply_result
apply_result-IsSound now id (err e) db h = h
apply_result-IsSound now id (ok ReconciliationResult.already_completed) db h =
    set_closed-IsSound (λ s. s.id == id) StageStatus.succeeded now db.stages refl h
apply_result-IsSound now id (ok ReconciliationResult.not_completed) db h =
    set_closed-IsSound (λ s. s.id == id) StageStatus.failed_transient now db.stages refl h

pub reconcile_stage-IsSound :
    (now : ℕ) (id : String) (probe : Option Bool) (db : FlowDb)
    → IsSound db.stages
    → IsSound (reconcile_stage now id probe db).0.stages
unfolding reconcile_stage
reconcile_stage-IsSound now id probe db h =
    elim (Option-cases (fetch (λ s. s.id == id) db.stages)) [
      | inl n ↦ rw (n, reconcile_stage) h
      | inr q ↦
          rw (q.1, reconcile_stage) (apply_result-IsSound now id (decide_effect probe q.0) db h)
    ]

pub invalidate-IsSound :
    (now : ℕ) (workflow revision : String) (ids : List String) (db : FlowDb)
    → IsSound db.stages
    → IsSound (invalidate_downstream now workflow revision ids db).0.stages
unfolding invalidate_downstream
invalidate-IsSound now workflow revision [] db h = h
invalidate-IsSound now workflow revision (id ∷ ids) db h =
    invalidate-IsSound now workflow revision ids _ (
      update-IsSound (λ s. s.id == id) (reset_stage revision now) db.stages (λ s. refl)
        (λ s k t. omega arith) h)
