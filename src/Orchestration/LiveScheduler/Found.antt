-- ===== src/Orchestration/LiveScheduler/Found.antt =====
-- A FAIL is found among the policy checks, for src/orchestration/live_scheduler.py.
use agentic_engineering_url.Prelude.{
  String, ◌≡◌, refl, ap, inl, inr, Bool, true, false, ◌&&◌, some, List, [], ◌∷◌, arith, ◌==◌, subst,
  eq→≡, equals?, is_some, Bool-cases, Option-cases,
}
use mathlib.Core.Option
use agentic_engineering_url.Sql.{fetch, count}
use agentic_engineering_url.Sql.Laws.{fetch-update, fetch-holds, fetch_of_none, count-zero}
use agentic_engineering_url.Schema.{Db, FlowDb, PolicyDb, Evaluation}
use agentic_engineering_url.Schema.Status.{WorkflowStatus, Outcome}
use agentic_engineering_url.Observability.Audit.{record_event}
use agentic_engineering_url.Policy.Evaluator.{evaluate_policy}
use agentic_engineering_url.Policy.Live.{check_policy, run_checks, run_mandatory_policy_checks}
use agentic_engineering_url.Orchestration.Scheduler.{set_workflow, is_in}
use agentic_engineering_url.Orchestration.LiveScheduler.{
  Pass, has_fail, was_checked, stop_on_fail, check_and_advance, drive_workflow,
}

module _ (pass : Pass) (workflow : String) where
  pub found_fail_stops :
      (db : Db)
      → was_checked workflow db.policy ≡ false
      → has_fail
          (run_mandatory_policy_checks pass.files pass.manifest db.flow workflow "v1" pass.now
            db.policy).1
        ≡ true
      → let db' = drive_workflow pass workflow db in
        ((db'.flow.stages ≡ db.flow.stages) × (db'.flow.executions ≡ db.flow.executions))
        × (Option.map (λ w. w.status) (fetch (λ w. w.id == workflow) db'.flow.workflows)
            ≡ Option.map
                (λ w. WorkflowStatus.safe_stopped)
                (fetch (λ w. w.id == workflow) db.flow.workflows))
  unfolding drive_workflow check_and_advance stop_on_fail record_event
  found_fail_stops db c f =
      let e =
        fetch-update (λ w. w.id == workflow) (λ w. w.id == workflow)
          (set_workflow WorkflowStatus.safe_stopped pass.now) (λ w t. refl) db.flow.workflows in
      elim (Option-cases (fetch (λ w. w.id == workflow) db.flow.workflows)) [
        | inl n ↦ ground (arith, c, f, e, n)
        | inr q ↦
            ground (arith, c, f, e, q.1, fetch-holds (λ w. w.id == workflow) db.flow.workflows q.0)
      ]

  pub unchecked :
      (db : PolicyDb)
      → count
          (λ e.
            equals? e.workflow_instance_id (some workflow)
            && equals? e.artifact_revision (some "v1"))
          db.evaluations
        ≡ 0
      → was_checked workflow db ≡ false
  unchecked db h =
      let p : Evaluation → Bool = λ e.
        equals? e.workflow_instance_id (some workflow) && equals? e.artifact_revision (some "v1") in
      ap is_some (fetch_of_none p db.evaluations (count-zero p db.evaluations h))

  pub fail_is_found :
      (flow : FlowDb) (policy version : String)
      → check_policy pass.files flow workflow policy ≡ Outcome.fail
      → (policies : List String) (db : PolicyDb) → is_in policies policy ≡ true
      → has_fail (run_checks pass.files flow workflow "v1" version pass.now policies db).1 ≡ true
  unfolding run_checks
  fail_is_found flow policy version f [] db m = absurd (ground arith)
  fail_is_found flow policy version f (p ∷ policies) db m =
      let outcome = check_policy pass.files flow workflow p in
      let db' = (evaluate_policy p version outcome (some workflow) (some "v1") pass.now db).0 in
      elim (Bool-cases (policy == p)) [
        | inl y ↦
            let fails =
              subst (λ z. check_policy pass.files flow workflow z ≡ Outcome.fail) (eq→≡ policy p y)
                f in
            ground (arith, fails)
        | inr n ↦ ground (arith, fail_is_found flow policy version f policies db' (ground arith))
      ]
