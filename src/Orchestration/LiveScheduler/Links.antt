-- ===== src/Orchestration/LiveScheduler/Links.antt =====
-- A pass of src/orchestration/live_scheduler.py leaves the tables of the short links, and the system
-- status, alone.
use agentic_engineering_url.Prelude.{
  ◌==◌, ℕ, String, ◌≡◌, refl, ◌∙◌, inl, inr, Bool, true, false, Option, none, some, List, [], ◌∷◌,
  nat_eq, Bool-cases, Option-cases,
}
use agentic_engineering_url.Sql.{fetch}
use agentic_engineering_url.Schema.{Db, Payload}
use agentic_engineering_url.Observability.Audit.{record_event}
use agentic_engineering_url.Policy.Live.{run_mandatory_policy_checks}
use agentic_engineering_url.Orchestration.Scheduler.{
  claim_stage, complete_stage, compute_ready_stages, mark_ready,
}
use agentic_engineering_url.Orchestration.Reaper.{sweep_stale_leases}
use agentic_engineering_url.Orchestration.Branching.{
  with_flow, decide_id, apply_decision, decide_all, evaluate_branch_conditions, outcome_of,
  dependents,
}
use agentic_engineering_url.Orchestration.LiveScheduler.{
  Pass, execute_stage_safely, name_of, claim_and_run, run_all, ready_ids, unfinished, finish,
  advance, has_fail, was_checked, stop_on_fail, check_and_advance, drive_workflow, drive_all, tick,
}

apply_decision-link :
    (now : ℕ) (workflow id : String) (d : Option Bool) (db : Db)
    → (apply_decision now workflow id d db).link ≡ db.link
unfolding apply_decision record_event
apply_decision-link now workflow id none db = refl
apply_decision-link now workflow id (some true) db = refl
apply_decision-link now workflow id (some false) db = refl

decide_all-link :
    (now : ℕ) (workflow : String) (outcome : Payload) (ids : List String) (db : Db)
    → (decide_all now workflow outcome ids db).0.link ≡ db.link
unfolding decide_all
decide_all-link now workflow outcome [] db = refl
decide_all-link now workflow outcome (id ∷ ids) db =
    let d = decide_id outcome id db.flow.stages in
    decide_all-link now workflow outcome ids (apply_decision now workflow id d db)
    ∙ apply_decision-link now workflow id d db

evaluate-link :
    (now : ℕ) (workflow parent : String) (db : Db)
    → (evaluate_branch_conditions now workflow parent db).0.link ≡ db.link
unfolding evaluate_branch_conditions
evaluate-link now workflow parent db =
    elim (Option-cases (fetch (λ s. s.id == parent) db.flow.stages)) [
      | inl n ↦ rw (n, evaluate_branch_conditions) refl
      | inr q ↦
          rw (q.1, evaluate_branch_conditions)
            (decide_all-link now workflow (outcome_of q.0.postconditions)
              (dependents db.flow parent) db)
    ]

module _ (pass : Pass) where
  claim_and_run-link :
      (workflow id : String) (db : Db) → (claim_and_run pass workflow id db).link ≡ db.link
  unfolding claim_and_run
  claim_and_run-link workflow id db =
      let claim = claim_stage (pass.execution_id id) pass.worker pass.now id db.flow in
      elim (Option-cases claim.1) [
        | inl n ↦ rw (n, claim_and_run) refl
        | inr q ↦
            rw (q.1, claim_and_run)
              (evaluate-link pass.now workflow id (
                with_flow db
                  (complete_stage q.0 id pass.now
                    (execute_stage_safely id (name_of id claim.0) claim.0)).0))
      ]

  run_all-link :
      (workflow : String) (ids : List String) (db : Db)
      → (run_all pass workflow ids db).link ≡ db.link
  unfolding run_all
  run_all-link workflow [] db = refl
  run_all-link workflow (id ∷ ids) db =
      run_all-link workflow ids (claim_and_run pass workflow id db)
      ∙ claim_and_run-link workflow id db

  advance-link : (workflow : String) (db : Db) → (advance pass workflow db).link ≡ db.link
  unfolding advance finish
  advance-link workflow db =
      let flow = mark_ready pass.now (compute_ready_stages db.flow workflow) db.flow in
      let ids = pass.order (ready_ids pass workflow flow) in
      let ran = run_all pass workflow ids (with_flow db flow) in
      elim (Bool-cases (nat_eq (unfinished pass workflow ran.flow) 0)) [
        | inl y ↦ rw y (run_all-link workflow ids (with_flow db flow))
        | inr n ↦ rw n (run_all-link workflow ids (with_flow db flow))
      ]

  drive-link : (workflow : String) (db : Db) → (drive_workflow pass workflow db).link ≡ db.link
  unfolding drive_workflow check_and_advance stop_on_fail record_event
  drive-link workflow db = elim (Bool-cases (was_checked workflow db.policy)) [
    | inl y ↦ rw (y, drive_workflow) (advance-link workflow db)
    | inr n ↦
        let checks =
          run_mandatory_policy_checks pass.files pass.manifest db.flow workflow "v1" pass.now
            db.policy in
        elim (Bool-cases (has_fail checks.1)) [
          | inl f ↦ rw (n, f, drive_workflow) refl
          | inr g ↦
              rw (n, g, drive_workflow) (advance-link workflow (record db { policy = checks.0 }))
        ]
  ]

  drive_all-link : (ids : List String) (db : Db) → (drive_all pass ids db).link ≡ db.link
  unfolding drive_all
  drive_all-link [] db = refl
  drive_all-link (id ∷ ids) db = drive_all-link ids (drive_workflow pass id db) ∙ drive-link id db

  pub tick-link : (db : Db) → (tick pass db).link ≡ db.link
  unfolding tick
  tick-link db = drive_all-link _ (with_flow db (sweep_stale_leases pass.now db.flow).0)
