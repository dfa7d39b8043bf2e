-- ===== src/Orchestration/LiveScheduler/Untouched.antt =====
-- The operations of a pass that leave the workflows' own rows alone: src/orchestration/.
use agentic_engineering_url.Prelude.{
  ℕ, String, ◌≡◌, refl, ◌∙◌, inl, inr, Bool, true, false, Option, none, some, List, [], ◌∷◌, ◌==◌,
  nat_eq, Bool-cases, Option-cases,
}
use agentic_engineering_url.Sql.{fetch, count, select}
use agentic_engineering_url.Schema.{Db, FlowDb, Stage, Execution, Payload}
use agentic_engineering_url.Observability.Audit.{record_event}
use agentic_engineering_url.Orchestration.Scheduler.{
  mark_ready, claimable, claim_stage, claim_selected, fenced, complete_stage,
}
use agentic_engineering_url.Orchestration.Reaper.{
  abandon, abandon_all, sweep_stale_leases, is_stale,
}
use agentic_engineering_url.Orchestration.Branching.{
  with_flow, set_stage_outcome, decide_id, apply_decision, decide_all, evaluate_branch_conditions,
  outcome_of, dependents,
}
use agentic_engineering_url.Orchestration.LiveScheduler.{
  Pass, execute_stage_safely, name_of, run_claimed, claim_and_run, run_all,
}

pub mark_ready-workflows :
    (now : ℕ) (ids : List String) (db : FlowDb) → (mark_ready now ids db).workflows ≡ db.workflows
unfolding mark_ready
mark_ready-workflows now [] db = refl
mark_ready-workflows now (id ∷ ids) db = mark_ready-workflows now ids _

selected-workflows :
    (execution worker : String) (now : ℕ) (s : Stage) (id : String) (db : FlowDb)
    → (claim_selected execution worker now s id db).0.workflows ≡ db.workflows
unfolding claim_selected
selected-workflows execution worker now s id db =
    elim (Bool-cases (nat_eq (count (claimable id) db.stages) 0)) [
      | inl y ↦ rw y refl
      | inr n ↦ rw n refl
    ]

claim_stage-workflows :
    (execution worker : String) (now : ℕ) (id : String) (db : FlowDb)
    → (claim_stage execution worker now id db).0.workflows ≡ db.workflows
unfolding claim_stage
claim_stage-workflows execution worker now id db =
    elim (Option-cases (fetch (λ s. s.id == id) db.stages)) [
      | inl n ↦ rw (n, claim_stage) refl
      | inr q ↦ rw (q.1, claim_stage) (selected-workflows execution worker now q.0 id db)
    ]

complete_stage-workflows :
    (execution id : String) (now : ℕ) (db : FlowDb)
    → (complete_stage execution id now db).0.workflows ≡ db.workflows
unfolding complete_stage
complete_stage-workflows execution id now db =
    elim (Bool-cases (nat_eq (count (fenced execution) db.executions) 0)) [
      | inl y ↦ rw y refl
      | inr n ↦ rw n refl
    ]

execute-workflows :
    (id name : String) (db : FlowDb) → (execute_stage_safely id name db).workflows ≡ db.workflows
unfolding execute_stage_safely set_stage_outcome
execute-workflows id name db = elim (Bool-cases (name == "classify")) [
  | inl y ↦ rw y refl
  | inr n ↦ rw n refl
]

apply_decision-workflows :
    (now : ℕ) (workflow id : String) (d : Option Bool) (db : Db)
    → (apply_decision now workflow id d db).flow.workflows ≡ db.flow.workflows
unfolding apply_decision record_event
apply_decision-workflows now workflow id none db = refl
apply_decision-workflows now workflow id (some true) db = refl
apply_decision-workflows now workflow id (some false) db = refl

decide_all-workflows :
    (now : ℕ) (workflow : String) (outcome : Payload) (ids : List String) (db : Db)
    → (decide_all now workflow outcome ids db).0.flow.workflows ≡ db.flow.workflows
unfolding decide_all
decide_all-workflows now workflow outcome [] db = refl
decide_all-workflows now workflow outcome (id ∷ ids) db =
    let d = decide_id outcome id db.flow.stages in
    decide_all-workflows now workflow outcome ids (apply_decision now workflow id d db)
    ∙ apply_decision-workflows now workflow id d db

evaluate-workflows :
    (now : ℕ) (workflow parent : String) (db : Db)
    → (evaluate_branch_conditions now workflow parent db).0.flow.workflows ≡ db.flow.workflows
unfolding evaluate_branch_conditions
evaluate-workflows now workflow parent db =
    elim (Option-cases (fetch (λ s. s.id == parent) db.flow.stages)) [
      | inl n ↦ rw (n, evaluate_branch_conditions) refl
      | inr q ↦
          rw (q.1, evaluate_branch_conditions)
            (decide_all-workflows now workflow (outcome_of q.0.postconditions)
              (dependents db.flow parent) db)
    ]

module _ (pass : Pass) (workflow : String) where
  run_claimed-workflows :
      (id execution : String) (flow : FlowDb) (db : Db)
      → (run_claimed pass workflow id execution flow db).flow.workflows ≡ flow.workflows
  run_claimed-workflows id execution flow db =
      let flow' = execute_stage_safely id (name_of id flow) flow in
      evaluate-workflows pass.now workflow id
        (with_flow db (complete_stage execution id pass.now flow').0)
      ∙ complete_stage-workflows execution id pass.now flow'
      ∙ execute-workflows id (name_of id flow) flow

  claim_and_run-workflows :
      (id : String) (db : Db)
      → (claim_and_run pass workflow id db).flow.workflows ≡ db.flow.workflows
  unfolding claim_and_run
  claim_and_run-workflows id db =
      let claim = claim_stage (pass.execution_id id) pass.worker pass.now id db.flow in
      elim (Option-cases claim.1) [
        | inl n ↦ rw (n, claim_and_run) refl
        | inr q ↦
            rw (q.1, claim_and_run)
              (run_claimed-workflows id q.0 claim.0 db
                ∙ claim_stage-workflows (pass.execution_id id) pass.worker pass.now id db.flow)
      ]

  pub run_all-workflows :
      (ids : List String) (db : Db)
      → (run_all pass workflow ids db).flow.workflows ≡ db.flow.workflows
  unfolding run_all
  run_all-workflows [] db = refl
  run_all-workflows (id ∷ ids) db =
      run_all-workflows ids (claim_and_run pass workflow id db) ∙ claim_and_run-workflows id db

abandon_all-workflows :
    (now : ℕ) (rows : List Execution) (db : FlowDb)
    → (abandon_all now rows db).workflows ≡ db.workflows
unfolding abandon_all abandon
abandon_all-workflows now [] db = refl
abandon_all-workflows now (row ∷ rows) db = abandon_all-workflows now rows (abandon now row db)

pub sweep-workflows :
    (now : ℕ) (db : FlowDb) → (sweep_stale_leases now db).0.workflows ≡ db.workflows
unfolding sweep_stale_leases
sweep-workflows now db = abandon_all-workflows now (select (is_stale now) db.executions) db
