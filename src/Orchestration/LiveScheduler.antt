-- ===== src/Orchestration/LiveScheduler.antt =====
-- src/orchestration/live_scheduler.py: one pass of the background scheduler. The clock is read once
-- for a pass, and the ids of the executions are drawn beforehand, one for each stage.
pub mod Found
pub mod Passes
pub mod Untouched
pub mod Stopped
pub mod Loops
pub mod Links
use agentic_engineering_url.Prelude.{
  ℕ, String, Bool, false, ◌&&◌, ◌||◌, none, some, List, [], ◌∷◌, map, ◌==◌, nat_eq, if◌then◌else◌,
  is_some, equals?,
}
use agentic_engineering_url.Sql.{select, fetch, update, count}
use agentic_engineering_url.Schema.{Db, FlowDb, PolicyDb, Json, Artifact}
use agentic_engineering_url.Schema.Status.{
  WorkflowStatus, Outcome, ActorType, is_ready, is_workflow_running, is_unfinished, is_fail,
}
use agentic_engineering_url.Observability.Audit.{record_event}
use agentic_engineering_url.Policy.Manifest.{Manifest}
use agentic_engineering_url.Policy.Live.{Files, run_mandatory_policy_checks}
use agentic_engineering_url.Orchestration.Reaper.{sweep_stale_leases}
use agentic_engineering_url.Orchestration.Branching.{
  with_flow, set_stage_outcome, evaluate_branch_conditions,
}
use agentic_engineering_url.Orchestration.Scheduler.{
  compute_ready_stages, mark_ready, claim_stage, complete_stage, set_workflow,
}

-- What a pass meets: the clock, the worker, the files and the manifest of the policy checks, the id
-- drawn for a stage's execution, and the order in which a set of stage ids is gone through.
pub record Pass : Type 0 where
  pub now : ℕ
  pub worker : String
  pub files : Files
  pub manifest : Manifest
  pub execution_id : String → String
  pub order : List String → List String

unfoldable pub execute_stage_safely : (id name : String) → FlowDb → FlowDb
execute_stage_safely id name db =
    if name == "classify"
    then set_stage_outcome id (("decision", Json.text "proceed") ∷ []) db
    else db

abbrev name_of : String → FlowDb → String
name_of id db = elim (fetch (λ s. s.id == id) db.stages) [ none ↦ "" | some s ↦ s.name ]

abbrev pub has_fail : List (String × Outcome) → Bool
has_fail [] = false
has_fail (x ∷ xs) = is_fail (x.1) || has_fail xs

abbrev pub was_checked : (workflow : String) → PolicyDb → Bool
was_checked workflow db = is_some (
    fetch
      (λ e.
        equals? e.workflow_instance_id (some workflow) && equals? e.artifact_revision (some "v1"))
      db.evaluations)

module _ (pass : Pass) (workflow : String) where
  -- What is done with a stage once its claim has won.
  abbrev run_claimed : (id execution : String) → FlowDb → Db → Db
  run_claimed id execution flow db =
      let flow' = execute_stage_safely id (name_of id flow) flow in
      let flow'' = (complete_stage execution id pass.now flow').0 in
      (evaluate_branch_conditions pass.now workflow id (with_flow db flow'')).0

  unfoldable pub claim_and_run : String → Db → Db
  claim_and_run id db =
      let (flow, won) = claim_stage (pass.execution_id id) pass.worker pass.now id db.flow in
      elim won [ none ↦ db | some execution ↦ run_claimed id execution flow db ]

  unfoldable pub run_all : List String → Db → Db
  run_all [] db = db
  run_all (id ∷ ids) db = run_all ids (claim_and_run id db)

  abbrev pub ready_ids : FlowDb → List String
  ready_ids db =
      map (λ s. s.id)
        (select (λ s. (s.workflow_instance_id == workflow) && is_ready s.status) db.stages)

  abbrev pub unfinished : FlowDb → ℕ
  unfinished db =
      count (λ s. (s.workflow_instance_id == workflow) && is_unfinished s.status) db.stages

  -- The last statement: a running workflow without unfinished stages is completed.
  unfoldable pub finish : Db → Db
  finish db =
      if nat_eq (unfinished db.flow) 0
      then with_flow db (record db.flow {
        workflows =
            update (λ w. (w.id == workflow) && is_workflow_running w.status)
              (set_workflow WorkflowStatus.completed pass.now) db.flow.workflows;
      })
      else db

  -- What follows the policy checks.
  unfoldable pub advance : Db → Db
  advance db =
      let flow = mark_ready pass.now (compute_ready_stages db.flow workflow) db.flow in
      finish (run_all (pass.order (ready_ids flow)) (with_flow db flow))

  -- A FAIL stops the workflow.
  unfoldable pub stop_on_fail : Db → Db
  stop_on_fail db =
      record_event ActorType.system "policy_check_blocked_workflow" (Artifact.workflow workflow)
        "safe_stopped" (some workflow) pass.now
        (with_flow db (record db.flow {
          workflows =
              update (λ w. w.id == workflow) (set_workflow WorkflowStatus.safe_stopped pass.now)
                db.flow.workflows;
        }))

  unfoldable pub check_and_advance : Db → Db
  unfolding advance stop_on_fail
  check_and_advance db =
      let (policy, outcomes) =
        run_mandatory_policy_checks pass.files pass.manifest db.flow workflow "v1" pass.now
          db.policy in
      let checked = record db { policy = policy } in
      if has_fail outcomes then stop_on_fail checked else advance checked

  unfoldable pub drive_workflow : Db → Db
  unfolding check_and_advance
  drive_workflow db = if was_checked workflow db.policy then advance db else check_and_advance db

unfoldable pub drive_all : Pass → List String → Db → Db
drive_all pass [] db = db
drive_all pass (id ∷ ids) db = drive_all pass ids (drive_workflow pass id db)

unfoldable pub tick : Pass → Db → Db
tick pass db =
    let swept = with_flow db (sweep_stale_leases pass.now db.flow).0 in
    drive_all pass
      (map (λ w. w.id) (select (λ w. is_workflow_running w.status) swept.flow.workflows)) swept

-- The loop up to its cancellation: a pass for each sleep, all under the id drawn at its start.
unfoldable pub scheduler_loop : (worker : String) → List Pass → Db → Db
scheduler_loop worker [] db = db
scheduler_loop worker (pass ∷ passes) db =
    scheduler_loop worker passes (tick (record pass { worker = worker }) db)
