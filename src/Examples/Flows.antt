-- ===== src/Examples/Flows.antt =====
-- Stages that are claimed, swept, branched, promoted and driven to their end.
use agentic_engineering_url.Prelude.{
  ℕ, String, ◌≡◌, ◌≢◌, ◌⊎◌, refl, true, false, none, some, [], ◌∷◌, ◌==◌, ltb, if◌then◌else◌, All,
  ok,
}
use mathlib.Core.Option
use agentic_engineering_url.Sql.{count, fetch, select, update}
use agentic_engineering_url.Schema.{
  FlowDb, Db, PolicyDb, Stage, Approval, Json, Preconditions, Postconditions, empty_db, empty_flow,
}
use agentic_engineering_url.Schema.Status.{
  StageStatus, ExecutionStatus, WorkflowStatus, Outcome, Role, Verdict,
}
use agentic_engineering_url.Orchestration.Scheduler.{claimable, complete_stage, recover_on_startup}
use agentic_engineering_url.Orchestration.Scheduler.Claims.{Contender, race, one_winner}
use agentic_engineering_url.Orchestration.Reaper.{is_stale, sweep_stale_leases}
use agentic_engineering_url.Orchestration.Reaper.Fencing.{IsHalted, sweep_fences_workers}
use agentic_engineering_url.Orchestration.Branching.{
  with_flow, set_stage_outcome, evaluate_branch_conditions, outcome_of,
}
use agentic_engineering_url.Orchestration.Branching.Meaning.{Holds}
use agentic_engineering_url.Orchestration.Branching.Decided.{decided_once, condition_decides}
use agentic_engineering_url.Orchestration.Validators.{
  Tree, ValidatorArgs, ValidatorResult, run_builtin_validator, file_exists, read_file,
}
use agentic_engineering_url.Orchestration.Workspace.{World, promote_or_reject, pass_gates}
use agentic_engineering_url.Orchestration.Workspace.Promotion.{
  Call, run_call, run_calls, promotes_once,
}
use agentic_engineering_url.Policy.Live.{check_policy, check_dependency_secret_scan}
use agentic_engineering_url.Orchestration.LiveScheduler.{Pass, drive_workflow}
use agentic_engineering_url.Orchestration.LiveScheduler.Passes.{
  failed_check_stops, restart_completes_failed,
}
use agentic_engineering_url.Examples.Data.{
  stage_of, workflow_a, execution_of, flow_branch, flow_running, evaluation_of, proceeds,
  branch_row,
}

abbrev flow_ready : FlowDb
flow_ready = record empty_flow {
  stages = stage_of "s1" "build" StageStatus.ready Preconditions.null ∷ [];
}

abbrev contender : (execution worker : String) → Contender
contender execution worker = record {
  execution_id = execution;
  worker = worker;
  now = 3;
  selected = stage_of "s1" "build" StageStatus.ready Preconditions.null;
}

one_winner_example :
    (race "s1" (contender "x1" "a" ∷ contender "x2" "b" ∷ []) flow_ready).1
    ≡ (if ltb 0 (count (claimable "s1") flow_ready.stages) then 1 else 0)
one_winner_example = one_winner "s1" (contender "x1" "a") (contender "x2" "b" ∷ []) flow_ready

sweep_fences_workers_example :
    let db' = (sweep_stale_leases 9 flow_running).0 in
    All
      (λ row.
        ((stage : String) (later : ℕ) → complete_stage row.id stage later db' ≡ (db', false))
        × IsHalted row.stage_id db'.stages)
      (select (is_stale 9) flow_running.executions)
sweep_fences_workers_example = sweep_fences_workers 9 flow_running

abbrev approval_v1 : Approval
approval_v1 = record {
  id = "p1";
  workflow_instance_id = "w1";
  gate_id = "architecture_approval";
  identity = "alice";
  role = Role.reviewer_approver;
  decision = Verdict.approved;
  rationale = none;
  artifact_revision = "v1";
  created_at = 3;
  invalidated_at = none;
}

abbrev db_branch : Db
db_branch = record empty_db { flow = flow_branch }

abbrev parent_row : Stage
parent_row = record (stage_of "s1" "classify" StageStatus.succeeded Preconditions.null) {
  postconditions = Postconditions.outcome (("decision", Json.text "proceed") ∷ []);
}

decided_once_example :
    let db' = (evaluate_branch_conditions 5 "w1" "s1" db_branch).0 in
    let db'' =
      with_flow db' (set_stage_outcome "s1" (("decision", Json.text "hold") ∷ []) db'.flow) in
    (evaluate_branch_conditions 9 "w1" "s1" db'').0 ≡ db''
unfolding fetch
decided_once_example =
    decided_once 5 "w1" "s1" db_branch parent_row refl 9 (("decision", Json.text "hold") ∷ [])

condition_decides_example :
    let db' = (evaluate_branch_conditions 5 "w1" "s1" db_branch).0 in
    let status = Option.map (λ r. r.status) (fetch (λ r. r.id == "s2") db'.flow.stages) in
    (Holds (outcome_of parent_row.postconditions) proceeds × (status ≡ some StageStatus.ready))
    ⊎ (¬ (Holds (outcome_of parent_row.postconditions) proceeds)
        × (status ≡ some StageStatus.skipped))
unfolding fetch select
condition_decides_example =
    condition_decides 5 "w1" "s1" db_branch parent_row "s2" branch_row proceeds refl refl refl refl
      refl

abbrev digest : String → String
digest text = text

abbrev built : Tree
built = record { item = "output.txt"; path = "output.txt"; content = "done" } ∷ []

abbrev no_args : ValidatorArgs
no_args = record { filename = none; expected = none }

abbrev world_of : ExecutionStatus → World
world_of status = record {
  db = record flow_running { executions = execution_of status ∷ [] };
  repo = [];
}

abbrev checked_file : ValidatorResult
checked_file = file_exists digest built "output.txt"

abbrev call_at : ℕ → (validator : String) → Call
call_at now validator = record {
  now = now;
  execution = "x1";
  stage = "s1";
  worktree = built;
  expected = "v1";
  validator = validator;
  args = no_args;
}

promotes_once_example :
    let w' =
      run_calls digest
        (call_at 8 "file_exists" ∷ [])
        (run_call digest (call_at 7 "file_exists") (world_of ExecutionStatus.claimed)).0 in
    ((run_call digest (call_at 9 "file_exists") w').1 ≢ ok true)
    × ((run_call digest (call_at 9 "file_exists") w').0.repo ≡ w'.repo)
unfolding promote_or_reject pass_gates run_builtin_validator file_exists read_file fetch count
    update
promotes_once_example =
    promotes_once digest (call_at 7 "file_exists") (world_of ExecutionStatus.claimed) refl
      (call_at 8 "file_exists" ∷ []) (call_at 9 "file_exists") refl

-- No lock file: the dependency scan fails.
abbrev pass_a : Pass
pass_a = record {
  now = 9;
  worker = "bg-worker";
  files = record { lockfile = none; pyproject = none };
  manifest = record { version = "1"; policies = "dependency-secret-scan" ∷ [] };
  execution_id = λ id. id;
  order = λ ids. ids;
}

abbrev db_unchecked : Db
db_unchecked = record empty_db { flow = record flow_branch { dependencies = [] } }

failed_check_stops_example :
    let db' = drive_workflow pass_a "w1" db_unchecked in
    ((db'.flow.stages ≡ db_unchecked.flow.stages)
      × (db'.flow.executions ≡ db_unchecked.flow.executions))
    × (Option.map (λ w. w.status) (fetch (λ w. w.id == "w1") db'.flow.workflows)
        ≡ Option.map
            (λ w. WorkflowStatus.safe_stopped)
            (fetch (λ w. w.id == "w1") db_unchecked.flow.workflows))
unfolding count check_policy check_dependency_secret_scan
failed_check_stops_example =
    failed_check_stops pass_a "w1" db_unchecked "dependency-secret-scan" refl refl refl

abbrev checked : PolicyDb
checked = record { evaluations = evaluation_of Outcome.pass ∷ []; exceptions = [] }

abbrev db_interrupted : Db
db_interrupted = record empty_db { flow = flow_running; policy = checked }

restart_completes_failed_example :
    let recovered = (recover_on_startup 9 flow_running).0 in
    let db' = drive_workflow pass_a "w1" (with_flow db_interrupted recovered) in
    (Option.map (λ v. v.status) (fetch (λ v. v.id == "w1") db'.flow.workflows)
      ≡ some WorkflowStatus.completed)
    × (db'.flow.stages ≡ recovered.stages)
unfolding fetch
restart_completes_failed_example =
    restart_completes_failed pass_a "w1" db_interrupted workflow_a (refl, tt) refl refl refl refl
