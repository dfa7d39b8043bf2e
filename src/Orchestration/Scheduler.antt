-- ===== src/Orchestration/Scheduler.antt =====
-- src/orchestration/scheduler.py: eligibility, claiming, completion and recovery.
pub mod Claims
pub mod Ready
pub mod Progress
pub mod Layers
use agentic_engineering_url.Prelude.{
  ℕ, ◌+◌, ◌*◌, max, String, Bool, true, false, not, ◌&&◌, ◌||◌, Option, none, some, List, [], ◌∷◌,
  ◌==◌, leb, nat_eq, if◌then◌else◌, length, Result, ok, err,
}
use agentic_engineering_url.Sql.{select, fetch, update, count, insert}
use agentic_engineering_url.Schema.{FlowDb, Workflow, Stage, Execution}
use agentic_engineering_url.Schema.Status.{
  WorkflowStatus, StageStatus, ExecutionStatus, is_pending, is_ready, is_running, is_succeeded,
  is_failed_transient, is_live, is_safe_stopped,
}
use agentic_engineering_url.Orchestration.Models.{get_dependencies}
use agentic_engineering_url.Orchestration.RetryPolicy.{max_stage_attempts}

-- id IN (…)
abbrev pub is_in : List String → String → Bool
is_in [] id = false
is_in (x ∷ xs) id = (id == x) || is_in xs id

-- SELECT COUNT(*) … WHERE id IN (…) AND status = 'succeeded'
abbrev pub succeeded_count : FlowDb → List String → ℕ
succeeded_count db deps = count (λ s. is_in deps s.id && is_succeeded s.status) db.stages

eligible_with : FlowDb → List String → Bool
eligible_with db [] = true
eligible_with db (d ∷ ds) = nat_eq (succeeded_count db (d ∷ ds)) (length (d ∷ ds))

-- The loop's test on one pending stage.
unfoldable pub is_eligible : FlowDb → Stage → Bool
unfolding eligible_with
is_eligible db stage = eligible_with db (get_dependencies db stage.id)

ids_where : (Stage → Bool) → List Stage → List String
ids_where p [] = []
ids_where p (s ∷ ss) = let rest = ids_where p ss in if p s then s.id ∷ rest else rest

unfoldable pub compute_ready_stages : FlowDb → String → List String
unfolding ids_where
compute_ready_stages db workflow =
    ids_where (is_eligible db)
      (select (λ s. (s.workflow_instance_id == workflow) && is_pending s.status) db.stages)

-- UPDATE orchestration_workflow_stage SET status=…, updated_at=?
abbrev pub set_status : StageStatus → ℕ → Stage → Stage
set_status status now s = record s { status = status; updated_at = now }

unfoldable pub mark_ready : ℕ → List String → FlowDb → FlowDb
mark_ready now [] db = db
mark_ready now (id ∷ ids) db = mark_ready now ids (record db {
  stages =
      update (λ s. (s.id == id) && is_pending s.status) (set_status StageStatus.ready now)
        db.stages;
})

-- WHERE id=? AND status='ready'
abbrev pub claimable : String → Stage → Bool
claimable id s = (s.id == id) && is_ready s.status

abbrev pub claimed_stage : ℕ → Stage → Stage
claimed_stage now s = record s {
  status = StageStatus.running;
  attempt_count = s.attempt_count + 1;
  updated_at = now;
}

-- now + timedelta(seconds=max(timeout_seconds, 30)), in microseconds
abbrev pub lease_end : ℕ → Stage → ℕ
lease_end now stage = now + max stage.timeout_seconds 30 * 1_000_000

-- INSERT INTO orchestration_stage_execution
abbrev pub new_execution : (execution_id worker : String) → ℕ → Stage → String → Execution
new_execution execution_id worker now stage id = record {
  id = execution_id;
  stage_id = id;
  attempt_number = stage.attempt_count + 1;
  claimed_by_worker_id = worker;
  claimed_at = now;
  lease_expires_at = lease_end now stage;
  status = ExecutionStatus.claimed;
  outcome_detail = none;
}

-- What follows the SELECT: the compare-and-swap, and the execution row if it won.
unfoldable pub claim_selected :
    (execution_id worker : String) → ℕ → Stage → String → FlowDb → FlowDb × Option String
claim_selected execution_id worker now stage id db =
    if nat_eq (count (claimable id) db.stages) 0 then (db, none) else (
      record db {
        stages = update (claimable id) (claimed_stage now) db.stages;
        executions = insert (new_execution execution_id worker now stage id) db.executions;
      },
      some execution_id,
    )

unfoldable pub claim_stage :
    (execution_id worker : String) → ℕ → String → FlowDb → FlowDb × Option String
unfolding claim_selected
claim_stage execution_id worker now id db = elim (fetch (λ s. s.id == id) db.stages) [
  | none ↦ (db, none)
  | some stage ↦ claim_selected execution_id worker now stage id db
]

-- WHERE id=? AND status IN ('claimed','running')
abbrev pub fenced : String → Execution → Bool
fenced id e = (e.id == id) && is_live e.status

abbrev pub set_execution : ExecutionStatus → Execution → Execution
set_execution status e = record e { status = status }

unfoldable pub complete_stage : (execution_id stage_id : String) → ℕ → FlowDb → FlowDb × Bool
complete_stage execution_id stage_id now db =
    if nat_eq (count (fenced execution_id) db.executions) 0 then (db, false) else (
      record db {
        executions =
            update (fenced execution_id) (set_execution ExecutionStatus.completed) db.executions;
        stages = update (λ s. s.id == stage_id) (set_status StageStatus.succeeded now) db.stages;
      },
      true,
    )

unfoldable pub recover_on_startup : ℕ → FlowDb → FlowDb × ℕ
recover_on_startup now db = (
  record db {
    stages =
        update (λ s. is_running s.status) (set_status StageStatus.failed_transient now) db.stages;
  },
  count (λ s. is_running s.status) db.stages,
)

pub data RetryResult : Type 0 where
  retried exhausted : RetryResult

pub data RetryError : Type 0 where
  no_such_stage not_failed_transient : RetryError

abbrev pub retry_stage : ℕ → Stage → String → FlowDb → FlowDb × Result RetryError RetryResult
retry_stage now stage id db =
    if not (is_failed_transient stage.status)
    then (db, err not_failed_transient)
    else if leb max_stage_attempts stage.attempt_count
    then (
      record db {
        stages = update (λ s. s.id == id) (set_status StageStatus.failed_permanent now) db.stages;
      },
      ok exhausted,
    )
    else (
      record db { stages = update (λ s. s.id == id) (set_status StageStatus.ready now) db.stages },
      ok retried,
    )

-- A missing stage makes `stage["status"]` raise a TypeError.
unfoldable pub issue_retry_or_exhaust : ℕ → String → FlowDb → FlowDb × Result RetryError RetryResult
issue_retry_or_exhaust now id db = elim (fetch (λ s. s.id == id) db.stages) [
  | none ↦ (db, err no_such_stage)
  | some stage ↦ retry_stage now stage id db
]

pub data Terminal : Type 0 where
  fallback safe_stopped : Terminal

abbrev pub set_workflow : WorkflowStatus → ℕ → Workflow → Workflow
set_workflow status now w = record w { status = status; updated_at = now }

unfoldable pub apply_fallback_or_safe_stop :
    ℕ → (workflow stage : String) → Option String → FlowDb → FlowDb × Terminal
apply_fallback_or_safe_stop now workflow stage (some other) db = (
  record db { stages = update (λ s. s.id == other) (set_status StageStatus.ready now) db.stages },
  fallback,
)
apply_fallback_or_safe_stop now workflow stage none db = (
  record db {
    workflows =
        update (λ w. w.id == workflow) (set_workflow WorkflowStatus.safe_stopped now) db.workflows;
  },
  safe_stopped,
)

unfoldable pub resume_from_safe_stop : ℕ → String → FlowDb → FlowDb
resume_from_safe_stop now workflow db = record db {
  workflows =
      update (λ w. (w.id == workflow) && is_safe_stopped w.status)
        (set_workflow WorkflowStatus.running now) db.workflows;
}
