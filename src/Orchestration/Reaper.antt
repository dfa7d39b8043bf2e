-- ===== src/Orchestration/Reaper.antt =====
-- src/orchestration/reaper.py: stale leases, and what becomes of their stages.
pub mod Fencing
use agentic_engineering_url.Prelude.{
  ℕ, String, Bool, true, false, ◌&&◌, Option, none, some, List, [], ◌∷◌, map, ◌==◌, ltb,
  if◌then◌else◌, Result, ok, err,
}
use agentic_engineering_url.Sql.{select, fetch, update}
use agentic_engineering_url.Schema.{FlowDb, Stage, Execution}
use agentic_engineering_url.Schema.Status.{
  StageStatus, ExecutionStatus, is_running, is_live, is_idempotent,
}
use agentic_engineering_url.Orchestration.Scheduler.{set_status, set_execution}

-- status IN ('claimed','running') AND lease_expires_at < ?
abbrev pub is_stale : ℕ → Execution → Bool
is_stale now e = is_live e.status && ltb e.lease_expires_at now

-- The body of the sweep's loop.
unfoldable pub abandon : ℕ → Execution → FlowDb → FlowDb
abandon now row db = record db {
  executions = update (λ e. e.id == row.id) (set_execution ExecutionStatus.abandoned) db.executions;
  stages =
      update (λ s. (s.id == row.stage_id) && is_running s.status)
        (set_status StageStatus.awaiting_reconciliation now) db.stages;
}

unfoldable pub abandon_all : ℕ → List Execution → FlowDb → FlowDb
abandon_all now [] db = db
abandon_all now (row ∷ rows) db = abandon_all now rows (abandon now row db)

unfoldable pub sweep_stale_leases : ℕ → FlowDb → FlowDb × List String
sweep_stale_leases now db =
    let stale = select (is_stale now) db.executions in
    (abandon_all now stale db, map (λ e. e.stage_id) stale)

pub data ReconciliationResult : Type 0 where
  not_completed already_completed : ReconciliationResult

pub data ReconcileError : Type 0 where
  no_such_stage probe_required : ReconcileError

-- What is decided of a stage; `probe` is what `probe_effect(stage_id)` answers, where one is given.
unfoldable pub decide_effect : Option Bool → Stage → Result ReconcileError ReconciliationResult
decide_effect probe stage =
    if is_idempotent stage.effect_class then ok not_completed else elim probe [
      | none ↦ err probe_required
      | some true ↦ ok already_completed
      | some false ↦ ok not_completed
    ]

abbrev pub reconciled_status : ReconciliationResult → StageStatus
reconciled_status already_completed = StageStatus.succeeded
reconciled_status not_completed = StageStatus.failed_transient

unfoldable pub apply_result :
    ℕ
    → String
    → Result ReconcileError ReconciliationResult
    → FlowDb
    → FlowDb × Result ReconcileError ReconciliationResult
apply_result now id (err e) db = (db, err e)
apply_result now id (ok result) db = (
  record db {
    stages = update (λ s. s.id == id) (set_status (reconciled_status result) now) db.stages;
  },
  ok result,
)

unfoldable pub reconcile_stage :
    ℕ → String → Option Bool → FlowDb → FlowDb × Result ReconcileError ReconciliationResult
unfolding apply_result decide_effect
reconcile_stage now id probe db = elim (fetch (λ s. s.id == id) db.stages) [
  | none ↦ (db, err no_such_stage)
  | some stage ↦ apply_result now id (decide_effect probe stage) db
]
