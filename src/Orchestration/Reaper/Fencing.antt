-- ===== src/Orchestration/Reaper/Fencing.antt =====
-- Workers whose lease has run out, for src/orchestration/reaper.py and scheduler.py.
use agentic_engineering_url.Prelude.{
  ℕ, String, ◌≡◌, false, ◌&&◌, List, [], ◌∷◌, arith, ◌==◌, All, All-of, All-map,
}
use agentic_engineering_url.Sql.{select}
use agentic_engineering_url.Sql.Laws.{count_of_none, All-update}
use agentic_engineering_url.Schema.{FlowDb, Stage, Execution}
use agentic_engineering_url.Schema.Status.{ExecutionStatus, is_running}
use agentic_engineering_url.Orchestration.Scheduler.{set_execution, fenced, complete_stage}
use agentic_engineering_url.Orchestration.Reaper.{
  is_stale, abandon, abandon_all, sweep_stale_leases,
}

-- No row with the id is claimed or running.
abbrev pub IsFenced : String → List Execution → Type 0
IsFenced id = All (λ e. fenced id e ≡ false)

abandon-IsFenced :
    (now : ℕ) (row : Execution) (id : String) (db : FlowDb)
    → IsFenced id db.executions
    → IsFenced id (abandon now row db).executions
unfolding abandon
abandon-IsFenced now row id db h =
    All-update _ _ (λ e. e.id == row.id) (set_execution ExecutionStatus.abandoned)
      (λ e k t. ground arith) (λ e k t. k) db.executions h

-- No row of the stage is running.
abbrev pub IsHalted : String → List Stage → Type 0
IsHalted id = All (λ s. ((s.id == id) && is_running s.status) ≡ false)

abandon-IsHalted :
    (now : ℕ) (row : Execution) (id : String) (db : FlowDb)
    → IsHalted id db.stages
    → IsHalted id (abandon now row db).stages
unfolding abandon
abandon-IsHalted now row id db h =
    All-update _ _ (λ s. (s.id == row.stage_id) && is_running s.status) _ (λ s k t. ground arith)
      (λ s k t. k) db.stages h

-- The worker of the row is shut out: its completion affects no row, and its stage does not run.
abbrev pub IsShutOut : FlowDb → Execution → Type 0
IsShutOut db row = IsFenced row.id db.executions × IsHalted row.stage_id db.stages

abandon-shuts_out : (now : ℕ) (row : Execution) (db : FlowDb) → IsShutOut (abandon now row db) row
unfolding abandon
abandon-shuts_out now row db = (
  All-update (λ _. Unit {0}) _ (λ e. e.id == row.id) (set_execution ExecutionStatus.abandoned)
      (λ e k t. ground arith) (λ e k t. ground arith) db.executions
      (All-of _ (λ e. tt) db.executions),
  All-update (λ _. Unit {0}) _ (λ s. (s.id == row.stage_id) && is_running s.status) _
      (λ s k t. ground arith) (λ s k t. t) db.stages (All-of _ (λ s. tt) db.stages),
)

abandon_all-keeps :
    (now : ℕ) (rows : List Execution) (row : Execution) (db : FlowDb)
    → IsShutOut db row
    → IsShutOut (abandon_all now rows db) row
unfolding abandon_all
abandon_all-keeps now [] row db h = h
abandon_all-keeps now (r ∷ rows) row db h =
    abandon_all-keeps now rows row (abandon now r db)
      (abandon-IsFenced now r row.id db h.0, abandon-IsHalted now r row.stage_id db h.1)

abandon_all-shuts_out :
    (now : ℕ) (rows : List Execution) (db : FlowDb) → All (IsShutOut (abandon_all now rows db)) rows
unfolding abandon_all
abandon_all-shuts_out now [] db = tt
abandon_all-shuts_out now (row ∷ rows) db = (
  abandon_all-keeps now rows row (abandon now row db) (abandon-shuts_out now row db),
  abandon_all-shuts_out now rows (abandon now row db),
)

fenced_completion :
    (id stage : String) (now : ℕ) (db : FlowDb)
    → IsFenced id db.executions
    → complete_stage id stage now db ≡ (db, false)
unfolding complete_stage
fenced_completion id stage now db h = ground (arith, count_of_none (fenced id) db.executions h)

-- After a sweep at `now`, for every execution that was claimed or running with a lease that had
-- expired: a completion by its worker, of any stage at any time, is refused and changes nothing,
-- and no row of its stage is running.
pub sweep_fences_workers :
    (now : ℕ) (db : FlowDb)
    → let db' = (sweep_stale_leases now db).0 in
      All
        (λ row.
          ((stage : String) (later : ℕ) → complete_stage row.id stage later db' ≡ (db', false))
          × IsHalted row.stage_id db'.stages)
        (select (is_stale now) db.executions)
unfolding sweep_stale_leases
sweep_fences_workers now db =
    All-map (select (is_stale now) db.executions)
      (λ row h. (λ stage later. fenced_completion row.id stage later _ h.0, h.1))
      (abandon_all-shuts_out now (select (is_stale now) db.executions) db)
