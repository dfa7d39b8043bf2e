-- ===== src/Orchestration/Dispatch.antt =====
-- src/orchestration/scheduler.py, `dispatch_ready_stages_parallel`: tasks that run at once.
-- One thread serves all the tasks, and a task gives it up only while it awaits `execute_fn`; so a
-- schedule is the order in which the tasks get their turns, and `claim_stage` and `complete_stage`
-- run whole. What `execute_fn` does is a parameter as far as the tables go: whether it raises.
pub mod Effects
pub mod Completions
pub mod Steps
pub mod Turns
pub mod Refinement
pub mod Fairness
use agentic_engineering_url.Prelude.{
  ℕ, zero, suc, String, Bool, true, false, ◌&&◌, ◌||◌, Option, none, some, List, [], ◌∷◌, map,
  if◌then◌else◌,
}
use agentic_engineering_url.Sql.{insert}
use agentic_engineering_url.Schema.{FlowDb}
use agentic_engineering_url.Orchestration.Scheduler.{claim_stage, complete_stage}

-- Where a task stands: before its claim, at `await execute_fn`, or ended: its claim was lost, it went
-- to its end, or `execute_fn` raised.
pub data Phase : Type 0 where
  waiting executing lost finished raised : Phase

-- `run_one`, with the id that `uuid4` will give to its execution and its entry of `start_times`.
pub record Task : Type 0 where
  pub stage_id : String
  pub execution_id : String
  pub phase : Phase
  pub started_at : Option ℕ

-- A turn: the position of the task, the time, and whether the await it returns from raises.
pub record Turn : Type 0 where
  pub position : ℕ
  pub now : ℕ
  pub raises : Bool

module _ (worker : String) (turn : Turn) where
  abbrev claimed_task : Task → Option String → Task
  claimed_task task none = record task { phase = Phase.lost }
  claimed_task task (some execution) = record task {
    phase = Phase.executing;
    started_at = some turn.now;
  }

  -- Up to the await.
  unfoldable pub claim_first : Task → FlowDb → FlowDb × Task
  claim_first task db =
      let (db', won) = claim_stage task.execution_id worker turn.now task.stage_id db in
      (db', claimed_task task won)

  -- What follows the await; the `finally` only closes the connection.
  unfoldable pub resume : Task → FlowDb → FlowDb × Task
  resume task db = if turn.raises then (db, record task { phase = Phase.raised }) else (
    (complete_stage task.execution_id task.stage_id turn.now db).0,
    record task { phase = Phase.finished },
  )

  abbrev pub step_from : Phase → Task → FlowDb → FlowDb × Task
  step_from Phase.waiting task db = claim_first task db
  step_from Phase.executing task db = resume task db
  step_from Phase.lost task db = (db, task)
  step_from Phase.finished task db = (db, task)
  step_from Phase.raised task db = (db, task)

  abbrev pub step_task : Task → FlowDb → FlowDb × Task
  step_task task db = step_from task.phase task db

  -- The turn of the task at a position.
  unfoldable pub step_at : ℕ → List Task → FlowDb → FlowDb × List Task
  step_at i [] db = (db, [])
  step_at zero (task ∷ tasks) db = let (db', task') = step_task task db in (db', task' ∷ tasks)
  step_at (suc i) (task ∷ tasks) db = let (db', tasks') = step_at i tasks db in (db', task ∷ tasks')

-- `asyncio.gather`, under a schedule.
unfoldable pub gather : (worker : String) → List Turn → List Task → FlowDb → FlowDb × List Task
gather worker [] tasks db = (db, tasks)
gather worker (turn ∷ turns) tasks db =
    let (db', tasks') = step_at worker turn turn.position tasks db in gather worker turns tasks' db'

-- The tasks at the start: the stages with the ids that their executions will get.
abbrev pub new_task : String × String → Task
new_task (stage, execution) = record {
  stage_id = stage;
  execution_id = execution;
  phase = Phase.waiting;
  started_at = none;
}

abbrev pub has_ended : Phase → Bool
has_ended Phase.lost = true
has_ended Phase.finished = true
has_ended _ = false

abbrev pub has_raised : Phase → Bool
has_raised Phase.raised = true
has_raised _ = false

abbrev pub all_ended : List Task → Bool
all_ended [] = true
all_ended (t ∷ ts) = has_ended t.phase && all_ended ts

abbrev any_raised : List Task → Bool
any_raised [] = false
any_raised (t ∷ ts) = has_raised t.phase || any_raised ts

-- `start_times`: an entry for each stage whose claim was won.
start_times : List Task → List (String × ℕ)
start_times [] = []
start_times (t ∷ ts) = elim t.started_at [
  | none ↦ start_times ts
  | some time ↦ (t.stage_id, time) ∷ start_times ts
]

-- The lineage entry; this connection does not switch foreign keys on.
abbrev synchronize : ℕ → (workflow : String) → FlowDb → FlowDb
synchronize now workflow db = record db {
  lineage =
      insert
        (record {
          workflow_instance_id = workflow;
          decision_type = "synchronization_point";
          created_at = now;
        })
        db.lineage;
}

-- The start times, an exception of `execute_fn`, or tasks that still wait for a turn.
pub data Dispatched : Type 0 where
  returned : List (String × ℕ) → Dispatched
  raised_through : Dispatched
  unfinished : Dispatched

unfoldable pub dispatch_ready_stages_parallel :
    (worker workflow : String)
    → List (String × String)
    → List Turn
    → (now : ℕ) → FlowDb
    → FlowDb × Dispatched
unfolding start_times
dispatch_ready_stages_parallel worker workflow stages turns now db =
    let (db', tasks) = gather worker turns (map new_task stages) db in
    if any_raised tasks
    then (db', Dispatched.raised_through)
    else if all_ended tasks
    then (synchronize now workflow db', Dispatched.returned (start_times tasks))
    else (db', Dispatched.unfinished)
