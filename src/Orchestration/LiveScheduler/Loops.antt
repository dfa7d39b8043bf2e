-- ===== src/Orchestration/LiveScheduler/Loops.antt =====
-- src/orchestration/live_scheduler.py: starting and stopping the task that runs `scheduler_loop`.
use agentic_engineering_url.Prelude.{String, not, Option, none, some, List, [], ◌∷◌, ◌++◌, ◌==◌}
use agentic_engineering_url.Sql.{select}

-- The loops that run, by the worker id that each has drawn, and the one that `_task` holds.
pub record Loops : Type 0 where
  pub running : List String
  pub task : Option String

abbrev pub no_loops : Loops
no_loops = record { running = []; task = none }

-- A loop that `_task` held before is not stopped.
unfoldable pub start : (worker : String) → Loops → Loops
start worker loops = record { running = loops.running ++ worker ∷ []; task = some worker }

-- The cancelled loop has ended when the await of its task returns.
unfoldable pub stop : Loops → Loops
stop loops = elim loops.task [
  | none ↦ loops
  | some worker ↦ record { running = select (λ w. not (w == worker)) loops.running; task = none }
]
