-- ===== src/Orchestration/Scheduler/Claims.antt =====
-- Workers that race for one stage, for src/orchestration/scheduler.py.
use agentic_engineering_url.Prelude.{
  ℕ, ◌+◌, String, ◌≡◌, refl, inl, inr, false, List, [], ◌∷◌, arith, ltb, nat_eq, if◌then◌else◌,
  is_some, Bool-cases,
}
use agentic_engineering_url.Sql.{update, count}
use agentic_engineering_url.Sql.Laws.{count-update}
use agentic_engineering_url.Schema.{FlowDb, Stage}
use agentic_engineering_url.Schema.Status.{ExecutionStatus}
use agentic_engineering_url.Orchestration.Scheduler.{
  claimable, claimed_stage, claim_selected, fenced, set_execution, complete_stage,
}

-- A worker that has read the stage, at whatever time, and is about to claim it.
pub record Contender : Type 0 where
  pub execution_id : String
  pub worker : String
  pub now : ℕ
  pub selected : Stage

-- The contenders make their compare-and-swap one after the other; the number that wins.
unfoldable pub race : String → List Contender → FlowDb → FlowDb × ℕ
race id [] db = (db, 0)
race id (c ∷ cs) db =
    let (db', won) = claim_selected c.execution_id c.worker c.now c.selected id db in
    let (last, winners) = race id cs db' in (last, if is_some won then winners + 1 else winners)

claimable-claimed :
    (id : String) (now : ℕ) (xs : List Stage)
    → count (claimable id) (update (claimable id) (claimed_stage now) xs) ≡ 0
claimable-claimed id now xs = count-update (claimable id) (claimed_stage now) (λ s. ground arith) xs

race_lost :
    (id : String) (cs : List Contender) (db : FlowDb)
    → count (claimable id) db.stages ≡ 0
    → race id cs db ≡ (db, 0)
unfolding race claim_selected
race_lost id [] db h = refl
race_lost id (c ∷ cs) db h = ground (arith, race_lost id cs db h)

-- Whenever each of them read the stage, and in whatever order they swap, exactly one of one or more
-- workers claims a stage that is ready, and none claims one that is not.
pub one_winner :
    (id : String) (c : Contender) (cs : List Contender) (db : FlowDb)
    → (race id (c ∷ cs) db).1 ≡ (if ltb 0 (count (claimable id) db.stages) then 1 else 0)
unfolding race claim_selected
one_winner id c cs db = elim (Bool-cases (nat_eq (count (claimable id) db.stages) 0)) [
  | inl lost ↦ ground (arith, race_lost id cs db)
  | inr won ↦
      let after = (claim_selected c.execution_id c.worker c.now c.selected id db).0 in
      ground (arith, race_lost id cs after, claimable-claimed id c.now db.stages)
]

-- After an attempt to complete an execution, whether or not it succeeded, a second attempt for the
-- same stage is refused and changes nothing.
pub complete_once :
    (execution stage : String) (now later : ℕ) (db : FlowDb)
    → let db' = (complete_stage execution stage now db).0 in
      complete_stage execution stage later db' ≡ (db', false)
unfolding complete_stage
complete_once execution stage now later db = ground (
  arith,
  count-update (fenced execution) (set_execution ExecutionStatus.completed) (λ e. ground arith)
      db.executions,
)
