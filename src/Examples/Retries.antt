-- ===== src/Examples/Retries.antt =====
-- A stage that is claimed, interrupted and tried again.
use agentic_engineering_url.Prelude.{ℕ, ◌≤◌, List, [], ◌∷◌, arith, All}
use agentic_engineering_url.Sql.{count}
use agentic_engineering_url.Schema.{FlowDb, empty_flow, Preconditions}
use agentic_engineering_url.Schema.Status.{StageStatus}
use agentic_engineering_url.Orchestration.Attempts.{
  Operation, claimed, recovered, retried, perform_all, IsSound,
}
use agentic_engineering_url.Orchestration.Attempts.Bound.{attempts_bounded}
use agentic_engineering_url.Examples.Data.{stage_of}

abbrev one_stage : FlowDb
one_stage = record empty_flow {
  stages = stage_of "s1" "build" StageStatus.ready Preconditions.null ∷ [];
}

abbrev interrupted_once : List (Operation × ℕ)
interrupted_once =
    (claimed "x1" "a" "s1", 3)
    ∷ (recovered, 5)
    ∷ (retried "s1", 6)
    ∷ (claimed "x2" "b" "s1", 7)
    ∷ []

one_stage-IsSound : IsSound one_stage.stages
unfolding count
one_stage-IsSound = (λ id. ground arith, (omega arith, tt))

attempts_bounded_example :
    All (λ s. s.attempt_count ≤ 3) (perform_all interrupted_once one_stage).stages
attempts_bounded_example = attempts_bounded interrupted_once one_stage one_stage-IsSound
