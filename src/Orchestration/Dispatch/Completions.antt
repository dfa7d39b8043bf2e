-- ===== src/Orchestration/Dispatch/Completions.antt =====
-- What a completion does to the stage and the executions of an id, for
-- src/orchestration/scheduler.py.
use mathlib.Core.Option
use agentic_engineering_url.Prelude.{
  ℕ, ◌<◌, String, ◌≡◌, refl, inl, inr, true, false, Option, none, some, List, [], ◌∷◌, arith, ◌==◌,
  nat_eq, if◌then◌else◌, Bool-cases,
}
use agentic_engineering_url.Sql.{update, count}
use agentic_engineering_url.Sql.Laws.{fetch-update, fetch-holds, count-update_same}
use agentic_engineering_url.Sql.Apart.{fetch-update_apart}
use agentic_engineering_url.Schema.{FlowDb, Stage, Execution}
use agentic_engineering_url.Schema.Status.{StageStatus, ExecutionStatus}
use agentic_engineering_url.Orchestration.Scheduler.{
  set_status, fenced, set_execution, complete_stage,
}
use agentic_engineering_url.Orchestration.Dispatch.Effects.{status_of, stage_at, seen, other_id}

fenced_apart :
    (execution e : String)
    → (execution == e) ≡ false
    → (xs : List Execution)
    → count (fenced e) (update (fenced execution) (set_execution ExecutionStatus.completed) xs)
      ≡ count (fenced e) xs
unfolding count update
fenced_apart execution e h [] = refl
fenced_apart execution e h (x ∷ xs) = elim (Bool-cases (x.id == execution)) [
  | inl y ↦ ground (arith, other_id x.id execution e y h, fenced_apart execution e h xs)
  | inr n ↦ ground (arith, fenced_apart execution e h xs)
]

module _ (execution : String) (now : ℕ) (id : String) (db : FlowDb) where
  found_updated :
      (o : Option Stage)
      → ((s : Stage) → o ≡ some s → (s.id == id) ≡ true)
      → Option.map status_of
          (Option.map (λ s. if s.id == id then set_status StageStatus.succeeded now s else s) o)
        ≡ Option.map (λ s. (StageStatus.succeeded, s.attempt_count)) o
  found_updated none h = refl
  found_updated (some s) h = rw (h s refl) refl

  pub complete_seen :
      0 < count (fenced execution) db.executions
      → seen (complete_stage execution id now db).0 id ≡ (
        Option.map (λ s. (StageStatus.succeeded, s.attempt_count)) (stage_at db id),
        (seen db id).1,
      )
  unfolding complete_stage
  complete_seen h = elim (Bool-cases (nat_eq (count (fenced execution) db.executions) 0)) [
    | inl y ↦ absurd (ground arith)
    | inr n ↦
        rw
          (
            n,
            fetch-update (λ x. x.id == id) (λ x. x.id == id) (set_status StageStatus.succeeded now)
                (λ x t. refl) db.stages,
            found_updated (stage_at db id) (λ s f. fetch-holds (λ x. x.id == id) db.stages s f),
            count-update_same (fenced execution) (λ e. e.stage_id == id)
                (set_execution ExecutionStatus.completed) (λ e. refl) db.executions,
          )
          refl
  ]

  pub complete_apart :
      (i : String) → (id == i) ≡ false → seen (complete_stage execution id now db).0 i ≡ seen db i
  unfolding complete_stage
  complete_apart i h = elim (Bool-cases (nat_eq (count (fenced execution) db.executions) 0)) [
    | inl y ↦ rw y refl
    | inr n ↦ rw n (
        ground (
          arith,
          h,
          fetch-update_apart (λ x. x.id == id) (set_status StageStatus.succeeded now)
              (λ x. x.id == i) (λ x. refl) (λ x t. other_id x.id id i t h) db.stages,
          count-update_same (fenced execution) (λ e. e.stage_id == i)
              (set_execution ExecutionStatus.completed) (λ e. refl) db.executions,
        ))
  ]

  -- A completion keeps the ids of the stages, and leaves the other executions as they were.
  pub complete_keeps :
      ((i : String)
        → count (λ x. x.id == i) (complete_stage execution id now db).0.stages
          ≡ count (λ x. x.id == i) db.stages)
      × ((e : String)
          → (execution == e) ≡ false
          → count (fenced e) (complete_stage execution id now db).0.executions
            ≡ count (fenced e) db.executions)
  unfolding complete_stage
  complete_keeps = elim (Bool-cases (nat_eq (count (fenced execution) db.executions) 0)) [
    | inl y ↦ rw y (λ i. refl, λ e h. refl)
    | inr n ↦ rw n (
      λ i.
          count-update_same (λ x. x.id == id) (λ x. x.id == i)
            (set_status StageStatus.succeeded now) (λ x. refl) db.stages,
      λ e h. fenced_apart execution e h db.executions,
    )
  ]
