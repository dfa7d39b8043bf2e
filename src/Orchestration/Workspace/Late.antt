-- ===== src/Orchestration/Workspace/Late.antt =====
-- What a late call does to the row of an execution, for src/orchestration/workspace.py.
use agentic_engineering_url.Prelude.{
  ℕ, String, ◌≡◌, refl, ap, ◌∙◌, inl, inr, true, false, not, ◌&&◌, some, List, arith, ◌==◌,
  Bool-cases, ok,
}
use mathlib.Core.Option
use agentic_engineering_url.Sql.{fetch, update}
use agentic_engineering_url.Sql.Laws.{fetch-holds, fetch-update}
use agentic_engineering_url.Schema.{FlowDb, Execution, Evidence}
use agentic_engineering_url.Schema.Status.{ExecutionStatus, is_live, is_abandoned}
use agentic_engineering_url.Orchestration.Scheduler.{set_execution}
use agentic_engineering_url.Orchestration.Validators.{
  Tree, ValidatorArgs, ValidatorResult, run_builtin_validator,
}
use agentic_engineering_url.Orchestration.Workspace.{
  World, is_fenced_ok, is_revision_ok, record_detail, pass_gates, promote_or_reject,
}
use agentic_engineering_url.Orchestration.Workspace.Promotion.{promote-ran}

abandoned-eq : (s : ExecutionStatus) → is_abandoned s ≡ true → s ≡ ExecutionStatus.abandoned
abandoned-eq ExecutionStatus.abandoned h = refl
abandoned-eq ExecutionStatus.claimed h = absurd (ground arith)
abandoned-eq ExecutionStatus.running h = absurd (ground arith)
abandoned-eq ExecutionStatus.completed h = absurd (ground arith)
abandoned-eq ExecutionStatus.failed h = absurd (ground arith)

abandoned_row :
    (id : String) (xs : List Execution) (row : Execution)
    → fetch (λ e. e.id == id) xs ≡ some row
    → Option.map
        (λ e. e.status)
        (fetch
          (λ e. e.id == id)
          (update
            (λ e. (e.id == id) && not (is_abandoned e.status))
            (set_execution ExecutionStatus.abandoned)
            xs))
      ≡ some ExecutionStatus.abandoned
abandoned_row id xs row f =
    let e =
      fetch-update (λ e. (e.id == id) && not (is_abandoned e.status)) (λ e. e.id == id)
        (set_execution ExecutionStatus.abandoned) (λ x t. refl) xs in
    elim (Bool-cases (is_abandoned row.status)) [
      | inl y ↦ ground (arith, f, e, y, abandoned-eq row.status y)
      | inr n ↦ ground (arith, f, e, n, fetch-holds (λ e. e.id == id) xs row f)
    ]

detailed_row :
    (id : String) (evidence : Evidence) (db : FlowDb) (row : Execution)
    → fetch (λ e. e.id == id) db.executions ≡ some row
    → fetch (λ e. e.id == id) (record_detail id evidence db).executions
      ≡ some (record row { outcome_detail = some evidence })
detailed_row id evidence db row f = ground (
  arith,
  f,
  fetch-holds (λ e. e.id == id) db.executions row f,
  fetch-update (λ e. e.id == id) (λ e. e.id == id)
      (λ e. record e { outcome_detail = some evidence }) (λ x t. refl) db.executions,
)

module _ (sha256 : String → String) (now : ℕ) (execution stage : String) (worktree : Tree)
    (expected validator : String) (args : ValidatorArgs) (w : World) where
  row_not_live-closed :
      (row : Execution)
      → fetch (λ e. e.id == execution) w.db.executions ≡ some row
      → is_live row.status ≡ false
      → is_fenced_ok w.db execution ≡ false
  row_not_live-closed row f l = ground (arith, f, l)

  -- When the validator runs, a call on an execution in the table that is not claimed or running
  -- any more, a completed one included, marks it abandoned.
  pub late_call_abandons :
      (result : ValidatorResult) (row : Execution)
      → run_builtin_validator sha256 validator worktree args ≡ ok result
      → fetch (λ e. e.id == execution) w.db.executions ≡ some row
      → is_live row.status ≡ false
      → Option.map
          (λ e. e.status)
          (fetch
            (λ e. e.id == execution)
            (promote_or_reject sha256 now execution stage worktree expected validator args
              w).0.db.executions)
        ≡ some ExecutionStatus.abandoned
  unfolding promote_or_reject pass_gates
  late_call_abandons result row r f l =
      ap (λ v. Option.map (λ e. e.status) (fetch (λ e. e.id == execution) v.db.executions))
        (promote-ran sha256 now execution stage worktree expected validator args w result r
          ∙ ap
              (λ b.
                (pass_gates now execution stage worktree b (is_revision_ok w.db stage expected)
                  result.passed (record w { db = record_detail execution result.evidence w.db })).0)
              (row_not_live-closed row f l))
      ∙ (abandoned_row execution (record_detail execution result.evidence w.db).executions _
          (detailed_row execution result.evidence w.db row f))
