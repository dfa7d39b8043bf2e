-- ===== src/Orchestration/Workspace/Promotion.antt =====
-- What a promotion needs and what it leaves untouched, for src/orchestration/workspace.py.
use agentic_engineering_url.Prelude.{
  ℕ, String, ◌≡◌, ◌≢◌, refl, ◌⊎◌, Result, sym, subst, inl, inr, Bool, true, false, some, List, [],
  ◌∷◌, arith, ◌==◌, ok, Result-cases,
}
use agentic_engineering_url.Sql.{fetch}
use agentic_engineering_url.Schema.{FlowDb, Execution, Stage}
use agentic_engineering_url.Schema.Status.{ExecutionStatus}
use agentic_engineering_url.Orchestration.Validators.{
  Tree, ValidatorArgs, ValidatorResult, ValidatorError, run_builtin_validator,
}
use agentic_engineering_url.Orchestration.Workspace.{
  World, is_fenced_ok, is_revision_ok, record_detail, pass_gates, promote_or_reject,
}
use agentic_engineering_url.Orchestration.Workspace.Closed.{gates-promoted, promotion_keeps-closed}

-- What a promotion asks for: the execution's row is claimed or running, the stage's row has the
-- expected revision, and the validator has passed.
abbrev pub IsEntitled : (execution stage expected : String) → FlowDb → ValidatorResult → Type 0
IsEntitled execution stage expected db result =
    ((e : Execution) × (fetch (λ e. e.id == execution) db.executions ≡ some e)
      × ((e.status ≡ ExecutionStatus.claimed) ⊎ (e.status ≡ ExecutionStatus.running)))
    × ((s : Stage) × (fetch (λ s. s.id == stage) db.stages ≡ some s)
        × (s.artifact_revision ≡ expected))
    × (result.passed ≡ true)

module _ (sha256 : String → String) (now : ℕ) (execution stage : String) (worktree : Tree)
    (expected validator : String) (args : ValidatorArgs) (w : World) where
  pub promote-ran :
      (result : ValidatorResult)
      → run_builtin_validator sha256 validator worktree args ≡ ok result
      → (promote_or_reject sha256 now execution stage worktree expected validator args w).0
        ≡ (pass_gates now execution stage worktree
            (is_fenced_ok w.db execution)
            (is_revision_ok w.db stage expected)
            result.passed
            (record w { db = record_detail execution result.evidence w.db })).0
  unfolding promote_or_reject
  promote-ran result r = rw (r, promote_or_reject) refl

  closed_keeps :
      is_fenced_ok w.db execution ≡ false
      → (promote_or_reject sha256 now execution stage worktree expected validator args w).0.repo
        ≡ w.repo
  unfolding promote_or_reject pass_gates
  closed_keeps h = elim (Result-cases (run_builtin_validator sha256 validator worktree args)) [
    | inl r ↦ ground (arith, r.1, h)
    | inr e ↦ ground (arith, e.1)
  ]

  closed_refuses :
      is_fenced_ok w.db execution ≡ false
      → (promote_or_reject sha256 now execution stage worktree expected validator args w).1
        ≢ ok true
  unfolding promote_or_reject pass_gates
  closed_refuses h p = elim (Result-cases (run_builtin_validator sha256 validator worktree args)) [
    | inl r ↦ absurd (ground (arith, r.1, h))
    | inr e ↦ absurd (ground (arith, e.1))
  ]

  promoted-closed :
      (promote_or_reject sha256 now execution stage worktree expected validator args w).1 ≡ ok true
      → is_fenced_ok
          (promote_or_reject sha256 now execution stage worktree expected validator args w).0.db
          execution
        ≡ false
  unfolding promote_or_reject pass_gates
  promoted-closed h = elim (Result-cases (run_builtin_validator sha256 validator worktree args)) [
    | inr e ↦ absurd (ground (arith, e.1))
    | inl r ↦
        let w' = record w { db = record_detail execution r.0.evidence w.db } in
        subst (λ v. is_fenced_ok v.db execution ≡ false) (sym (promote-ran r.0 r.1))
          (gates-promoted now execution stage worktree (is_fenced_ok w.db execution)
            (is_revision_ok w.db stage expected) r.0.passed w' (ground (arith, r.1)))
  ]

-- A call of promote_or_reject.
pub record Call : Type 0 where
  pub now : ℕ
  pub execution : String
  pub stage : String
  pub worktree : Tree
  pub expected : String
  pub validator : String
  pub args : ValidatorArgs

module _ (sha256 : String → String) where
  abbrev pub run_call : Call → World → World × Result ValidatorError Bool
  run_call c w =
      promote_or_reject sha256 c.now c.execution c.stage c.worktree c.expected c.validator c.args w

  unfoldable pub run_calls : List Call → World → World
  run_calls [] w = w
  run_calls (c ∷ cs) w = run_calls cs (run_call c w).0

  run_calls-closed :
      (id : String) (cs : List Call) (w : World)
      → is_fenced_ok w.db id ≡ false
      → is_fenced_ok (run_calls cs w).db id ≡ false
  unfolding run_calls
  run_calls-closed id [] w h = h
  run_calls-closed id (c ∷ cs) w h = run_calls-closed id cs (run_call c w).0 (
      promotion_keeps-closed id sha256 c.now c.execution c.stage c.worktree c.expected c.validator
        c.args w h)

  -- An execution promotes at most once: after a call for it has promoted, and any further calls for
  -- whatever executions, a call for it, with whatever stage, files, revision and validator, does
  -- not promote and leaves the main tree as those calls left it.
  pub promotes_once :
      (first : Call) (w : World)
      → (run_call first w).1 ≡ ok true
      → (between : List Call) (last : Call) → last.execution ≡ first.execution
      → let w' = run_calls between (run_call first w).0 in
        ((run_call last w').1 ≢ ok true) × ((run_call last w').0.repo ≡ w'.repo)
  promotes_once first w h between last same =
      let w' = run_calls between (run_call first w).0 in
      let closed : is_fenced_ok w'.db last.execution ≡ false =
        subst (λ id. is_fenced_ok w'.db id ≡ false) (sym same)
          (run_calls-closed first.execution between (run_call first w).0 (
            promoted-closed sha256 first.now first.execution first.stage first.worktree
              first.expected first.validator first.args w h)) in
      (
        closed_refuses sha256 last.now last.execution last.stage last.worktree last.expected
            last.validator last.args w' closed,
        closed_keeps sha256 last.now last.execution last.stage last.worktree last.expected
            last.validator last.args w' closed,
      )
