-- ===== src/Orchestration/Workspace/Closed.antt =====
-- An execution that is not claimed or running stays so under calls of promote_or_reject, of
-- src/orchestration/workspace.py.
use agentic_engineering_url.Prelude.{
  ℕ, String, ◌≡◌, refl, sym, subst, inl, inr, Bool, true, false, not, ◌&&◌, none, some, List, [],
  ◌∷◌, arith, ◌==◌, nat_eq, Bool-cases, Option-cases, Result-cases,
}
use agentic_engineering_url.Sql.{fetch, update, count}
use agentic_engineering_url.Sql.Laws.{fetch-holds, fetch-update}
use agentic_engineering_url.Schema.{FlowDb, Execution, Evidence}
use agentic_engineering_url.Schema.Status.{StageStatus, ExecutionStatus, is_live, is_abandoned}
use agentic_engineering_url.Orchestration.Scheduler.{fenced, set_status, set_execution}
use agentic_engineering_url.Orchestration.Validators.{Tree, ValidatorArgs, run_builtin_validator}
use agentic_engineering_url.Orchestration.Workspace.{
  World, is_fenced_ok, is_revision_ok, record_detail, pass_gates, promote_or_reject,
}
use agentic_engineering_url.Sql.Laws.{count-update_same}

fetched-fenced :
    (id : String) (xs : List Execution) (e : Execution)
    → fetch (λ x. x.id == id) xs ≡ some e
    → is_live e.status ≡ true
    → nat_eq (count (fenced id) xs) 0 ≡ false
unfolding fetch count
fetched-fenced id [] e f l = absurd (ground arith)
fetched-fenced id (x ∷ xs) e f l = ground (arith, fetched-fenced id xs e)

pub fenced-count :
    (id : String) (evidence : Evidence) (db : FlowDb)
    → is_fenced_ok db id ≡ true
    → nat_eq (count (fenced id) (record_detail id evidence db).executions) 0 ≡ false
fenced-count id evidence db h =
    subst (λ n. nat_eq n 0 ≡ false)
      (sym (
        count-update_same (λ e. e.id == id) (fenced id)
          (λ e. record e { outcome_detail = some evidence }) (λ e. refl) db.executions))
      (elim (Option-cases (fetch (λ e. e.id == id) db.executions)) [
        | inl n ↦ absurd (ground (arith, n))
        | inr q ↦ fetched-fenced id db.executions q.0 q.1 (ground (arith, q.1))
      ])

completed-closed :
    (id : String) (db db' : FlowDb)
    → db'.executions ≡ update (fenced id) (set_execution ExecutionStatus.completed) db.executions
    → is_fenced_ok db' id ≡ false
completed-closed id db db' h =
    let e =
      fetch-update (fenced id) (λ e. e.id == id) (set_execution ExecutionStatus.completed)
        (λ x t. refl) db.executions in
    subst (λ xs. is_fenced_ok (record db' { executions = xs }) id ≡ false) (sym h)
      (elim (Option-cases (fetch (λ e. e.id == id) db.executions)) [
        | inl n ↦ ground (arith, n, e)
        | inr q ↦ ground (arith, q.1, e, fetch-holds (λ e. e.id == id) db.executions q.0)
      ])

pub gates-promoted :
    (now : ℕ) (execution stage : String) (worktree : Tree) (fo ro pa : Bool) (w : World)
    → (pass_gates now execution stage worktree fo ro pa w).1 ≡ true
    → is_fenced_ok (pass_gates now execution stage worktree fo ro pa w).0.db execution ≡ false
unfolding pass_gates
gates-promoted now execution stage worktree false ro pa w h = absurd (ground arith)
gates-promoted now execution stage worktree true false pa w h = absurd (ground arith)
gates-promoted now execution stage worktree true true false w h = absurd (ground arith)
gates-promoted now execution stage worktree true true true w h =
    elim (Bool-cases (nat_eq (count (fenced execution) w.db.executions) 0)) [
      | inl y ↦ absurd (ground arith)
      | inr n ↦ rw n (
          completed-closed execution w.db
            (record w.db {
              executions =
                  update (fenced execution) (set_execution ExecutionStatus.completed)
                    w.db.executions;
              stages =
                  update (λ s. s.id == stage) (set_status StageStatus.succeeded now) w.db.stages;
            })
            refl)
    ]

abbrev open_in : String → List Execution → Bool
open_in id xs = elim (fetch (λ e. e.id == id) xs) [ none ↦ false | some e ↦ is_live e.status ]

module _ (id : String) where
  closed-update :
      (p : Execution → Bool) (f : Execution → Execution)
      → ((e : Execution) → (f e).id ≡ e.id)
      → ((e : Execution) → is_live e.status ≡ false → is_live (f e).status ≡ false)
      → (xs : List Execution) → open_in id xs ≡ false
      → open_in id (update p f xs) ≡ false
  unfolding fetch update
  closed-update p f same dead [] h = refl
  closed-update p f same dead (x ∷ xs) h = elim (Bool-cases (x.id == id)) [
    | inl y ↦ elim (Bool-cases (p x)) [
      | inl t ↦ ground (arith, y, t, same x, dead x (ground (arith, y)))
      | inr n ↦ ground (arith, y, n)
    ]
    | inr m ↦ elim (Bool-cases (p x)) [
      | inl t ↦ ground (arith, m, t, same x, closed-update p f same dead xs (ground (arith, m)))
      | inr n ↦ ground (arith, m, n, closed-update p f same dead xs (ground (arith, m)))
    ]
  ]

  closed_set :
      (p : Execution → Bool) (status : ExecutionStatus) (xs : List Execution)
      → is_live status ≡ false
      → open_in id xs ≡ false
      → open_in id (update p (set_execution status) xs) ≡ false
  closed_set p status xs d h = closed-update p (set_execution status) (λ e. refl) (λ e k. d) xs h

  gates_keep-closed :
      (now : ℕ) (execution stage : String) (worktree : Tree) (fo ro pa : Bool) (w : World)
      → is_fenced_ok w.db id ≡ false
      → is_fenced_ok (pass_gates now execution stage worktree fo ro pa w).0.db id ≡ false
  unfolding pass_gates
  gates_keep-closed now execution stage worktree false ro pa w h =
      closed_set (λ e. (e.id == execution) && not (is_abandoned e.status)) ExecutionStatus.abandoned
        w.db.executions refl h
  gates_keep-closed now execution stage worktree true false pa w h =
      closed_set (λ e. e.id == execution) ExecutionStatus.failed w.db.executions refl h
  gates_keep-closed now execution stage worktree true true false w h =
      closed_set (λ e. e.id == execution) ExecutionStatus.failed w.db.executions refl h
  gates_keep-closed now execution stage worktree true true true w h =
      elim (Bool-cases (nat_eq (count (fenced execution) w.db.executions) 0)) [
        | inl y ↦ rw y h
        | inr n ↦
            rw n (closed_set (fenced execution) ExecutionStatus.completed w.db.executions refl h)
      ]

  -- Whatever a call is for, it does not open a closed execution.
  pub promotion_keeps-closed :
      (sha256 : String → String) (now : ℕ) (execution stage : String) (worktree : Tree)
      (expected validator : String) (args : ValidatorArgs) (w : World)
      → is_fenced_ok w.db id ≡ false
      → is_fenced_ok
          (promote_or_reject sha256 now execution stage worktree expected validator args w).0.db
          id
        ≡ false
  unfolding promote_or_reject
  promotion_keeps-closed sha256 now execution stage worktree expected validator args w h =
      elim (Result-cases (run_builtin_validator sha256 validator worktree args)) [
        | inr e ↦ rw (e.1, promote_or_reject) h
        | inl r ↦
            rw (r.1, promote_or_reject)
              (gates_keep-closed now execution stage worktree (is_fenced_ok w.db execution)
                (is_revision_ok w.db stage expected) r.0.passed
                (record w { db = record_detail execution r.0.evidence w.db })
                (closed-update (λ e. e.id == execution)
                  (λ e. record e { outcome_detail = some r.0.evidence }) (λ e. refl) (λ e k. k)
                  w.db.executions h))
      ]
