-- ===== src/Orchestration/Branching/Decided.antt =====
-- How and how often a branch is decided, for src/orchestration/branching.py.
use agentic_engineering_url.Prelude.{
  ℕ, String, ◌≡◌, ◌⊎◌, false≢true, refl, sym, ap, ◌∙◌, subst, inl, inr, Bool, true, false, some,
  map, arith, ◌==◌, if◌then◌else◌, Bool-cases, Option-cases, All, All-map,
}
use mathlib.Core.Option
use agentic_engineering_url.Sql.{select, fetch}
use agentic_engineering_url.Sql.Laws.{fetch-update}
use agentic_engineering_url.Schema.{Db, FlowDb, Stage, Payload, Condition, Postconditions}
use agentic_engineering_url.Schema.Status.{StageStatus, is_pending}
use agentic_engineering_url.Orchestration.Scheduler.{is_in}
use agentic_engineering_url.Orchestration.Branching.{
  with_flow, set_stage_outcome, is_selected, condition_of, outcome_of, decide_all, dependents,
  evaluate_branch_conditions,
}
use agentic_engineering_url.Orchestration.Branching.Meaning.{Holds, selected-Holds, Holds-selected}
use agentic_engineering_url.Orchestration.Branching.Turn.{evaluate_found, decided_by_selection}
use agentic_engineering_url.Orchestration.Branching.Open.{
  decide_all-closes, decide_all-idle, decide_all-dependencies, is_open_id,
}

still_idle :
    (now : ℕ) (workflow parent : String) (db : Db)
    → All (λ id. is_open_id id db.flow.stages ≡ false) (dependents db.flow parent)
    → (evaluate_branch_conditions now workflow parent db).0 ≡ db
unfolding evaluate_branch_conditions
still_idle now workflow parent db h =
    elim (Option-cases (fetch (λ s. s.id == parent) db.flow.stages)) [
      | inl n ↦ rw (n, evaluate_branch_conditions) refl
      | inr q ↦
          evaluate_found now workflow parent db q.0 q.1
          ∙ ap (λ r. r.0)
              (decide_all-idle now workflow (outcome_of q.0.postconditions)
                (dependents db.flow parent) db h)
    ]

rewritten-closed :
    (parent : String) (outcome : Payload) (id : String) (db : FlowDb)
    → is_open_id id db.stages ≡ false
    → is_open_id id (set_stage_outcome parent outcome db).stages ≡ false
unfolding set_stage_outcome
rewritten-closed parent outcome id db h =
    let e =
      fetch-update (λ s. s.id == parent) (λ s. s.id == id)
        (λ s. record s { postconditions = Postconditions.outcome outcome }) (λ x t. refl)
        db.stages in
    elim (Option-cases (fetch (λ s. s.id == id) db.stages)) [
      | inl n ↦ ground (arith, n, e)
      | inr q ↦ ground (arith, q.1, e)
    ]

decided-closed :
    (now : ℕ) (workflow parent : String) (outcome rewritten : Payload) (db : Db)
    → let db' = (decide_all now workflow outcome (dependents db.flow parent) db).0 in
      let flow = set_stage_outcome parent rewritten db'.flow in
      All (λ id. is_open_id id flow.stages ≡ false) (dependents flow parent)
unfolding set_stage_outcome
decided-closed now workflow parent outcome rewritten db =
    let ids = dependents db.flow parent in
    let db' = (decide_all now workflow outcome ids db).0 in
    subst
      (λ ds.
        All (λ id. is_open_id id (set_stage_outcome parent rewritten db'.flow).stages ≡ false)
          (map (λ d. d.stage_id) (select (λ d. d.depends_on_stage_id == parent) ds)))
      (sym (decide_all-dependencies now workflow outcome ids db))
      (All-map ids (λ id. rewritten-closed parent rewritten id db'.flow)
        (decide_all-closes now workflow outcome ids db))

-- Once the branches of a stage in the table are decided, a further evaluation of them changes
-- nothing, not even after the outcome of the stage has been rewritten.
pub decided_once :
    (now : ℕ) (workflow parent : String) (db : Db) (row : Stage)
    → fetch (λ s. s.id == parent) db.flow.stages ≡ some row
    → (later : ℕ) (outcome : Payload)
    → let db' = (evaluate_branch_conditions now workflow parent db).0 in
      let db'' = with_flow db' (set_stage_outcome parent outcome db'.flow) in
      (evaluate_branch_conditions later workflow parent db'').0 ≡ db''
decided_once now workflow parent db row h later outcome =
    let outcome₀ = outcome_of row.postconditions in
    let first = decide_all now workflow outcome₀ (dependents db.flow parent) db in
    subst
      (λ d.
        let d' = with_flow d (set_stage_outcome parent outcome d.flow) in
        (evaluate_branch_conditions later workflow parent d').0 ≡ d')
      (sym (evaluate_found now workflow parent db row h))
      (still_idle later workflow parent
        (with_flow first.0 (set_stage_outcome parent outcome first.0.flow))
        (decided-closed now workflow parent outcome₀ outcome db))

-- A pending stage that has a condition and depends on a parent in the table is decided by the
-- evaluation: either the condition has a field, a value and the operator "eq" or "ne", the parent's
-- outcome has the field, and its value there is the same as the condition's for "eq", or another for
-- "ne", where true is the number 1 and false is 0, and the stage is made ready; or one of these is
-- not so, and it is skipped.
pub condition_decides :
    (now : ℕ) (workflow parent : String) (db : Db) (row : Stage) (id : String) (s : Stage)
    (c : Condition)
    → fetch (λ r. r.id == parent) db.flow.stages ≡ some row
    → fetch (λ r. r.id == id) db.flow.stages ≡ some s
    → is_in (dependents db.flow parent) id ≡ true
    → is_pending s.status ≡ true
    → condition_of s.preconditions ≡ some c
    → let db' = (evaluate_branch_conditions now workflow parent db).0 in
      let status = Option.map (λ r. r.status) (fetch (λ r. r.id == id) db'.flow.stages) in
      (Holds (outcome_of row.postconditions) c × (status ≡ some StageStatus.ready))
      ⊎ (¬ (Holds (outcome_of row.postconditions) c) × (status ≡ some StageStatus.skipped))
condition_decides now workflow parent db row id s c found own member waits has =
    let outcome = outcome_of row.postconditions in
    let decided =
      decided_by_selection now workflow parent db row id s c found own member waits has in
    let status_if : Bool → StageStatus =
      λ b. if b then StageStatus.ready else StageStatus.skipped in
    elim (Bool-cases (is_selected outcome c)) [
      | inl y ↦ inl (selected-Holds outcome c y, decided ∙ ap (λ b. some (status_if b)) y)
      | inr n ↦ inr (
        λ k. false≢true (sym n ∙ Holds-selected outcome c k),
        decided ∙ ap (λ b. some (status_if b)) n,
      )
    ]
