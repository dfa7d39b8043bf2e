-- ===== src/Orchestration/Branching/Turn.antt =====
-- What an evaluation of the branches does to one stage, for src/orchestration/branching.py.
use agentic_engineering_url.Prelude.{
  ℕ, String, ◌≡◌, refl, sym, ap, ◌∙◌, subst, inl, inr, Bool, true, false, some, List, [], ◌∷◌,
  arith, ◌==◌, if◌then◌else◌, eq→≡, Bool-cases,
}
use mathlib.Core.Option
use agentic_engineering_url.Sql.{fetch}
use agentic_engineering_url.Sql.Laws.{fetch-holds, fetch-update}
use agentic_engineering_url.Schema.{Db, Stage, Payload, Condition}
use agentic_engineering_url.Schema.Status.{StageStatus, is_pending}
use agentic_engineering_url.Orchestration.Scheduler.{set_status, is_in}
use agentic_engineering_url.Orchestration.Branching.{
  is_selected, condition_of, outcome_of, decide_id, apply_decision, decide_all, dependents,
  evaluate_branch_conditions,
}
use agentic_engineering_url.Orchestration.Branching.Open.{
  apply_decision-stages, after-closes, fetch-after, decide_all-leaves, is_open_id, after,
}

pub evaluate_found :
    (now : ℕ) (workflow parent : String) (db : Db) (row : Stage)
    → fetch (λ s. s.id == parent) db.flow.stages ≡ some row
    → (evaluate_branch_conditions now workflow parent db).0
      ≡ (decide_all now workflow (outcome_of row.postconditions) (dependents db.flow parent) db).0
unfolding evaluate_branch_conditions
evaluate_found now workflow parent db row h = rw (h, evaluate_branch_conditions) refl

module _ (now : ℕ) (workflow : String) (outcome : Payload) (id : String) (s : Stage) (c : Condition)
    (waits : is_pending s.status ≡ true) (has : condition_of s.preconditions ≡ some c) where
  decides :
      (stages : List Stage)
      → fetch (λ r. r.id == id) stages ≡ some s
      → decide_id outcome id stages ≡ some (is_selected outcome c)
  decides stages f = ground (arith, waits, has, f)

  decided_row :
      (b : Bool) (stages : List Stage)
      → fetch (λ r. r.id == id) stages ≡ some s
      → Option.map (λ r. r.status) (fetch (λ r. r.id == id) (after now id (some b) stages))
        ≡ some (if b then StageStatus.ready else StageStatus.skipped)
  decided_row true stages f = ground (
    arith,
    f,
    fetch-holds (λ r. r.id == id) stages s f,
    fetch-update (λ r. r.id == id) (λ r. r.id == id) (set_status StageStatus.ready now)
        (λ x t. refl) stages,
  )
  decided_row false stages f = ground (
    arith,
    f,
    fetch-holds (λ r. r.id == id) stages s f,
    fetch-update (λ r. r.id == id) (λ r. r.id == id) (set_status StageStatus.skipped now)
        (λ x t. refl) stages,
  )

  own_turn :
      (ids : List String) (db : Db)
      → fetch (λ r. r.id == id) db.flow.stages ≡ some s
      → let db' = apply_decision now workflow id (decide_id outcome id db.flow.stages) db in
        Option.map
          (λ r. r.status)
          (fetch (λ r. r.id == id) (decide_all now workflow outcome ids db').0.flow.stages)
        ≡ some (if is_selected outcome c then StageStatus.ready else StageStatus.skipped)
  own_turn ids db f =
      let d = decide_id outcome id db.flow.stages in
      let same = apply_decision-stages now workflow id d db in
      ap (Option.map (λ r. r.status)) (
        decide_all-leaves now workflow outcome ids id (apply_decision now workflow id d db) (
          subst (λ stages. is_open_id id stages ≡ false) (sym same)
            (after-closes now outcome id db.flow.stages d refl))
        ∙ ap (fetch (λ r. r.id == id)) same
        ∙ ap (λ o. fetch (λ r. r.id == id) (after now id o db.flow.stages))
            (decides db.flow.stages f))
      ∙ decided_row (is_selected outcome c) db.flow.stages f

  decide_all-decides :
      (ids : List String) (db : Db)
      → fetch (λ r. r.id == id) db.flow.stages ≡ some s
      → is_in ids id ≡ true
      → Option.map
          (λ r. r.status)
          (fetch (λ r. r.id == id) (decide_all now workflow outcome ids db).0.flow.stages)
        ≡ some (if is_selected outcome c then StageStatus.ready else StageStatus.skipped)
  unfolding decide_all
  decide_all-decides [] db f m = absurd (ground arith)
  decide_all-decides (x ∷ ids) db f m =
      let d = decide_id outcome x db.flow.stages in
      let same = apply_decision-stages now workflow x d db in
      elim (Bool-cases (id == x)) [
        | inr n ↦
            decide_all-decides ids (apply_decision now workflow x d db)
              (ap (fetch (λ r. r.id == id)) same ∙ (fetch-after now x d id db.flow.stages n ∙ f))
              (ground arith)
        | inl y ↦
            subst
              (λ z.
                Option.map (λ r. r.status)
                  (fetch (λ r. r.id == id)
                    (decide_all now workflow outcome ids (
                      apply_decision now workflow z (decide_id outcome z db.flow.stages)
                        db)).0.flow.stages)
                ≡ some (if is_selected outcome c then StageStatus.ready else StageStatus.skipped))
              (eq→≡ id x y) (own_turn ids db f)
      ]

pub decided_by_selection :
    (now : ℕ) (workflow parent : String) (db : Db) (row : Stage) (id : String) (s : Stage)
    (c : Condition)
    → fetch (λ r. r.id == parent) db.flow.stages ≡ some row
    → fetch (λ r. r.id == id) db.flow.stages ≡ some s
    → is_in (dependents db.flow parent) id ≡ true
    → is_pending s.status ≡ true
    → condition_of s.preconditions ≡ some c
    → Option.map
        (λ r. r.status)
        (fetch (λ r. r.id == id) (evaluate_branch_conditions now workflow parent db).0.flow.stages)
      ≡ some (
          if is_selected (outcome_of row.postconditions) c
          then StageStatus.ready
          else StageStatus.skipped)
decided_by_selection now workflow parent db row id s c found own member waits has =
    ap (λ d. Option.map (λ r. r.status) (fetch (λ r. r.id == id) d.flow.stages))
      (evaluate_found now workflow parent db row found)
    ∙ decide_all-decides now workflow (outcome_of row.postconditions) id s c waits has
        (dependents db.flow parent) db own member
