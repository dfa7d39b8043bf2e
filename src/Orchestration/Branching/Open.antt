-- ===== src/Orchestration/Branching/Open.antt =====
-- What the decisions on the branches of a stage leave open, for src/orchestration/branching.py.
use agentic_engineering_url.Prelude.{
  ℕ, String, ◌≡◌, refl, sym, ap, ◌∙◌, subst, inl, inr, Bool, true, false, ◌&&◌, Option, none, some,
  List, [], ◌∷◌, arith, ◌==◌, is_some, eq→≡, Bool-cases, Option-cases, All,
}
use agentic_engineering_url.Sql.{fetch, update}
use agentic_engineering_url.Sql.Laws.{fetch-holds, fetch-update}
use agentic_engineering_url.Observability.Audit.{record_event}
use agentic_engineering_url.Schema.{Db, Stage, Payload}
use agentic_engineering_url.Schema.Status.{StageStatus, is_pending}
use agentic_engineering_url.Orchestration.Scheduler.{set_status}
use agentic_engineering_url.Orchestration.Branching.{
  condition_of, decide, decide_id, apply_decision, no_decisions, decide_all,
}

-- A row that waits for a decision.
abbrev pub is_open : Stage → Bool
is_open s = is_pending s.status && is_some (condition_of s.preconditions)

abbrev pub is_open_id : String → List Stage → Bool
is_open_id id stages = elim (fetch (λ s. s.id == id) stages) [ none ↦ false | some s ↦ is_open s ]

closed_row : (outcome : Payload) (s : Stage) → is_open s ≡ false → decide outcome s ≡ none
closed_row outcome s h = elim (Option-cases (condition_of s.preconditions)) [
  | inl n ↦ ground (arith, n)
  | inr q ↦ ground (arith, q.1)
]

closed_id :
    (outcome : Payload) (id : String) (stages : List Stage)
    → is_open_id id stages ≡ false
    → decide_id outcome id stages ≡ none
closed_id outcome id stages h = elim (Option-cases (fetch (λ s. s.id == id) stages)) [
  | inl n ↦ ground (arith, n)
  | inr q ↦ ground (arith, q.1, closed_row outcome q.0)
]

open_row : (outcome : Payload) (s : Stage) → decide outcome s ≡ none → is_open s ≡ false
open_row outcome s h = elim (Option-cases (condition_of s.preconditions)) [
  | inl n ↦ ground (arith, n)
  | inr q ↦ ground (arith, q.1)
]

-- The stages after a decision.
abbrev pub after : ℕ → String → Option Bool → List Stage → List Stage
after now id none stages = stages
after now id (some true) stages = update (λ s. s.id == id) (set_status StageStatus.ready now) stages
after now id (some false) stages =
    update (λ s. s.id == id) (set_status StageStatus.skipped now) stages

pub apply_decision-stages :
    (now : ℕ) (workflow id : String) (d : Option Bool) (db : Db)
    → (apply_decision now workflow id d db).flow.stages ≡ after now id d db.flow.stages
unfolding apply_decision record_event
apply_decision-stages now workflow id none db = refl
apply_decision-stages now workflow id (some true) db = refl
apply_decision-stages now workflow id (some false) db = refl

update-closed :
    (p : Stage → Bool) (status : StageStatus) (now : ℕ) (id : String) (stages : List Stage)
    → is_pending status ≡ false
    → is_open_id id stages ≡ false
    → is_open_id id (update p (set_status status now) stages) ≡ false
update-closed p status now id stages k h = elim (Option-cases (fetch (λ s. s.id == id) stages)) [
  | inl n ↦
      ground
        (arith, n, fetch-update p (λ s. s.id == id) (set_status status now) (λ x t. refl) stages)
  | inr q ↦
      ground
        (arith, q.1, fetch-update p (λ s. s.id == id) (set_status status now) (λ x t. refl) stages)
]

update-closes :
    (status : StageStatus) (now : ℕ) (id : String) (stages : List Stage)
    → is_pending status ≡ false
    → is_open_id id (update (λ s. s.id == id) (set_status status now) stages) ≡ false
update-closes status now id stages k = elim (Option-cases (fetch (λ s. s.id == id) stages)) [
  | inl n ↦ ground (
    arith,
    n,
    fetch-update (λ s. s.id == id) (λ s. s.id == id) (set_status status now) (λ x t. refl) stages,
  )
  | inr q ↦ ground (
    arith,
    q.1,
    fetch-holds (λ s. s.id == id) stages q.0,
    fetch-update (λ s. s.id == id) (λ s. s.id == id) (set_status status now) (λ x t. refl) stages,
  )
]

-- Whatever is decided, a closed row stays closed, and the row that it is about is closed.
after-closed :
    (now : ℕ) (other : String) (d : Option Bool) (id : String) (stages : List Stage)
    → is_open_id id stages ≡ false
    → is_open_id id (after now other d stages) ≡ false
after-closed now other none id stages h = h
after-closed now other (some true) id stages h =
    update-closed (λ s. s.id == other) StageStatus.ready now id stages refl h
after-closed now other (some false) id stages h =
    update-closed (λ s. s.id == other) StageStatus.skipped now id stages refl h

open_id :
    (outcome : Payload) (id : String) (stages : List Stage)
    → decide_id outcome id stages ≡ none
    → is_open_id id stages ≡ false
open_id outcome id stages h = elim (Option-cases (fetch (λ s. s.id == id) stages)) [
  | inl n ↦ ground (arith, n)
  | inr q ↦ ground (arith, q.1, open_row outcome q.0)
]

pub after-closes :
    (now : ℕ) (outcome : Payload) (id : String) (stages : List Stage) (d : Option Bool)
    → decide_id outcome id stages ≡ d
    → is_open_id id (after now id d stages) ≡ false
after-closes now outcome id stages none e = open_id outcome id stages e
after-closes now outcome id stages (some true) e =
    update-closes StageStatus.ready now id stages refl
after-closes now outcome id stages (some false) e =
    update-closes StageStatus.skipped now id stages refl

decide_all-closed :
    (now : ℕ) (workflow : String) (outcome : Payload) (ids : List String) (id : String) (db : Db)
    → is_open_id id db.flow.stages ≡ false
    → is_open_id id (decide_all now workflow outcome ids db).0.flow.stages ≡ false
unfolding decide_all
decide_all-closed now workflow outcome [] id db h = h
decide_all-closed now workflow outcome (x ∷ ids) id db h =
    let d = decide_id outcome x db.flow.stages in
    decide_all-closed now workflow outcome ids id (apply_decision now workflow x d db) (
      subst (λ stages. is_open_id id stages ≡ false)
        (sym (apply_decision-stages now workflow x d db))
        (after-closed now x d id db.flow.stages h))

pub decide_all-closes :
    (now : ℕ) (workflow : String) (outcome : Payload) (ids : List String) (db : Db)
    → All (λ id. is_open_id id (decide_all now workflow outcome ids db).0.flow.stages ≡ false) ids
unfolding decide_all
decide_all-closes now workflow outcome [] db = tt
decide_all-closes now workflow outcome (x ∷ ids) db =
    let d = decide_id outcome x db.flow.stages in
    (
      decide_all-closed now workflow outcome ids x (apply_decision now workflow x d db) (
          subst (λ stages. is_open_id x stages ≡ false)
            (sym (apply_decision-stages now workflow x d db))
            (after-closes now outcome x db.flow.stages d refl)),
      decide_all-closes now workflow outcome ids (apply_decision now workflow x d db),
    )

pub decide_all-idle :
    (now : ℕ) (workflow : String) (outcome : Payload) (ids : List String) (db : Db)
    → All (λ id. is_open_id id db.flow.stages ≡ false) ids
    → decide_all now workflow outcome ids db ≡ (db, no_decisions)
unfolding decide_all apply_decision
decide_all-idle now workflow outcome [] db h = refl
decide_all-idle now workflow outcome (x ∷ ids) db h =
    rw (closed_id outcome x db.flow.stages h.0, decide_all-idle now workflow outcome ids db h.1)
      refl

apply_decision-dependencies :
    (now : ℕ) (workflow id : String) (d : Option Bool) (db : Db)
    → (apply_decision now workflow id d db).flow.dependencies ≡ db.flow.dependencies
unfolding apply_decision record_event
apply_decision-dependencies now workflow id none db = refl
apply_decision-dependencies now workflow id (some true) db = refl
apply_decision-dependencies now workflow id (some false) db = refl

pub decide_all-dependencies :
    (now : ℕ) (workflow : String) (outcome : Payload) (ids : List String) (db : Db)
    → (decide_all now workflow outcome ids db).0.flow.dependencies ≡ db.flow.dependencies
unfolding decide_all
decide_all-dependencies now workflow outcome [] db = refl
decide_all-dependencies now workflow outcome (x ∷ ids) db =
    let d = decide_id outcome x db.flow.stages in
    decide_all-dependencies now workflow outcome ids (apply_decision now workflow x d db)
    ∙ apply_decision-dependencies now workflow x d db

fetch-other :
    (now : ℕ) (status : StageStatus) (x id : String) (stages : List Stage)
    → (id == x) ≡ false
    → fetch (λ s. s.id == id) (update (λ s. s.id == x) (set_status status now) stages)
      ≡ fetch (λ s. s.id == id) stages
fetch-other now status x id stages h =
    let e =
      fetch-update (λ s. s.id == x) (λ s. s.id == id) (set_status status now) (λ r t. refl)
        stages in
    elim (Option-cases (fetch (λ s. s.id == id) stages)) [
      | inl n ↦ ground (arith, n, e)
      | inr q ↦
          let own = eq→≡ q.0.id id (fetch-holds (λ s. s.id == id) stages q.0 q.1) in
          ground (arith, q.1, e, subst (λ y. (y == x) ≡ false) (sym own) h)
    ]

pub fetch-after :
    (now : ℕ) (x : String) (d : Option Bool) (id : String) (stages : List Stage)
    → (id == x) ≡ false
    → fetch (λ s. s.id == id) (after now x d stages) ≡ fetch (λ s. s.id == id) stages
fetch-after now x none id stages h = refl
fetch-after now x (some true) id stages h = fetch-other now StageStatus.ready x id stages h
fetch-after now x (some false) id stages h = fetch-other now StageStatus.skipped x id stages h

after-leaves :
    (now : ℕ) (outcome : Payload) (x id : String) (stages : List Stage)
    → is_open_id id stages ≡ false
    → fetch (λ s. s.id == id) (after now x (decide_id outcome x stages) stages)
      ≡ fetch (λ s. s.id == id) stages
after-leaves now outcome x id stages h = elim (Bool-cases (id == x)) [
  | inr n ↦ fetch-after now x (decide_id outcome x stages) id stages n
  | inl y ↦
      rw (closed_id outcome x stages (subst (λ z. is_open_id z stages ≡ false) (eq→≡ id x y) h))
        refl
]

-- A closed row is left as it is.
pub decide_all-leaves :
    (now : ℕ) (workflow : String) (outcome : Payload) (ids : List String) (id : String) (db : Db)
    → is_open_id id db.flow.stages ≡ false
    → fetch (λ s. s.id == id) (decide_all now workflow outcome ids db).0.flow.stages
      ≡ fetch (λ s. s.id == id) db.flow.stages
unfolding decide_all
decide_all-leaves now workflow outcome [] id db h = refl
decide_all-leaves now workflow outcome (x ∷ ids) id db h =
    let d = decide_id outcome x db.flow.stages in
    let db' = apply_decision now workflow x d db in
    let same = apply_decision-stages now workflow x d db in
    decide_all-leaves now workflow outcome ids id db' (
      subst (λ stages. is_open_id id stages ≡ false) (sym same)
        (after-closed now x d id db.flow.stages h))
    ∙ ap (fetch (λ s. s.id == id)) same
    ∙ after-leaves now outcome x id db.flow.stages h
