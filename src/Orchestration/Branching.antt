-- ===== src/Orchestration/Branching.antt =====
-- src/orchestration/branching.py: conditional branches, decided on the persisted outcome of the
-- stage that they follow.
pub mod Open
pub mod Meaning
pub mod Turn
pub mod Decided
use agentic_engineering_url.Prelude.{
  ℕ, String, Bool, true, false, not, Option, none, some, List, [], ◌∷◌, map, ◌==◌, nat_eq,
  if◌then◌else◌, Result, ok, err, ◌>>=◌, ◌>>◌,
}
use mathlib.Core.Option
use agentic_engineering_url.Sql.{select, fetch, update}
use agentic_engineering_url.Schema.{
  Db, FlowDb, Stage, Json, Payload, Condition, Preconditions, Postconditions, Artifact,
}
use agentic_engineering_url.Schema.Status.{StageStatus, EffectClass, ActorType, is_pending}
use agentic_engineering_url.Observability.Audit.{record_event}
use agentic_engineering_url.Orchestration.Models.{GraphError, StageSpec, add_stage}
use agentic_engineering_url.Orchestration.Scheduler.{set_status}

abbrev pub with_flow : Db → FlowDb → Db
with_flow db flow = record db { flow = flow }

unfoldable pub set_stage_outcome : String → Payload → FlowDb → FlowDb
set_stage_outcome id outcome db = record db {
  stages =
      update (λ s. s.id == id) (λ s. record s { postconditions = Postconditions.outcome outcome })
        db.stages;
}

abbrev branch_spec : (id name parent revision : String) → StageSpec
branch_spec id name parent revision = record {
  id = id;
  name = name;
  effect_class = EffectClass.idempotent;
  artifact_revision = revision;
  timeout_seconds = 5;
  depends_on = parent ∷ [];
}

-- The condition is stored only when `add_stage` has not raised.
unfoldable pub add_conditional_branch :
    (workflow : String)
    → (id name parent : String) → (group : String) → Condition
    → (revision : String) → ℕ
    → FlowDb
    → FlowDb × Result GraphError (Unit {0})
add_conditional_branch workflow id name parent group condition revision now db =
    let (db', made) = add_stage workflow (branch_spec id name parent revision) now db in
    elim made [
      | err e ↦ (db', err e)
      | ok u ↦ (
        record db' {
          stages =
              update (λ s. s.id == id)
                (λ s. record s { preconditions = Preconditions.branch group condition }) db'.stages;
        },
        ok u,
      )
    ]

abbrev as_number : Bool → ℕ
as_number true = 1
as_number false = 0

-- Python's `==` on decoded values, where `True` is 1 and `False` is 0.
unfoldable pub json_eq : Json → Json → Bool
json_eq (Json.text a) (Json.text b) = a == b
json_eq (Json.number a) (Json.number b) = nat_eq a b
json_eq (Json.number a) (Json.boolean b) = nat_eq a (as_number b)
json_eq (Json.boolean a) (Json.number b) = nat_eq (as_number a) b
json_eq (Json.boolean a) (Json.boolean b) = nat_eq (as_number a) (as_number b)
json_eq Json.null Json.null = true
json_eq _ _ = false

pub data ConditionError : Type 0 where
  key_error value_error : ConditionError

abbrev key {ℓ} : {A : Type ℓ} → Option A → Result ConditionError A
key (some a) = ok a
key none = err key_error

unfoldable pub get : String → Payload → Option Json
get field [] = none
get field ((name, value) ∷ rest) =
    let later = get field rest in if name == field then some value else later

abbrev compare_values : (op : String) → (actual expected : Json) → Result ConditionError Bool
compare_values op actual expected =
    if op == "eq"
    then ok (json_eq actual expected)
    else if op == "ne"
    then ok (not (json_eq actual expected))
    else err value_error

unfoldable pub evaluate_condition : Condition → Payload → Result ConditionError Bool
evaluate_condition condition outcome = key condition.field >>= λ field. key condition.op >>= λ op.
    key condition.value >>= λ expected.
    key (get field outcome) >>= λ actual. compare_values op actual expected

-- json.loads(…) if … else {}, and {} if the text is not JSON
abbrev pub outcome_of : Postconditions → Payload
outcome_of (Postconditions.outcome outcome) = outcome
outcome_of _ = []

-- The condition, if the text is JSON and has one.
abbrev pub condition_of : Preconditions → Option Condition
condition_of (Preconditions.branch group condition) = some condition
condition_of _ = none

-- Missing and malformed conditions are not selected either.
unfoldable pub is_selected : Payload → Condition → Bool
is_selected outcome condition = elim (evaluate_condition condition outcome) [
  | ok b ↦ b
  | err _ ↦ false
]

-- What the loop decides on a row: nothing, to select it, or to skip it.
abbrev pub decide : Payload → Stage → Option Bool
decide outcome s =
    if is_pending s.status
    then Option.map (is_selected outcome) (condition_of s.preconditions)
    else none

abbrev pub decide_id : Payload → String → List Stage → Option Bool
decide_id outcome id stages = elim (fetch (λ s. s.id == id) stages) [
  | none ↦ none
  | some s ↦ decide outcome s
]

abbrev set_branch : StageStatus → (action result : String) → ℕ → (workflow id : String) → Db → Db
set_branch status action result now workflow id db =
    record_event ActorType.system action (Artifact.stage id) result (some workflow) now (
      with_flow db (record db.flow {
        stages = update (λ s. s.id == id) (set_status status now) db.flow.stages;
      }))

unfoldable pub apply_decision : ℕ → (workflow id : String) → Option Bool → Db → Db
apply_decision now workflow id none db = db
apply_decision now workflow id (some true) db =
    set_branch StageStatus.ready "branch_selected" "ready" now workflow id db
apply_decision now workflow id (some false) db =
    set_branch StageStatus.skipped "branch_not_selected" "skipped" now workflow id db

pub record Decisions : Type 0 where
  pub selected : List String
  pub skipped : List String

abbrev pub no_decisions : Decisions
no_decisions = record { selected = []; skipped = [] }

abbrev noted : String → Option Bool → Decisions → Decisions
noted id none rest = rest
noted id (some true) rest = record rest { selected = id ∷ rest.selected }
noted id (some false) rest = record rest { skipped = id ∷ rest.skipped }

unfoldable pub decide_all : ℕ → (workflow : String) → Payload → List String → Db → Db × Decisions
decide_all now workflow outcome [] db = (db, no_decisions)
decide_all now workflow outcome (id ∷ ids) db =
    let d = decide_id outcome id db.flow.stages in
    let (last, rest) = decide_all now workflow outcome ids (apply_decision now workflow id d db) in
    (last, noted id d rest)

abbrev pub dependents : FlowDb → String → List String
dependents db parent =
    map (λ d. d.stage_id) (select (λ d. d.depends_on_stage_id == parent) db.dependencies)

pub data BranchError : Type 0 where
  unknown_parent_stage : BranchError

unfoldable pub evaluate_branch_conditions :
    ℕ → (workflow parent : String) → Db → Db × Result BranchError Decisions
evaluate_branch_conditions now workflow parent db =
    elim (fetch (λ s. s.id == parent) db.flow.stages) [
      | none ↦ (db, err unknown_parent_stage)
      | some row ↦
          let (db', decisions) =
            decide_all now workflow (outcome_of row.postconditions) (dependents db.flow parent)
              db in
          (db', ok decisions)
    ]
