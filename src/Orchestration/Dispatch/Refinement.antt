-- ===== src/Orchestration/Dispatch/Refinement.antt =====
-- Tasks that run at once do what the stages' successes one by one would do, for
-- src/orchestration/scheduler.py.
use mathlib.Core.Option
use agentic_engineering_url.Prelude.{
  ℕ, ◌+◌, String, ◌≡◌, refl, sym, ap, ◌∙◌, subst, inl, inr, true, false, Option, List, [], ◌∷◌, map,
  arith, ◌==◌, eq→≡, if◌then◌else◌, Bool-cases,
}
use agentic_engineering_url.Schema.{FlowDb}
use agentic_engineering_url.Schema.Status.{StageStatus}
use agentic_engineering_url.Orchestration.Scheduler.{is_in}
use agentic_engineering_url.Orchestration.Scheduler.Ready.{HasUniqueIds, AreDistinct}
use agentic_engineering_url.Orchestration.Dispatch.{
  Phase, Task, Turn, step_at, gather, new_task, has_ended, all_ended, any_raised, Dispatched,
  dispatch_ready_stages_parallel,
}
use agentic_engineering_url.Orchestration.Dispatch.Effects.{stage_at, seen, is_startable}
use agentic_engineering_url.Orchestration.Dispatch.Steps.{InStep, AllInStep}
use agentic_engineering_url.Orchestration.Dispatch.Turns.{
  stages_of, executions_of, same_tasks, frame_at, turn-InStep,
}

module _ (worker : String) where
  gather-InStep :
      (turns : List Turn) (ts : List Task) (db0 db : FlowDb)
      → HasUniqueIds db.stages
      → AreDistinct (stages_of ts)
      → AreDistinct (executions_of ts)
      → AllInStep db0 db ts
      → let (db', ts') = gather worker turns ts db in
        AllInStep db0 db' ts' × (stages_of ts' ≡ stages_of ts)
  unfolding gather
  gather-InStep [] ts db0 db u a b h = (h, refl)
  gather-InStep (turn ∷ turns) ts db0 db u a b h =
      let step = turn-InStep worker turn db0 turn.position ts db u a b h in
      let same = same_tasks worker turn turn.position ts db in
      let (db', ts') = step_at worker turn turn.position ts db in
      let rest =
        gather-InStep turns ts' db0 db' step.0 (subst AreDistinct (sym same.0) a)
          (subst AreDistinct (sym same.1) b) step.1 in
      (rest.0, rest.1 ∙ same.0)

  gather_apart :
      (turns : List Turn) (ts : List Task) (db : FlowDb) (id : String)
      → is_in (stages_of ts) id ≡ false
      → seen (gather worker turns ts db).0 id ≡ seen db id
  unfolding gather
  gather_apart [] ts db id h = refl
  gather_apart (turn ∷ turns) ts db id h =
      let same = same_tasks worker turn turn.position ts db in
      let (db', ts') = step_at worker turn turn.position ts db in
      gather_apart turns ts' db' id (ap (λ xs. is_in xs id) same.0 ∙ h)
      ∙ frame_at worker turn turn.position ts db id h

-- The specification, which knows of no tasks: a stage that is ready succeeds with one attempt and
-- one execution more, and any other stays as it is.
abbrev pub succeeded_once : FlowDb → String → Option (StageStatus × ℕ) × ℕ
succeeded_once db id =
    if is_startable db id
    then (
      Option.map (λ s. (StageStatus.succeeded, s.attempt_count + 1)) (stage_at db id),
      (seen db id).1 + 1,
    )
    else seen db id

module _ (db0 db : FlowDb) where
  ended_task :
      (p : Phase) (t : Task)
      → has_ended p ≡ true
      → InStep db0 db p t
      → seen db t.stage_id ≡ succeeded_once db0 t.stage_id
  ended_task Phase.lost t e h = rw h.1 h.0
  ended_task Phase.finished t e h = rw h.1 h.0
  ended_task Phase.waiting t e h = absurd (ground arith)
  ended_task Phase.executing t e h = absurd (ground arith)
  ended_task Phase.raised t e h = absurd (ground arith)

  ended_tasks :
      (ts : List Task) (id : String)
      → all_ended ts ≡ true
      → is_in (stages_of ts) id ≡ true
      → AllInStep db0 db ts
      → seen db id ≡ succeeded_once db0 id
  ended_tasks [] id e i h = absurd (ground arith)
  ended_tasks (t ∷ ts) id e i h = elim (Bool-cases (id == t.stage_id)) [
    | inl y ↦
        subst (λ x. seen db x ≡ succeeded_once db0 x) (sym (eq→≡ id t.stage_id y))
          (ended_task t.phase t (ground (arith, e)) h.0)
    | inr n ↦ ended_tasks ts id (ground (arith, e)) (ground (arith, i, n)) h.1
  ]

start-InStep :
    (stages : List (String × String)) (db : FlowDb) → AllInStep db db (map new_task stages)
start-InStep [] db = tt
start-InStep (x ∷ xs) db = ((refl, tt), start-InStep xs db)

start-stages :
    (stages : List (String × String)) → stages_of (map new_task stages) ≡ map (λ x. x.0) stages
start-stages [] = refl
start-stages (x ∷ xs) = ap (λ r. x.0 ∷ r) (start-stages xs)

start-executions :
    (stages : List (String × String)) → executions_of (map new_task stages) ≡ map (λ x. x.1) stages
start-executions [] = refl
start-executions (x ∷ xs) = ap (λ r. x.1 ∷ r) (start-executions xs)

returned_ended :
    (worker workflow : String) (stages : List (String × String)) (turns : List Turn) (now : ℕ)
    (db : FlowDb) {times : List (String × ℕ)}
    → (dispatch_ready_stages_parallel worker workflow stages turns now db).1
      ≡ Dispatched.returned times
    → (any_raised (gather worker turns (map new_task stages) db).1 ≡ false)
      × (all_ended (gather worker turns (map new_task stages) db).1 ≡ true)
unfolding dispatch_ready_stages_parallel
returned_ended worker workflow stages turns now db r =
    let ts = (gather worker turns (map new_task stages) db).1 in
    elim (Bool-cases (any_raised ts)) [
      | inl y ↦ absurd (ground (arith, y, r))
      | inr n ↦ elim (Bool-cases (all_ended ts)) [
        | inl e ↦ (n, e)
        | inr u ↦ absurd (ground (arith, n, u, r))
      ]
    ]

-- Whatever the order of the turns, if the dispatch returns, then each stage that it was given and
-- that was ready has succeeded, with one attempt and one execution more, and every other stage has
-- its status, its attempts and its executions as before. This is so for distinct stage ids, distinct
-- new execution ids and a table in which the ids of the stages are unique.
pub dispatch_refines_success :
    (worker workflow : String) (stages : List (String × String)) (turns : List Turn) (now : ℕ)
    (db : FlowDb) {times : List (String × ℕ)}
    → HasUniqueIds db.stages
    → AreDistinct (map (λ x. x.0) stages)
    → AreDistinct (map (λ x. x.1) stages)
    → (dispatch_ready_stages_parallel worker workflow stages turns now db).1
      ≡ Dispatched.returned times
    → (id : String)
    → seen (dispatch_ready_stages_parallel worker workflow stages turns now db).0 id
      ≡ (if is_in (map (λ x. x.0) stages) id then succeeded_once db id else seen db id)
unfolding dispatch_ready_stages_parallel
dispatch_refines_success worker workflow stages turns now db u a b r id =
    let ran =
      gather-InStep worker turns (map new_task stages) db db u
        (subst AreDistinct (sym (start-stages stages)) a)
        (subst AreDistinct (sym (start-executions stages)) b) (start-InStep stages db) in
    let (raised, ended) = returned_ended worker workflow stages turns now db r in
    elim (Bool-cases (is_in (map (λ x. x.0) stages) id)) [
      | inl y ↦
          rw (y, raised, ended)
            (ended_tasks db (gather worker turns (map new_task stages) db).0
              (gather worker turns (map new_task stages) db).1 id ended
              (ap (λ xs. is_in xs id) (ran.1 ∙ start-stages stages) ∙ y) ran.0)
      | inr n ↦
          rw (n, raised, ended)
            (gather_apart worker turns (map new_task stages) db id
              (ap (λ xs. is_in xs id) (start-stages stages) ∙ n))
    ]
