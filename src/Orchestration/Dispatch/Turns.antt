-- ===== src/Orchestration/Dispatch/Turns.antt =====
-- One turn among several tasks: src/orchestration/scheduler.py.
use agentic_engineering_url.Prelude.{
  ℕ, zero, suc, String, ◌≡◌, refl, ap, inl, inr, false, Option, none, some, List, [], ◌∷◌, map,
  arith, other_way, Bool-cases,
}
use agentic_engineering_url.Schema.{FlowDb}
use agentic_engineering_url.Orchestration.Scheduler.{is_in, claim_stage}
use agentic_engineering_url.Orchestration.Scheduler.Ready.{HasUniqueIds, AreDistinct}
use agentic_engineering_url.Orchestration.Dispatch.{
  Phase, Task, Turn, claim_first, claimed_task, resume, step_from, step_task, step_at,
}
use agentic_engineering_url.Orchestration.Dispatch.Effects.{seen}
use agentic_engineering_url.Orchestration.Dispatch.Steps.{
  frame, keeps_ids, own_step, other_step, InStep, AllInStep,
}

abbrev pub stages_of : List Task → List String
stages_of ts = map (λ t. t.stage_id) ts

abbrev pub executions_of : List Task → List String
executions_of ts = map (λ t. t.execution_id) ts

module _ (worker : String) (turn : Turn) where
  claimed-same :
      (t : Task) (won : Option String)
      → ((claimed_task worker turn t won).stage_id ≡ t.stage_id)
        × ((claimed_task worker turn t won).execution_id ≡ t.execution_id)
  claimed-same t none = (refl, refl)
  claimed-same t (some e) = (refl, refl)

  same_task :
      (p : Phase) (t : Task) (db : FlowDb)
      → let t' = (step_from worker turn p t db).1 in
        (t'.stage_id ≡ t.stage_id) × (t'.execution_id ≡ t.execution_id)
  unfolding claim_first resume
  same_task Phase.waiting t db =
      claimed-same t (claim_stage t.execution_id worker turn.now t.stage_id db).1
  same_task Phase.executing t db = elim (Bool-cases turn.raises) [
    | inl y ↦ rw y (refl, refl)
    | inr n ↦ rw n (refl, refl)
  ]
  same_task Phase.lost t db = (refl, refl)
  same_task Phase.finished t db = (refl, refl)
  same_task Phase.raised t db = (refl, refl)

  pub same_tasks :
      (i : ℕ) (ts : List Task) (db : FlowDb)
      → let ts' = (step_at worker turn i ts db).1 in
        (stages_of ts' ≡ stages_of ts) × (executions_of ts' ≡ executions_of ts)
  unfolding step_at
  same_tasks i [] db = (refl, refl)
  same_tasks zero (t ∷ ts) db =
      let same = same_task t.phase t db in
      (ap (λ x. x ∷ stages_of ts) same.0, ap (λ x. x ∷ executions_of ts) same.1)
  same_tasks (suc i) (t ∷ ts) db =
      let same = same_tasks i ts db in
      (ap (λ xs. t.stage_id ∷ xs) same.0, ap (λ xs. t.execution_id ∷ xs) same.1)

  pub frame_at :
      (i : ℕ) (ts : List Task) (db : FlowDb) (id : String)
      → is_in (stages_of ts) id ≡ false
      → seen (step_at worker turn i ts db).0 id ≡ seen db id
  unfolding step_at
  frame_at i [] db id h = refl
  frame_at zero (t ∷ ts) db id h =
      frame worker turn t.phase t db id (other_way id t.stage_id (ground (arith, h)))
  frame_at (suc i) (t ∷ ts) db id h = frame_at i ts db id (ground (arith, h))

  module _ (db0 : FlowDb) where
    frame_tail :
        (t : Task) (ts : List Task) (db : FlowDb)
        → is_in (stages_of ts) t.stage_id ≡ false
        → is_in (executions_of ts) t.execution_id ≡ false
        → AllInStep db0 db ts
        → AllInStep db0 (step_task worker turn t db).0 ts
    frame_tail t [] db a b h = tt
    frame_tail t (u ∷ us) db a b h = (
      other_step db0 worker turn u t db (ground (arith, a)) (ground (arith, b)) u.phase h.0,
      frame_tail t us db (ground (arith, a)) (ground (arith, b)) h.1,
    )

    frame_head :
        (i : ℕ) (ts : List Task) (db : FlowDb) (t : Task)
        → is_in (stages_of ts) t.stage_id ≡ false
        → is_in (executions_of ts) t.execution_id ≡ false
        → InStep db0 db t.phase t
        → InStep db0 (step_at worker turn i ts db).0 t.phase t
    unfolding step_at
    frame_head i [] db t a b h = h
    frame_head zero (u ∷ us) db t a b h =
        other_step db0 worker turn t u db (other_way t.stage_id u.stage_id (ground (arith, a)))
          (other_way t.execution_id u.execution_id (ground (arith, b))) t.phase h
    frame_head (suc i) (u ∷ us) db t a b h =
        frame_head i us db t (ground (arith, a)) (ground (arith, b)) h

    pub turn-InStep :
        (i : ℕ) (ts : List Task) (db : FlowDb)
        → HasUniqueIds db.stages
        → AreDistinct (stages_of ts)
        → AreDistinct (executions_of ts)
        → AllInStep db0 db ts
        → let (db', ts') = step_at worker turn i ts db in
          HasUniqueIds db'.stages × AllInStep db0 db' ts'
    unfolding step_at
    turn-InStep i [] db u a b h = (u, tt)
    turn-InStep zero (t ∷ ts) db u a b h = (
      keeps_ids worker turn t.phase t db u,
      (own_step db0 worker turn t.phase t db refl u h.0, frame_tail t ts db a.0 b.0 h.1),
    )
    turn-InStep (suc i) (t ∷ ts) db u a b h =
        let rest = turn-InStep i ts db u a.1 b.1 h.1 in
        (rest.0, (frame_head i ts db t a.0 b.0 h.0, rest.1))
