-- ===== src/Orchestration/Dispatch/Steps.antt =====
-- One turn of a task, seen from its own stage and from the others: src/orchestration/scheduler.py.
use mathlib.Core.Option
use agentic_engineering_url.Prelude.{
  ℕ, ◌+◌, ◌≤◌, ◌<◌, String, ◌≡◌, refl, sym, ap, ◌∙◌, subst, inl, inr, Bool, true, false, Option,
  none, some, List, arith, ◌==◌, Bool-cases, Option-cases, All,
}
use agentic_engineering_url.Sql.{count}
use agentic_engineering_url.Schema.{FlowDb, Stage}
use agentic_engineering_url.Schema.Status.{StageStatus, is_ready}
use agentic_engineering_url.Orchestration.Scheduler.{fenced}
use agentic_engineering_url.Orchestration.Scheduler.Ready.{HasUniqueIds}
use agentic_engineering_url.Orchestration.Dispatch.{
  Phase, Task, Turn, claim_first, resume, step_from, step_task,
}
use agentic_engineering_url.Orchestration.Dispatch.Effects.{
  status_of, stage_at, seen, is_startable, claim_lost, claim_won, claim_apart, claim_keeps,
}
use agentic_engineering_url.Orchestration.Dispatch.Completions.{
  complete_seen, complete_apart, complete_keeps,
}

module _ (worker : String) (turn : Turn) where
  -- A turn of one task leaves the ids apart from its own as they are seen.
  pub frame :
      (p : Phase) (u : Task) (db : FlowDb) (i : String)
      → (u.stage_id == i) ≡ false
      → seen (step_from worker turn p u db).0 i ≡ seen db i
  unfolding claim_first resume
  frame Phase.waiting u db i h = claim_apart u.execution_id worker turn.now u.stage_id db i h
  frame Phase.executing u db i h = elim (Bool-cases turn.raises) [
    | inl y ↦ rw y refl
    | inr n ↦ rw n (complete_apart u.execution_id turn.now u.stage_id db i h)
  ]
  frame Phase.lost u db i h = refl
  frame Phase.finished u db i h = refl
  frame Phase.raised u db i h = refl

  frame_fence :
      (p : Phase) (u : Task) (db : FlowDb) (e : String)
      → (u.execution_id == e) ≡ false
      → count (fenced e) db.executions
        ≤ count (fenced e) (step_from worker turn p u db).0.executions
  unfolding claim_first resume
  frame_fence Phase.waiting u db e h =
      (claim_keeps u.execution_id worker turn.now u.stage_id db).1 e
  frame_fence Phase.executing u db e h = elim (Bool-cases turn.raises) [
    | inl y ↦ rw y (omega arith)
    | inr n ↦ rw n (omega (arith, (complete_keeps u.execution_id turn.now u.stage_id db).1 e h))
  ]
  frame_fence Phase.lost u db e h = omega arith
  frame_fence Phase.finished u db e h = omega arith
  frame_fence Phase.raised u db e h = omega arith

  pub keeps_ids :
      (p : Phase) (u : Task) (db : FlowDb)
      → HasUniqueIds db.stages
      → HasUniqueIds (step_from worker turn p u db).0.stages
  unfolding claim_first resume
  keeps_ids Phase.waiting u db h =
      λ i. omega (arith, h i, (claim_keeps u.execution_id worker turn.now u.stage_id db).0 i)
  keeps_ids Phase.executing u db h = elim (Bool-cases turn.raises) [
    | inl y ↦ rw y h
    | inr n ↦
        rw n (λ i. omega (arith, h i, (complete_keeps u.execution_id turn.now u.stage_id db).0 i))
  ]
  keeps_ids Phase.lost u db h = h
  keeps_ids Phase.finished u db h = h
  keeps_ids Phase.raised u db h = h

-- What is seen of a stage whose task stands so, and that was `o` with `n` executions before.
abbrev pub outcome : Phase → Option Stage → ℕ → Option (StageStatus × ℕ) × ℕ
outcome Phase.waiting o n = (Option.map status_of o, n)
outcome Phase.lost o n = (Option.map status_of o, n)
outcome Phase.finished o n =
    (Option.map (λ s. (StageStatus.succeeded, s.attempt_count + 1)) o, n + 1)
outcome Phase.executing o n =
    (Option.map (λ s. (StageStatus.running, s.attempt_count + 1)) o, n + 1)
outcome Phase.raised o n = (Option.map (λ s. (StageStatus.running, s.attempt_count + 1)) o, n + 1)

claimed_outcome :
    (s : Stage) (o : Option Stage) (n m : ℕ)
    → (some (status_of s), n) ≡ outcome Phase.waiting o m
    → (some (StageStatus.running, s.attempt_count + 1), n + 1) ≡ outcome Phase.executing o m
claimed_outcome s none n m h = absurd (ground arith)
claimed_outcome s (some t) n m h = ground arith

finished_outcome :
    (o : Option Stage) (o0 : Option Stage) (n m : ℕ)
    → (Option.map status_of o, n) ≡ outcome Phase.executing o0 m
    → (Option.map (λ s. (StageStatus.succeeded, s.attempt_count)) o, n)
      ≡ outcome Phase.finished o0 m
finished_outcome none none n m h = ground arith
finished_outcome none (some t) n m h = absurd (ground arith)
finished_outcome (some s) none n m h = absurd (ground arith)
finished_outcome (some s) (some t) n m h = ground arith

ready_view : Option (StageStatus × ℕ) → Bool
ready_view none = false
ready_view (some (status, attempts)) = is_ready status

startable_view :
    (o : Option Stage)
    → ready_view (Option.map status_of o) ≡ elim o [ none ↦ false | some s ↦ is_ready s.status ]
unfolding ready_view
startable_view none = refl
startable_view (some s) = refl

module _ (db0 : FlowDb) where
  -- Only a stage that could be started is claimed, and an execution under way is not ended.
  abbrev pub IsEntitled : FlowDb → Phase → Task → Type 0
  IsEntitled db Phase.waiting t = Unit
  IsEntitled db Phase.lost t = is_startable db0 t.stage_id ≡ false
  IsEntitled db Phase.executing t =
      (is_startable db0 t.stage_id ≡ true) × (0 < count (fenced t.execution_id) db.executions)
  IsEntitled db _ t = is_startable db0 t.stage_id ≡ true

  abbrev pub IsSeen : FlowDb → Phase → Task → Type 0
  IsSeen db p t = seen db t.stage_id ≡ outcome p (stage_at db0 t.stage_id) (seen db0 t.stage_id).1

  abbrev pub InStep : FlowDb → Phase → Task → Type 0
  InStep db p t = IsSeen db p t × IsEntitled db p t

  abbrev pub AllInStep : FlowDb → List Task → Type 0
  AllInStep db ts = All (λ t. InStep db t.phase t) ts

  -- A waiting task's stage can be started if it could be at the start.
  same_start :
      (db : FlowDb) (id : String)
      → Option.map status_of (stage_at db id) ≡ Option.map status_of (stage_at db0 id)
      → is_startable db id ≡ is_startable db0 id
  same_start db id h =
      sym (startable_view (stage_at db id)) ∙ ap ready_view h ∙ startable_view (stage_at db0 id)

  module _ (worker : String) (turn : Turn) where
    still-IsEntitled :
        (t u : Task) (db : FlowDb)
        → (u.execution_id == t.execution_id) ≡ false
        → (p : Phase) → IsEntitled db p t
        → IsEntitled (step_task worker turn u db).0 p t
    still-IsEntitled t u db b Phase.waiting h = tt
    still-IsEntitled t u db b Phase.lost h = h
    still-IsEntitled t u db b Phase.executing h =
        (h.0, omega (arith, h.1, frame_fence worker turn u.phase u db t.execution_id b))
    still-IsEntitled t u db b Phase.finished h = h
    still-IsEntitled t u db b Phase.raised h = h

    pub own_step :
        (p : Phase) (t : Task) (db : FlowDb)
        → t.phase ≡ p
        → HasUniqueIds db.stages
        → InStep db p t
        → let (db', t') = step_from worker turn p t db in InStep db' t'.phase t'
    unfolding claim_first resume
    own_step Phase.waiting t db e u h = elim (Bool-cases (is_startable db t.stage_id)) [
      | inl y ↦ elim (Option-cases (stage_at db t.stage_id)) [
        | inl n ↦ absurd (ground (arith, y, n))
        | inr q ↦
            let won =
              claim_won t.execution_id worker turn.now t.stage_id db q.0 u q.1
                (ground (arith, y, q.1)) in
            let seen_first : (some (status_of q.0), (seen db t.stage_id).1)
                ≡ outcome Phase.waiting (stage_at db0 t.stage_id) (seen db0 t.stage_id).1 =
              subst
                (λ o.
                  (Option.map status_of o, (seen db t.stage_id).1)
                  ≡ outcome Phase.waiting (stage_at db0 t.stage_id) (seen db0 t.stage_id).1)
                q.1 h.0 in
            rw won.0 (
              won.1
                  ∙ claimed_outcome q.0 (stage_at db0 t.stage_id) (seen db t.stage_id).1
                      (seen db0 t.stage_id).1 seen_first,
              (sym (same_start db t.stage_id (ap (λ x. x.0) h.0)) ∙ y, won.2),
            )
      ]
      | inr n ↦
          rw (claim_lost t.execution_id worker turn.now t.stage_id db u n)
            (h.0, sym (same_start db t.stage_id (ap (λ x. x.0) h.0)) ∙ n)
    ]
    own_step Phase.executing t db e u h = elim (Bool-cases turn.raises) [
      | inl y ↦ rw y (h.0, h.1.0)
      | inr n ↦ rw n (
        complete_seen t.execution_id turn.now t.stage_id db h.1.1
            ∙ finished_outcome (stage_at db t.stage_id) (stage_at db0 t.stage_id)
                (seen db t.stage_id).1 (seen db0 t.stage_id).1 h.0,
        h.1.0,
      )
    ]
    own_step Phase.lost t db e u h = rw e h
    own_step Phase.finished t db e u h = rw e h
    own_step Phase.raised t db e u h = rw e h

    pub other_step :
        (t u : Task) (db : FlowDb)
        → (u.stage_id == t.stage_id) ≡ false
        → (u.execution_id == t.execution_id) ≡ false
        → (p : Phase) → InStep db p t
        → InStep (step_task worker turn u db).0 p t
    other_step t u db a b p h =
        (frame worker turn u.phase u db t.stage_id a ∙ h.0, still-IsEntitled t u db b p h.1)
