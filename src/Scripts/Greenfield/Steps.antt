-- ===== src/Scripts/Greenfield/Steps.antt =====
-- One stage of a chain that becomes ready, is claimed and is completed, for
-- scripts/demo_greenfield.py.
use mathlib.Core.Option
use agentic_engineering_url.Prelude.{
  ℕ, String, ◌≡◌, refl, ap, ◌∙◌, inl, inr, true, false, ◌&&◌, Option, none, some, [], ◌∷◌, arith,
  ◌==◌, nat_eq, Bool-cases, Option-cases,
}
use agentic_engineering_url.Sql.{count}
use agentic_engineering_url.Sql.Laws.{fetch-update, fetch-holds, count-update_same}
use agentic_engineering_url.Sql.Apart.{fetch-update_apart}
use agentic_engineering_url.Schema.{FlowDb, Stage}
use agentic_engineering_url.Schema.Status.{StageStatus, is_pending, is_succeeded}
use agentic_engineering_url.Orchestration.Scheduler.{
  set_status, mark_ready, claimable, claimed_stage, claim_selected, claim_stage, fenced,
  complete_stage,
}
use agentic_engineering_url.Orchestration.Scheduler.Ready.{HasUniqueIds}
use agentic_engineering_url.Orchestration.Dispatch.Effects.{
  status_of, stage_at, claim_won, claim_keeps, other_id,
}
use agentic_engineering_url.Orchestration.Dispatch.Completions.{complete_seen}

-- The stage of the id has succeeded.
abbrev pub IsDone : FlowDb → String → Type 0
IsDone db id = (s : Stage) × (stage_at db id ≡ some s) × (is_succeeded s.status ≡ true)

-- The other stages, and the edges, are as they were; the ids of the stages are still unique.
abbrev pub IsFrame : String → FlowDb → FlowDb → Type 0
IsFrame id db db' =
    ((i : String) → (id == i) ≡ false → stage_at db' i ≡ stage_at db i)
    × (db'.dependencies ≡ db.dependencies)
    × (HasUniqueIds db.stages → HasUniqueIds db'.stages)

IsFrame-trans : (id : String) (a b c : FlowDb) → IsFrame id a b → IsFrame id b c → IsFrame id a c
IsFrame-trans id a b c f g = (λ i h. g.0 i h ∙ f.0 i h, g.1 ∙ f.1, λ u. g.2 (f.2 u))

module _ (now : ℕ) (id : String) (db : FlowDb) where
  marked-IsFrame : IsFrame id db (mark_ready now (id ∷ []) db)
  unfolding mark_ready
  marked-IsFrame = (
    λ i h.
        fetch-update_apart (λ s. (s.id == id) && is_pending s.status)
          (set_status StageStatus.ready now) (λ x. x.id == i) (λ x. refl)
          (λ x t. other_id x.id id i (ground arith) h) db.stages,
    refl,
    λ u i. omega (
      arith,
      u i,
      count-update_same (λ s. (s.id == id) && is_pending s.status) (λ x. x.id == i)
          (set_status StageStatus.ready now) (λ x. refl) db.stages,
    ),
  )

  marked_stage :
      (s : Stage)
      → stage_at db id ≡ some s
      → s.status ≡ StageStatus.pending
      → stage_at (mark_ready now (id ∷ []) db) id ≡ some (set_status StageStatus.ready now s)
  unfolding mark_ready
  marked_stage s f p =
      let own = fetch-holds (λ x. x.id == id) db.stages s f in
      rw
        (
          fetch-update (λ x. (x.id == id) && is_pending x.status) (λ x. x.id == id)
              (set_status StageStatus.ready now) (λ x t. refl) db.stages,
          f,
          own,
          p,
        )
        refl

  claimed-IsFrame :
      (execution worker : String) → IsFrame id db (claim_stage execution worker now id db).0
  unfolding claim_stage claim_selected
  claimed-IsFrame execution worker = (
    λ i h. elim (Option-cases (stage_at db id)) [
      | inl n ↦ rw (n, claim_stage) refl
      | inr q ↦ elim (Bool-cases (nat_eq (count (claimable id) db.stages) 0)) [
        | inl lost ↦ rw (q.1, claim_stage, lost) refl
        | inr won ↦
            rw (q.1, claim_stage, won)
              (fetch-update_apart (claimable id) (claimed_stage now) (λ x. x.id == i) (λ x. refl)
                (λ x t. other_id x.id id i (ground arith) h) db.stages)
      ]
    ],
    elim (Option-cases (stage_at db id)) [
      | inl n ↦ rw (n, claim_stage) refl
      | inr q ↦ elim (Bool-cases (nat_eq (count (claimable id) db.stages) 0)) [
        | inl lost ↦ rw (q.1, claim_stage, lost) refl
        | inr won ↦ rw (q.1, claim_stage, won) refl
      ]
    ],
    λ u i. omega (arith, u i, (claim_keeps execution worker now id db).0 i),
  )

  completed-IsFrame : (execution : String) → IsFrame id db (complete_stage execution id now db).0
  unfolding complete_stage
  completed-IsFrame execution =
      elim (Bool-cases (nat_eq (count (fenced execution) db.executions) 0)) [
        | inl y ↦ rw y (λ i h. refl, refl, λ u. u)
        | inr n ↦ rw n (
          λ i h.
              fetch-update_apart (λ x. x.id == id) (set_status StageStatus.succeeded now)
                (λ x. x.id == i) (λ x. refl) (λ x t. other_id x.id id i t h) db.stages,
          refl,
          λ u i. omega (
            arith,
            u i,
            count-update_same (λ x. x.id == id) (λ x. x.id == i)
                (set_status StageStatus.succeeded now) (λ x. refl) db.stages,
          ),
        )
      ]

seen_done :
    (o : Option Stage) (n : ℕ)
    → Option.map status_of o ≡ some (StageStatus.succeeded, n)
    → (s : Stage) × (o ≡ some s) × (is_succeeded s.status ≡ true)
seen_done none n e = absurd (ground arith)
seen_done (some s) n e = (s, refl, ground (arith, e))

-- A pending stage that is made ready is claimed, and then completed.
pub runs_through :
    (execution worker : String) (now : ℕ) (id : String) (db : FlowDb) (s : Stage)
    → HasUniqueIds db.stages
    → stage_at db id ≡ some s
    → s.status ≡ StageStatus.pending
    → let claim = claim_stage execution worker now id (mark_ready now (id ∷ []) db) in
      let done = (complete_stage execution id now claim.0).0 in
      (claim.1 ≡ some execution) × IsDone done id × IsFrame id db done
runs_through execution worker now id db s u f p =
    let marked = mark_ready now (id ∷ []) db in
    let frame = marked-IsFrame now id db in
    let won =
      claim_won execution worker now id marked (set_status StageStatus.ready now s) (frame.2 u)
        (marked_stage now id db s f p) refl in
    let claimed = (claim_stage execution worker now id marked).0 in
    let result = complete_seen execution now id claimed won.2 in
    let done = (complete_stage execution id now claimed).0 in
    (
      won.0,
      elim (Option-cases (stage_at claimed id)) [
        | inl n ↦ absurd (ground (arith, n, ap (λ x. x.0) won.1))
        | inr q ↦ seen_done (stage_at done id) q.0.attempt_count (
            ap (λ x. x.0) result
            ∙ ap (Option.map (λ s. (StageStatus.succeeded, s.attempt_count))) q.1)
      ],
      IsFrame-trans id db marked done frame (
          IsFrame-trans id marked claimed done (claimed-IsFrame now id marked execution worker)
            (completed-IsFrame now id claimed execution)),
    )
