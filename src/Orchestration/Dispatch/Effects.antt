-- ===== src/Orchestration/Dispatch/Effects.antt =====
-- What a claim does to the stage and the executions of an id, for
-- src/orchestration/scheduler.py.
use agentic_engineering_url.Prelude.{
  ℕ, ◌+◌, ◌≤◌, ◌<◌, String, ◌≡◌, refl, inl, inr, Bool, true, false, Option, none, some, List, [],
  ◌∷◌, arith, ◌==◌, eq_refl, nat_eq, if◌then◌else◌, Bool-cases, Option-cases, eq→≡,
}
use mathlib.Core.Option
use agentic_engineering_url.Sql.{fetch, count}
use agentic_engineering_url.Sql.Laws.{fetch-update, fetch-holds, count-append, count-update_same}
use agentic_engineering_url.Sql.Apart.{fetch-update_apart}
use agentic_engineering_url.Schema.{FlowDb, Stage}
use agentic_engineering_url.Schema.Status.{StageStatus, is_ready}
use agentic_engineering_url.Orchestration.Scheduler.{
  claimable, claimed_stage, new_execution, claim_selected, claim_stage, fenced,
}
use agentic_engineering_url.Orchestration.Scheduler.Ready.{HasUniqueIds}

-- The abstract view of a stage: its status and its attempts.
abbrev pub status_of : Stage → StageStatus × ℕ
status_of s = (s.status, s.attempt_count)

abbrev pub stage_at : FlowDb → String → Option Stage
stage_at db id = fetch (λ s. s.id == id) db.stages

-- What is seen of an id: the view of its stage, if there is one, and the number of its executions.
abbrev pub seen : FlowDb → String → Option (StageStatus × ℕ) × ℕ
seen db id = (Option.map status_of (stage_at db id), count (λ e. e.stage_id == id) db.executions)

-- A claim of the id would be won.
abbrev pub is_startable : FlowDb → String → Bool
is_startable db id = elim (stage_at db id) [ none ↦ false | some s ↦ is_ready s.status ]

count-claimable_of_none :
    (id : String) (xs : List Stage) → count (λ r. r.id == id) xs ≡ 0 → count (claimable id) xs ≡ 0
unfolding count
count-claimable_of_none id [] e = refl
count-claimable_of_none id (x ∷ xs) e = ground (arith, count-claimable_of_none id xs)

count-claimable :
    (id : String) (s : Stage) (xs : List Stage)
    → count (λ r. r.id == id) xs ≤ 1
    → fetch (λ r. r.id == id) xs ≡ some s
    → count (claimable id) xs ≡ (if is_ready s.status then 1 else 0)
unfolding count fetch
count-claimable id s [] u f = absurd (ground arith)
count-claimable id s (x ∷ xs) u f = elim (Bool-cases (x.id == id)) [
  | inl y ↦ ground (arith, count-claimable_of_none id xs)
  | inr n ↦ ground (arith, count-claimable id s xs)
]

pub other_id : (a id i : String) → (a == id) ≡ true → (id == i) ≡ false → (a == i) ≡ false
other_id a id i e h = rw (eq→≡ a id e) h

module _ (execution worker : String) (now : ℕ) (id : String) (db : FlowDb) where
  abbrev after_claim : FlowDb × Option String
  after_claim = claim_stage execution worker now id db

  pub claim_lost : HasUniqueIds db.stages → is_startable db id ≡ false → after_claim ≡ (db, none)
  unfolding claim_stage claim_selected
  claim_lost u h = elim (Option-cases (stage_at db id)) [
    | inl n ↦ rw (n, claim_stage) refl
    | inr q ↦ ground (arith, q.1, count-claimable id q.0 db.stages (u id) q.1)
  ]

  count-new :
      (s : Stage) (i : String)
      → count (λ e. e.stage_id == i) (new_execution execution worker now s id ∷ [])
        ≡ (if id == i then 1 else 0)
  unfolding count
  count-new s i = refl

  own_fenced :
      (s : Stage) → count (fenced execution) (new_execution execution worker now s id ∷ []) ≡ 1
  unfolding count
  own_fenced s = rw (eq_refl execution) refl

  selected_apart :
      (s : Stage) (i : String)
      → (id == i) ≡ false
      → seen (claim_selected execution worker now s id db).0 i ≡ seen db i
  unfolding claim_selected
  selected_apart s i h = elim (Bool-cases (nat_eq (count (claimable id) db.stages) 0)) [
    | inl lost ↦ rw lost refl
    | inr won ↦ rw won (
        ground (
          arith,
          h,
          fetch-update_apart (claimable id) (claimed_stage now) (λ x. x.id == i) (λ x. refl)
              (λ x t. other_id x.id id i (ground arith) h) db.stages,
          count-append (λ e. e.stage_id == i) db.executions
              (new_execution execution worker now s id ∷ []),
          count-new s i,
        ))
  ]

  pub claim_apart : (i : String) → (id == i) ≡ false → seen after_claim.0 i ≡ seen db i
  unfolding claim_stage
  claim_apart i h = elim (Option-cases (stage_at db id)) [
    | inl n ↦ rw (n, claim_stage) refl
    | inr q ↦ rw (q.1, claim_stage) (selected_apart q.0 i h)
  ]

  won_seen :
      (s : Stage)
      → HasUniqueIds db.stages
      → stage_at db id ≡ some s
      → is_ready s.status ≡ true
      → let after = claim_selected execution worker now s id db in
        (after.1 ≡ some execution)
        × (seen after.0 id ≡ (some (StageStatus.running, s.attempt_count + 1), (seen db id).1 + 1))
        × (0 < count (fenced execution) after.0.executions)
  unfolding claim_selected
  won_seen s u f r = elim (Bool-cases (nat_eq (count (claimable id) db.stages) 0)) [
    | inl lost ↦ absurd (ground (arith, count-claimable id s db.stages (u id) f))
    | inr won ↦ rw won (
      refl,
      ground (
        arith,
        f,
        r,
        eq_refl id,
        fetch-holds (λ x. x.id == id) db.stages s f,
        fetch-update (claimable id) (λ x. x.id == id) (claimed_stage now) (λ x t. refl) db.stages,
        count-append (λ e. e.stage_id == id) db.executions
            (new_execution execution worker now s id ∷ []),
        count-new s id,
      ),
      omega (
        arith,
        count-append (fenced execution) db.executions
            (new_execution execution worker now s id ∷ []),
        own_fenced s,
      ),
    )
  ]

  pub claim_won :
      (s : Stage)
      → HasUniqueIds db.stages
      → stage_at db id ≡ some s
      → is_ready s.status ≡ true
      → (after_claim.1 ≡ some execution)
        × (seen after_claim.0 id
            ≡ (some (StageStatus.running, s.attempt_count + 1), (seen db id).1 + 1))
        × (0 < count (fenced execution) after_claim.0.executions)
  unfolding claim_stage
  claim_won s u f r = rw (f, claim_stage) (won_seen s u f r)

  selected_keeps :
      (s : Stage)
      → let after = (claim_selected execution worker now s id db).0 in
        ((i : String) → count (λ x. x.id == i) after.stages ≡ count (λ x. x.id == i) db.stages)
        × ((e : String) → count (fenced e) db.executions ≤ count (fenced e) after.executions)
  unfolding claim_selected
  selected_keeps s = elim (Bool-cases (nat_eq (count (claimable id) db.stages) 0)) [
    | inl lost ↦ rw lost (λ i. refl, λ e. omega arith)
    | inr won ↦ rw won (
      λ i.
          count-update_same (claimable id) (λ x. x.id == i) (claimed_stage now) (λ x. refl)
            db.stages,
      λ e. omega (
        arith,
        count-append (fenced e) db.executions (new_execution execution worker now s id ∷ []),
      ),
    )
  ]

  -- A claim keeps the ids of the stages, and every execution that was not ended.
  pub claim_keeps :
      ((i : String)
        → count (λ x. x.id == i) after_claim.0.stages ≡ count (λ x. x.id == i) db.stages)
      × ((e : String) → count (fenced e) db.executions ≤ count (fenced e) after_claim.0.executions)
  unfolding claim_stage
  claim_keeps = elim (Option-cases (stage_at db id)) [
    | inl n ↦ rw (n, claim_stage) (λ i. refl, λ e. omega arith)
    | inr q ↦ rw (q.1, claim_stage) (selected_keeps q.0)
  ]
