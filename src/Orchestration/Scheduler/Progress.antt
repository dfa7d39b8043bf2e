-- ===== src/Orchestration/Scheduler/Progress.antt =====
-- That some stage can always be claimed next: the dependency graph of src/orchestration/models.py and
-- the eligibility of src/orchestration/scheduler.py.
use agentic_engineering_url.Prelude.{
  ℕ, zero, suc, ◌≤◌, ◌<◌, String, ◌≡◌, sym, subst, ◌⊎◌, inl, inr, true, false, ◌&&◌, ◌||◌, some,
  List, [], ◌∷◌, map, arith, ◌==◌, nat_eq, if◌then◌else◌, eq→≡, Bool-cases, length, All,
}
use agentic_engineering_url.Sql.{select, fetch, count}
use agentic_engineering_url.Sql.Laws.{All-fetch, fetch-holds}
use agentic_engineering_url.Schema.{FlowDb, Stage, Dependency}
use agentic_engineering_url.Schema.Status.{is_pending, is_succeeded}
use agentic_engineering_url.Orchestration.Models.{get_dependencies}
use agentic_engineering_url.Orchestration.Scheduler.{is_eligible}
use agentic_engineering_url.Orchestration.Scheduler.Ready.{
  HasUniqueIds, AreDistinct, HasSucceeded, eligible_iff,
}

-- Where the id stands in the table; the length of the table, if it does not.
abbrev pub place : String → List Stage → ℕ
place id [] = 0
place id (s ∷ ss) = let rest = place id ss in if s.id == id then 0 else suc rest

-- Every edge leads from a stage to one that stands before it.
abbrev pub IsLayered : FlowDb → Type 0
IsLayered db =
    All (λ d. place d.depends_on_stage_id db.stages < place d.stage_id db.stages) db.dependencies

pub place-le-length : (id : String) (ss : List Stage) → place id ss ≤ length ss
place-le-length id [] = omega arith
place-le-length id (s ∷ ss) = ground (arith, place-le-length id ss)

placed_row :
    (id : String) (ss : List Stage)
    → place id ss < length ss
    → (s : Stage) × (fetch (λ r. r.id == id) ss ≡ some s)
unfolding fetch
placed_row id [] h = absurd (omega (arith, h))
placed_row id (s ∷ ss) h = elim (Bool-cases (s.id == id)) [
  | inl y ↦ (s, ground (arith, y))
  | inr n ↦ let (t, f) = placed_row id ss (ground (arith, h, n)) in (t, ground (arith, n, f))
]

dependencies_before :
    (stages : List Stage) (id : String) (ds : List Dependency)
    → All (λ d. place d.depends_on_stage_id stages < place d.stage_id stages) ds
    → All
        (λ x. place x stages < place id stages)
        (map (λ d. d.depends_on_stage_id) (select (λ d. d.stage_id == id) ds))
unfolding select
dependencies_before stages id [] h = tt
dependencies_before stages id (d ∷ ds) h = elim (Bool-cases (d.stage_id == id)) [
  | inl y ↦ rw y (
    subst (λ z. place d.depends_on_stage_id stages < place z stages) (eq→≡ d.stage_id id y) h.0,
    dependencies_before stages id ds h.1,
  )
  | inr n ↦ rw n (dependencies_before stages id ds h.1)
]

-- Either all of the ids have succeeded, or one of them has not.
unmet :
    (db : FlowDb) (P : String → Type 0) (xs : List String)
    → All P xs
    → All (HasSucceeded db) xs
      ⊎ ((x : String) × P x × (count (λ s. (s.id == x) && is_succeeded s.status) db.stages ≡ 0))
unmet db P [] h = inl tt
unmet db P (x ∷ xs) h = elim (unmet db P xs h.1) [
  | inr q ↦ inr q
  | inl rest ↦
      elim (Bool-cases (nat_eq (count (λ s. (s.id == x) && is_succeeded s.status) db.stages) 0)) [
        | inl zero_yet ↦ inr (x, h.0, ground (arith, zero_yet))
        | inr some_yet ↦ inl (ground (arith, some_yet), rest)
      ]
]

not_succeeded :
    (id : String) (ss : List Stage) (s : Stage)
    → fetch (λ r. r.id == id) ss ≡ some s
    → count (λ r. (r.id == id) && is_succeeded r.status) ss ≡ 0
    → is_succeeded s.status ≡ false
unfolding fetch count
not_succeeded id [] s f c = absurd (ground (arith, f))
not_succeeded id (r ∷ rs) s f c = ground (arith, f, c, not_succeeded id rs s)

-- Every stage waits or has succeeded.
abbrev pub IsUnderway : FlowDb → Type 0
IsUnderway db = All (λ s. (is_pending s.status || is_succeeded s.status) ≡ true) db.stages

abbrev pub Eligible : FlowDb → Type 0
Eligible db =
    (t : Stage) × (fetch (λ r. r.id == t.id) db.stages ≡ some t)
    × (is_pending t.status ≡ true)
    × (is_eligible db t ≡ true)

module _ (db : FlowDb) (unique : HasUniqueIds db.stages)
    (distinct : (id : String) → AreDistinct (get_dependencies db id)) (layered : IsLayered db)
    (underway : IsUnderway db) where
  waiting_dependency :
      (s : Stage)
      → is_eligible db s ≡ false
      → (t : Stage) × (fetch (λ r. r.id == t.id) db.stages ≡ some t)
        × (is_pending t.status ≡ true)
        × (place t.id db.stages < place s.id db.stages)
  unfolding get_dependencies
  waiting_dependency s blocked =
      elim (unmet db (λ x. place x db.stages < place s.id db.stages) (get_dependencies db s.id)
        (dependencies_before db.stages s.id db.dependencies layered)) [
          | inl all ↦
              absurd (ground (arith, (eligible_iff db s unique (distinct s.id)).1 all, blocked))
          | inr q ↦
              let (x, before, unmet_yet) = q in
              let (t, found) =
                placed_row x db.stages (omega (arith, before, place-le-length s.id db.stages)) in
              let own = eq→≡ t.id x (fetch-holds (λ r. r.id == x) db.stages t found) in
              let either =
                All-fetch (λ r. (is_pending r.status || is_succeeded r.status) ≡ true)
                  (λ r. r.id == x) db.stages t underway found in
              (
                t,
                subst (λ z. fetch (λ r. r.id == z) db.stages ≡ some t) (sym own) found,
                ground (arith, either, not_succeeded x db.stages t found unmet_yet),
                subst (λ z. place z db.stages < place s.id db.stages) (sym own) before,
              )
        ]

  progress :
      (n : ℕ) (s : Stage)
      → fetch (λ r. r.id == s.id) db.stages ≡ some s
      → is_pending s.status ≡ true
      → place s.id db.stages < n
      → Eligible db
  progress zero s f p h = absurd (omega (arith, h))
  progress (suc n) s f p h = elim (Bool-cases (is_eligible db s)) [
    | inl free ↦ (s, f, p, free)
    | inr blocked ↦
        let (t, found, waits, before) = waiting_dependency s blocked in
        progress n t found waits (omega (arith, before, h))
  ]

  -- With unique stage ids, edges that lead to earlier stages and name no stage twice, and every stage
  -- pending or succeeded: as long as a stage is pending, some pending stage is eligible.
  pub never_stuck :
      (s : Stage)
      → fetch (λ r. r.id == s.id) db.stages ≡ some s
      → is_pending s.status ≡ true
      → Eligible db
  never_stuck s f p = progress (suc (place s.id db.stages)) s f p (omega arith)
