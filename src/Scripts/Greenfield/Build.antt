-- ===== src/Scripts/Greenfield/Build.antt =====
-- A chain of stages is added, for scripts/demo_greenfield.py with src/orchestration/models.py.
use mathlib.Core.List.{append-nil}
use agentic_engineering_url.Prelude.{
  ℕ, String, ◌≡◌, refl, sym, ap, subst, inl, inr, true, false, ◌&&◌, Option, none, some, List, [],
  ◌∷◌, ◌++◌, arith, ◌==◌, eq_refl, eq→≡, is_some, Bool-cases, Option-cases, All-map, ok,
}
use agentic_engineering_url.Sql.{fetch, select, count}
use agentic_engineering_url.Sql.Laws.{
  fetch-append, fetch_of_none, select-append, select_of_none, count-append, count-zero,
}
use agentic_engineering_url.Schema.{FlowDb, Stage, Dependency}
use agentic_engineering_url.Orchestration.Models.{
  add_stage, add_dependencies, new_stage, has_stage, has_edge, get_dependencies,
}
use agentic_engineering_url.Orchestration.Scheduler.Ready.{HasUniqueIds, AreDistinct}
use agentic_engineering_url.Orchestration.Dispatch.Effects.{stage_at}
use agentic_engineering_url.Scripts.Demo.{plain_stage}
use agentic_engineering_url.Scripts.Greenfield.{depends_on}

-- No stage and no edge has the id.
abbrev pub IsFresh : FlowDb → String → Type 0
IsFresh db id =
    (count (λ s. s.id == id) db.stages ≡ 0) × (count (λ d. d.stage_id == id) db.dependencies ≡ 0)

-- The stage before, if there is one, is in the table.
abbrev pub HasPrev : FlowDb → Option String → Type 0
HasPrev db none = Unit {0}
HasPrev db (some prev) = has_stage prev db ≡ true

stage_at-fresh : (db : FlowDb) (id : String) → IsFresh db id → stage_at db id ≡ none
stage_at-fresh db id f = fetch_of_none (λ s. s.id == id) db.stages (count-zero _ db.stages f.0)

has_edge-fresh : (db : FlowDb) (id prev : String) → IsFresh db id → has_edge id prev db ≡ false
has_edge-fresh db id prev f = ap is_some (
    fetch_of_none (λ d. (d.stage_id == id) && (d.depends_on_stage_id == prev)) db.dependencies
      (All-map db.dependencies (λ d e. rw e refl) (count-zero _ db.dependencies f.1)))

module _ (workflow : String) (x : String × String) (now : ℕ) where
  abbrev pub row : Option String → Stage
  row prev = new_stage workflow (plain_stage (x.0) (x.1) (depends_on prev)) now

  abbrev edges : Option String → List Dependency
  edges none = []
  edges (some prev) =
      record { workflow_instance_id = workflow; stage_id = x.0; depends_on_stage_id = prev } ∷ []

  -- The tables with the stage, and with its edge to the one before it.
  abbrev pub extended : Option String → FlowDb → FlowDb
  extended prev db = record db {
    stages = db.stages ++ row prev ∷ [];
    dependencies = db.dependencies ++ edges prev;
  }

  pub new_found :
      (prev : Option String) (db : FlowDb)
      → IsFresh db (x.0)
      → stage_at (extended prev db) (x.0) ≡ some (row prev)
  unfolding fetch
  new_found prev db f =
      rw
        (
          fetch-append (λ s. s.id == x.0) db.stages (row prev ∷ []),
          stage_at-fresh db (x.0) f,
          eq_refl (x.0),
        )
        refl

  pub others_found :
      (prev : Option String) (db : FlowDb) (i : String)
      → (x.0 == i) ≡ false
      → stage_at (extended prev db) i ≡ stage_at db i
  unfolding fetch
  others_found prev db i h = elim (Option-cases (stage_at db i)) [
    | inl n ↦ rw (fetch-append (λ s. s.id == i) db.stages (row prev ∷ []), n, h) refl
    | inr q ↦ rw (fetch-append (λ s. s.id == i) db.stages (row prev ∷ []), q.1) refl
  ]

  still_there :
      (p : String) (prev : Option String) (db : FlowDb)
      → has_stage p db ≡ true
      → has_stage p (extended prev db) ≡ true
  still_there p prev db h = elim (Option-cases (stage_at db p)) [
    | inl n ↦ absurd (ground (arith, n, h))
    | inr q ↦ rw (fetch-append (λ s. s.id == p) db.stages (row prev ∷ []), q.1) refl
  ]

  pub add_stage-extended :
      (prev : Option String) (db : FlowDb)
      → IsFresh db (x.0)
      → is_some (fetch (λ w. w.id == workflow) db.workflows) ≡ true
      → HasPrev db prev
      → add_stage workflow (plain_stage (x.0) (x.1) (depends_on prev)) now db
        ≡ (extended prev db, ok tt)
  unfolding add_stage add_dependencies
  add_stage-extended none db f w h =
      rw (stage_at-fresh db (x.0) f, w, append-nil db.dependencies) refl
  add_stage-extended (some prev) db f w h =
      rw
        (
          stage_at-fresh db (x.0) f,
          w,
          has_edge-fresh db (x.0) prev f,
          new_found (some prev) db f,
          still_there prev (some prev) db h,
        )
        refl

  pub own_edges :
      (prev : Option String) (db : FlowDb)
      → IsFresh db (x.0)
      → get_dependencies (extended prev db) (x.0) ≡ depends_on prev
  unfolding get_dependencies select
  own_edges none db f =
      rw
        (
          append-nil db.dependencies,
          select_of_none (λ d. d.stage_id == x.0) db.dependencies
              (count-zero _ db.dependencies f.1),
        )
        refl
  own_edges (some prev) db f =
      rw
        (
          select-append (λ d. d.stage_id == x.0) db.dependencies (edges (some prev)),
          select_of_none (λ d. d.stage_id == x.0) db.dependencies
              (count-zero _ db.dependencies f.1),
          eq_refl (x.0),
        )
        refl

  pub others_edges :
      (prev : Option String) (db : FlowDb) (i : String)
      → (x.0 == i) ≡ false
      → get_dependencies (extended prev db) i ≡ get_dependencies db i
  unfolding get_dependencies select
  others_edges none db i h = rw (append-nil db.dependencies) refl
  others_edges (some prev) db i h =
      rw
        (
          select-append (λ d. d.stage_id == i) db.dependencies (edges (some prev)),
          h,
          append-nil (select (λ d. d.stage_id == i) db.dependencies),
        )
        refl

  pub extended-IsFresh :
      (prev : Option String) (db : FlowDb) (i : String)
      → (x.0 == i) ≡ false
      → IsFresh db i
      → IsFresh (extended prev db) i
  unfolding count
  extended-IsFresh none db i h f = (
    ground (arith, count-append (λ s. s.id == i) db.stages (row none ∷ []), h, f.0),
    rw (append-nil db.dependencies) f.1,
  )
  extended-IsFresh (some prev) db i h f = (
    ground (arith, count-append (λ s. s.id == i) db.stages (row (some prev) ∷ []), h, f.0),
    ground (arith, count-append (λ d. d.stage_id == i) db.dependencies (edges (some prev)), h, f.1),
  )

  pub extended-HasUniqueIds :
      (prev : Option String) (db : FlowDb)
      → IsFresh db (x.0)
      → HasUniqueIds db.stages
      → HasUniqueIds (extended prev db).stages
  unfolding count
  extended-HasUniqueIds prev db f u i = elim (Bool-cases (x.0 == i)) [
    | inl y ↦
        let e = eq→≡ (x.0) i y in
        let none_yet = subst (λ j. count (λ s. s.id == j) db.stages ≡ 0) e f.0 in
        ground (arith, count-append (λ s. s.id == i) db.stages (row prev ∷ []), y, none_yet)
    | inr n ↦ ground (arith, count-append (λ s. s.id == i) db.stages (row prev ∷ []), n, u i)
  ]

  pub extended-AreDistinct :
      (prev : Option String) (db : FlowDb)
      → IsFresh db (x.0)
      → ((i : String) → AreDistinct (get_dependencies db i))
      → (i : String) → AreDistinct (get_dependencies (extended prev db) i)
  extended-AreDistinct prev db f a i = elim (Bool-cases (x.0 == i)) [
    | inl y ↦
        subst (λ j. AreDistinct (get_dependencies (extended prev db) j)) (eq→≡ (x.0) i y)
          (subst AreDistinct (sym (own_edges prev db f)) (single prev))
    | inr n ↦ subst AreDistinct (sym (others_edges prev db i n)) (a i)
  ]
    where
      single : (p : Option String) → AreDistinct (depends_on p)
      single none = tt
      single (some p) = (refl, tt)
