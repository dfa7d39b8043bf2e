-- ===== src/Orchestration/Scheduler/Ready.antt =====
-- Which stages are eligible, for src/orchestration/scheduler.py.
use agentic_engineering_url.Prelude.{
  ◌+◌, ◌≤◌, ◌<◌, String, ◌≡◌, refl, ◌∙◌, ◌↔◌, inl, inr, Bool, true, false, not, ◌&&◌, List, [], ◌∷◌,
  arith, ◌==◌, eq_iff, eq_refl, ltb, if◌then◌else◌, Bool-cases, length, All, All-of, All-map,
}
use agentic_engineering_url.Sql.{select, count}
use agentic_engineering_url.Sql.Laws.{
  count_mono, count_of_none, count-le-add, add-le-count, All-counted,
}
use agentic_engineering_url.Schema.{FlowDb, Stage}
use agentic_engineering_url.Schema.Status.{is_pending, is_succeeded}
use agentic_engineering_url.Orchestration.Models.{get_dependencies}
use agentic_engineering_url.Orchestration.Scheduler.{
  is_in, succeeded_count, eligible_with, is_eligible, compute_ready_stages, ids_where,
}

-- The ids of the stages are unique: the primary key of the table.
abbrev pub HasUniqueIds : List Stage → Type 0
HasUniqueIds stages = (id : String) → count (λ s. s.id == id) stages ≤ 1

-- No id stands twice in the list: (stage_id, depends_on_stage_id) is the key of the edges.
abbrev pub AreDistinct : List String → Type 0
AreDistinct [] = Unit
AreDistinct (d ∷ ds) = (is_in ds d ≡ false) × AreDistinct ds

-- The stage of the id has succeeded.
abbrev pub HasSucceeded : FlowDb → String → Type 0
HasSucceeded db id = 0 < count (λ s. (s.id == id) && is_succeeded s.status) db.stages

succeeded_count-cons :
    (db : FlowDb) (d : String) (ds : List String)
    → is_in ds d ≡ false
    → succeeded_count db (d ∷ ds)
      ≡ count (λ s. (s.id == d) && is_succeeded s.status) db.stages + succeeded_count db ds
succeeded_count-cons db d ds new = omega (
  arith,
  count-le-add (λ (s : Stage). is_in (d ∷ ds) s.id && is_succeeded s.status)
      (λ s. (s.id == d) && is_succeeded s.status) (λ s. is_in ds s.id && is_succeeded s.status)
      (λ s t. ground arith) db.stages,
  add-le-count (λ (s : Stage). is_in (d ∷ ds) s.id && is_succeeded s.status)
      (λ s. (s.id == d) && is_succeeded s.status) (λ s. is_in ds s.id && is_succeeded s.status)
      (λ s t. ground (arith, eq_iff s.id d)) (λ s t. ground arith) db.stages,
)

succeeded_count-nil : (db : FlowDb) → succeeded_count db [] ≡ 0
succeeded_count-nil db = count_of_none _ db.stages (All-of _ (λ s. refl) db.stages)

one_at_most :
    (db : FlowDb) (d : String)
    → HasUniqueIds db.stages
    → count (λ s. (s.id == d) && is_succeeded s.status) db.stages ≤ 1
one_at_most db d unique = omega (
  arith,
  unique d,
  count_mono (λ s. (s.id == d) && is_succeeded s.status) (λ s. s.id == d) (λ s t. ground arith)
      db.stages,
)

succeeded_count-le :
    (db : FlowDb) (ds : List String)
    → HasUniqueIds db.stages
    → AreDistinct ds
    → succeeded_count db ds ≤ length ds
succeeded_count-le db [] u a = omega (arith, succeeded_count-nil db)
succeeded_count-le db (d ∷ ds) u a =
    omega
      (arith, succeeded_count-cons db d ds a.0, one_at_most db d u, succeeded_count-le db ds u a.1)

All-succeeded-of :
    (db : FlowDb) (ds : List String)
    → HasUniqueIds db.stages
    → AreDistinct ds
    → succeeded_count db ds ≡ length ds
    → All (HasSucceeded db) ds
All-succeeded-of db [] u a h = tt
All-succeeded-of db (d ∷ ds) u a h = (
  omega
      (arith, succeeded_count-cons db d ds a.0, one_at_most db d u, succeeded_count-le db ds u a.1),
  All-succeeded-of db ds u a.1 (
      omega (
        arith,
        succeeded_count-cons db d ds a.0,
        one_at_most db d u,
        succeeded_count-le db ds u a.1,
      )),
)

All-succeeded_if :
    (db : FlowDb) (ds : List String)
    → HasUniqueIds db.stages
    → AreDistinct ds
    → All (HasSucceeded db) ds
    → succeeded_count db ds ≡ length ds
All-succeeded_if db [] u a h = succeeded_count-nil db
All-succeeded_if db (d ∷ ds) u a h = omega (
  arith,
  succeeded_count-cons db d ds a.0,
  one_at_most db d u,
  h.0,
  All-succeeded_if db ds u a.1 h.1,
)

-- A stage is eligible exactly when all its dependencies have succeeded, for unique stage ids and
-- distinct dependencies.
pub eligible_iff :
    (db : FlowDb) (s : Stage)
    → HasUniqueIds db.stages
    → AreDistinct (get_dependencies db s.id)
    → (is_eligible db s ≡ true) ↔ All (HasSucceeded db) (get_dependencies db s.id)
unfolding is_eligible
eligible_iff db s u a = by_deps (get_dependencies db s.id) a
  where
    by_deps :
        (ds : List String)
        → AreDistinct ds
        → (eligible_with db ds ≡ true) ↔ All (HasSucceeded db) ds
    by_deps [] a = (λ _. tt, λ _. refl)
    by_deps (d ∷ ds) a = (
      λ e. All-succeeded-of db (d ∷ ds) u a (ground arith),
      λ h. ground (arith, All-succeeded_if db (d ∷ ds) u a h),
    )

module _ (p e : Stage → Bool) where
  is_in-ids :
      (id : String) (xs : List Stage)
      → is_in (ids_where e (select p xs)) id ≡ ltb 0 (count (λ s. (id == s.id) && (p s && e s)) xs)
  unfolding ids_where select count
  is_in-ids id [] = refl
  is_in-ids id (x ∷ xs) = ground (arith, is_in-ids id xs)

abbrev agrees : (Stage → Bool) → Stage → Stage → Bool
agrees q s t = (s.id == t.id) && (if q s then q t else not (q t))

agrees_self : (q : Stage → Bool) (s : Stage) → agrees q s s ≡ true
agrees_self q s = ground (arith, eq_refl s.id)

-- Where ids are unique, to look for a row by the id of `s` is to look at `s`.
lookup_self :
    (q : Stage → Bool) (xs : List Stage)
    → HasUniqueIds xs
    → (s : Stage) → 0 < count (agrees q s) xs
    → ltb 0 (count (λ t. (s.id == t.id) && q t) xs) ≡ q s
lookup_self q xs u s h = elim (Bool-cases (q s)) [
  | inl e ↦ rw e (
      ground (arith, count_mono (agrees q s) (λ t. (s.id == t.id) && q t) (λ t k. ground arith) xs))
  | inr e ↦ rw e (
      ground (
        arith,
        u s.id,
        add-le-count (λ (t : Stage). t.id == s.id) (λ t. (s.id == t.id) && q t) (agrees q s)
            (λ t k. ground (arith, eq_iff s.id t.id, eq_iff t.id s.id))
            (λ t k. ground (arith, eq_iff s.id t.id, eq_iff t.id s.id)) xs,
      ))
]

-- Where stage ids are unique and no stage lists a dependency twice, a stage of the table is returned
-- by `compute_ready_stages` exactly when it is a pending stage of the workflow all of whose
-- dependencies have succeeded.
pub ready_iff :
    (db : FlowDb) (workflow : String)
    → HasUniqueIds db.stages
    → ((id : String) → AreDistinct (get_dependencies db id))
    → All
        (λ s. (is_in (compute_ready_stages db workflow) s.id ≡ true) ↔ (
          ((s.workflow_instance_id == workflow) ≡ true)
          × (is_pending s.status ≡ true)
          × All (HasSucceeded db) (get_dependencies db s.id)))
        db.stages
unfolding compute_ready_stages
ready_iff db workflow u a =
    All-map db.stages
      (λ s h.
        let p = λ (t : Stage). (t.workflow_instance_id == workflow) && is_pending t.status in
        let q = λ (t : Stage). p t && is_eligible db t in
        let found = is_in-ids p (is_eligible db) s.id db.stages ∙ lookup_self q db.stages u s h in
        let eligible = eligible_iff db s u (a s.id) in
        (
          λ k. (ground (arith, found), ground (arith, found), eligible.0 (ground (arith, found))),
          λ k. ground (arith, found, eligible.1 k.2),
        ))
      (All-counted
        (agrees
          (λ t. ((t.workflow_instance_id == workflow) && is_pending t.status) && is_eligible db t))
        (agrees_self
          (λ t. ((t.workflow_instance_id == workflow) && is_pending t.status) && is_eligible db t))
        db.stages)
