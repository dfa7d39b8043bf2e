-- ===== src/Orchestration/Scheduler/Layers.antt =====
-- How stages and their edges are added, for src/orchestration/models.py.
use agentic_engineering_url.Prelude.{
  ℕ, ◌≤◌, ◌<◌, String, ◌≡◌, inl, inr, true, false, ◌&&◌, List, [], ◌∷◌, ◌++◌, arith, ◌==◌, eq_iff,
  eq_refl, is_some, Bool-cases, length, All-append, All-map,
}
use agentic_engineering_url.Sql.{fetch}
use agentic_engineering_url.Schema.{FlowDb, Stage, Dependency}
use agentic_engineering_url.Orchestration.Models.{
  StageSpec, new_stage, has_stage, has_edge, add_dependencies, add_stage,
}
use agentic_engineering_url.Orchestration.Scheduler.{is_in}
use agentic_engineering_url.Orchestration.Scheduler.Progress.{place, IsLayered, place-le-length}

module _ (n : Stage) where
  place-append-ge : (id : String) (ss : List Stage) → place id ss ≤ place id (ss ++ n ∷ [])
  place-append-ge id [] = omega arith
  place-append-ge id (s ∷ ss) = ground (arith, place-append-ge id ss)

  place-append_old :
      (id : String) (ss : List Stage)
      → place id ss < length ss
      → place id (ss ++ n ∷ []) ≡ place id ss
  place-append_old id [] h = absurd (omega (arith, h))
  place-append_old id (s ∷ ss) h = ground (arith, h, place-append_old id ss)

  place-append_new :
      (id : String) (ss : List Stage)
      → is_some (fetch (λ s. s.id == id) ss) ≡ false
      → (n.id == id) ≡ true
      → place id (ss ++ n ∷ []) ≡ length ss
  unfolding fetch
  place-append_new id [] h e = ground (arith, e)
  place-append_new id (s ∷ ss) h e = ground (arith, h, e, place-append_new id ss)

  place-present :
      (id : String) (ss : List Stage)
      → is_some (fetch (λ s. s.id == id) (ss ++ n ∷ [])) ≡ true
      → (n.id == id) ≡ false
      → place id (ss ++ n ∷ []) < length ss
  unfolding fetch
  place-present id [] h e = absurd (ground (arith, h, e))
  place-present id (s ∷ ss) h e = ground (arith, h, e, place-present id ss)

-- A stage all of whose present fellows stand before it.
abbrev IsLast : String → FlowDb → Type 0
IsLast id db =
    (dep : String)
    → (dep == id) ≡ false
    → has_stage dep db ≡ true
    → place dep db.stages < place id db.stages

add_dependencies-IsLayered :
    (workflow stage : String) (deps : List String) (db : FlowDb)
    → is_in deps stage ≡ false
    → IsLast stage db
    → IsLayered db
    → IsLayered (add_dependencies workflow stage deps db).0
unfolding add_dependencies
add_dependencies-IsLayered workflow stage [] db n l h = h
add_dependencies-IsLayered workflow stage (dep ∷ deps) db n l h =
    elim (Bool-cases (has_edge stage dep db)) [
      | inl y ↦ rw y h
      | inr fresh ↦ elim (Bool-cases (has_stage stage db && has_stage dep db)) [
        | inr missing ↦ rw (fresh, missing) h
        | inl there ↦
            let edge : Dependency = record {
              workflow_instance_id = workflow;
              stage_id = stage;
              depends_on_stage_id = dep;
            } in
            rw (fresh, there)
              (add_dependencies-IsLayered workflow stage deps
                (record db { dependencies = db.dependencies ++ edge ∷ [] }) (ground (arith, n)) l
                (All-append _ db.dependencies (edge ∷ []) h (
                  l dep (ground (arith, n, eq_iff dep stage, eq_iff stage dep))
                      (ground (arith, there)),
                  tt,
                )))
      ]
    ]

appended-IsLayered :
    (n : Stage) (db : FlowDb)
    → IsLayered db
    → IsLayered (record db { stages = db.stages ++ n ∷ [] })
appended-IsLayered n db h =
    All-map db.dependencies
      (λ d k. omega (
        arith,
        k,
        place-le-length d.stage_id db.stages,
        place-append-ge n d.stage_id db.stages,
        place-append_old n d.depends_on_stage_id db.stages
            (omega (arith, k, place-le-length d.stage_id db.stages)),
      ))
      h

appended-IsLast :
    (n : Stage) (db : FlowDb)
    → has_stage n.id db ≡ false
    → IsLast n.id (record db { stages = db.stages ++ n ∷ [] })
appended-IsLast n db new dep other there = omega (
  arith,
  place-append_new n n.id db.stages new (eq_refl n.id),
  place-present n dep db.stages there (ground (arith, other, eq_iff dep n.id, eq_iff n.id dep)),
)

-- A stage that is added with a new id, and does not name itself, keeps every edge leading to an
-- earlier stage, also when the addition fails on the way.
pub add_stage-IsLayered :
    (workflow : String) (spec : StageSpec) (now : ℕ) (db : FlowDb)
    → is_in spec.depends_on spec.id ≡ false
    → IsLayered db
    → IsLayered (add_stage workflow spec now db).0
unfolding add_stage
add_stage-IsLayered workflow spec now db own h = elim (Bool-cases (has_stage spec.id db)) [
  | inl y ↦ rw y h
  | inr new ↦ elim (Bool-cases (is_some (fetch (λ w. w.id == workflow) db.workflows))) [
    | inr missing ↦ rw (new, missing) h
    | inl there ↦
        let n = new_stage workflow spec now in
        rw (new, there)
          (add_dependencies-IsLayered workflow spec.id spec.depends_on
            (record db { stages = db.stages ++ n ∷ [] }) own (appended-IsLast n db new)
            (appended-IsLayered n db h))
  ]
]
