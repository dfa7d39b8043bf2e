-- ===== src/Scripts/Greenfield/Chain.antt =====
-- A chain of stages is driven to its end, for scripts/demo_greenfield.py.
use agentic_engineering_url.Prelude.{
  ◌<◌, String, ◌≡◌, refl, sym, ap, ◌∙◌, subst, inl, inr, true, false, ◌&&◌, Option, none, some,
  List, [], ◌∷◌, map, arith, ◌==◌, eq→≡, other_way, Bool-cases, All, ok,
}
use agentic_engineering_url.Sql.{fetch, select, count}
use agentic_engineering_url.Sql.Laws.{fetch-holds, All-fetch}
use agentic_engineering_url.Schema.{Db, FlowDb, Stage}
use agentic_engineering_url.Schema.Status.{StageStatus, is_pending, is_succeeded}
use agentic_engineering_url.Observability.Audit.{record_event}
use agentic_engineering_url.Orchestration.Models.{get_dependencies}
use agentic_engineering_url.Orchestration.Scheduler.{
  is_in, compute_ready_stages, mark_ready, claim_stage,
}
use agentic_engineering_url.Orchestration.Scheduler.Ready.{
  HasUniqueIds, AreDistinct, HasSucceeded, ready_iff,
}
use agentic_engineering_url.Orchestration.Branching.{with_flow}
use agentic_engineering_url.Orchestration.Dispatch.Effects.{stage_at}
use agentic_engineering_url.Scripts.Demo.{Run}
use agentic_engineering_url.Scripts.Greenfield.{
  complete_and_record, depends_on, claim_ready, complete_claimed, drive_chain,
}
use agentic_engineering_url.Scripts.Greenfield.Steps.{IsDone, IsFrame, runs_through}

abbrev pub ids_of : List (String × String) → List String
ids_of chain = map (λ x. x.0) chain

-- A pending stage of the workflow, with these dependencies.
abbrev pub IsPending : FlowDb → (workflow id : String) → List String → Type 0
IsPending db workflow id deps =
    (s : Stage) × (stage_at db id ≡ some s)
    × ((s.workflow_instance_id == workflow) ≡ true)
    × (s.status ≡ StageStatus.pending)
    × (get_dependencies db id ≡ deps)

-- Pending stages, each of which depends on the one before it.
abbrev pub IsChain :
    FlowDb → (workflow : String) → (prev : Option String) → List (String × String) → Type 0
IsChain db workflow prev [] = Unit {0}
IsChain db workflow prev (x ∷ xs) =
    IsPending db workflow (x.0) (depends_on prev) × IsChain db workflow (some (x.0)) xs

abbrev pub IsPrevDone : FlowDb → Option String → Type 0
IsPrevDone db none = Unit {0}
IsPrevDone db (some prev) = IsDone db prev

abbrev pub HasDistinctEdges : FlowDb → Type 0
HasDistinctEdges db = (id : String) → AreDistinct (get_dependencies db id)

counted :
    (id : String) (s : Stage) (xs : List Stage)
    → fetch (λ x. x.id == id) xs ≡ some s
    → is_succeeded s.status ≡ true
    → 0 < count (λ x. (x.id == id) && is_succeeded x.status) xs
unfolding fetch count
counted id s [] f e = absurd (ground arith)
counted id s (x ∷ xs) f e = elim (Bool-cases (x.id == id)) [
  | inl y ↦ ground (arith, y, f, e)
  | inr n ↦ ground (arith, n, counted id s xs (ground (arith, n, f)) e)
]

prev_succeeded :
    (db : FlowDb) (prev : Option String)
    → IsPrevDone db prev
    → All (HasSucceeded db) (depends_on prev)
prev_succeeded db none h = tt
prev_succeeded db (some prev) h = (counted prev h.0 db.stages h.1 h.2, tt)

next_ready :
    (db : FlowDb) (workflow id : String) (prev : Option String)
    → HasUniqueIds db.stages
    → HasDistinctEdges db
    → IsPending db workflow id (depends_on prev)
    → IsPrevDone db prev
    → is_in (compute_ready_stages db workflow) id ≡ true
next_ready db workflow id prev u a (s, f, w, p, d) h =
    let own = eq→≡ s.id id (fetch-holds (λ x. x.id == id) db.stages s f) in
    let iff = All-fetch _ (λ x. x.id == id) db.stages s (ready_iff db workflow u a) f in
    let deps = ap (get_dependencies db) own ∙ d in
    subst (λ i. is_in (compute_ready_stages db workflow) i ≡ true) own
      (iff.1
        (w, ap is_pending p, subst (All (HasSucceeded db)) (sym deps) (prev_succeeded db prev h)))

get_dependencies-same :
    (db db' : FlowDb) (id : String)
    → db'.dependencies ≡ db.dependencies
    → get_dependencies db' id ≡ get_dependencies db id
unfolding get_dependencies
get_dependencies-same db db' id e =
    ap (λ ds. map (λ d. d.depends_on_stage_id) (select (λ d. d.stage_id == id) ds)) e

IsChain-frame :
    (db db' : FlowDb) (workflow id : String) (prev : Option String) (xs : List (String × String))
    → IsFrame id db db'
    → is_in (ids_of xs) id ≡ false
    → IsChain db workflow prev xs
    → IsChain db' workflow prev xs
IsChain-frame db db' workflow id prev [] f n h = tt
IsChain-frame db db' workflow id prev (x ∷ xs) f n ((s, at, w, p, d), h) = (
  (s, f.0 (x.0) (ground (arith, n)) ∙ at, w, p, get_dependencies-same db db' (x.0) f.1 ∙ d),
  IsChain-frame db db' workflow id (some (x.0)) xs f (ground (arith, n)) h,
)

-- The outcome of the loop: the stages of the chain have succeeded, and the others are as they were.
abbrev pub IsDriven : List String → Db → Db → Type 0
IsDriven ids db db' =
    All (IsDone db'.flow) ids
    × ((i : String) → is_in ids i ≡ false → stage_at db'.flow i ≡ stage_at db.flow i)

module _ (run : Run) where
  one_driven :
      (x : String × String) (db : Db) (s : Stage)
      → HasUniqueIds db.flow.stages
      → stage_at db.flow (x.0) ≡ some s
      → s.status ≡ StageStatus.pending
      → (db' : Db) × (claim_ready run x db ≡ ok db')
        × IsDone db'.flow (x.0)
        × IsFrame (x.0) db.flow db'.flow
  unfolding record_event
  one_driven x db s u f p =
      let execution = run.execution_id (x.0) in
      let marked = mark_ready run.now (x.0 ∷ []) db.flow in
      let claim = claim_stage execution run.worker run.now (x.0) marked in
      let through = runs_through execution run.worker run.now (x.0) db.flow s u f p in
      (
        complete_and_record run x execution (with_flow db claim.0),
        ap (complete_claimed run x (with_flow db claim.0)) through.0,
        through.1,
        through.2,
      )

  -- Whatever the chain, if its ids are distinct: every stage is ready when its turn comes.
  pub chain_succeeds :
      (chain : List (String × String)) (prev : Option String) (db : Db)
      → HasUniqueIds db.flow.stages
      → HasDistinctEdges db.flow
      → AreDistinct (ids_of chain)
      → IsChain db.flow run.workflow prev chain
      → IsPrevDone db.flow prev
      → (db' : Db) × (drive_chain run chain db ≡ ok db') × IsDriven (ids_of chain) db db'
  unfolding drive_chain
  chain_succeeds [] prev db u a d c h = (db, refl, (tt, λ i n. refl))
  chain_succeeds (x ∷ xs) prev db u a d c h =
      let ready = next_ready db.flow run.workflow (x.0) prev u a c.0 h in
      let (s, at, w, p, e) = c.0 in
      let (db1, ran, done, frame) = one_driven x db s u at p in
      let rest =
        chain_succeeds xs (some (x.0)) db1 (frame.2 u)
          (λ i. subst AreDistinct (sym (get_dependencies-same db.flow db1.flow i frame.1)) (a i))
          d.1 (IsChain-frame db.flow db1.flow run.workflow (x.0) (some (x.0)) xs frame d.0 c.1)
          done in
      let (db', drove, (all, apart)) = rest in
      (
        db',
        rw (ready, ran) drove,
        (
          ((done.0, apart (x.0) d.0 ∙ done.1, done.2), all),
          λ i n. apart i (ground (arith, n)) ∙ frame.0 i (other_way i (x.0) (ground (arith, n))),
        ),
      )
