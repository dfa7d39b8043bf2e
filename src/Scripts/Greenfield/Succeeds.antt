-- ===== src/Scripts/Greenfield/Succeeds.antt =====
-- Any chain of new stages is added and driven to its end, for scripts/demo_greenfield.py.
use agentic_engineering_url.Prelude.{
  String, ◌≡◌, refl, ap, ◌∙◌, true, false, Option, none, some, List, [], ◌∷◌, arith, ◌==◌, eq_refl,
  other_way, is_some, All, ok, ◌>>=◌,
}
use agentic_engineering_url.Sql.{fetch}
use agentic_engineering_url.Schema.{Db, FlowDb}
use agentic_engineering_url.Orchestration.Models.{get_dependencies}
use agentic_engineering_url.Orchestration.Scheduler.{is_in}
use agentic_engineering_url.Orchestration.Scheduler.Ready.{HasUniqueIds, AreDistinct}
use agentic_engineering_url.Orchestration.Branching.{with_flow}
use agentic_engineering_url.Orchestration.Dispatch.Effects.{stage_at}
use agentic_engineering_url.Scripts.Demo.{Run, added}
use agentic_engineering_url.Scripts.Greenfield.{add_chain, drive_chain}
use agentic_engineering_url.Scripts.Greenfield.Chain.{
  ids_of, IsChain, HasDistinctEdges, IsDriven, chain_succeeds,
}
use agentic_engineering_url.Scripts.Greenfield.Build.{
  IsFresh, HasPrev, row, extended, add_stage-extended, new_found, own_edges, others_found,
  others_edges, extended-IsFresh, extended-HasUniqueIds, extended-AreDistinct,
}

-- The workflow is in the table.
abbrev pub HasWorkflow : FlowDb → String → Type 0
HasWorkflow db id = is_some (fetch (λ w. w.id == id) db.workflows) ≡ true

abbrev IsSame : List String → FlowDb → FlowDb → Type 0
IsSame ids db db' =
    (i : String)
    → is_in ids i ≡ false
    → (stage_at db' i ≡ stage_at db i) × (get_dependencies db' i ≡ get_dependencies db i)

module _ (run : Run) where
  extended-IsFresh_rest :
      (x : String × String) (prev : Option String) (db : FlowDb) (xs : List (String × String))
      → is_in (ids_of xs) (x.0) ≡ false
      → All (IsFresh db) (ids_of xs)
      → All (IsFresh (extended run.workflow x run.now prev db)) (ids_of xs)
  extended-IsFresh_rest x prev db [] n f = tt
  extended-IsFresh_rest x prev db (y ∷ ys) n f = (
    extended-IsFresh run.workflow x run.now prev db (y.0) (ground (arith, n)) f.0,
    extended-IsFresh_rest x prev db ys (ground (arith, n)) f.1,
  )

  add_chain-IsChain :
      (chain : List (String × String)) (prev : Option String) (db : Db)
      → HasUniqueIds db.flow.stages
      → HasDistinctEdges db.flow
      → AreDistinct (ids_of chain)
      → All (IsFresh db.flow) (ids_of chain)
      → HasWorkflow db.flow run.workflow
      → HasPrev db.flow prev
      → (db' : Db) × (add_chain run prev chain db ≡ ok db')
        × IsChain db'.flow run.workflow prev chain
        × HasUniqueIds db'.flow.stages
        × HasDistinctEdges db'.flow
        × IsSame (ids_of chain) db.flow db'.flow
  unfolding add_chain
  add_chain-IsChain [] prev db u a d f w p = (db, refl, tt, u, a, λ i n. (refl, refl))
  add_chain-IsChain (x ∷ xs) prev db u a d f w p =
      let flow = extended run.workflow x run.now prev db.flow in
      let once = ap (added db) (add_stage-extended run.workflow x run.now prev db.flow f.0 w p) in
      let found = new_found run.workflow x run.now prev db.flow f.0 in
      let rest =
        add_chain-IsChain xs (some (x.0)) (with_flow db flow)
          (extended-HasUniqueIds run.workflow x run.now prev db.flow f.0 u)
          (extended-AreDistinct run.workflow x run.now prev db.flow f.0 a) d.1
          (extended-IsFresh_rest x prev db.flow xs d.0 f.1) w (ap is_some found) in
      let (db', later, chain, unique, edges, same) = rest in
      let own = same (x.0) d.0 in
      (
        db',
        rw once later,
        (
          (
            row run.workflow x run.now prev,
            own.0 ∙ found,
            eq_refl run.workflow,
            refl,
            own.1 ∙ own_edges run.workflow x run.now prev db.flow f.0,
          ),
          chain,
        ),
        unique,
        edges,
        λ i n.
            let other = other_way i (x.0) (ground (arith, n)) in
            let then = same i (ground (arith, n)) in
            (
              then.0 ∙ others_found run.workflow x run.now prev db.flow i other,
              then.1 ∙ others_edges run.workflow x run.now prev db.flow i other,
            ),
      )

  -- Whatever the names and however many: stages that are added to a workflow of the table, each
  -- depending on the one before it, are then driven through one after the other without a failed
  -- assertion or a lost claim; all of them have succeeded in the end, and every other stage is as it
  -- was. This is so where the ids of the stages, of which the new ones are distinct, are new, and the
  -- table's ids and edges are unique.
  pub any_chain_succeeds :
      (chain : List (String × String)) (db : Db)
      → HasUniqueIds db.flow.stages
      → HasDistinctEdges db.flow
      → AreDistinct (ids_of chain)
      → All (IsFresh db.flow) (ids_of chain)
      → HasWorkflow db.flow run.workflow
      → (db' : Db) × ((add_chain run none chain db >>= drive_chain run chain) ≡ ok db')
        × IsDriven (ids_of chain) db db'
  any_chain_succeeds chain db u a d f w =
      let (db1, made, linked, unique, edges, same) = add_chain-IsChain chain none db u a d f w tt in
      let (db2, drove, (all, apart)) = chain_succeeds run chain none db1 unique edges d linked tt in
      (db2, rw made drove, (all, λ i n. apart i n ∙ (same i n).0))
