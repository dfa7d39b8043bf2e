-- ===== src/Examples/Graph.antt =====
-- A dependency graph of two stages, the eligible one of them, and a third that is added.
use agentic_engineering_url.Prelude.{
  ◌≤◌, String, ◌≡◌, refl, subst, ◌↔◌, inl, inr, true, arith, ◌==◌, eq→≡, Bool-cases, All,
}
use agentic_engineering_url.Sql.{count, fetch, select}
use agentic_engineering_url.Schema.Status.{is_pending}
use agentic_engineering_url.Orchestration.Models.{get_dependencies}
use agentic_engineering_url.Orchestration.Scheduler.{compute_ready_stages, is_in}
use agentic_engineering_url.Orchestration.Scheduler.Ready.{
  HasUniqueIds, AreDistinct, HasSucceeded, ready_iff,
}
use agentic_engineering_url.Orchestration.Scheduler.Progress.{IsLayered, Eligible, never_stuck}
use agentic_engineering_url.Examples.Data.{flow_branch, branch_row}

branch-HasUniqueIds : HasUniqueIds flow_branch.stages
unfolding count
branch-HasUniqueIds id = elim (Bool-cases ("s1" == id)) [
  | inl y ↦
      subst (λ z. count (λ s. s.id == z) flow_branch.stages ≤ 1) (eq→≡ "s1" id y) (omega arith)
  | inr n ↦ ground (arith, n)
]

branch-AreDistinct : (id : String) → AreDistinct (get_dependencies flow_branch id)
unfolding get_dependencies select
branch-AreDistinct id = elim (Bool-cases ("s2" == id)) [ inl y ↦ rw y (refl, tt) | inr n ↦ rw n tt ]

ready_iff_example :
    All
      (λ s. (is_in (compute_ready_stages flow_branch "w1") s.id ≡ true) ↔ (
        ((s.workflow_instance_id == "w1") ≡ true)
        × (is_pending s.status ≡ true)
        × All (HasSucceeded flow_branch) (get_dependencies flow_branch s.id)))
      flow_branch.stages
ready_iff_example = ready_iff flow_branch "w1" branch-HasUniqueIds branch-AreDistinct

branch-IsLayered : IsLayered flow_branch
branch-IsLayered = (omega arith, tt)

never_stuck_example : Eligible flow_branch
unfolding fetch
never_stuck_example =
    never_stuck flow_branch branch-HasUniqueIds branch-AreDistinct branch-IsLayered
      (refl, (refl, tt)) branch_row refl refl
