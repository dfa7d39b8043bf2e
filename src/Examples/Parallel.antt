-- ===== src/Examples/Parallel.antt =====
-- Two stages that are dispatched at once.
use agentic_engineering_url.Prelude.{
  ℕ, zero, suc, ◌≤◌, ◌<◌, String, ◌≡◌, refl, subst, inl, inr, false, List, [], ◌∷◌, map, arith,
  ◌==◌, eq→≡, if◌then◌else◌, Bool-cases, length,
}
use agentic_engineering_url.Sql.{count, fetch, update}
use agentic_engineering_url.Schema.{FlowDb, Preconditions}
use agentic_engineering_url.Schema.Status.{StageStatus}
use agentic_engineering_url.Orchestration.Scheduler.{
  is_in, claim_stage, claim_selected, complete_stage,
}
use agentic_engineering_url.Orchestration.Scheduler.Ready.{HasUniqueIds}
use agentic_engineering_url.Orchestration.Dispatch.{
  Turn, Dispatched, dispatch_ready_stages_parallel, gather, step_at, claim_first, resume,
}
use agentic_engineering_url.Orchestration.Dispatch.Effects.{seen}
use agentic_engineering_url.Orchestration.Dispatch.Refinement.{
  succeeded_once, dispatch_refines_success,
}
use agentic_engineering_url.Orchestration.Dispatch.Fairness.{given, fair_dispatch_returns}
use agentic_engineering_url.Examples.Data.{flow_running, stage_of}

abbrev two_ready : FlowDb
two_ready = record flow_running {
  stages =
      stage_of "s1" "build" StageStatus.ready Preconditions.null
      ∷ stage_of "s2" "test" StageStatus.ready Preconditions.null
      ∷ [];
  executions = [];
}

two_ready-HasUniqueIds : HasUniqueIds two_ready.stages
unfolding count
two_ready-HasUniqueIds id = elim (Bool-cases ("s1" == id)) [
  | inl y ↦ subst (λ z. count (λ s. s.id == z) two_ready.stages ≤ 1) (eq→≡ "s1" id y) (omega arith)
  | inr n ↦ ground (arith, n)
]

abbrev both : List (String × String)
both = ("s1", "x1") ∷ ("s2", "x2") ∷ []

abbrev turn_of : ℕ → ℕ → Turn
turn_of position now = record { position = position; now = now; raises = false }

-- The second task starts first, and ends last.
abbrev crossed : List Turn
crossed = turn_of 1 10 ∷ turn_of 0 11 ∷ turn_of 0 12 ∷ turn_of 1 13 ∷ []

crossed_returns :
    (dispatch_ready_stages_parallel "worker" "w1" both crossed 14 two_ready).1
    ≡ Dispatched.returned (("s1", 11) ∷ ("s2", 10) ∷ [])
unfolding dispatch_ready_stages_parallel gather step_at claim_first resume claim_stage
    claim_selected complete_stage fetch count update
crossed_returns = refl

dispatch_refines_success_example :
    seen (dispatch_ready_stages_parallel "worker" "w1" both crossed 14 two_ready).0 "s2" ≡ (
      if is_in (map (λ x. x.0) both) "s2"
      then succeeded_once two_ready "s2"
      else seen two_ready "s2")
dispatch_refines_success_example =
    dispatch_refines_success "worker" "w1" both crossed 14 two_ready two_ready-HasUniqueIds
      (refl, (refl, tt)) (refl, (refl, tt)) crossed_returns "s2"

crossed_is_fair : (i : ℕ) → i < length both → 2 ≤ given crossed i
unfolding count
crossed_is_fair zero h = omega arith
crossed_is_fair (suc zero) h = omega arith
crossed_is_fair (suc (suc i)) h = absurd (omega arith)

fair_dispatch_returns_example :
    (times : List (String × ℕ)) × ((dispatch_ready_stages_parallel "worker" "w1" both crossed 14
        two_ready).1
      ≡ Dispatched.returned times)
fair_dispatch_returns_example =
    fair_dispatch_returns "worker" "w1" both crossed 14 two_ready (refl, (refl, (refl, (refl, tt))))
      crossed_is_fair
