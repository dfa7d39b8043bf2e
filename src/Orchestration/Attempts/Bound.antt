-- ===== src/Orchestration/Attempts/Bound.antt =====
-- The attempts of a stage over any sequence of steps, for src/orchestration/scheduler.py.
use agentic_engineering_url.Prelude.{ℕ, ◌≤◌, refl, List, [], ◌∷◌, arith, All, All-map}
use agentic_engineering_url.Sql.{select}
use agentic_engineering_url.Schema.{FlowDb}
use agentic_engineering_url.Schema.Status.{StageStatus, is_running}
use agentic_engineering_url.Orchestration.Scheduler.{recover_on_startup}
use agentic_engineering_url.Orchestration.Reaper.{sweep_stale_leases, is_stale}
use agentic_engineering_url.Orchestration.Attempts.{
  Operation, marked, claimed, completed, recovered, retried, swept, reconciled, invalidated,
  perform, perform_all, IsSound,
}
use agentic_engineering_url.Orchestration.Attempts.Steps.{
  mark_ready-IsSound, claim_stage-IsSound, set_closed-IsSound, complete_stage-IsSound,
  issue_retry-IsSound, abandon_all-IsSound, reconcile_stage-IsSound, invalidate-IsSound,
}

perform-IsSound :
    (op : Operation) (now : ℕ) (db : FlowDb)
    → IsSound db.stages
    → IsSound (perform op now db).stages
unfolding perform recover_on_startup sweep_stale_leases
perform-IsSound (marked ids) now db h = mark_ready-IsSound now ids db h
perform-IsSound (claimed execution worker stage) now db h =
    claim_stage-IsSound execution worker stage now db h
perform-IsSound (completed execution stage) now db h =
    complete_stage-IsSound execution stage now db h
perform-IsSound recovered now db h =
    set_closed-IsSound (λ s. is_running s.status) StageStatus.failed_transient now db.stages refl h
perform-IsSound (retried stage) now db h = issue_retry-IsSound now stage db h
perform-IsSound swept now db h = abandon_all-IsSound now (select (is_stale now) db.executions) db h
perform-IsSound (reconciled stage probe) now db h = reconcile_stage-IsSound now stage probe db h
perform-IsSound (invalidated workflow revision ids) now db h =
    invalidate-IsSound now workflow revision ids db h

perform_all-IsSound :
    (ops : List (Operation × ℕ)) (db : FlowDb)
    → IsSound db.stages
    → IsSound (perform_all ops db).stages
unfolding perform_all
perform_all-IsSound [] db h = h
perform_all-IsSound ((op, now) ∷ ops) db h =
    perform_all-IsSound ops (perform op now db) (perform-IsSound op now db h)

-- From stages with unique ids, of which none has an attempt_count above three, and no pending or ready
-- one an attempt_count above two, any sequence of mark_ready, claim_stage, complete_stage,
-- recover_on_startup, issue_retry_or_exhaust, sweep_stale_leases, reconcile_stage and
-- invalidate_downstream ends in stages whose attempt_count is at most three.
-- apply_fallback_or_safe_stop, branch decisions and promotions are not among the steps.
pub attempts_bounded :
    (ops : List (Operation × ℕ)) (db : FlowDb)
    → IsSound db.stages
    → All (λ s. s.attempt_count ≤ 3) (perform_all ops db).stages
attempts_bounded ops db h =
    All-map (perform_all ops db).stages (λ s k. omega (arith, k)) (perform_all-IsSound ops db h).1
