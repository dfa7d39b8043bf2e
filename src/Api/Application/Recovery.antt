-- ===== src/Api/Application/Recovery.antt =====
-- The stages and the system status after a startup, for src/api/main.py.
use agentic_engineering_url.Prelude.{
  ℕ, ◌+◌, ◌≡◌, refl, false, ◌&&◌, some, List, [], ◌∷◌, arith, All, All-of,
}
use agentic_engineering_url.Sql.{update, count}
use agentic_engineering_url.Sql.Laws.{All-update}
use agentic_engineering_url.Schema.{Db, Stage, SystemStatus}
use agentic_engineering_url.Schema.Status.{
  StageStatus, SystemState, is_running, is_failed_transient,
}
use agentic_engineering_url.Observability.SystemStatus.{on_startup}
use agentic_engineering_url.Orchestration.Scheduler.{recover_on_startup, set_status}
use agentic_engineering_url.Api.Application.{startup}

exclusive : (status : StageStatus) → (is_running status && is_failed_transient status) ≡ false
exclusive StageStatus.pending = refl
exclusive StageStatus.ready = refl
exclusive StageStatus.running = refl
exclusive StageStatus.succeeded = refl
exclusive StageStatus.failed_transient = refl
exclusive StageStatus.failed_permanent = refl
exclusive StageStatus.awaiting_approval = refl
exclusive StageStatus.awaiting_reconciliation = refl
exclusive StageStatus.rejected = refl
exclusive StageStatus.skipped = refl

moved :
    (now : ℕ) (stages : List Stage)
    → count
        (λ s. is_failed_transient s.status)
        (update (λ s. is_running s.status) (set_status StageStatus.failed_transient now) stages)
      ≡ count (λ s. is_failed_transient s.status) stages + count (λ s. is_running s.status) stages
unfolding count update
moved now [] = refl
moved now (s ∷ stages) = ground (arith, exclusive s.status, moved now stages)

-- After a startup no stage is running, as many stages have failed transiently as had before and
-- were running before together, and the system is recorded as running.
pub startup_recovers :
    (now : ℕ) (db : Db)
    → let db' = startup now db in
      All (λ s. is_running s.status ≡ false) db'.flow.stages
      × (count (λ s. is_failed_transient s.status) db'.flow.stages
          ≡ count (λ s. is_failed_transient s.status) db.flow.stages
            + count (λ s. is_running s.status) db.flow.stages)
      × ((row : SystemStatus) × (db'.link.system_status ≡ some row)
          × (row.state ≡ SystemState.running))
unfolding startup recover_on_startup on_startup
startup_recovers now db = (
  All-update (λ _. Unit {0}) _ (λ s. is_running s.status)
      (set_status StageStatus.failed_transient now) (λ s k t. refl) (λ s k t. t) db.flow.stages
      (All-of _ (λ s. tt) db.flow.stages),
  moved now db.flow.stages,
  ((on_startup now db.link.system_status).0, refl, refl),
)
