-- ===== src/Orchestration/LiveScheduler/Passes.antt =====
-- Failed policy checks and interrupted stages, for src/orchestration/live_scheduler.py.
use agentic_engineering_url.Prelude.{
  String, ◌≡◌, refl, ap, ◌∙◌, Bool, true, false, not, ◌&&◌, some, List, [], arith, ◌==◌, equals?,
  All, All-map,
}
use mathlib.Core.Option
use agentic_engineering_url.Sql.{fetch, update, count}
use agentic_engineering_url.Sql.Laws.{
  fetch-update, fetch-holds, count_of_none, All-update, select_of_none,
}
use agentic_engineering_url.Schema.{Db, FlowDb, Stage, Workflow}
use agentic_engineering_url.Schema.Status.{
  WorkflowStatus, StageStatus, Outcome, is_ready, is_running, is_pending, is_workflow_running,
  is_unfinished,
}
use agentic_engineering_url.Policy.Manifest.{policy_ids}
use agentic_engineering_url.Policy.Live.{check_policy, run_mandatory_policy_checks}
use agentic_engineering_url.Orchestration.Branching.{with_flow}
use agentic_engineering_url.Orchestration.Scheduler.{
  compute_ready_stages, mark_ready, recover_on_startup, set_workflow, set_status, is_in,
}
use agentic_engineering_url.Orchestration.LiveScheduler.{
  Pass, was_checked, run_all, finish, advance, drive_workflow,
}
use agentic_engineering_url.Orchestration.LiveScheduler.Found.{
  found_fail_stops, unchecked, fail_is_found,
}

module _ (pass : Pass) (workflow : String) where
  -- If a workflow has no evaluation for revision v1, and the check of any policy of the manifest gives
  -- FAIL, the pass leaves every stage and execution as they were, and the workflow, if there is
  -- one, is safe-stopped.
  pub failed_check_stops :
      (db : Db) (policy : String)
      → count
          (λ e.
            equals? e.workflow_instance_id (some workflow)
            && equals? e.artifact_revision (some "v1"))
          db.policy.evaluations
        ≡ 0
      → is_in (policy_ids pass.manifest) policy ≡ true
      → check_policy pass.files db.flow workflow policy ≡ Outcome.fail
      → let db' = drive_workflow pass workflow db in
        ((db'.flow.stages ≡ db.flow.stages) × (db'.flow.executions ≡ db.flow.executions))
        × (Option.map (λ w. w.status) (fetch (λ w. w.id == workflow) db'.flow.workflows)
            ≡ Option.map
                (λ w. WorkflowStatus.safe_stopped)
                (fetch (λ w. w.id == workflow) db.flow.workflows))
  unfolding run_mandatory_policy_checks
  failed_check_stops db policy none_yet member fails =
      found_fail_stops pass workflow db (unchecked pass workflow db.policy none_yet) (
        fail_is_found pass workflow db.flow policy pass.manifest.version fails
          pass.manifest.policies db.policy member)

  -- A stage of the workflow that has not been begun, or whose effect is in doubt.
  abbrev pub is_waiting : Stage → Bool
  is_waiting s =
      (s.workflow_instance_id == workflow) && (is_unfinished s.status && not (is_running s.status))

  IsSettled : FlowDb → Type 0
  IsSettled db =
      All (λ s. ((s.workflow_instance_id == workflow) && is_unfinished s.status) ≡ false) db.stages

  recovered-IsSettled :
      (db : FlowDb)
      → All (λ s. is_waiting s ≡ false) db.stages
      → IsSettled ((recover_on_startup pass.now db).0)
  unfolding recover_on_startup IsSettled
  recovered-IsSettled db h =
      All-update _ _ (λ s. is_running s.status) (set_status StageStatus.failed_transient pass.now)
        (λ s k t. ground arith) (λ s k t. ground arith) db.stages h

  pending_waits :
      (s : Stage)
      → ((s.workflow_instance_id == workflow) && is_unfinished s.status) ≡ false
      → ((s.workflow_instance_id == workflow) && is_pending s.status) ≡ false
  pending_waits s k = ground arith

  ready_waits :
      (s : Stage)
      → ((s.workflow_instance_id == workflow) && is_unfinished s.status) ≡ false
      → ((s.workflow_instance_id == workflow) && is_ready s.status) ≡ false
  ready_waits s k = ground arith

  nothing_ready : (db : FlowDb) → IsSettled db → compute_ready_stages db workflow ≡ []
  unfolding compute_ready_stages IsSettled
  nothing_ready db h =
      rw
        (
          select_of_none (λ s. (s.workflow_instance_id == workflow) && is_pending s.status)
              db.stages (All-map db.stages (λ s k. pending_waits s k) h),
          compute_ready_stages,
        )
        refl

  settled-advance :
      (db : Db)
      → pass.order [] ≡ []
      → IsSettled db.flow
      → advance pass workflow db ≡ finish pass workflow db
  unfolding advance run_all mark_ready IsSettled
  settled-advance db o h =
      let none_ready =
        select_of_none (λ s. (s.workflow_instance_id == workflow) && is_ready s.status)
          db.flow.stages (All-map db.flow.stages (λ s k. ready_waits s k) h) in
      rw (nothing_ready db.flow h, none_ready, o) refl

  finish_settled :
      (db : Db)
      → IsSettled db.flow
      → (finish pass workflow db).flow.workflows
        ≡ update
            (λ w. (w.id == workflow) && is_workflow_running w.status)
            (set_workflow WorkflowStatus.completed pass.now)
            db.flow.workflows
  unfolding finish IsSettled
  finish_settled db h = ground (
    arith,
    count_of_none (λ s. (s.workflow_instance_id == workflow) && is_unfinished s.status)
        db.flow.stages h,
  )

  finish-stages : (db : Db) → (finish pass workflow db).flow.stages ≡ db.flow.stages
  unfolding finish
  finish-stages db = ground arith

  drive_settled :
      (db : Db)
      → was_checked workflow db.policy ≡ true
      → pass.order [] ≡ []
      → IsSettled db.flow
      → drive_workflow pass workflow db ≡ finish pass workflow db
  unfolding drive_workflow
  drive_settled db c o h = rw (c, drive_workflow) (settled-advance db o h)

  completed_row :
      (workflows : List Workflow) (w : Workflow)
      → fetch (λ v. v.id == workflow) workflows ≡ some w
      → is_workflow_running w.status ≡ true
      → Option.map
          (λ v. v.status)
          (fetch
            (λ v. v.id == workflow)
            (update
              (λ v. (v.id == workflow) && is_workflow_running v.status)
              (set_workflow WorkflowStatus.completed pass.now)
              workflows))
        ≡ some WorkflowStatus.completed
  completed_row workflows w f r = ground (
    arith,
    f,
    r,
    fetch-holds (λ v. v.id == workflow) workflows w f,
    fetch-update (λ v. (v.id == workflow) && is_workflow_running v.status) (λ v. v.id == workflow)
        (set_workflow WorkflowStatus.completed pass.now) (λ v t. refl) workflows,
  )

  -- If the program is started again when no stage of a running, already checked workflow waits,
  -- while some may have been interrupted as they ran, the interrupted ones are recovered as failed
  -- transiently, and the next pass, which has an empty set to go through, marks the workflow
  -- completed and leaves them so.
  pub restart_completes_failed :
      (db : Db) (w : Workflow)
      → All (λ s. is_waiting s ≡ false) db.flow.stages
      → was_checked workflow db.policy ≡ true
      → pass.order [] ≡ []
      → fetch (λ v. v.id == workflow) db.flow.workflows ≡ some w
      → is_workflow_running w.status ≡ true
      → let recovered = (recover_on_startup pass.now db.flow).0 in
        let db' = drive_workflow pass workflow (with_flow db recovered) in
        (Option.map (λ v. v.status) (fetch (λ v. v.id == workflow) db'.flow.workflows)
          ≡ some WorkflowStatus.completed)
        × (db'.flow.stages ≡ recovered.stages)
  unfolding recover_on_startup
  restart_completes_failed db w h c o f r =
      let db' = with_flow db ((recover_on_startup pass.now db.flow).0) in
      let settled = recovered-IsSettled db.flow h in
      let driven = drive_settled db' c o settled in
      (
        ap (λ d. Option.map (λ v. v.status) (fetch (λ v. v.id == workflow) d.flow.workflows)) driven
            ∙ ap (λ ws. Option.map (λ v. v.status) (fetch (λ v. v.id == workflow) ws))
                (finish_settled db' settled)
            ∙ completed_row db.flow.workflows w f r,
        ap (λ d. d.flow.stages) driven ∙ finish-stages db',
      )
