-- ===== src/Orchestration/LiveScheduler/Stopped.antt =====
-- A workflow that is not running, over the passes of src/orchestration/live_scheduler.py.
use agentic_engineering_url.Prelude.{
  ℕ, ◌≤◌, String, ◌≡◌, refl, sym, ap, ◌∙◌, subst, inl, inr, Bool, true, false, ◌&&◌, Option, some,
  List, [], ◌∷◌, map, ◌==◌, eq_iff, other_way, eq→≡, nat_eq, Bool-cases, arith,
}
use agentic_engineering_url.Sql.{fetch, update, count, select}
use agentic_engineering_url.Sql.Laws.{count-update_same}
use agentic_engineering_url.Sql.Apart.{fetch-update_apart}
use agentic_engineering_url.Schema.{Db, Workflow}
use agentic_engineering_url.Schema.Status.{WorkflowStatus, is_workflow_running}
use agentic_engineering_url.Observability.Audit.{record_event}
use agentic_engineering_url.Policy.Live.{run_mandatory_policy_checks}
use agentic_engineering_url.Orchestration.Scheduler.{
  is_in, compute_ready_stages, mark_ready, set_workflow,
}
use agentic_engineering_url.Orchestration.Reaper.{sweep_stale_leases}
use agentic_engineering_url.Orchestration.Branching.{with_flow}
use agentic_engineering_url.Orchestration.LiveScheduler.{
  Pass, has_fail, was_checked, run_all, ready_ids, unfinished, finish, advance, stop_on_fail,
  check_and_advance, drive_workflow, drive_all, tick, scheduler_loop,
}
use agentic_engineering_url.Orchestration.LiveScheduler.Untouched.{
  mark_ready-workflows, run_all-workflows, sweep-workflows,
}

-- What is stored under an id: the workflow, and the number of rows.
abbrev pub stored : List Workflow → String → Option Workflow × ℕ
stored ws id = (fetch (λ w. w.id == id) ws, count (λ w. w.id == id) ws)

module _ (pass : Pass) (workflow : String) where
  set-stored :
      (p : Workflow → Bool) (status : WorkflowStatus) (id : String) (ws : List Workflow)
      → ((w : Workflow) → p w ≡ true → (w.id == workflow) ≡ true)
      → (workflow == id) ≡ false
      → stored (update p (set_workflow status pass.now) ws) id ≡ stored ws id
  set-stored p status id ws own h =
      rw
        (
          fetch-update_apart p (set_workflow status pass.now) (λ w. w.id == id) (λ w. refl)
              (λ w t. rw (eq→≡ w.id workflow (own w t)) h) ws,
          count-update_same p (λ w. w.id == id) (set_workflow status pass.now) (λ w. refl) ws,
        )
        refl

  finish-stored :
      (id : String) (db : Db)
      → (workflow == id) ≡ false
      → stored (finish pass workflow db).flow.workflows id ≡ stored db.flow.workflows id
  unfolding finish
  finish-stored id db h = elim (Bool-cases (nat_eq (unfinished pass workflow db.flow) 0)) [
    | inl y ↦ rw y (
        set-stored (λ w. (w.id == workflow) && is_workflow_running w.status)
          WorkflowStatus.completed id db.flow.workflows (λ w t. ground arith) h)
    | inr n ↦ rw n refl
  ]

  advance-stored :
      (id : String) (db : Db)
      → (workflow == id) ≡ false
      → stored (advance pass workflow db).flow.workflows id ≡ stored db.flow.workflows id
  unfolding advance
  advance-stored id db h =
      let flow = mark_ready pass.now (compute_ready_stages db.flow workflow) db.flow in
      let ran =
        run_all pass workflow (pass.order (ready_ids pass workflow flow)) (with_flow db flow) in
      finish-stored id ran h
      ∙ ap (λ ws. stored ws id)
          (run_all-workflows pass workflow (pass.order (ready_ids pass workflow flow))
              (with_flow db flow)
            ∙ mark_ready-workflows pass.now (compute_ready_stages db.flow workflow) db.flow)

  drive-stored :
      (id : String) (db : Db)
      → (workflow == id) ≡ false
      → stored (drive_workflow pass workflow db).flow.workflows id ≡ stored db.flow.workflows id
  unfolding drive_workflow check_and_advance stop_on_fail record_event
  drive-stored id db h = elim (Bool-cases (was_checked workflow db.policy)) [
    | inl y ↦ rw (y, drive_workflow) (advance-stored id db h)
    | inr n ↦
        let checks =
          run_mandatory_policy_checks pass.files pass.manifest db.flow workflow "v1" pass.now
            db.policy in
        elim (Bool-cases (has_fail checks.1)) [
          | inl f ↦
              rw (n, f, drive_workflow)
                (set-stored (λ w. w.id == workflow) WorkflowStatus.safe_stopped id db.flow.workflows
                  (λ w t. t) h)
          | inr g ↦
              rw (n, g, drive_workflow) (advance-stored id (record db { policy = checks.0 }) h)
        ]
  ]

drive_all-stored :
    (pass : Pass) (ids : List String) (id : String) (db : Db)
    → is_in ids id ≡ false
    → stored (drive_all pass ids db).flow.workflows id ≡ stored db.flow.workflows id
unfolding drive_all
drive_all-stored pass [] id db h = refl
drive_all-stored pass (w ∷ ws) id db h =
    drive_all-stored pass ws id (drive_workflow pass w db) (ground (arith, h))
    ∙ drive-stored pass w id db (ground (arith, h, eq_iff w id, eq_iff id w))

not_among :
    (p : Workflow → Bool) (id : String) (ws : List Workflow)
    → count (λ v. v.id == id) ws ≡ 0
    → is_in (map (λ v. v.id) (select p ws)) id ≡ false
unfolding count select
not_among p id [] c = refl
not_among p id (x ∷ xs) c = elim (Bool-cases (x.id == id)) [
  | inl y ↦ absurd (ground (arith, y, c))
  | inr n ↦
      let later = not_among p id xs (ground (arith, n, c)) in
      elim (Bool-cases (p x)) [
        | inl t ↦ rw (t, other_way x.id id n, later) refl
        | inr f ↦ rw (f, later) refl
      ]
]

-- No other row has the id, so it is not among those of the running workflows.
not_driven :
    (id : String) (w : Workflow) (ws : List Workflow)
    → fetch (λ v. v.id == id) ws ≡ some w
    → is_workflow_running w.status ≡ false
    → count (λ v. v.id == id) ws ≤ 1
    → is_in (map (λ v. v.id) (select (λ v. is_workflow_running v.status) ws)) id ≡ false
unfolding fetch count select
not_driven id w [] f r u = refl
not_driven id w (x ∷ xs) f r u = elim (Bool-cases (x.id == id)) [
  | inl y ↦
      let stopped : is_workflow_running x.status ≡ false = ground (arith, y, f, r) in
      rw stopped (not_among (λ v. is_workflow_running v.status) id xs (ground (arith, y, u)))
  | inr n ↦
      let later = not_driven id w xs (ground (arith, n, f)) r (ground (arith, n, u)) in
      elim (Bool-cases (is_workflow_running x.status)) [
        | inl t ↦ rw (t, other_way x.id id n, later) refl
        | inr t ↦ rw (t, later) refl
      ]
]

tick-stored :
    (pass : Pass) (id : String) (w : Workflow) (db : Db)
    → stored db.flow.workflows id ≡ (some w, 1)
    → is_workflow_running w.status ≡ false
    → stored (tick pass db).flow.workflows id ≡ (some w, 1)
unfolding tick
tick-stored pass id w db s r =
    let swept = with_flow db (sweep_stale_leases pass.now db.flow).0 in
    let kept = ap (λ ws. stored ws id) (sweep-workflows pass.now db.flow) ∙ s in
    drive_all-stored pass
      (map (λ v. v.id) (select (λ v. is_workflow_running v.status) swept.flow.workflows)) id swept
      (not_driven id w swept.flow.workflows (ap (λ x. x.0) kept) r
        (subst (λ n. n ≤ 1) (sym (ap (λ x. x.1) kept)) (omega arith)))
    ∙ kept

-- However many passes the loop makes, whatever the times, the policy checks and the claims in them: a
-- workflow that is not running is left exactly as it is, if its id is its own. So a safe-stopped
-- workflow, or a completed one, never resumes by itself.
pub stopped_stays :
    (worker : String) (passes : List Pass) (id : String) (w : Workflow) (db : Db)
    → stored db.flow.workflows id ≡ (some w, 1)
    → is_workflow_running w.status ≡ false
    → stored (scheduler_loop worker passes db).flow.workflows id ≡ (some w, 1)
unfolding scheduler_loop
stopped_stays worker [] id w db s r = s
stopped_stays worker (pass ∷ passes) id w db s r =
    stopped_stays worker passes id w (tick (record pass { worker = worker }) db)
      (tick-stored (record pass { worker = worker }) id w db s r) r
