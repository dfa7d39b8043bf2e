-- ===== src/Schema/Status.antt =====
-- The values that the CHECK constraints of src/persistence/schema.py allow, and the tests on them
-- that the WHERE clauses of the program write.
use agentic_engineering_url.Prelude.{Bool, true, false}

pub data LinkStatus : Type 0 where
  active deleted : LinkStatus

pub data DrainStatus : Type 0 where
  pending applied : DrainStatus

pub data Completeness : Type 0 where
  complete degraded incomplete : Completeness

pub data SystemState : Type 0 where
  running stopped_clean : SystemState

pub data WorkflowStatus : Type 0 where
  running awaiting_approval safe_stopped completed rejected : WorkflowStatus

pub data StageStatus : Type 0 where
  pending ready running succeeded failed_transient : StageStatus
  failed_permanent awaiting_approval awaiting_reconciliation rejected skipped : StageStatus

pub data EffectClass : Type 0 where
  idempotent externally_observable_uncertain : EffectClass

pub data ExecutionStatus : Type 0 where
  claimed running completed failed abandoned : ExecutionStatus

pub data Role : Type 0 where
  reviewer_approver release_owner : Role

pub data Verdict : Type 0 where
  approved rejected escalated_timeout : Verdict

pub data Outcome : Type 0 where
  pass fail exception_requested not_applicable : Outcome

pub data ActorType : Type 0 where
  human agent system : ActorType

abbrev pub is_active : LinkStatus → Bool
is_active LinkStatus.active = true
is_active _ = false

abbrev pub is_drain_pending : DrainStatus → Bool
is_drain_pending DrainStatus.pending = true
is_drain_pending _ = false

abbrev pub is_complete : Completeness → Bool
is_complete Completeness.complete = true
is_complete _ = false

abbrev pub is_system_running : SystemState → Bool
is_system_running SystemState.running = true
is_system_running _ = false

abbrev pub is_workflow_running : WorkflowStatus → Bool
is_workflow_running WorkflowStatus.running = true
is_workflow_running _ = false

abbrev pub is_safe_stopped : WorkflowStatus → Bool
is_safe_stopped WorkflowStatus.safe_stopped = true
is_safe_stopped _ = false

abbrev pub is_pending : StageStatus → Bool
is_pending StageStatus.pending = true
is_pending _ = false

abbrev pub is_ready : StageStatus → Bool
is_ready StageStatus.ready = true
is_ready _ = false

abbrev pub is_running : StageStatus → Bool
is_running StageStatus.running = true
is_running _ = false

abbrev pub is_succeeded : StageStatus → Bool
is_succeeded StageStatus.succeeded = true
is_succeeded _ = false

abbrev pub is_failed_transient : StageStatus → Bool
is_failed_transient StageStatus.failed_transient = true
is_failed_transient _ = false

-- status IN ('pending','ready','running','awaiting_reconciliation')
abbrev pub is_unfinished : StageStatus → Bool
is_unfinished StageStatus.pending = true
is_unfinished StageStatus.ready = true
is_unfinished StageStatus.running = true
is_unfinished StageStatus.awaiting_reconciliation = true
is_unfinished _ = false

-- status IN ('claimed','running')
abbrev pub is_live : ExecutionStatus → Bool
is_live ExecutionStatus.claimed = true
is_live ExecutionStatus.running = true
is_live _ = false

abbrev pub is_abandoned : ExecutionStatus → Bool
is_abandoned ExecutionStatus.abandoned = true
is_abandoned _ = false

abbrev pub is_idempotent : EffectClass → Bool
is_idempotent EffectClass.idempotent = true
is_idempotent _ = false

abbrev pub same_role : Role → Role → Bool
same_role Role.reviewer_approver Role.reviewer_approver = true
same_role Role.release_owner Role.release_owner = true
same_role _ _ = false

abbrev pub is_fail : Outcome → Bool
is_fail Outcome.fail = true
is_fail _ = false
