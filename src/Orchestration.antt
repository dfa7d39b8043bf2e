-- ===== src/Orchestration.antt =====
-- src/orchestration/: workflows and their stages.
pub mod Models
pub mod Scheduler
pub mod Dispatch
pub mod RetryPolicy
pub mod Reaper
pub mod Replanning
pub mod Branching
pub mod Validators
pub mod Workspace
pub mod LiveScheduler
pub mod Attempts
pub mod Lineage
pub mod Launcher
pub mod Compensation
