-- ===== src/Observability.antt =====
-- src/observability/: the audit trail and the system status.
pub mod Audit
pub mod SystemStatus
pub mod Metrics
