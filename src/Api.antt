-- ===== src/Api.antt =====
-- src/api/: the middleware, the authentication and the HTTP handlers.
pub mod RateLimit
pub mod ShortLinks
pub mod Redirect
pub mod Auth
pub mod Approvals
pub mod Application
pub mod Bearer
pub mod Workflows
pub mod WorkflowEvidence
pub mod Health
pub mod Requests
