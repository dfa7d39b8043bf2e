-- ===== src/Domain.antt =====
-- src/domain/: short links, their validation, request idempotency and the redirect analytics.
pub mod Validation
pub mod ShortLink
pub mod Idempotency
pub mod Analytics
