-- ===== src/Persistence.antt =====
-- src/persistence/: the retry of statements that find the database busy.
pub mod Retry
