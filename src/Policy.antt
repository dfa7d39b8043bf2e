-- ===== src/Policy.antt =====
-- src/policy/: the manifest, policy evaluations and their exceptions.
pub mod Manifest
pub mod Evaluator
pub mod Exception
pub mod Live
