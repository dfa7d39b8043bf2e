-- ===== src/Scripts.antt =====
-- scripts/: the command line programs that operators run, and the demonstrations.
pub mod BootstrapCredentials
pub mod Approve
pub mod Demo
pub mod Greenfield
pub mod Brownfield
pub mod Ambiguity
pub mod Ambiguous
