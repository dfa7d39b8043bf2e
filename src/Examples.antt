-- ===== src/Examples.antt =====
-- Runs of the program on small tables, to which its theorems apply.
pub mod Data
mod Chains
mod Lives
mod Counting
mod Demos
mod Links
mod Serving
mod Flows
mod Gates
mod Retries
mod Graph
mod Pipeline
mod Parallel
mod Operators
mod Watching
