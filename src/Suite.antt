-- ===== src/Suite.antt =====
-- The vector runner of packaging/run_vectors.py: the rails that it observes, the manifest that it reads,
-- and the evaluation of what a rail reports on a vector.
pub mod Score
pub mod Expected
pub mod Rail
pub mod Evaluate
pub mod Contract
pub mod Verdicts
pub mod Reflects
pub mod Conform
pub mod Reports
pub mod Order
pub mod Process
pub mod Reference
pub mod Passes
pub mod Family
pub mod Coherence
pub mod Tree
pub mod Closure
pub mod Listing
pub mod Members
pub mod Refusals
pub mod Closed
