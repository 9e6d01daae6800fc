-- ===== src/Artifact.antt =====
-- tools/artifact-binding: the record that binds a trial's files, its verification and its lineage.
pub mod Jcs
pub mod Tools
pub mod Verify
pub mod Codes
pub mod Verdicts
pub mod Outcomes
pub mod Paths
pub mod Silent
pub mod Sound
pub mod Lineage
pub mod Chains
