-- ===== src/Verifier/Accept.antt =====
-- What a statement that `verify` of packaging/run_vectors.py accepts satisfies. The children give the
-- state that each silent check leaves, and the facts that it implies.
pub mod Frames
pub mod Chain
pub mod Fields
pub mod Statement
pub mod Result
pub mod Nonempty
pub mod Covered
pub mod Closed
pub mod Open
pub mod Batch
pub mod Bound
pub mod Referenced
pub mod Sealed
pub mod Manifest
pub mod Partition
pub mod Observed
pub mod Tied
pub mod Cover
pub mod Covering
pub mod Classes
pub mod Assigned
