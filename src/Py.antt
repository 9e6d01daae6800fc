-- ===== src/Py.antt =====
-- The values that packaging/run_vectors.py computes with: what `json.loads` returns, the language's
-- equality, hashing and dict lookup on them, and the exceptions that a check can let out.
pub mod Value
pub mod Run
pub mod Bytes
