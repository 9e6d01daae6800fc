-- ===== src/Examples.antt =====
-- Test data for packaging/run_vectors.py: functions in place of hashlib, base64, json and datetime, and
-- a statement that `verify` accepts. The children test the components on it.
pub mod Data
pub mod Accepted
pub mod Bound
pub mod Rails
pub mod Runs
pub mod Bindings
pub mod Signatures
pub mod Suites
pub mod Values
pub mod Payloads
pub mod Texts
