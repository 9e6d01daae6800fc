-- ===== src/Verifier/Commitments.antt =====
-- The coverage validity requirements of predicate version 0.7 in packaging/run_vectors.py:
-- `_check_commitments`.
mod Rows
mod Seals
unfoldable pub use Rows.*
unfoldable pub use Seals.*
use aee_conformance.Base.{Bool, not, ◌&&◌, ◌||◌, if◌then◌else◌}
use aee_conformance.Py.Run.{Run, done, raised, ◌>>=◌, ◌>>◌, pure, skip, after}
use aee_conformance.Platform.{Platform}
use aee_conformance.Verifier.State.{VerifyState}

module _ (P : Platform) where
  abbrev sealed_checks : VerifyState → Run (Unit {0})
  sealed_checks st = do
    observed_set P st
    sealed_present st
    carried_cover P st
    seal_attacks st
    assessed_subset st

  unfoldable pub check_commitments : VerifyState → Run (Unit {0})
  unfolding clean_row_contradicted interception_orphaned attribution observed_set sealed_present
      carried_cover seal_attacks assessed_subset
  check_commitments st = do
    clean_row_contradicted st
    interception_orphaned st
    attribution st
    if not st.has_substrate || not st.has_records then skip else sealed_checks st
