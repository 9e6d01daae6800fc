-- ===== src/Verifier/Accept/Sealed.antt =====
-- The seal of an accepted statement that has a substrate row.
use aee_conformance.Base.{ℕ, true, false, ◌≡◌}
use aee_conformance.Py.Value.{Value, Fields}
use aee_conformance.Py.Run.{Run}
use aee_conformance.Platform.{Platform}
use aee_conformance.Verifier.State.{VerifyState}
use aee_conformance.Verifier.Rows.{is_substrate}
use aee_conformance.Verifier.Gate1.{mem_index}
use aee_conformance.Verifier.Accept.Open.{Open}

abbrev Recorded : VerifyState → ℕ → Fields → Type 0
Recorded st j r =
    is_substrate r ≡ true → mem_index j st.fail_closed_rows ≡ false → st.has_records ≡ true
