-- ===== src/Examples/Bound.antt =====
-- The run binding and the self-check of the statement of the test data.
use mathlib.Core.Option
use aee_conformance.Base.{String, Option, some, none, [], ◌∷◌, ◌≡◌, refl, true, All, any}
use aee_conformance.Py.Value.{Fields, obj, get}
use aee_conformance.Py.Run.{done, skip}
use aee_conformance.Verifier.Binding.{subject_sha, binding_preimage, derive}
use aee_conformance.Verifier.Vocabulary.{canonical_digest}
use aee_conformance.Verifier.Record.{record_views}
use aee_conformance.Verifier.Rows.{dict_rows, is_substrate}
use aee_conformance.Verifier.Accept.Fields.{rows_of, records_of, environment_of}
use aee_conformance.Verifier.Accept.Bound.{IsBoundRow}
use aee_conformance.Verifier.Accept.Referenced.{accepted-IsBoundRow}
use aee_conformance.SecondFault.{second_fault_absence}
use aee_conformance.SecondFault.Accepted.{second_fault_absence-accepted}
use aee_conformance.Examples.Data.{platform, statement, predicate, environment, key, zeros}
use aee_conformance.Examples.Accepted.{accepts}

derives : derive platform statement environment ≡ done (some zeros) []
unfolding subject_sha binding_preimage Option.bind canonical_digest
derives = refl

accepted_bound_example :
    (fields : Fields) × (pred : Fields) × (derived : Option String) × (obj statement ≡ obj fields)
    × (get "predicate" fields ≡ obj pred)
    × (any is_substrate (rows_of pred) ≡ true
        → derive platform fields (environment_of pred) ≡ done derived [])
    × All (IsBoundRow derived (record_views platform 0 (records_of pred))) (rows_of pred)
accepted_bound_example = accepted-IsBoundRow platform key (obj statement) none accepts

second_fault_absence-accepted_example :
    second_fault_absence platform (obj statement) ("ref-malformed" ∷ []) ≡ skip
unfolding dict_rows
second_fault_absence-accepted_example =
    second_fault_absence-accepted platform key statement predicate none accepts refl
      ("ref-malformed" ∷ []) derives (refl, tt)
