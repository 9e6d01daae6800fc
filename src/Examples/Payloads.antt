-- ===== src/Examples/Payloads.antt =====
-- The strict parse of packaging/run_vectors.py, on the seal of the test data.
use aee_conformance.Base.{false, codes, ◌≡◌, refl}
use aee_conformance.Base.Int.{pos}
use aee_conformance.Py.Value.{bool, int, str, arr, obj, Fields, end, field}
use aee_conformance.IJson.{parsed, strict_payload_parse, statement_strict_fault}
use aee_conformance.IJson.Strict.{
  IsStrict, IsCanonical, strict_payload_parse-IsCanonical,
  strict_payload_parse-statement_strict_fault,
}
use aee_conformance.Jcs.{all_bmp}
use aee_conformance.Base.{true}
use aee_conformance.Examples.Data.{platform, zeros, seal_text, texts}
use aee_conformance.Base.{[], ◌∷◌}

abbrev seal : Fields
seal = field "aeeDropCount" (int (pos 0)) (
    field "aeeKind" (str "sealed") (
      field "aeeMethod" (str "intercepted") (
        field "aeeObservedAttacks" (arr (texts ("a1" ∷ []))) (
          field "aeeObservedSet" (str zeros) (
            field "aeePostureDigest" (str zeros)
              (field "aeeRunBinding" (str zeros) (field "aeeStillArmed" (bool true) end)))))))

seal_parsed : strict_payload_parse platform (codes seal_text) ≡ parsed seal
unfolding strict_payload_parse all_bmp
seal_parsed = refl

strict_payload_parse-IsCanonical_example :
    IsStrict platform (codes seal_text) (obj seal) × IsCanonical platform (codes seal_text) seal
strict_payload_parse-IsCanonical_example =
    strict_payload_parse-IsCanonical platform (codes seal_text) seal seal_parsed

strict_payload_parse-statement_strict_fault_example :
    statement_strict_fault platform (codes seal_text) ≡ false
strict_payload_parse-statement_strict_fault_example =
    strict_payload_parse-statement_strict_fault platform (codes seal_text) seal seal_parsed
