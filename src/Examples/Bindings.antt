-- ===== src/Examples/Bindings.antt =====
-- Records of tools/artifact-binding at work: a verified record, one whose file is absent, and a chain.
use aee_conformance.Base.{
  ℕ, String, true, Option, none, some, List, [], ◌∷◌, ◌≡◌, refl, codes, ◌↔◌, str_eq, if◌then◌else◌,
}
use aee_conformance.Base.Int.{pos}
use aee_conformance.Py.Value.{Value, int, str, arr, obj, Fields, end, field, nil, cons}
use aee_conformance.Artifact.Tools.{Tools, Disk}
use aee_conformance.Artifact.Jcs.{canonical_bytes}
use aee_conformance.Artifact.Verify.{verified, failed, not_established, verify_record}
use aee_conformance.Artifact.Outcomes.{IsExplained, verify_record-IsExplained}
use aee_conformance.Artifact.Silent.{IsCanonicalRecord, IsBacked}
use aee_conformance.Artifact.Sound.{verified-IsBacked}
use aee_conformance.Artifact.Lineage.{check_lineage}
use aee_conformance.Artifact.Chains.{IsChain, check_lineage-IsChain}

abbrev entry_of : String → Value
entry_of role = obj (
    field "role" (str role)
      (field "path" (str "a/b") (field "length" (int (pos 3)) (field "sha256" (str "digest") end))))

abbrev record_fields : Fields
record_fields = field "schema_version" (str "artifact-binding/v1") (
    field "signer_key_id" (str "digest") (
      field "artifacts"
        (arr (
          cons (entry_of "atif_trajectory") (
            cons (entry_of "trial_result") (
              cons (entry_of "reward")
                (cons (entry_of "grading_stdout") (cons (entry_of "grading_stderr") nil))))))
        (field "verification_inputs"
          (obj (field "grading_inputs" (arr (cons (entry_of "verifier_files") nil)) end)) end)))

abbrev unwrapped : Option (List ℕ) → List ℕ
unwrapped none = []
unwrapped (some bytes) = bytes

abbrev stored_bytes : List ℕ
unfolding canonical_bytes
stored_bytes = unwrapped (canonical_bytes (λ n. "1.0") (obj record_fields))

abbrev tools : Tools
tools = record {
  sha256_hex = λ b. "digest";
  json_loads = λ b. some (obj record_fields);
  str_of = λ v. "None";
  float_repr = λ n. "1.0";
  read_float = λ b. none;
  to_float = λ v. some v;
  strip = λ b. b;
  unhex = λ b. none;
  ed25519 = λ key message signature. true;
}

abbrev disk : Disk
disk path = if str_eq path "a/b" then some (1 ∷ 2 ∷ 3 ∷ []) else none

abbrev empty_disk : Disk
empty_disk path = none

abbrev signature : List ℕ
signature = codes "0123456789012345678901234567890123456789012345678901234567890123"

is_verified : verify_record tools disk stored_bytes signature (7 ∷ []) ≡ some (verified, [])
unfolding verify_record stored_bytes
is_verified = refl

is_absent :
    verify_record tools empty_disk stored_bytes signature (7 ∷ [])
    ≡ some (
      not_established,
      "artifact-absent" ∷ "artifact-absent" ∷ "artifact-absent" ∷ "artifact-absent"
          ∷ "artifact-absent" ∷ "artifact-absent" ∷ [],
    )
unfolding verify_record stored_bytes
is_absent = refl

is_altered :
    verify_record tools disk (1 ∷ []) signature (7 ∷ [])
    ≡ some (failed, "manifest-encoding-not-canonical" ∷ [])
unfolding verify_record
is_altered = refl

verify_record-IsExplained_example : IsExplained not_established (
    "artifact-absent" ∷ "artifact-absent" ∷ "artifact-absent" ∷ "artifact-absent"
    ∷ "artifact-absent" ∷ "artifact-absent" ∷ [])
verify_record-IsExplained_example =
    verify_record-IsExplained tools empty_disk stored_bytes signature (7 ∷ []) is_absent

verified-IsBacked_example :
    (rec : Fields) × IsCanonicalRecord tools stored_bytes rec
    × IsBacked tools disk stored_bytes signature (7 ∷ []) rec
verified-IsBacked_example = verified-IsBacked tools disk stored_bytes signature (7 ∷ []) is_verified

abbrev executed : Fields
executed = field "operation" (str "execute") (field "source_archive_digest" (str "archive") end)

abbrev regraded : Fields
regraded =
    field "operation" (str "regrade") (
      field "source_archive_digest" (str "archive")
        (field "source_record_digest" (str "first") end))

chain_of_two : check_lineage tools (executed ∷ regraded ∷ []) ("first" ∷ "second" ∷ []) ≡ some []
unfolding check_lineage
chain_of_two = refl

check_lineage-IsChain_example :
    (check_lineage tools (executed ∷ regraded ∷ []) ("first" ∷ "second" ∷ []) ≡ some [])
    ↔ IsChain tools (executed ∷ regraded ∷ []) ("first" ∷ "second" ∷ [])
check_lineage-IsChain_example =
    check_lineage-IsChain tools (executed ∷ regraded ∷ []) ("first" ∷ "second" ∷ [])
