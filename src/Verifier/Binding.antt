-- ===== src/Verifier/Binding.antt =====
-- The run binding of packaging/run_vectors.py: `posture_preimage_digest`, `binding_preimage` and
-- `_check_run_binding`.
use aee_conformance.Base.{String, Option, none, some, if◌then◌else◌}
use aee_conformance.Base.{all}
use mathlib.Core.Option
use aee_conformance.Py.Value.{
  Value, str, arr, obj, cons, Fields, end, field, get, has, values, is_str,
}
use aee_conformance.Py.Bytes.{hex}
use aee_conformance.Py.Run.{Run, ◌>>=◌, pure}
use aee_conformance.Platform.{Platform}
use aee_conformance.Jcs.{jcs_dumps}
use aee_conformance.Verifier.State.{VerifyState, binding_version}
use aee_conformance.Verifier.Vocabulary.{canonical_digest}

-- `v[k]`: `none` is a `KeyError`, an `IndexError` or a `TypeError`.
abbrev pub item : String → Value → Option Value
item k (obj fs) = if has k fs then some (get k fs) else none
item k _ = none

abbrev first_item : Value → Option Value
first_item (arr (cons x xs)) = some x
first_item _ = none

-- `env[name]["digest"]["sha256"]`
unfoldable pub digest_item : String → Fields → Option Value
digest_item name env =
    Option.bind (item name (obj env)) λ m. Option.bind (item "digest" m) (item "sha256")

module _ (P : Platform) where
  unfoldable pub posture_preimage_digest : Fields → String
  unfolding jcs_dumps hex
  posture_preimage_digest env = elim (get "networkPosture" env) [
    | obj raw ↦ elim (jcs_dumps (obj raw)) [ none ↦ "" | some b ↦ hex (P.sha256 b) ]
    | _ ↦ ""
  ]

  -- The eight members, in the order written.
  abbrev pub preimage : String → Value → Value → Value → Value → Value → Value → Fields
  preimage posture subject catch_policy corpus vocabulary entropy substrate =
      field "aeeBindingVersion" (str binding_version) (
        field "catchPolicy" catch_policy (
          field "corpus" corpus (
            field "networkPosture" (str posture) (
              field "observationVocabulary" vocabulary (
                field "runEntropy" entropy
                  (field "subject" subject (field "substrate" substrate end)))))))

  unfoldable pub binding_preimage : Fields → Value → Option Fields
  unfolding posture_preimage_digest digest_item
  binding_preimage env subject = Option.bind (digest_item "catchPolicy" env) λ catch_policy.
      Option.bind (digest_item "corpus" env) λ corpus.
        Option.bind (digest_item "observationVocabulary" env) λ vocabulary.
          Option.bind (digest_item "runEntropy" env) λ entropy.
            Option.bind (digest_item "substrate" env) λ substrate. some (
              preimage (posture_preimage_digest env) subject catch_policy corpus vocabulary entropy
                substrate)

  -- `stmt["subject"][0]["digest"]["sha256"]`
  unfoldable pub subject_sha : Fields → Option Value
  subject_sha stmt =
      Option.bind (item "subject" (obj stmt)) λ subject.
        Option.bind (first_item subject) λ s. Option.bind (item "digest" s) (item "sha256")

  abbrev pub binding_of : Option Fields → Run (Option String)
  binding_of none = pure none
  binding_of (some vals) =
      if all is_str (values vals)
      then (canonical_digest P (obj vals) >>= λ d. pure (some d))
      else pure none

  abbrev pub derive : Fields → Fields → Run (Option String)
  derive stmt env = binding_of (Option.bind (subject_sha stmt) (binding_preimage env))

  unfoldable pub check_run_binding : VerifyState → Run VerifyState
  unfolding subject_sha binding_preimage canonical_digest
  check_run_binding st = do
    derived ← if st.has_substrate then derive st.stmt st.env else pure none
    pure (record st { derived_binding = derived })
