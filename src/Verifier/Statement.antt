-- ===== src/Verifier/Statement.antt =====
-- GATE 0 of packaging/run_vectors.py up to the vocabulary: `_check_statement_type` and
-- `_check_gate0_wellformed`.
use aee_conformance.Base.{String, Bool, true, false, not, Option, none, some, List, [], ◌∷◌}
use aee_conformance.Base.{mem_str, if◌then◌else◌}
use aee_conformance.Py.Value.{
  Value, str, obj, Fields, get, has, as_dict, dict_or_empty, is_none, is_text,
}
use aee_conformance.Py.Run.{Run, ◌>>◌, pure, skip, add, add_if, hash}
use aee_conformance.Platform.{Platform}
use aee_conformance.Shapes.{timestamp_ok}
use aee_conformance.Verifier.State.{
  VerifyState, aee_predicate_type, statement_type, in_result_order,
}

-- `none` is the early return of `verify`; otherwise the statement and its predicate.
abbrev pub with_predicate : Fields → Option Fields → Run (Option (Fields × Fields))
with_predicate stmt none = do add "predicate-type-unsupported"; pure none
with_predicate stmt (some pred) = pure (some (stmt, pred))

unfoldable pub check_statement_type : Value → Run (Option (Fields × Fields))
check_statement_type (obj stmt) = do
  add_if (not (is_text statement_type (get "_type" stmt))) "statement-type-unsupported"
  add_if (not (is_text aee_predicate_type (get "predicateType" stmt))) "predicate-type-unsupported"
  with_predicate stmt (as_dict (get "predicate" stmt))
check_statement_type _ = do add "statement-type-unsupported"; pure none

-- `EGRESS_POSTURES`
abbrev pub egress_postures : List String
egress_postures = "no_network" ∷ "allowlist" ∷ "sinkhole" ∷ "unsafe_bypass_egress" ∷ []

abbrev pub registered_posture : Value → Bool
registered_posture (str s) = mem_str s egress_postures
registered_posture _ = false

unfoldable pub check_posture : Value → Run (Unit {0})
check_posture (obj posture) =
    add_if (not (registered_posture (get "posture" posture))) "posture-vocabulary"
check_posture _ = skip

abbrev pub is_missing : Option Fields → Bool
is_missing none = true
is_missing (some _) = false

module _ (P : Platform) where
  unfoldable pub check_issued_at : Value → Run (Unit {0})
  unfolding timestamp_ok
  check_issued_at v =
      if is_none v
      then add "issued-at-missing"
      else add_if (not (timestamp_ok P v)) "issued-at-malformed"

  unfoldable pub check_gate0_wellformed : VerifyState → Run VerifyState
  unfolding check_issued_at check_posture
  check_gate0_wellformed st = do
    add_if (has "does_not_assert" st.pred) "member-spelling"
    let result = get "result" st.pred
    hash result
    add_if (not (in_result_order result)) "result-vocabulary"
    let issued_at = get "issuedAt" st.pred
    check_issued_at issued_at
    let env = dict_or_empty (get "observationEnvironment" st.pred)
    add_if (not (has "substrate" env)) "environment-incomplete"
    add_if (not (has "corpus" env)) "environment-incomplete"
    add_if (not (has "catchPolicy" env)) "environment-incomplete"
    add_if (not (has "networkPosture" env)) "environment-incomplete"
    let vocab = as_dict (get "observationVocabulary" env)
    add_if (is_missing vocab) "vocabulary-missing"
    check_posture (get "networkPosture" env)
    pure (record st { result = result; issued_at = issued_at; env = env; vocab = vocab })
