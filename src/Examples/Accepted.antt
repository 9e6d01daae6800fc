-- ===== src/Examples/Accepted.antt =====
-- `verify` of packaging/run_vectors.py accepts the statement of the test data.
use aee_conformance.Base.{List, [], ◌∷◌, none, some, true, ◌≡◌, ◌≢◌, refl, All}
use aee_conformance.Py.Value.{Value, Fields, obj, str, get, as_dict, is_text, eq}
use aee_conformance.Verifier.{Outcome, returned, verify, verdict, check_gate2_tiers}
use aee_conformance.Verifier.State.{VerifyState, in_result_order, verdict_text}
use aee_conformance.Verifier.Statement.{check_gate0_wellformed}
use aee_conformance.Verifier.Vocabulary.{check_vocabulary}
use aee_conformance.Verifier.Corpus.{check_corpus}
use aee_conformance.Verifier.Coverage.{check_coverage}
use aee_conformance.Verifier.Rows.{
  check_rows_setup, check_per_row_statements, check_subject_cardinality,
  check_substrate_binding_inputs, check_fail_closed_rows,
}
use aee_conformance.Verifier.Records.{check_records}
use aee_conformance.Verifier.Binding.{check_run_binding}
use aee_conformance.Verifier.Gate1.{check_gate1_coverage}
use aee_conformance.Verifier.Commitments.{check_commitments}
use aee_conformance.Verifier.Recompute.{check_result_recompute, recompute}
use aee_conformance.Verifier.Tiers.{attested, unattested}
use aee_conformance.Verifier.Accept.Chain.{Accepts}
use aee_conformance.Verifier.Accept.Fields.{rows_of, records_of, environment_of}
use aee_conformance.Verifier.Accept.Result.{IsVocabulary, accepted_result}
use aee_conformance.Verifier.Accept.Covered.{AllFrom}
use aee_conformance.Verifier.Accept.Closed.{IsCovered, context, accepted-IsCovered}
use aee_conformance.Examples.Data.{platform, statement, key}
use aee_conformance.Verifier.Accept.Batch.{IsBatched, accepted-IsBatched}
use aee_conformance.Verifier.Accept.Partition.{IsAnswered, accepted-IsAnswered}
use aee_conformance.Verifier.Accept.Observed.{IsUncontradicted, IsResolved, accepted_observed}
use aee_conformance.Verifier.Outcomes.{
  IsAcceptance, IsRejection, verify-Shape, without_keys, verify-without_keys,
}
use aee_conformance.Verifier.Record.{RecordView, record_views}
use aee_conformance.Verifier.Corpus.{CorpusFacts, corpus_facts}
use aee_conformance.Py.Run.{done}
use aee_conformance.Base.{◌⊎◌, Option}
use mathlib.Core.Option

abbrev pub outcome : Outcome
outcome = record {
  codes = [];
  result = some (str "fail");
  tiers_with_key = some (attested ∷ []);
  tiers_without_key = some (unattested ∷ []);
}

pub ran : verify platform key (obj statement) none ≡ returned outcome
unfolding verify check_gate0_wellformed check_vocabulary eq check_corpus check_rows_setup
    check_subject_cardinality check_coverage check_per_row_statements check_substrate_binding_inputs
    check_fail_closed_rows check_records check_run_binding Option.bind check_gate1_coverage
    check_commitments check_result_recompute
ran = refl

pub accepts : Accepts platform key (obj statement) none outcome
unfolding verdict
accepts = (ran, refl)

accepted_result_example :
    (fields : Fields) × (pred : Fields) × (vocab : Fields) × (labels : List Value) × (caught : List
      Value)
    × (obj statement ≡ obj fields)
    × (get "predicate" fields ≡ obj pred)
    × (as_dict (get "observationVocabulary" (environment_of pred)) ≡ some vocab)
    × IsVocabulary vocab labels caught
    × (in_result_order (get "result" pred) ≡ true)
    × (rows_of pred ≢ []
        → is_text
            (verdict_text (recompute (rows_of pred) labels caught (get "coverage" pred)))
            (get "result" pred)
          ≡ true)
accepted_result_example = accepted_result platform key (obj statement) none accepts

accepted-IsCovered_example :
    (fields : Fields) × (pred : Fields) × (st : VerifyState) × (vocab : Fields) × (labels : List
      Value)
    × (caught : List Value) × (facts : CorpusFacts) × (obj statement ≡ obj fields)
    × (get "predicate" fields ≡ obj pred)
    × (outcome ≡ check_gate2_tiers platform key st)
    × (st.rows ≡ rows_of pred)
    × (as_dict (get "observationVocabulary" (environment_of pred)) ≡ some vocab)
    × IsVocabulary vocab labels caught
    × (corpus_facts platform (get "corpus" (environment_of pred)) ≡ done facts [])
    × AllFrom
        (IsCovered platform labels
          (context platform pred caught facts.declared_attacks)
          st.row_covering)
        0
        (rows_of pred)
accepted-IsCovered_example = accepted-IsCovered platform key (obj statement) none accepts

verify-Shape_example : IsAcceptance outcome ⊎ IsRejection outcome
verify-Shape_example = verify-Shape platform key (obj statement) none outcome ran

verify-without_keys_example :
    without_keys (verify platform key (obj statement) none)
    ≡ without_keys (verify platform [] (obj statement) none)
verify-without_keys_example = verify-without_keys platform key [] (obj statement) none

accepted-IsBatched_example :
    (fields : Fields) × (pred : Fields) × (views : List RecordView) × (obj statement ≡ obj fields)
    × (get "predicate" fields ≡ obj pred)
    × IsBatched platform (get "batchRoot" pred) (records_of pred) views
accepted-IsBatched_example = accepted-IsBatched platform key (obj statement) none accepts

accepted-IsAnswered_example :
    (fields : Fields) × (pred : Fields) × (obj statement ≡ obj fields)
    × (get "predicate" fields ≡ obj pred)
    × IsAnswered platform (get "corpus" (environment_of pred)) (get "coverage" pred) (rows_of pred)
accepted-IsAnswered_example = accepted-IsAnswered platform key (obj statement) none accepts

accepted_observed_example :
    (fields : Fields) × (pred : Fields) × (vocab : Fields) × (labels : List Value) × (caught : List
      Value)
    × (obj statement ≡ obj fields)
    × (get "predicate" fields ≡ obj pred)
    × (as_dict (get "observationVocabulary" (environment_of pred)) ≡ some vocab)
    × IsVocabulary vocab labels caught
    × All
        (IsUncontradicted (record_views platform 0 (records_of pred)) labels caught)
        (rows_of pred)
    × All
        (IsResolved (record_views platform 0 (records_of pred)) caught (rows_of pred))
        (record_views platform 0 (records_of pred))
accepted_observed_example = accepted_observed platform key (obj statement) none accepts
