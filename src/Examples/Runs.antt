-- ===== src/Examples/Runs.antt =====
-- The runner of packaging/run_vectors.py with its own rail, on the test data.
use mathlib.Core.Option
use aee_conformance.Base.{
  ℕ, true, false, Option, some, none, codes, List, [], ◌∷◌, ◌≡◌, refl, is_empty,
}
use aee_conformance.Py.Value.{Fields, null, str, arr, obj, end, field, eq}
use aee_conformance.Py.Run.{skip}
use aee_conformance.IJson.{statement_strict_fault}
use aee_conformance.Verifier.{verify, add_codes}
use aee_conformance.Verifier.Statement.{check_statement_type, check_gate0_wellformed}
use aee_conformance.Verifier.Vocabulary.{check_vocabulary}
use aee_conformance.Verifier.Corpus.{check_corpus}
use aee_conformance.Verifier.Coverage.{check_coverage}
use aee_conformance.Verifier.Rows.{
  check_rows_setup, check_per_row_statements, check_subject_cardinality,
  check_substrate_binding_inputs, check_fail_closed_rows,
}
use aee_conformance.Verifier.Records.{check_records}
use aee_conformance.Verifier.Binding.{check_run_binding}
use aee_conformance.Verifier.Gate1.{check_gate1_coverage}
use aee_conformance.Verifier.Commitments.{check_commitments}
use aee_conformance.Verifier.Recompute.{check_result_recompute}
use aee_conformance.SecondFault.Registry.{code_stage}
use aee_conformance.SecondFault.{second_fault_absence}
use aee_conformance.Suite.Score.{pass, unset}
use aee_conformance.Suite.Expected.{expected_of}
use aee_conformance.Suite.Rail.{Shell, Observed}
use aee_conformance.Suite.Evaluate.{shares}
use aee_conformance.Suite.Process.{
  reference, observe_reference, run_observe, load_statement, Row, exempt_codes, process_vector,
}
use aee_conformance.Suite.Passes.{process_vector_reject}
use aee_conformance.Examples.Data.{platform, statement, key, texts, seal_text}

abbrev unpinned : Observed
unpinned = record {
  verdict = "valid";
  verdict_without_key = some "valid";
  codes = [];
  primary_code = none;
  result = str "fail";
  tiers_with_key = some ("attested" ∷ []);
  tiers_without_key = some ("unattested" ∷ []);
  result_without_key = str "fail";
  absent = "codes" ∷ "primaryCode" ∷ [];
  errors = [];
}

observed : observe_reference platform key (obj statement) none ≡ some unpinned
unfolding observe_reference verify check_gate0_wellformed check_vocabulary eq check_corpus
    check_rows_setup check_subject_cardinality check_coverage check_per_row_statements
    check_substrate_binding_inputs check_fail_closed_rows check_records check_run_binding
    Option.bind check_gate1_coverage check_commitments check_result_recompute
observed = refl

-- Every text is read as the empty object.
abbrev shell : Shell
shell = record {
  decode_replace = λ b. "";
  splitlines = λ s. [];
  is_blank = λ s. true;
  json_loads = λ s. some (obj end);
}

abbrev entry : Option Fields
entry = some (
    field "expected" (obj (field "codes" (arr (texts ("predicate-type-unsupported" ∷ []))) end))
      end)

abbrev raw : List ℕ
raw = codes seal_text

abbrev refused : Observed
refused = record {
  verdict = "invalid";
  verdict_without_key = some "invalid";
  codes = "statement-type-unsupported" ∷ "predicate-type-unsupported" ∷ [];
  primary_code = some "statement-type-unsupported";
  result = null;
  tiers_with_key = none;
  tiers_without_key = none;
  result_without_key = null;
  absent = "result" ∷ "tiers_with_key" ∷ "tiers_without_key" ∷ "result_without_key" ∷ [];
  errors = [];
}

abbrev row : Row
row = record {
  status = pass;
  conformance = pass;
  reason_parity = pass;
  gates = record {
    gate0 = pass;
    gate1 = unset;
    recompute = unset;
    tier = unset;
    self_check = pass;
  };
  observed = some refused;
  reasons = [];
  failed = false;
}

run : process_vector platform shell (reference key) "reject" entry (some raw) ≡ some row
unfolding process_vector verify statement_strict_fault check_statement_type add_codes code_stage
    second_fault_absence
run = refl

loaded : (load_statement platform shell raw).1 ≡ true
unfolding load_statement
loaded = refl

process_vector_reject_example :
    (o : Observed) × (run_observe platform shell
        (reference key)
        (load_statement platform shell raw).0
        (some raw)
      ≡ some o)
    × (o.verdict ≡ "invalid")
    × (is_empty (expected_of entry).codes ≡ false → shares (expected_of entry).codes o.codes ≡ true)
    × (second_fault_absence platform (load_statement platform shell raw).0 (exempt_codes entry)
        ≡ skip)
process_vector_reject_example =
    process_vector_reject platform shell (reference key) entry raw row run refl loaded
