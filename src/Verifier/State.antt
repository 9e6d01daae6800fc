-- ===== src/Verifier/State.antt =====
-- `_VerifyState` and the constants of packaging/run_vectors.py that its checks read.
use aee_conformance.Base.{ℕ, String, Bool, false, Option, none, List, []}
use aee_conformance.Py.Value.{Value, null, Fields, end, is_text}
use aee_conformance.Base.{true, ◌||◌, some}
use aee_conformance.Verifier.Record.{RecordView}

pub record VerifyState : Type 0 where
  pub stmt : Fields
  pub pred : Fields
  pub result : Value
  pub issued_at : Value
  pub env : Fields
  pub vocab : Option Fields
  pub labels : Option (List Value)
  pub caught : Option (List Value)
  pub corpus : Value
  pub manifest_classes : Option Fields
  pub rows : List Fields
  pub has_substrate : Bool
  pub coverage : Value
  pub fail_closed_rows : List ℕ
  pub has_records : Bool
  pub views : List RecordView
  pub derived_binding : Option String
  pub pinned_posture : Value
  pub row_covering : List (ℕ × List RecordView)
  pub declared_attacks : List String
  pub expected_payloads : Option Fields

-- `_VerifyState(stmt=stmt)`, with the predicate that `_check_statement_type` found.
abbrev pub initial : Fields → Fields → VerifyState
initial stmt pred = record {
  stmt = stmt;
  pred = pred;
  result = null;
  issued_at = null;
  env = end;
  vocab = none;
  labels = none;
  caught = none;
  corpus = null;
  manifest_classes = none;
  rows = [];
  has_substrate = false;
  coverage = null;
  fail_closed_rows = [];
  has_records = false;
  views = [];
  derived_binding = none;
  pinned_posture = null;
  row_covering = [];
  declared_attacks = [];
  expected_payloads = none;
}

abbrev pub aee_predicate_type : String
aee_predicate_type = "https://in-toto.io/attestation/adversarial-execution-evidence/v0.7"

abbrev pub statement_type : String
statement_type = "https://in-toto.io/Statement/v1"

abbrev pub binding_version : String
binding_version = "2"

-- The four results, in the order that the recompute takes its minimum over.
pub data Verdict : Type 0 where
  fail degraded pass_indirect pass : Verdict

abbrev pub verdict_text : Verdict → String
verdict_text fail = "fail"
verdict_text degraded = "degraded"
verdict_text pass_indirect = "pass_indirect"
verdict_text pass = "pass"

abbrev pub result_order : Verdict → ℕ
result_order fail = 0
result_order degraded = 1
result_order pass_indirect = 2
result_order pass = 3

-- `v in RESULT_ORDER`, once `v` is hashed
abbrev pub in_result_order : Value → Bool
in_result_order v =
    is_text "fail" v || is_text "degraded" v || is_text "pass_indirect" v || is_text "pass" v

-- `v in ("substrate", "artifact")`, and the two other closed row vocabularies
abbrev pub known_basis : Value → Bool
known_basis v = is_text "substrate" v || is_text "artifact" v

abbrev pub known_method : Value → Bool
known_method v = is_text "intercepted" v || is_text "reconstructed" v

abbrev pub known_attribution : Value → Bool
known_attribution v = is_text "pinned" v || is_text "paired" v

-- `METHOD_ORDER.get(v)`, once `v` is hashed
abbrev pub method_order : Value → Option ℕ
method_order v = elim (is_text "reconstructed" v) [
  | true ↦ some 0
  | false ↦ elim (is_text "intercepted" v) [ true ↦ some 1 | false ↦ none ]
]
