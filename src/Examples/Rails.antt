-- ===== src/Examples/Rails.antt =====
-- Rails, vectors and rows for the runner of packaging/run_vectors.py.
use aee_conformance.Base.{
  String, Bool, true, false, ◌||◌, some, none, List, [], ◌∷◌, ◌≡◌, ◌↔◌, ◌⊎◌, inr, refl, All, all,
  str_eq, mem_str,
}
use aee_conformance.Base.Int.{pos}
use aee_conformance.Py.Value.{Fields, null, str, arr, obj, end, field}
use aee_conformance.Jcs.{lex_lt}
use aee_conformance.Suite.Score.{pass, no_score, is_ok}
use aee_conformance.Suite.Expected.{expected_of}
use aee_conformance.Suite.Rail.{timed_out, exited, Shell, Observed, run_external, observe_external}
use aee_conformance.Suite.Evaluate.{eval_reject_stages, evaluate_vector_detailed}
use aee_conformance.Suite.Contract.{IsConformant}
use aee_conformance.Suite.Conform.{evaluate_vector_detailed-IsConformant}
use aee_conformance.Suite.Reports.{
  IsFailure, IsReported, run_external-IsReported, observe_external-fails,
}
use aee_conformance.Suite.Order.{IsWithin, eval_reject_stages_same}
use aee_conformance.Suite.Family.{
  Member, Index, family_of, answers, declared_readings, has_primary, family_coherence_failures,
}
use aee_conformance.Suite.Coherence.{rows_of_family, family_coherence_failures-none}
use aee_conformance.Examples.Data.{texts}

-- Every text is the report `{"verdict": "invalid", "codes": ["refs-empty"]}`.
abbrev report : Fields
report = field "verdict" (str "invalid") (field "codes" (arr (texts ("refs-empty" ∷ []))) end)

abbrev shell : Shell
shell = record {
  decode_replace = λ b. "line";
  splitlines = λ s. s ∷ [];
  is_blank = λ s. false;
  json_loads = λ s. some (obj report);
}

abbrev reject_entry : Fields
reject_entry =
    field "expected"
      (obj (field "codes" (arr (texts ("statement-malformed" ∷ "refs-empty" ∷ []))) end)) end

abbrev refused : Observed
refused = observe_external shell (exited (pos 1) []) (exited (pos 1) [])

evaluate_vector_detailed-IsConformant_example :
    (is_ok (evaluate_vector_detailed "reject" (some reject_entry) refused (some [])) ≡ true)
    ↔ IsConformant "reject" (expected_of (some reject_entry)) refused (some [])
evaluate_vector_detailed-IsConformant_example =
    evaluate_vector_detailed-IsConformant "reject" (some reject_entry) refused (some [])

refused_ok : is_ok (evaluate_vector_detailed "reject" (some reject_entry) refused (some [])) ≡ true
unfolding is_ok evaluate_vector_detailed observe_external
refused_ok = refl

run_external-IsReported_example :
    IsFailure (run_external shell (exited (pos 1) []) false)
    ⊎ IsReported shell (exited (pos 1) []) false (run_external shell (exited (pos 1) []) false)
run_external-IsReported_example = run_external-IsReported shell (exited (pos 1) []) false

hung : IsFailure (run_external shell timed_out false)
unfolding run_external
hung = (refl, (λ e. cc), refl)

observe_external-fails_example :
    is_ok (
      evaluate_vector_detailed "reject"
        (some reject_entry)
        (observe_external shell (exited (pos 1) []) timed_out)
        (some []))
    ≡ false
observe_external-fails_example =
    observe_external-fails shell (exited (pos 1) []) timed_out "reject" (some reject_entry)
      (some []) (inr hung)

swapped : (a b : String) → IsWithin (a ∷ b ∷ []) (b ∷ a ∷ [])
swapped a b c h = or_swap (str_eq c a) (str_eq c b) h
  where
    or_swap : (p q : Bool) → p || (q || false) ≡ true → q || (p || false) ≡ true
    or_swap true true h = refl
    or_swap true false h = refl
    or_swap false true h = refl
    or_swap false false h = cc

eval_reject_stages_same_example :
    eval_reject_stages ("refs-empty" ∷ "batch-root-missing" ∷ []) ("refs-empty" ∷ []) no_score
    ≡ eval_reject_stages ("batch-root-missing" ∷ "refs-empty" ∷ []) ("refs-empty" ∷ []) no_score
eval_reject_stages_same_example =
    eval_reject_stages_same ("refs-empty" ∷ "batch-root-missing" ∷ [])
      ("batch-root-missing" ∷ "refs-empty" ∷ []) ("refs-empty" ∷ []) ("refs-empty" ∷ []) no_score
      (swapped "refs-empty" "batch-root-missing", swapped "batch-root-missing" "refs-empty")
      ((λ c h. h), (λ c h. h))

-- Two rows of a family with two readings.
abbrev reading_entry : Fields
reading_entry =
    field "expected"
      (obj (
        field "family" (str "order") (
          field "readings"
            (obj (field "first" (str "refs-empty") (field "last" (str "ref-malformed") end))) end)))
      end

abbrev index : Index
index = ("v1", reading_entry) ∷ ("v2", reading_entry) ∷ []

abbrev member_row : String → Member
member_row id = record {
  id = id;
  kind = "indeterminate";
  primary_code = some "ref-malformed";
  codes = "ref-malformed" ∷ [];
}

abbrev member_rows : List Member
member_rows = member_row "v1" ∷ member_row "v2" ∷ []

coherent : (family_coherence_failures index member_rows).1 ≡ []
unfolding family_coherence_failures lex_lt
coherent = refl

family_rows : rows_of_family index "order" member_rows ≡ member_rows
unfolding family_of
family_rows = refl

family_coherence_failures-none_example :
    (name : String) × (mem_str name (declared_readings index member_rows) ≡ true)
    × All (λ r. answers index (all has_primary member_rows) name r ≡ true) member_rows
family_coherence_failures-none_example =
    family_coherence_failures-none index member_rows coherent "order" (member_row "v1")
      (member_row "v2" ∷ []) refl family_rows

-- A row whose verdict moves with the key policy fails, with PASS in each gate column.
abbrev moving : Observed
moving = record {
  verdict = "valid";
  verdict_without_key = some "invalid";
  codes = [];
  primary_code = none;
  result = null;
  tiers_with_key = none;
  tiers_without_key = none;
  result_without_key = null;
  absent = [];
  errors = [];
}

moving_fails : is_ok (evaluate_vector_detailed "accept" none moving none) ≡ false
unfolding evaluate_vector_detailed is_ok
moving_fails = refl

moving_gate : (evaluate_vector_detailed "accept" none moving none).gates.gate0 ≡ pass
unfolding evaluate_vector_detailed
moving_gate = refl
