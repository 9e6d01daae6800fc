-- ===== src/Verifier.antt =====
-- `ReferenceVerifier.verify` of packaging/run_vectors.py: GATE 0, GATE 1, the recompute and the tiers,
-- in the order of the code. The checks stand in the modules below.
pub mod Record
pub mod State
pub mod Statement
pub mod Vocabulary
pub mod Corpus
pub mod Coverage
pub mod Rows
pub mod Records
pub mod Binding
pub mod Kinds
pub mod Gate1
pub mod Commitments
pub mod Recompute
pub mod Tiers
pub mod Accept
pub mod Outcomes
use aee_conformance.Base.{
  ℕ, String, Bool, true, false, ◌&&◌, ◌||◌, Option, none, some, List, [], ◌∷◌, ◌++◌,
}
use aee_conformance.Base.{mem_str, if◌then◌else◌}
use aee_conformance.Py.Value.{Value, Fields}
use aee_conformance.Py.Run.{Run, done, raised, Exception, ◌>>=◌, ◌>>◌, pure, after}
use aee_conformance.Platform.{Platform}
use aee_conformance.IJson.{statement_strict_fault}
use aee_conformance.Verifier.State.{VerifyState, initial}
use aee_conformance.Verifier.Statement.{check_statement_type, check_gate0_wellformed}
use aee_conformance.Verifier.Vocabulary.{check_vocabulary}
use aee_conformance.Verifier.Corpus.{check_corpus}
use aee_conformance.Verifier.Coverage.{check_coverage}
use aee_conformance.Verifier.Rows.{
  check_rows_setup, check_per_row_statements, check_subject_cardinality,
  check_substrate_binding_inputs, check_fail_closed_rows,
}
use aee_conformance.Verifier.Records.{check_records}
use aee_conformance.Verifier.Binding.{check_run_binding}
use aee_conformance.Verifier.Gate1.{check_gate1_coverage}
use aee_conformance.Verifier.Commitments.{check_commitments}
use aee_conformance.Verifier.Recompute.{check_result_recompute}
use aee_conformance.Verifier.Tiers.{Tier, tiers}

pub record Outcome : Type 0 where
  pub codes : List String
  pub result : Option Value
  pub tiers_with_key : Option (List Tier)
  pub tiers_without_key : Option (List Tier)

-- `Outcome.add`, of each argument in turn: a code that is there is not added again.
unfoldable pub add_codes : List String → List String → List String
add_codes codes [] = codes
add_codes codes (c ∷ cs) = add_codes (if mem_str c codes then codes else codes ++ (c ∷ [])) cs

-- `Outcome.verdict`
pub data Validity : Type 0 where
  valid invalid : Validity

unfoldable pub verdict : Outcome → Validity
verdict o = elim (o.codes) [ [] ↦ valid | _ ∷ _ ↦ invalid ]

-- What `verify` does: it returns an outcome, or an exception leaves it.
pub data Verification : Type 0 where
  crashed : Exception → Verification
  returned : Outcome → Verification

abbrev pub rejected : List String → Outcome
rejected codes = record {
  codes = codes;
  result = none;
  tiers_with_key = none;
  tiers_without_key = none;
}

-- `raw is not None and _statement_strict_fault(raw)`
abbrev pub has_strict_fault : Platform → Option (List ℕ) → Bool
has_strict_fault P none = false
has_strict_fault P (some raw) = statement_strict_fault P raw

module _ (P : Platform) (pinned_pubs : List (List ℕ)) where
  -- From `_check_gate0_wellformed` to `_check_fail_closed_rows`.
  unfoldable pub gate0 : VerifyState → Run VerifyState
  gate0 st0 = do
    st1 ← check_gate0_wellformed P st0
    st2 ← check_vocabulary P st1
    st3 ← check_corpus P st2
    st4 ← check_rows_setup st3
    check_subject_cardinality st4
    st5 ← check_coverage st4
    check_per_row_statements st5
    check_substrate_binding_inputs st5
    check_fail_closed_rows st5

  -- From `_check_records` to `_check_result_recompute`.
  unfoldable pub gate1 : VerifyState → Run VerifyState
  gate1 st0 = do
    st1 ← check_records P st0
    st2 ← check_run_binding P st1
    st3 ← check_gate1_coverage P st2
    check_commitments P st3
    check_result_recompute st3
    pure st3

  unfoldable pub all_checks : VerifyState → Run VerifyState
  unfolding gate0 gate1
  all_checks st = gate0 st >>= gate1

  -- `_check_gate2_tiers`
  unfoldable pub check_gate2_tiers : VerifyState → Outcome
  unfolding tiers
  check_gate2_tiers st = record {
    codes = [];
    result = some st.result;
    tiers_with_key = some (tiers P pinned_pubs true st.row_covering 0 st.rows);
    tiers_without_key = some (tiers P pinned_pubs false st.row_covering 0 st.rows);
  }

  -- The end of `verify`: with a code there is no result, and there are no tiers.
  abbrev pub finish : Run VerifyState → Verification
  finish (raised e) = crashed e
  finish (done st []) = returned (check_gate2_tiers st)
  finish (done st (c ∷ cs)) = returned (rejected (add_codes [] (c ∷ cs)))

  abbrev pub checks_after : Option (Fields × Fields) → Run (Option VerifyState)
  checks_after none = pure none
  checks_after (some (stmt, pred)) = all_checks (initial stmt pred) >>= λ st. pure (some st)

  abbrev pub finish_all : Run (Option VerifyState) → Verification
  finish_all (raised e) = crashed e
  finish_all (done (some st) cs) = finish (done st cs)
  finish_all (done none cs) = returned (rejected (add_codes [] cs))

  unfoldable pub verify : Value → Option (List ℕ) → Verification
  unfolding check_statement_type statement_strict_fault all_checks check_gate2_tiers
  verify stmt raw =
      if has_strict_fault P raw
      then returned (rejected ("statement-malformed" ∷ []))
      else finish_all (check_statement_type stmt >>= checks_after)
