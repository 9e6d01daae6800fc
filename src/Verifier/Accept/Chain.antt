-- ===== src/Verifier/Accept/Chain.antt =====
-- From an accepted statement to the run of each check in `verify` of packaging/run_vectors.py.
use aee_conformance.Base.{
  ℕ, String, Bool, true, false, Option, none, some, List, [], ◌∷◌, ◌≡◌, ◌≢◌, refl, sym, ap, ◌∙◌,
  if◌then◌else◌,
}
use aee_conformance.Base.{mem_str, ◌++◌}
use aee_conformance.Py.Value.{Value, obj, Fields, get, as_dict, as_dict-eq-some, is_text}
use aee_conformance.Py.Run.{
  Run, done, raised, ◌>>=◌, pure, skip, >>=-eq-silent, >>-eq-silent, >>=-pure-eq-silent,
  done-injective, add_if-eq-skip,
}
use aee_conformance.Platform.{Platform}
use aee_conformance.Verifier.{
  Outcome, returned, rejected, valid, verdict, add_codes, gate0, all_checks, check_gate2_tiers,
  finish_all, checks_after, has_strict_fault, verify,
}
use aee_conformance.Verifier.State.{VerifyState, initial, statement_type, aee_predicate_type}
use aee_conformance.Verifier.Statement.{
  check_statement_type, with_predicate, check_gate0_wellformed,
}
use aee_conformance.Verifier.Vocabulary.{check_vocabulary}
use aee_conformance.Verifier.Corpus.{check_corpus}
use aee_conformance.Verifier.Coverage.{check_coverage}
use aee_conformance.Verifier.Rows.{
  check_rows_setup, check_per_row_statements, check_subject_cardinality,
  check_substrate_binding_inputs, check_fail_closed_rows,
}
use aee_conformance.Verifier.Records.{check_records}
use aee_conformance.Verifier.Binding.{check_run_binding}
use aee_conformance.Verifier.Gate1.{check_gate1_coverage}
use aee_conformance.Verifier.Commitments.{check_commitments}
use aee_conformance.Verifier.Recompute.{check_result_recompute}
use aee_conformance.Verifier.Accept.Frames.{not-eq-false}

-- The states between the checks, and that each check was silent.
pub record Passed (P : Platform) (s0 st : VerifyState) : Type 0 where
  pub s1 : VerifyState
  pub s2 : VerifyState
  pub s3 : VerifyState
  pub s4 : VerifyState
  pub s5 : VerifyState
  pub s6 : VerifyState
  pub s7 : VerifyState
  pub s8 : VerifyState
  pub wellformed : check_gate0_wellformed P s0 ≡ done s1 []
  pub vocabulary : check_vocabulary P s1 ≡ done s2 []
  pub corpus : check_corpus P s2 ≡ done s3 []
  pub rows_setup : check_rows_setup s3 ≡ done s4 []
  pub cardinality : check_subject_cardinality s4 ≡ skip
  pub coverage : check_coverage s4 ≡ done s5 []
  pub per_row : check_per_row_statements s5 ≡ skip
  pub inputs : check_substrate_binding_inputs s5 ≡ skip
  pub fail_closed : check_fail_closed_rows s5 ≡ done s6 []
  pub records : check_records P s6 ≡ done s7 []
  pub run_binding : check_run_binding P s7 ≡ done s8 []
  pub gate1_coverage : check_gate1_coverage P s8 ≡ done st []
  pub commitments : check_commitments P st ≡ skip
  pub recompute : check_result_recompute st ≡ skip

pub add_codes-nonempty : (cs codes : List String) → codes ≢ [] → add_codes codes cs ≢ []
unfolding add_codes
add_codes-nonempty [] codes n e = n e
add_codes-nonempty (c ∷ cs) codes n e =
    add_codes-nonempty cs (if mem_str c codes then codes else codes ++ (c ∷ []))
      (longer codes (mem_str c codes) n) e
  where
    longer :
        (codes : List String) (b : Bool)
        → codes ≢ []
        → (if b then codes else codes ++ (c ∷ [])) ≢ []
    longer codes true n e = n e
    longer [] false n e = n refl
    longer (d ∷ ds) false n e = cc

no_codes : (ds : List String) → ds ≢ [] → verdict (rejected ds) ≡ valid → ⊥
unfolding verdict
no_codes [] n v = n refl
no_codes (d ∷ ds) n v = cc

-- Once a code is added, the verdict is invalid.
rejected-invalid :
    (c : String) (cs : List String) → verdict (rejected (add_codes [] (c ∷ cs))) ≢ valid
unfolding add_codes
rejected-invalid c cs e =
    no_codes (add_codes (c ∷ []) cs) (add_codes-nonempty cs (c ∷ []) (λ q. cc)) e

pub returned-injective : {o p : Outcome} → returned o ≡ returned p → o ≡ p
returned-injective h = cc

with_predicate-silent :
    (stmt : Fields) (o : Option Fields) {r : Option (Fields × Fields)}
    → with_predicate stmt o ≡ done r []
    → (pred : Fields) × (o ≡ some pred) × (r ≡ some (stmt, pred))
with_predicate-silent stmt none h = cc
with_predicate-silent stmt (some pred) h = (pred, refl, sym (done-injective h))

-- A silent type check has found the predicate.
pub statement_type-silent :
    (stmt : Value) {r : Option (Fields × Fields)}
    → check_statement_type stmt ≡ done r []
    → (fields : Fields) × (pred : Fields) × (stmt ≡ obj fields)
      × (is_text statement_type (get "_type" fields) ≡ true)
      × (is_text aee_predicate_type (get "predicateType" fields) ≡ true)
      × (get "predicate" fields ≡ obj pred)
      × (r ≡ some (fields, pred))
unfolding check_statement_type
statement_type-silent (obj fields) h =
    let (a1, h1) = >>-eq-silent _ _ h in
    let (a2, h2) = >>-eq-silent _ _ h1 in
    let (pred, p, e) = with_predicate-silent fields (as_dict (get "predicate" fields)) h2 in
    (
      fields,
      pred,
      refl,
      not-eq-false _ (add_if-eq-skip _ "statement-type-unsupported" a1),
      not-eq-false _ (add_if-eq-skip _ "predicate-type-unsupported" a2),
      as_dict-eq-some (get "predicate" fields) p,
      e,
    )
statement_type-silent _ h = cc

module _ (P : Platform) (pinned_pubs : List (List ℕ)) where
  pub all_checks-Passed :
      (s0 : VerifyState) {st : VerifyState}
      → all_checks P pinned_pubs s0 ≡ done st []
      → Passed P s0 st
  unfolding all_checks
  all_checks-Passed s0 h =
      let (s6, g0, g1) = >>=-eq-silent (gate0 P pinned_pubs s0) _ h in
      let (s1, e1, h1) = >>=-eq-silent _ _ g0 in
      let (s2, e2, h2) = >>=-eq-silent _ _ h1 in
      let (s3, e3, h3) = >>=-eq-silent _ _ h2 in
      let (s4, e4, h4) = >>=-eq-silent _ _ h3 in
      let (ec, hc) = >>-eq-silent _ _ h4 in
      let (s5, e5, h5) = >>=-eq-silent _ _ hc in
      let (ep, hp) = >>-eq-silent _ _ h5 in
      let (ei, e6) = >>-eq-silent _ _ hp in
      let (s7, e7, h7) = >>=-eq-silent _ _ g1 in
      let (s8, e8, h8) = >>=-eq-silent _ _ h7 in
      let (s9, e9, h9) = >>=-eq-silent _ _ h8 in
      let (em, hm) = >>-eq-silent _ _ h9 in
      let (er, hr) = >>-eq-silent _ _ hm in
      let same = done-injective hr in
      record {
        s1 = s1;
        s2 = s2;
        s3 = s3;
        s4 = s4;
        s5 = s5;
        s6 = s6;
        s7 = s7;
        s8 = s8;
        wellformed = e1;
        vocabulary = e2;
        corpus = e3;
        rows_setup = e4;
        cardinality = ec;
        coverage = e5;
        per_row = ep;
        inputs = ei;
        fail_closed = e6;
        records = e7;
        run_binding = e8;
        gate1_coverage = e9 ∙ ap pure same;
        commitments = rw (← same) em;
        recompute = rw (← same) er;
      }

  -- `verify` returned the outcome `o`, and no code is in it.
  abbrev pub Accepts : Value → Option (List ℕ) → Outcome → Type 0
  Accepts stmt raw o = (verify P pinned_pubs stmt raw ≡ returned o) × (verdict o ≡ valid)

  -- An accepted statement is an object with a predicate, and every check on it was silent.
  pub record Accepted (stmt : Value) (raw : Option (List ℕ)) (o : Outcome) : Type 0 where
    pub fields : Fields
    pub pred : Fields
    pub st : VerifyState
    pub strict : has_strict_fault P raw ≡ false
    pub is_obj : stmt ≡ obj fields
    pub typed : is_text statement_type (get "_type" fields) ≡ true
    pub predicate_typed : is_text aee_predicate_type (get "predicateType" fields) ≡ true
    pub is_pred : get "predicate" fields ≡ obj pred
    pub passed : Passed P (initial fields pred) st
    pub outcome : o ≡ check_gate2_tiers P pinned_pubs st

  finish_all-valid :
      (m : Run (Option VerifyState)) {o : Outcome}
      → finish_all P pinned_pubs m ≡ returned o
      → verdict o ≡ valid
      → (r : Option VerifyState) × (m ≡ done r [])
  finish_all-valid (raised e) h v = cc
  finish_all-valid (done none []) h v = (none, refl)
  finish_all-valid (done (some st) []) h v = (some st, refl)
  finish_all-valid (done none (c ∷ cs)) h v =
      absurd (rejected-invalid c cs (ap verdict (returned-injective h) ∙ v))
  finish_all-valid (done (some st) (c ∷ cs)) h v =
      absurd (rejected-invalid c cs (ap verdict (returned-injective h) ∙ v))

  no_fault :
      (fault : Bool) (m : Run (Option VerifyState)) {o : Outcome}
      → (if fault
          then returned (rejected ("statement-malformed" ∷ []))
          else finish_all P pinned_pubs m)
        ≡ returned o
      → verdict o ≡ valid
      → (fault ≡ false) × (finish_all P pinned_pubs m ≡ returned o)
  no_fault true m h v =
      absurd
        (no_codes ("statement-malformed" ∷ []) (λ q. cc) (ap verdict (returned-injective h) ∙ v))
  no_fault false m h v = (refl, h)

  pub Accepts-Accepted :
      (stmt : Value) (raw : Option (List ℕ)) {o : Outcome}
      → Accepts stmt raw o
      → Accepted stmt raw o
  unfolding verify
  Accepts-Accepted stmt raw (ran, ok) =
      let (strict, ran1) =
        no_fault (has_strict_fault P raw) (check_statement_type stmt >>= checks_after P pinned_pubs)
          ran ok in
      let (r, silent) =
        finish_all-valid (check_statement_type stmt >>= checks_after P pinned_pubs) ran1 ok in
      let (found, typed, rest) =
        >>=-eq-silent (check_statement_type stmt) (checks_after P pinned_pubs) silent in
      let (fields, pred, is_obj, t1, t2, is_pred, e) = statement_type-silent stmt typed in
      let (st, q, f) =
        >>=-pure-eq-silent (all_checks P pinned_pubs (initial fields pred)) some (rw e at rest) in
      record {
        fields = fields;
        pred = pred;
        st = st;
        strict = strict;
        is_obj = is_obj;
        typed = t1;
        predicate_typed = t2;
        is_pred = is_pred;
        passed = all_checks-Passed (initial fields pred) q;
        outcome = sym (
            returned-injective (
              ap (finish_all P pinned_pubs) (ap (λ (t : Option VerifyState). done t []) f)
              ∙ ap (finish_all P pinned_pubs) (sym silent)
              ∙ ran1));
      }
