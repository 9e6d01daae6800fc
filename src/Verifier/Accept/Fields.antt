-- ===== src/Verifier/Accept/Fields.antt =====
-- What the state at the end of the checks holds, read off the statement.
use aee_conformance.Base.{List, ◌≡◌, any}
use aee_conformance.Py.Value.{Value, Fields, get, as_dict, dict_or_empty, list_or_empty}
use aee_conformance.Platform.{Platform}
use aee_conformance.Verifier.State.{VerifyState}
use aee_conformance.Verifier.Rows.{dict_rows, is_substrate}
use aee_conformance.Verifier.Records.{is_nonempty}
use aee_conformance.Verifier.Accept.Frames.{
  gate0_wellformed-frame, vocabulary-frame, corpus-frame, rows_setup-frame, coverage-frame,
  fail_closed_rows-frame, records-frame, run_binding-frame, gate1_coverage-frame,
}
use aee_conformance.Verifier.Accept.Chain.{Passed}

-- `[r for r in pred["attackResults"] if isinstance(r, dict)]`, and the carried records.
abbrev pub rows_of : Fields → List Fields
rows_of pred = dict_rows (list_or_empty (get "attackResults" pred))

abbrev pub records_of : Fields → List Value
records_of pred = list_or_empty (get "observationRecords" pred)

abbrev pub environment_of : Fields → Fields
environment_of pred = dict_or_empty (get "observationEnvironment" pred)

module _ (P : Platform) {s0 st : VerifyState} (p : Passed P s0 st) where
  pub record Kept : Type 0 where
    pub stmt : st.stmt ≡ s0.stmt
    pub pred : st.pred ≡ s0.pred
    pub result : st.result ≡ get "result" s0.pred
    pub env : st.env ≡ environment_of s0.pred
    pub rows : st.rows ≡ rows_of s0.pred
    pub has_substrate : st.has_substrate ≡ any is_substrate (rows_of s0.pred)
    pub coverage : st.coverage ≡ get "coverage" s0.pred
    pub stmt4 : p.s4.stmt ≡ s0.stmt
    pub vocab1 : p.s1.vocab ≡ as_dict (get "observationVocabulary" (environment_of s0.pred))
    pub rows5 : p.s5.rows ≡ rows_of s0.pred
    pub labels : st.labels ≡ p.s2.labels
    pub caught : st.caught ≡ p.s2.caught
    pub labels5 : st.labels ≡ p.s5.labels
    pub env2 : p.s2.env ≡ environment_of s0.pred
    pub classes : st.manifest_classes ≡ p.s3.manifest_classes
    pub declared : st.declared_attacks ≡ p.s3.declared_attacks
    pub rows4 : p.s4.rows ≡ rows_of s0.pred
    pub pred4 : p.s4.pred ≡ s0.pred
    pub pred6 : p.s6.pred ≡ s0.pred
    pub views : st.views ≡ p.s7.views
    pub stmt7 : p.s7.stmt ≡ s0.stmt
    pub env7 : p.s7.env ≡ environment_of s0.pred
    pub has_substrate7 : p.s7.has_substrate ≡ any is_substrate (rows_of s0.pred)
    pub views8 : p.s8.views ≡ p.s7.views
    pub rows8 : p.s8.rows ≡ rows_of s0.pred
    pub fail_closed : st.fail_closed_rows ≡ p.s6.fail_closed_rows
    pub env8 : p.s8.env ≡ environment_of s0.pred
    pub issued_at : st.issued_at ≡ get "issuedAt" s0.pred
    pub has_records : st.has_records ≡ is_nonempty (records_of s0.pred)

  pub kept : Kept
  kept =
      let (valid_result, has_vocab, e1) = gate0_wellformed-frame P s0 p.wellformed in
      let (arrays, q2, e2) = vocabulary-frame P p.s1 p.vocabulary in
      let (facts, q3, e3) = corpus-frame P p.s2 p.corpus in
      let e4 = rows_setup-frame p.s3 p.rows_setup in
      let (q5, e5) = coverage-frame p.s4 p.coverage in
      let (failed, q6, e6) = fail_closed_rows-frame p.s5 p.fail_closed in
      let (views, q7, e7) = records-frame P p.s6 p.records in
      let (derived, q8, e8) = run_binding-frame P p.s7 p.run_binding in
      let (covering, q9, e9) = gate1_coverage-frame P p.s8 p.gate1_coverage in
      record {
        stmt = cc;
        pred = cc;
        result = cc;
        env = cc;
        rows = cc;
        has_substrate = cc;
        coverage = cc;
        stmt4 = cc;
        vocab1 = cc;
        rows5 = cc;
        labels = cc;
        caught = cc;
        labels5 = cc;
        env2 = cc;
        classes = cc;
        declared = cc;
        rows4 = cc;
        pred4 = cc;
        pred6 = cc;
        views = cc;
        stmt7 = cc;
        env7 = cc;
        has_substrate7 = cc;
        views8 = cc;
        rows8 = cc;
        fail_closed = cc;
        env8 = cc;
        issued_at = cc;
        has_records = cc;
      }
