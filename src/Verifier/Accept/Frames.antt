-- ===== src/Verifier/Accept/Frames.antt =====
-- The state that a check leaves when it adds no code.
use aee_conformance.Base.{
  ℕ, String, Bool, true, false, not, Option, none, List, [], ◌≡◌, refl, sym, any, if◌then◌else◌,
}
use aee_conformance.Py.Value.{Value, get, as_dict, dict_or_empty, list_or_empty}
use aee_conformance.Py.Run.{
  done, pure, skip, >>-eq-silent, >>=-pure-eq-silent, done-injective, add_if-eq-skip,
}
use aee_conformance.Platform.{Platform}
use aee_conformance.Shapes.{digest_of}
use aee_conformance.Verifier.State.{VerifyState, in_result_order}
use aee_conformance.Verifier.Statement.{check_gate0_wellformed, is_missing}
use aee_conformance.Verifier.Vocabulary.{check_vocabulary, vocabulary_of}
use aee_conformance.Verifier.Corpus.{CorpusFacts, corpus_facts, check_corpus}
use aee_conformance.Verifier.Coverage.{coverage_of, check_coverage}
use aee_conformance.Verifier.Rows.{
  dict_rows, is_substrate, check_rows_setup, fail_closed_loop, check_fail_closed_rows,
}
use aee_conformance.Verifier.Record.{RecordView}
use aee_conformance.Verifier.Records.{views_of, is_nonempty, check_records}
use aee_conformance.Verifier.Binding.{derive, check_run_binding}
use aee_conformance.Verifier.Gate1.{gate1_rows, check_gate1_coverage}

pub not-eq-false : (b : Bool) → not b ≡ false → b ≡ true
not-eq-false true h = refl
not-eq-false false h = cc

module _ (P : Platform) where
  pub gate0_wellformed-frame :
      (s : VerifyState) {t : VerifyState}
      → check_gate0_wellformed P s ≡ done t []
      → (in_result_order (get "result" s.pred) ≡ true)
        × (is_missing (
              as_dict
                (get "observationVocabulary" (dict_or_empty (get "observationEnvironment" s.pred))))
            ≡ false)
        × (t ≡ record s {
          result = get "result" s.pred;
          issued_at = get "issuedAt" s.pred;
          env = dict_or_empty (get "observationEnvironment" s.pred);
          vocab =
              as_dict
                (get "observationVocabulary" (dict_or_empty (get "observationEnvironment" s.pred)));
        })
  unfolding check_gate0_wellformed
  gate0_wellformed-frame s h =
      let (a1, h1) = >>-eq-silent _ _ h in
      let (a2, h2) = >>-eq-silent _ _ h1 in
      let (a3, h3) = >>-eq-silent _ _ h2 in
      let (a4, h4) = >>-eq-silent _ _ h3 in
      let (a5, h5) = >>-eq-silent _ _ h4 in
      let (a6, h6) = >>-eq-silent _ _ h5 in
      let (a7, h7) = >>-eq-silent _ _ h6 in
      let (a8, h8) = >>-eq-silent _ _ h7 in
      let (a9, h9) = >>-eq-silent _ _ h8 in
      let (a10, h10) = >>-eq-silent _ _ h9 in
      (
        not-eq-false _ (add_if-eq-skip _ "result-vocabulary" a3),
        add_if-eq-skip _ "vocabulary-missing" a9,
        sym (done-injective h10),
      )

  -- The two vocabulary arrays that are kept.
  pub vocabulary-frame :
      (s : VerifyState) {t : VerifyState}
      → check_vocabulary P s ≡ done t []
      → (kept : Option (List Value) × Option (List Value)) × (vocabulary_of P s.vocab
          ≡ done kept [])
        × (t ≡ record s { labels = kept.0; caught = kept.1 })
  unfolding check_vocabulary
  vocabulary-frame s h = let (kept, q, e) = >>=-pure-eq-silent _ _ h in (kept, q, sym e)

  pub corpus-frame :
      (s : VerifyState) {t : VerifyState}
      → check_corpus P s ≡ done t []
      → (facts : CorpusFacts) × (corpus_facts P (get "corpus" s.env) ≡ done facts [])
        × (t ≡ record s {
          corpus = get "corpus" s.env;
          manifest_classes = facts.manifest_classes;
          declared_attacks = facts.declared_attacks;
          expected_payloads = facts.expected_payloads;
        })
  unfolding check_corpus
  corpus-frame s h = let (facts, q, e) = >>=-pure-eq-silent _ _ h in (facts, q, sym e)

  pub records-frame :
      (s : VerifyState) {t : VerifyState}
      → check_records P s ≡ done t []
      → (views : List RecordView) × (views_of P
            (get "batchRoot" s.pred)
            (list_or_empty (get "observationRecords" s.pred))
          ≡ done views [])
        × (t ≡ record s {
          has_records = is_nonempty (list_or_empty (get "observationRecords" s.pred));
          views = views;
        })
  unfolding check_records
  records-frame s h = let (views, q, e) = >>=-pure-eq-silent _ _ h in (views, q, sym e)

  pub run_binding-frame :
      (s : VerifyState) {t : VerifyState}
      → check_run_binding P s ≡ done t []
      → (derived : Option String) × ((if s.has_substrate then derive P s.stmt s.env else pure none)
          ≡ done derived [])
        × (t ≡ record s { derived_binding = derived })
  unfolding check_run_binding
  run_binding-frame s h = let (derived, q, e) = >>=-pure-eq-silent _ _ h in (derived, q, sym e)

  -- The state of GATE 1, and the records that its rows are covered by.
  abbrev pub pinned : VerifyState → VerifyState
  pinned s = record s { pinned_posture = digest_of (get "networkPosture" s.env) }

  pub gate1_coverage-frame :
      (s : VerifyState) {t : VerifyState}
      → check_gate1_coverage P s ≡ done t []
      → (covering : List (ℕ × List RecordView)) × (gate1_rows P (pinned s) 0 s.rows
          ≡ done covering [])
        × (t ≡ record (pinned s) { row_covering = covering })
  unfolding check_gate1_coverage
  gate1_coverage-frame s h =
      let (a1, h1) = >>-eq-silent _ _ h in
      let (covering, q, e) = >>=-pure-eq-silent _ _ h1 in (covering, q, sym e)

pub rows_setup-frame :
    (s : VerifyState) {t : VerifyState}
    → check_rows_setup s ≡ done t []
    → let rows = dict_rows (list_or_empty (get "attackResults" s.pred)) in
      t ≡ record s { rows = rows; has_substrate = any is_substrate rows }
unfolding check_rows_setup
rows_setup-frame s h = sym (done-injective h)

pub coverage-frame :
    (s : VerifyState) {t : VerifyState}
    → check_coverage s ≡ done t []
    → (coverage_of s.rows s.manifest_classes (get "coverage" s.pred) ≡ skip)
      × (t ≡ record s { coverage = get "coverage" s.pred })
unfolding check_coverage
coverage-frame s h = let (a, h1) = >>-eq-silent _ _ h in (a, sym (done-injective h1))

pub fail_closed_rows-frame :
    (s : VerifyState) {t : VerifyState}
    → check_fail_closed_rows s ≡ done t []
    → (failed : List ℕ) × (fail_closed_loop s.labels 0 s.rows ≡ done failed [])
      × (t ≡ record s { fail_closed_rows = failed })
unfolding check_fail_closed_rows
fail_closed_rows-frame s h = let (failed, q, e) = >>=-pure-eq-silent _ _ h in (failed, q, sym e)
