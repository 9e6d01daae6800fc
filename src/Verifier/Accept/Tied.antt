-- ===== src/Verifier/Accept/Tied.antt =====
-- What the last state of an accepted statement is made of: each part of it that the later checks of
-- packaging/run_vectors.py read, as a function of the statement.
use aee_conformance.Base.{ℕ, String, true, Option, some, List, [], ◌≡◌, sym, ap, ◌∙◌, any}
use aee_conformance.Py.Value.{Value, Fields, get, as_dict}
use aee_conformance.Py.Run.{done}
use aee_conformance.Platform.{Platform}
use aee_conformance.Shapes.{digest_of}
use aee_conformance.Verifier.{Outcome}
use aee_conformance.Verifier.State.{VerifyState}
use aee_conformance.Verifier.Statement.{is_missing}
use aee_conformance.Verifier.Rows.{is_substrate}
use aee_conformance.Verifier.Record.{record_views}
use aee_conformance.Verifier.Records.{is_nonempty}
use aee_conformance.Verifier.Corpus.{CorpusFacts, corpus_facts}
use aee_conformance.Verifier.Binding.{derive}
use aee_conformance.Verifier.Accept.Frames.{
  gate0_wellformed-frame, vocabulary-frame, corpus-frame, records-frame, run_binding-frame,
  gate1_coverage-frame,
}
use aee_conformance.Verifier.Accept.Chain.{Accepted}
use aee_conformance.Verifier.Accept.Fields.{kept, rows_of, records_of, environment_of}
use aee_conformance.Verifier.Accept.Result.{IsVocabulary, vocabulary_of-silent}
use aee_conformance.Verifier.Accept.Batch.{views_of-IsBatched}
use aee_conformance.Verifier.Accept.Referenced.{batched_views, derived_if}

-- The vocabulary of the environment, the facts of its corpus, the run binding and the posture.
pub record IsTied (P : Platform) (fields pred : Fields) (st : VerifyState) : Type 0 where
  pub vocab : Fields
  pub labels : List Value
  pub caught : List Value
  pub facts : CorpusFacts
  pub is_vocab : as_dict (get "observationVocabulary" (environment_of pred)) ≡ some vocab
  pub is_vocabulary : IsVocabulary vocab labels caught
  pub st_labels : st.labels ≡ some labels
  pub st_caught : st.caught ≡ some caught
  pub st_rows : st.rows ≡ rows_of pred
  pub st_views : st.views ≡ record_views P 0 (records_of pred)
  pub st_has_records : st.has_records ≡ is_nonempty (records_of pred)
  pub st_posture : st.pinned_posture ≡ digest_of (get "networkPosture" (environment_of pred))
  pub st_issued_at : st.issued_at ≡ get "issuedAt" pred
  pub is_corpus : corpus_facts P (get "corpus" (environment_of pred)) ≡ done facts []
  pub st_declared : st.declared_attacks ≡ facts.declared_attacks
  pub st_binding :
      any is_substrate (rows_of pred) ≡ true
      → derive P fields (environment_of pred) ≡ done st.derived_binding []

module _ (P : Platform) (pinned_pubs : List (List ℕ)) (stmt : Value) (raw : Option (List ℕ))
    {o : Outcome} where
  pub accepted-IsTied : (a : Accepted P pinned_pubs stmt raw o) → IsTied P a.fields a.pred a.st
  accepted-IsTied a =
      let k = kept P a.passed in
      let (known, present, e1) = gate0_wellformed-frame P _ a.passed.wellformed in
      let (arrays, q, e2) = vocabulary-frame P a.passed.s1 a.passed.vocabulary in
      let (vocab, labels, caught, ev, is_vocab, ea) =
        vocabulary_of-silent P a.passed.s1.vocab (ap is_missing k.vocab1 ∙ present) q in
      let (facts, q3, e3) = corpus-frame P a.passed.s2 a.passed.corpus in
      let (views, q7, e7) = records-frame P a.passed.s6 a.passed.records in
      let (derived, q8, e8) = run_binding-frame P a.passed.s7 a.passed.run_binding in
      let (covering, q9, e9) = gate1_coverage-frame P a.passed.s8 a.passed.gate1_coverage in
      let batch =
        views_of-IsBatched P (get "batchRoot" a.pred) (records_of a.pred) (rw k.pred6 at q7) in
      let named : a.st.derived_binding ≡ derived =
        ap (λ (t : VerifyState). t.derived_binding) e9
        ∙ ap (λ (t : VerifyState). t.derived_binding) e8 in
      record {
        vocab = vocab;
        labels = labels;
        caught = caught;
        facts = facts;
        is_vocab = sym k.vocab1 ∙ ev;
        is_vocabulary = is_vocab;
        st_labels =
            k.labels
            ∙ ap (λ (t : VerifyState). t.labels) e2
            ∙ ap (λ (t : Option (List Value) × Option (List Value)). t.0) ea;
        st_caught =
            k.caught
            ∙ ap (λ (t : VerifyState). t.caught) e2
            ∙ ap (λ (t : Option (List Value) × Option (List Value)). t.1) ea;
        st_rows = k.rows;
        st_views =
            k.views
            ∙ ap (λ (t : VerifyState). t.views) e7
            ∙ batched_views P (get "batchRoot" a.pred) (records_of a.pred) views batch;
        st_has_records = k.has_records;
        st_posture =
            ap (λ (t : VerifyState). t.pinned_posture) e9
            ∙ ap (λ (e : Fields). digest_of (get "networkPosture" e)) k.env8;
        st_issued_at = k.issued_at;
        is_corpus = rw k.env2 at q3;
        st_declared = k.declared ∙ ap (λ (t : VerifyState). t.declared_attacks) e3;
        st_binding = (λ sub.
            derived_if (derive P a.fields (environment_of a.pred)) k.has_substrate7
              (rw (k.stmt7, k.env7) at q8) sub
            ∙ ap (λ (d : Option String). done d []) (sym named));
      }
