-- ===== src/SecondFault/Accepted.antt =====
-- The self-check of packaging/run_vectors.py on a statement that `verify` accepts.
use mathlib.Core.Option
use aee_conformance.Base.{
  ℕ, String, Bool, true, false, not, Option, none, some, List, [], ◌∷◌, ◌≡◌, refl, sym, ap, ◌∙◌,
  All, all, any, if◌then◌else◌,
}
use aee_conformance.Py.Value.{
  Value, null, bool, int, float, real, str, arr, obj, Fields, end, field, get, values, is_str,
  is_text, as_dict, as_list, from_list, to_list, list_or_empty,
}
use aee_conformance.Py.Bytes.{hex}
use aee_conformance.Py.Run.{
  done, raised, jcs_error, skip, pure, add, add_if, ◌>>=◌, >>-eq-silent, >>=-eq-silent,
  >>=-pure-eq-silent, add_if-eq-skip, done-injective,
}
use aee_conformance.Platform.{Platform}
use aee_conformance.Jcs.{jcs_dumps}
use aee_conformance.Shapes.{digest_of}
use aee_conformance.Verifier.{Outcome}
use aee_conformance.Verifier.Rows.{is_substrate}
use aee_conformance.Verifier.Record.{RecordView, record_views}
use aee_conformance.Verifier.Vocabulary.{
  vocab_shape_ok, hash_all, canonical_digest, check_pairs, pairs_of, vocabulary_of,
}
use aee_conformance.Verifier.Binding.{subject_sha, binding_preimage, binding_of, derive}
use aee_conformance.Verifier.Accept.Frames.{vocabulary-frame, corpus-frame, records-frame}
use aee_conformance.Verifier.Accept.Chain.{Accepts, Accepts-Accepted}
use aee_conformance.Verifier.Accept.Fields.{kept, rows_of, records_of, environment_of}
use aee_conformance.Verifier.Accept.Manifest.{corpus_facts-IsChecked}
use aee_conformance.Verifier.Accept.Batch.{views_of-IsBatched}
use aee_conformance.Verifier.Accept.Bound.{IsBoundRow}
use aee_conformance.Verifier.Accept.Referenced.{accepted-IsBoundRow}
use aee_conformance.SecondFault.{
  digest_or_error, vocabulary_digest, vocabulary_pair, sfa_batch_root, sfa_vocabulary, sfa_corpus,
  sfa_derived_binding, scan_records, sfa_binding, all_findings, second_fault_absence,
}
use aee_conformance.SecondFault.Silent.{
  obj-injective, skip_unless, then_skip, binding_scan-skip, sfa_batch_root-skip, checked_corpus,
}

abbrev pair_value : List Value → List Value → Value
pair_value labels caught =
    obj (field "caught" (arr (from_list caught)) (field "labels" (arr (from_list labels)) end))

bound_to :
    {x y : Option String} (views : List RecordView) (rows : List Fields)
    → x ≡ y
    → All (IsBoundRow x views) rows
    → All (IsBoundRow y views) rows
bound_to views rows e h = rw e at h

bound_for :
    {derived : Option String} {d : String} (views : List RecordView) (rows : List Fields)
    → All (λ r. is_substrate r ≡ true) rows
    → (any is_substrate rows ≡ true → derived ≡ some d)
    → All (IsBoundRow derived views) rows
    → All (IsBoundRow (some d) views) rows
bound_for views [] sub e bound = tt
bound_for views (r ∷ rows) sub e bound = bound_to views (r ∷ rows) (e (rw sub.0 refl)) bound

module _ (P : Platform) where
  -- The two ways of the code to a canonical digest agree.
  digest-canonical :
      (v : Value) {d : String} → canonical_digest P v ≡ done d [] → digest_or_error P v ≡ some d
  unfolding canonical_digest digest_or_error
  digest-canonical v h = mapped (jcs_dumps v) h
    where
      mapped :
          (o : Option (List ℕ)) {d : String}
          → (elim o [ none ↦ raised jcs_error | some bytes ↦ pure (hex (P.sha256 bytes)) ])
            ≡ done d []
          → Option.map (λ b. hex (P.sha256 b)) o ≡ some d
      mapped none h = cc
      mapped (some bytes) h = ap some (done-injective h)

  pairs-vocabulary_digest :
      (vocab : Fields) (labels caught : List Value)
      → check_pairs P vocab labels caught ≡ skip
      → vocabulary_digest P vocab labels caught ≡ skip
  unfolding check_pairs
  pairs-vocabulary_digest vocab labels caught h =
      let (a, h1) = >>-eq-silent (hash_all caught) _ h in
      let (b, h2) = >>-eq-silent (hash_all labels) _ h1 in
      let (c, h3) = >>-eq-silent _ _ h2 in
      let (expect, q, h4) =
        >>=-eq-silent (canonical_digest P (pair_value labels caught))
          (λ expect.
            add_if (not (is_text expect (digest_of (obj vocab)))) "vocabulary-digest-mismatch")
          h3 in
      matched (digest_or_error P (pair_value labels caught))
        (digest-canonical (pair_value labels caught) q)
        (add_if-eq-skip _ "vocabulary-digest-mismatch" h4)
    where
      matched :
          (o : Option String) {expect : String}
          → o ≡ some expect
          → not (is_text expect (digest_of (obj vocab))) ≡ false
          → (elim o [
            | none ↦ add "second-fault: vocabulary not canonicalizable"
            | some t ↦
                add_if
                  (not (is_text t (digest_of (obj vocab))))
                  "second-fault: vocabulary digest mismatch"
          ])
            ≡ skip
      matched o e f = rw (e, f) refl

  pairs_of-vocabulary_pair :
      (vocab : Fields) (l c : Option (List Value))
      {kept : Option (List Value) × Option (List Value)}
      → pairs_of P vocab l c ≡ done kept []
      → vocabulary_pair P vocab l c ≡ skip
  pairs_of-vocabulary_pair vocab (some labels) (some caught) h =
      pairs-vocabulary_digest vocab labels caught
        (>>-eq-silent (check_pairs P vocab labels caught) _ h).0
  pairs_of-vocabulary_pair vocab none c h = refl
  pairs_of-vocabulary_pair vocab (some l) none h = refl

  vocabulary-sfa_vocabulary :
      (env : Fields) (expected : List String) {kept : Option (List Value) × Option (List Value)}
      → vocabulary_of P (as_dict (get "observationVocabulary" env)) ≡ done kept []
      → sfa_vocabulary P env expected ≡ skip
  unfolding sfa_vocabulary
  vocabulary-sfa_vocabulary env expected h =
      skip_unless _ _ (digested (get "observationVocabulary" env) h)
    where
      digested :
          (v : Value) {kept : Option (List Value) × Option (List Value)}
          → vocabulary_of P (as_dict v) ≡ done kept []
          → (elim v [
            | obj vocab ↦
                vocabulary_pair P vocab
                  (as_list (get "labels" vocab))
                  (as_list (get "caught" vocab))
            | _ ↦ skip
          ])
            ≡ skip
      digested (obj vocab) h =
          let (a, h1) =
            >>-eq-silent
              (add_if (not (vocab_shape_ok (get "labels" vocab) (get "caught" vocab)))
                "vocabulary-not-canonical")
              _ h in
          pairs_of-vocabulary_pair vocab (as_list (get "labels" vocab))
            (as_list (get "caught" vocab)) h1
      digested null h = refl
      digested (bool b) h = refl
      digested (int k) h = refl
      digested (float k) h = refl
      digested (real s) h = refl
      digested (str s) h = refl
      digested (arr xs) h = refl

  derive-sfa_derived_binding :
      (stmt env : Fields) {d : String}
      → derive P stmt env ≡ done (some d) []
      → sfa_derived_binding P stmt env ≡ some d
  unfolding sfa_derived_binding Option.bind
  derive-sfa_derived_binding stmt env h =
      derived (Option.bind (subject_sha P stmt) (binding_preimage P env)) h
    where
      texts_only :
          (b : Bool) (v : Value) {d : String}
          → (if b then (canonical_digest P v >>= λ t. pure (some t)) else pure none)
            ≡ done (some d) []
          → digest_or_error P v ≡ some d
      texts_only true v h =
          let (t, q, e) = >>=-pure-eq-silent (canonical_digest P v) some h in
          digest-canonical v q ∙ e
      texts_only false v h = cc

      derived :
          (o : Option Fields) {d : String}
          → binding_of P o ≡ done (some d) []
          → Option.bind o (λ vals. digest_or_error P (obj vals)) ≡ some d
      derived none h = cc
      derived (some vals) h = texts_only (all is_str (values vals)) (obj vals) h

  binding-skip :
      (fields pred : Fields) (expected : List String) {d : String}
      → derive P fields (environment_of pred) ≡ done (some d) []
      → All (λ r. is_substrate r ≡ true) (rows_of pred)
      → All (IsBoundRow (some d) (record_views P 0 (records_of pred))) (rows_of pred)
      → sfa_binding P fields pred (environment_of pred) expected ≡ skip
  unfolding sfa_binding
  binding-skip fields pred expected h sub bound = skip_unless _ _ (
      skip_unless _ _ (
        scanned (get "observationRecords" pred)
          (derive-sfa_derived_binding fields (environment_of pred) h) bound))
    where
      scanned :
          (v : Value) {o : Option String} {d : String}
          → o ≡ some d
          → All (IsBoundRow (some d) (record_views P 0 (list_or_empty v))) (rows_of pred)
          → scan_records P (rows_of pred) o (as_list v) ≡ skip
      scanned (arr xs) e b =
          rw e (binding_scan-skip (record_views P 0 (to_list xs)) _ (rows_of pred) sub b)
      scanned null e b = rw e refl
      scanned (bool t) e b = rw e refl
      scanned (int k) e b = rw e refl
      scanned (float k) e b = rw e refl
      scanned (real s) e b = rw e refl
      scanned (str s) e b = rw e refl
      scanned (obj fs) e b = rw e refl

module _ (P : Platform) (pinned_pubs : List (List ℕ)) (fields pred : Fields) (raw : Option (List ℕ))
    {o : Outcome} (accepts : Accepts P pinned_pubs (obj fields) raw o)
    (is_pred : get "predicate" fields ≡ obj pred) where
  same_pred : (f p : Fields) → obj fields ≡ obj f → get "predicate" f ≡ obj p → pred ≡ p
  same_pred f p e ep = obj-injective (sym is_pred ∙ ap (get "predicate") (obj-injective e) ∙ ep)

  digests_skip :
      (expected : List String)
      → (sfa_batch_root P pred expected ≡ skip)
        × (sfa_vocabulary P (environment_of pred) expected ≡ skip)
        × (sfa_corpus P (environment_of pred) expected ≡ skip)
  unfolding sfa_corpus
  digests_skip expected =
      let a = Accepts-Accepted P pinned_pubs (obj fields) raw accepts in
      let k = kept P a.passed in
      let same = same_pred a.fields a.pred a.is_obj a.is_pred in
      let (views, q7, e7) = records-frame P a.passed.s6 a.passed.records in
      let (arrays, q2, e2) = vocabulary-frame P a.passed.s1 a.passed.vocabulary in
      let (facts, q3, e3) = corpus-frame P a.passed.s2 a.passed.corpus in
      let batch =
        views_of-IsBatched P (get "batchRoot" a.pred) (records_of a.pred) (rw k.pred6 at q7) in
      let checked =
        corpus_facts-IsChecked P (get "corpus" (environment_of a.pred)) (rw k.env2 at q3) in
      rw same (
        sfa_batch_root-skip P a.pred expected views batch,
        vocabulary-sfa_vocabulary P (environment_of a.pred) expected (rw k.vocab1 at q2),
        skip_unless _ _ (checked_corpus P (get "corpus" (environment_of a.pred)) _ checked),
      )

  -- The self-check finds no second fault in an accepted statement whose run binding derives and whose
  -- rows are all of substrate basis, whatever codes are expected of it.
  pub second_fault_absence-accepted :
      (expected : List String) {d : String}
      → derive P fields (environment_of pred) ≡ done (some d) []
      → All (λ r. is_substrate r ≡ true) (rows_of pred)
      → second_fault_absence P (obj fields) expected ≡ skip
  unfolding second_fault_absence
  second_fault_absence-accepted expected {d} h sub =
      let (root, vocabulary, corpus) = digests_skip expected in
      let (f, p, derived, ef, ep, named, bound) =
        accepted-IsBoundRow P pinned_pubs (obj fields) raw accepts in
      let ran = rw (← same_pred f p ef ep, ← obj-injective ef) at named in
      let rows =
        bound_for (record_views P 0 (records_of pred)) (rows_of pred) sub
          (λ t. (done-injective (sym (ran t) ∙ h))) (rw (← same_pred f p ef ep) at bound) in
      ap (λ (v : Value). all_findings P fields v expected) is_pred
      ∙ then_skip root
          (then_skip vocabulary (then_skip corpus (binding-skip P fields pred expected h sub rows)))
