-- ===== src/Verifier/Accept/Result.antt =====
-- The vocabulary of an accepted statement, and the result that it may carry.
use aee_conformance.Base.{
  ℕ, Bool, true, false, not, Option, none, some, List, [], ◌∷◌, ◌≡◌, ◌≢◌, refl, sym, ap, ◌∙◌,
}
use aee_conformance.Base.{if◌then◌else◌, &&-eq-true}
use aee_conformance.Py.Value.{
  Value, null, bool, int, float, real, str, arr, obj, Fields, get, is_text, as_list, as_dict,
  to_list,
}
use aee_conformance.Py.Run.{done, skip, add, add_if, >>-eq-silent, done-injective, add_if-eq-skip}
use aee_conformance.Platform.{Platform}
use aee_conformance.Verifier.{Outcome}
use aee_conformance.Verifier.State.{VerifyState, in_result_order, verdict_text}
use aee_conformance.Verifier.Statement.{is_missing}
use aee_conformance.Verifier.Vocabulary.{
  vocab_array_ok, vocab_shape_ok, check_pairs, pairs_of, vocabulary_of,
}
use aee_conformance.Verifier.Recompute.{recompute, compare_result, check_result_recompute}
use aee_conformance.Verifier.Accept.Frames.{not-eq-false, gate0_wellformed-frame, vocabulary-frame}
use aee_conformance.Verifier.Accept.Chain.{Accepts, Accepts-Accepted}
use aee_conformance.Verifier.Accept.Fields.{kept, rows_of, environment_of}

vocab_array_is_list :
    (v : Value) → vocab_array_ok v ≡ true → (xs : List Value) × (as_list v ≡ some xs)
unfolding vocab_array_ok
vocab_array_is_list (arr xs) h = (to_list xs, refl)
vocab_array_is_list null h = cc
vocab_array_is_list (bool b) h = cc
vocab_array_is_list (int n) h = cc
vocab_array_is_list (float n) h = cc
vocab_array_is_list (real s) h = cc
vocab_array_is_list (str s) h = cc
vocab_array_is_list (obj fs) h = cc

-- The two arrays of a vocabulary, canonical, and kept in the state.
abbrev pub IsVocabulary : Fields → List Value → List Value → Type 0
IsVocabulary vocab labels caught =
    (vocab_shape_ok (get "labels" vocab) (get "caught" vocab) ≡ true)
    × (as_list (get "labels" vocab) ≡ some labels)
    × (as_list (get "caught" vocab) ≡ some caught)

module _ (P : Platform) where
  pairs_of-silent :
      (vocab : Fields) (l c : Option (List Value)) {labels caught : List Value}
      {kept : Option (List Value) × Option (List Value)}
      → l ≡ some labels
      → c ≡ some caught
      → pairs_of P vocab l c ≡ done kept []
      → kept ≡ (some labels, some caught)
  pairs_of-silent vocab (some l) (some c) el ec h =
      let (a, h1) = >>-eq-silent (check_pairs P vocab l c) _ h in sym (done-injective h1) ∙ cc
  pairs_of-silent vocab none c el ec h = cc
  pairs_of-silent vocab (some l) none el ec h = cc

  pub vocabulary_of-silent :
      (o : Option Fields) {kept : Option (List Value) × Option (List Value)}
      → is_missing o ≡ false
      → vocabulary_of P o ≡ done kept []
      → (vocab : Fields) × (labels : List Value) × (caught : List Value) × (o ≡ some vocab)
        × IsVocabulary vocab labels caught
        × (kept ≡ (some labels, some caught))
  unfolding vocab_shape_ok
  vocabulary_of-silent none m h = cc
  vocabulary_of-silent (some vocab) m h =
      let (a, h1) =
        >>-eq-silent
          (add_if (not (vocab_shape_ok (get "labels" vocab) (get "caught" vocab)))
            "vocabulary-not-canonical")
          _ h in
      let shape = not-eq-false _ (add_if-eq-skip _ "vocabulary-not-canonical" a) in
      let both =
        &&-eq-true (vocab_array_ok (get "labels" vocab)) (vocab_array_ok (get "caught" vocab))
          shape in
      let (labels, el) = vocab_array_is_list (get "labels" vocab) both.0 in
      let (caught, ec) = vocab_array_is_list (get "caught" vocab) both.1 in
      (
        vocab,
        labels,
        caught,
        refl,
        (shape, el, ec),
        pairs_of-silent vocab (as_list (get "labels" vocab)) (as_list (get "caught" vocab)) el ec
            h1,
      )

compare_result-skip :
    (rows : List Fields) (labels caught : List Value) (coverage result : Value)
    → compare_result rows labels caught coverage result ≡ skip
    → rows ≢ []
    → is_text (verdict_text (recompute rows labels caught coverage)) result ≡ true
compare_result-skip [] labels caught coverage result h n = absurd (n refl)
compare_result-skip (r ∷ rs) labels caught coverage result h n =
    matches (in_result_order result)
      (is_text (verdict_text (recompute (r ∷ rs) labels caught coverage)) result) h
  where
    matches :
        (known same : Bool)
        → (if known
            then add_if (not same) "result-recompute-mismatch"
            else add "result-recompute-mismatch")
          ≡ skip
        → same ≡ true
    matches true true h = refl
    matches true false h = cc
    matches false same h = cc

recompute-skip :
    (s : VerifyState) {labels caught : List Value}
    → s.labels ≡ some labels
    → s.caught ≡ some caught
    → check_result_recompute s ≡ skip
    → compare_result s.rows labels caught s.coverage s.result ≡ skip
unfolding check_result_recompute
recompute-skip s el ec h = rw (el, ec, check_result_recompute) at h

module _ (P : Platform) (pinned_pubs : List (List ℕ)) (stmt : Value) (raw : Option (List ℕ))
    {o : Outcome} (accepts : Accepts P pinned_pubs stmt raw o) where
  -- An accepted statement carries a canonical vocabulary; its result is one of the four, and if it has a
  -- row, is the recompute of its rows under the vocabulary and the carried coverage.
  pub accepted_result :
      (fields : Fields) × (pred : Fields) × (vocab : Fields) × (labels : List Value)
      × (caught : List Value) × (stmt ≡ obj fields)
      × (get "predicate" fields ≡ obj pred)
      × (as_dict (get "observationVocabulary" (environment_of pred)) ≡ some vocab)
      × IsVocabulary vocab labels caught
      × (in_result_order (get "result" pred) ≡ true)
      × (rows_of pred ≢ []
          → is_text
              (verdict_text (recompute (rows_of pred) labels caught (get "coverage" pred)))
              (get "result" pred)
            ≡ true)
  accepted_result =
      let a = Accepts-Accepted P pinned_pubs stmt raw accepts in
      let k = kept P a.passed in
      let (known, present, e1) = gate0_wellformed-frame P _ a.passed.wellformed in
      let (arrays, q, e2) = vocabulary-frame P a.passed.s1 a.passed.vocabulary in
      let (vocab, labels, caught, ev, is_vocab, ea) =
        vocabulary_of-silent P a.passed.s1.vocab (ap is_missing k.vocab1 ∙ present) q in
      let el : a.st.labels ≡ some labels =
        k.labels
        ∙ ap (λ (t : VerifyState). t.labels) e2
        ∙ ap (λ (t : Option (List Value) × Option (List Value)). t.0) ea in
      let ec : a.st.caught ≡ some caught =
        k.caught
        ∙ ap (λ (t : VerifyState). t.caught) e2
        ∙ ap (λ (t : Option (List Value) × Option (List Value)). t.1) ea in
      let same = recompute-skip a.st el ec a.passed.recompute in
      (
        a.fields,
        a.pred,
        vocab,
        labels,
        caught,
        a.is_obj,
        a.is_pred,
        sym k.vocab1 ∙ ev,
        is_vocab,
        known,
        λ n.
            rw (k.rows, k.coverage, k.result) at
              (compare_result-skip a.st.rows labels caught a.st.coverage a.st.result same
                (rw k.rows n)),
      )
