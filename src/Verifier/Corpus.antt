-- ===== src/Verifier/Corpus.antt =====
-- `_check_corpus`, `_corpus_digest`, `_corpus_declares_attack` and `_corpus_dupes` of
-- packaging/run_vectors.py.
use aee_conformance.Base.{ℕ, String, not, Option, none, some, List, [], ◌∷◌, ◌++◌}
use aee_conformance.Base.{length, ◌==◌, if◌then◌else◌}
use aee_conformance.Py.Value.{
  Value, str, obj, Fields, end, field, get, has, as_dict, mem, is_none, is_text, list_or_empty,
}
use aee_conformance.Py.Bytes.{hex}
use aee_conformance.Py.Run.{Run, ◌>>=◌, ◌>>◌, pure, skip, add, add_if, hash}
use aee_conformance.Platform.{Platform}
use aee_conformance.Jcs.{jcs_dumps}
use aee_conformance.Shapes.{digest_of, expected_payloads_ok}
use aee_conformance.Verifier.State.{VerifyState}

-- The identifiers under all classes, in order, as the loops over `classes.values()` meet them.
unfoldable pub all_ids : Fields → List Value
all_ids end = []
all_ids (field cls ids classes) = list_or_empty ids ++ all_ids classes

abbrev texts_of : List Value → List String
texts_of [] = []
texts_of (str s ∷ vs) = s ∷ texts_of vs
texts_of (_ ∷ vs) = texts_of vs

-- `st.declared_attacks`
unfoldable pub declared_of : Fields → List String
unfolding all_ids
declared_of classes = texts_of (all_ids classes)

-- The sum of the lengths, over all classes.
unfoldable pub declared_count : Value → ℕ
unfolding all_ids
declared_count (obj classes) = length (all_ids classes)
declared_count _ = 0

unfoldable pub corpus_declares_attack : Value → Run (Unit {0})
unfolding declared_count
corpus_declares_attack classes = add_if (declared_count classes == 0) "corpus-manifest-no-attacks"

-- The loop of `_corpus_dupes`, with the set of what it has seen.
unfoldable pub dupes_loop : List Value → List Value → Run (Unit {0})
unfolding mem
dupes_loop seen [] = skip
dupes_loop seen (aid ∷ rest) = do
  hash aid
  add_if (mem aid seen) "manifest-duplicate-attack"
  dupes_loop (aid ∷ seen) rest

unfoldable pub corpus_dupes : Fields → Run (Unit {0})
unfolding dupes_loop all_ids
corpus_dupes classes = dupes_loop [] (all_ids classes)

-- What the corpus gives to the state.
pub record CorpusFacts : Type 0 where
  pub manifest_classes : Option Fields
  pub declared_attacks : List String
  pub expected_payloads : Option Fields

abbrev pub no_facts : CorpusFacts
no_facts = record { manifest_classes = none; declared_attacks = []; expected_payloads = none }

module _ (P : Platform) where
  unfoldable pub corpus_digest : Fields → Fields → Run (Unit {0})
  unfolding jcs_dumps digest_of hex
  corpus_digest corpus manifest = elim (jcs_dumps (obj manifest)) [
    | none ↦ add "corpus-digest-mismatch"
    | some bytes ↦
        add_if (not (is_text (hex (P.sha256 bytes)) (digest_of (obj corpus))))
          "corpus-digest-mismatch"
  ]

  abbrev pub expectations : Fields → List String → Run (Option Fields)
  expectations manifest declared =
      if has "expectedPayloads" manifest
      then (let expected = get "expectedPayloads" manifest in
          if expected_payloads_ok expected declared
          then pure (as_dict expected)
          else (do add "manifest-expected-payloads-malformed"; pure none))
      else pure none

  abbrev pub classes_facts : Fields → Option Fields → Run CorpusFacts
  classes_facts manifest none = do
    expected ← expectations manifest []
    pure (record { manifest_classes = none; declared_attacks = []; expected_payloads = expected })
  classes_facts manifest (some classes) = do
    corpus_dupes classes
    expected ← expectations manifest (declared_of classes)
    pure (record {
      manifest_classes = some classes;
      declared_attacks = declared_of classes;
      expected_payloads = expected;
    })

  abbrev pub manifest_facts : Fields → Value → Run CorpusFacts
  manifest_facts corpus (obj manifest) = do
    corpus_digest corpus manifest
    corpus_declares_attack (get "classes" manifest)
    classes_facts manifest (as_dict (get "classes" manifest))
  manifest_facts corpus v = do add_if (is_none v) "environment-incomplete"; pure no_facts

  abbrev pub corpus_facts : Value → Run CorpusFacts
  corpus_facts (obj corpus) = manifest_facts corpus (get "manifest" corpus)
  corpus_facts _ = pure no_facts

  unfoldable pub check_corpus : VerifyState → Run VerifyState
  unfolding corpus_digest corpus_declares_attack corpus_dupes expected_payloads_ok declared_of
  check_corpus st = do
    let corpus = get "corpus" st.env
    facts ← corpus_facts corpus
    pure (record st {
      corpus = corpus;
      manifest_classes = facts.manifest_classes;
      declared_attacks = facts.declared_attacks;
      expected_payloads = facts.expected_payloads;
    })
