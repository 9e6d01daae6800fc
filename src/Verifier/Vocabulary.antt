-- ===== src/Verifier/Vocabulary.antt =====
-- `_check_vocabulary`, `_vocab_shape_ok` and `_vocab_check_pairs` of packaging/run_vectors.py.
use aee_conformance.Base.{String, Bool, true, false, not, ◌&&◌, Option, none, some, List, [], ◌∷◌}
use aee_conformance.Base.{all, mem_str, str_eq}
use aee_conformance.Py.Value.{
  Value, arr, obj, Fields, end, field, get, as_list, mem, from_list, is_text,
}
use aee_conformance.Py.Bytes.{hex}
use aee_conformance.Py.Run.{Run, raised, jcs_error, ◌>>=◌, ◌>>◌, pure, add_if, hash, for_each}
use aee_conformance.Platform.{Platform}
use aee_conformance.Jcs.{jcs_dumps, sort_names, all_bmp}
use aee_conformance.Shapes.{digest_of, text_array}
use aee_conformance.Verifier.State.{VerifyState}

abbrev pub texts_eq : List String → List String → Bool
texts_eq [] [] = true
texts_eq (x ∷ xs) (y ∷ ys) = str_eq x y && texts_eq xs ys
texts_eq _ _ = false

-- `len(set(xs)) == len(xs)`
unfoldable pub no_repeats : List String → Bool
no_repeats [] = true
no_repeats (x ∷ xs) = not (mem_str x xs) && no_repeats xs

-- One round of `_vocab_shape_ok`, on a list of texts.
unfoldable pub vocab_texts_ok : List String → Bool
unfolding sort_names no_repeats all_bmp
vocab_texts_ok ss = texts_eq (sort_names ss) ss && no_repeats ss && all_bmp ss

unfoldable pub vocab_array_ok : Value → Bool
unfolding text_array vocab_texts_ok
vocab_array_ok v = elim (text_array v) [ none ↦ false | some ss ↦ vocab_texts_ok ss ]

unfoldable pub vocab_shape_ok : Value → Value → Bool
unfolding vocab_array_ok
vocab_shape_ok labels caught = vocab_array_ok labels && vocab_array_ok caught

-- `set(vs)`
unfoldable pub hash_all : List Value → Run (Unit {0})
unfolding for_each
hash_all vs = for_each vs hash

module _ (P : Platform) where
  -- `sha256_hex(jcs_dumps(v))`
  unfoldable pub canonical_digest : Value → Run String
  unfolding jcs_dumps hex
  canonical_digest v = elim (jcs_dumps v) [
    | none ↦ raised jcs_error
    | some bytes ↦ pure (hex (P.sha256 bytes))
  ]

  unfoldable pub check_pairs : Fields → List Value → List Value → Run (Unit {0})
  unfolding hash_all canonical_digest digest_of mem
  check_pairs vocab labels caught = do
    hash_all caught
    hash_all labels
    add_if (not (all (λ v. mem v labels) caught)) "vocabulary-caught-not-subset"
    expect ← canonical_digest (
        obj (field "caught" (arr (from_list caught)) (field "labels" (arr (from_list labels)) end)))
    add_if (not (is_text expect (digest_of (obj vocab)))) "vocabulary-digest-mismatch"

  -- `_vocab_check_pairs`, and the two lists that are kept if both are lists.
  abbrev pub pairs_of :
      Fields
      → Option (List Value)
      → Option (List Value)
      → Run (Option (List Value) × Option (List Value))
  pairs_of vocab (some labels) (some caught) = do
    check_pairs vocab labels caught
    pure (some labels, some caught)
  pairs_of vocab _ _ = pure (none, none)

  abbrev pub vocabulary_of : Option Fields → Run (Option (List Value) × Option (List Value))
  vocabulary_of none = pure (none, none)
  vocabulary_of (some vocab) = do
    add_if (not (vocab_shape_ok (get "labels" vocab) (get "caught" vocab)))
        "vocabulary-not-canonical"
    pairs_of vocab (as_list (get "labels" vocab)) (as_list (get "caught" vocab))

  unfoldable pub check_vocabulary : VerifyState → Run VerifyState
  unfolding vocab_shape_ok check_pairs
  check_vocabulary st = do
    kept ← vocabulary_of st.vocab
    pure (record st { labels = kept.0; caught = kept.1 })
