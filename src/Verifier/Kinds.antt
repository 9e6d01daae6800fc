-- ===== src/Verifier/Kinds.antt =====
-- What the four covering kinds require of a record in packaging/run_vectors.py: `_arming_ok`,
-- `_arming_chain_ok`, `_sealed_ok`, `_sealed_commitments_ok` and `_examination_ok`.
use aee_conformance.Base.{
  ℕ, zero, suc, String, Bool, true, false, not, ◌&&◌, ◌||◌, Option, none, some, List, [], ◌∷◌,
}
use aee_conformance.Base.{all, if◌then◌else◌, mem_str}
use aee_conformance.Base.Int.{pos, ltb_ℤ}
use aee_conformance.Py.Value.{
  Value, bool, int, str, arr, Fields, get, has, eq, is_text, is_none, as_int, to_list,
}
use aee_conformance.Py.Run.{Run, ◌>>=◌, ◌>>◌, pure, hash}
use aee_conformance.Platform.{Platform, Datetime, later}
use aee_conformance.Jcs.{sort_names}
use aee_conformance.Shapes.{
  timestamp_ok, rfc3339_key, attack_id_array_ok, is_hex64_lower, text_array,
}
use aee_conformance.Verifier.State.{binding_version}
use aee_conformance.Verifier.Vocabulary.{no_repeats, texts_eq}

-- `_CHAIN_SCOPE_VOCAB`
abbrev pub chain_scope_vocab : List String
chain_scope_vocab = "subject" ∷ "corpus" ∷ "networkPosture" ∷ []

abbrev in_scope_vocab : Value → Bool
in_scope_vocab (str s) = mem_str s chain_scope_vocab
in_scope_vocab _ = false

-- `any(tok not in _CHAIN_SCOPE_VOCAB for tok in scope)`, negated: the first that is not ends it.
unfoldable pub scope_tokens : List Value → Run Bool
scope_tokens [] = pure true
scope_tokens (tok ∷ rest) = do
  hash tok
  elim (in_scope_vocab tok) [ false ↦ pure false | true ↦ scope_tokens rest ]

unfoldable pub scope_order_ok : Value → Bool
unfolding text_array sort_names no_repeats
scope_order_ok scope = elim (text_array scope) [
  | none ↦ false
  | some ss ↦ texts_eq (sort_names ss) ss && no_repeats ss
]

-- What follows the scope: a first run has no predecessor, and a later one names it.
abbrev prev_ok : Fields → ℕ → Bool
prev_ok p zero = false
prev_ok p (suc zero) = not (has "aeePrevRunBinding" p)
prev_ok p (suc (suc n)) = is_hex64_lower (get "aeePrevRunBinding" p)

abbrev scope_ok : Value → Run Bool
scope_ok (arr toks) = do
  known ← scope_tokens (to_list toks)
  pure (known && scope_order_ok (arr toks))
scope_ok _ = pure false

abbrev seq_ok : Fields → Value → Run Bool
seq_ok p (int (pos (suc n))) = do
  scoped ← scope_ok (get "aeeChainScope" p)
  pure (scoped && prev_ok p (suc n))
seq_ok p _ = pure false

unfoldable pub arming_chain_ok : Fields → Run Bool
unfolding scope_tokens scope_order_ok is_hex64_lower
arming_chain_ok p =
    if has "aeeRunSeq" p
    then seq_ok p (get "aeeRunSeq" p)
    else pure (not (has "aeePrevRunBinding" p) && not (has "aeeChainScope" p))

-- `bv is not None and bv != BINDING_VERSION`, negated
abbrev pub version_ok : Value → Bool
version_ok bv = is_none bv || is_text binding_version bv

unfoldable pub drops_ok : Fields → Value → Bool
drops_ok p (int (pos zero)) = true
drops_ok p (int (pos (suc n))) = elim (as_int (get "aeeDropBound" p)) [
  | none ↦ false
  | some bound ↦ not (ltb_ℤ bound (pos (suc n)))
]
drops_ok p _ = false

unfoldable pub sealed_commitments_ok : Fields → List String → Bool
unfolding is_hex64_lower attack_id_array_ok
sealed_commitments_ok p declared =
    is_hex64_lower (get "aeeObservedSet" p)
    && attack_id_array_ok (get "aeeObservedAttacks" p) declared

abbrev pub is_true : Value → Bool
is_true (bool b) = b
is_true _ = false

unfoldable pub sealed_ok : Fields → Value → List String → List String → Bool
unfolding drops_ok sealed_commitments_ok eq
sealed_ok p pinned_posture arming_postures declared =
    is_true (get "aeeStillArmed" p)
    && drops_ok p (get "aeeDropCount" p)
    && eq (get "aeePostureDigest" p) pinned_posture
    && all (λ posture. is_text posture (get "aeePostureDigest" p)) arming_postures
    && is_text "intercepted" (get "aeeMethod" p)
    && sealed_commitments_ok p declared

unfoldable pub examination_ok : Fields → Bool
examination_ok p = is_text "reconstructed" (get "aeeMethod" p)

module _ (P : Platform) where
  abbrev key_of : Value → Option Datetime
  key_of (str s) = rfc3339_key P s
  key_of _ = none

  abbrev armed_later : Option Datetime → Option Datetime → Bool
  armed_later (some a) (some b) = later a b
  armed_later _ _ = false

  -- The arming record is not later than a well-formed issue time.
  unfoldable pub arming_order_ok : Value → Value → Bool
  unfolding timestamp_ok
  arming_order_ok armed issued_at =
      not (timestamp_ok P issued_at && armed_later (key_of armed) (key_of issued_at))

  unfoldable pub arming_ok : Fields → Value → Value → List String → Run Bool
  unfolding arming_order_ok arming_chain_ok attack_id_array_ok eq
  arming_ok p pinned_posture issued_at declared =
      if timestamp_ok P (get "armedAt" p)
        && arming_order_ok (get "armedAt" p) issued_at
        && eq (get "aeePostureDigest" p) pinned_posture
        && is_text "intercepted" (get "aeeMethod" p)
        && version_ok (get "aeeBindingVersion" p)
      then (arming_chain_ok p >>= λ chained.
          pure (chained && attack_id_array_ok (get "aeeAssessedAttacks" p) declared))
      else pure false
