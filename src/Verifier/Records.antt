-- ===== src/Verifier/Records.antt =====
-- `_check_records`, `_records_batch_root`, `_records_duplicates` and `jcs_dumps_safe` of
-- packaging/run_vectors.py.
use aee_conformance.Base.{
  ℕ, String, Bool, true, false, not, ◌||◌, Option, none, some, List, [], ◌∷◌,
}
use aee_conformance.Base.{any, list_eq, ◌==◌, if◌then◌else◌}
use aee_conformance.Py.Value.{Value, get, is_none, is_text, list_or_empty}
use aee_conformance.Py.Run.{Run, ◌>>=◌, ◌>>◌, pure, skip, add, add_if}
use aee_conformance.Platform.{Platform}
use aee_conformance.Jcs.{jcs_dumps}
use aee_conformance.Merkle.{merkle_root_hex}
use aee_conformance.Verifier.State.{VerifyState}
use aee_conformance.Verifier.Record.{RecordView, record_views}

-- `b in seen`, on a set of byte strings
unfoldable pub mem_bytes : List ℕ → List (List ℕ) → Bool
mem_bytes b [] = false
mem_bytes b (x ∷ xs) = list_eq b x || mem_bytes b xs

-- The signed bytes of all records, if all have them.
abbrev pub push_pae : Option (List ℕ) → Option (List (List ℕ)) → Option (List (List ℕ))
push_pae (some b) (some bs) = some (b ∷ bs)
push_pae _ _ = none

unfoldable pub all_paes : List RecordView → Option (List (List ℕ))
all_paes [] = some []
all_paes (v ∷ vs) = push_pae v.pae (all_paes vs)

abbrev pub is_root : Option String → Value → Bool
is_root none root = false
is_root (some h) root = is_text h root

abbrev pub is_nonempty {ℓ} : {A : Type ℓ} → List A → Bool
is_nonempty [] = false
is_nonempty (_ ∷ _) = true

module _ (P : Platform) where
  unfoldable pub jcs_dumps_safe : Value → List ℕ
  unfolding jcs_dumps
  jcs_dumps_safe v = elim (jcs_dumps v) [ none ↦ P.repr v | some b ↦ b ]

  unfoldable pub record_key : RecordView → List ℕ
  unfolding jcs_dumps_safe
  record_key v = elim (v.pae) [ none ↦ jcs_dumps_safe v.raw | some b ↦ b ]

  unfoldable pub records_batch_root : Value → List RecordView → Run (Unit {0})
  unfolding all_paes merkle_root_hex
  records_batch_root root views =
      if is_none root then add "batch-root-missing" else elim (all_paes views) [
        | none ↦ add "batch-root-mismatch"
        | some leaves ↦
            add_if (not (is_root (merkle_root_hex P.sha256 leaves) root)) "batch-root-mismatch"
      ]

  unfoldable pub duplicates_loop : List (List ℕ) → List RecordView → Run (Unit {0})
  unfolding record_key mem_bytes
  duplicates_loop seen [] = skip
  duplicates_loop seen (v ∷ vs) = elim (v.decode_err) [
    | true ↦ duplicates_loop seen vs
    | false ↦ do
      add_if (mem_bytes (record_key v) seen) "duplicate-record"
      duplicates_loop (record_key v ∷ seen) vs
  ]

  abbrev pub root_or_undecodable : Value → List RecordView → Run (Unit {0})
  root_or_undecodable root views =
      if any (λ (v : RecordView). v.decode_err) views
      then add "record-undecodable"
      else records_batch_root root views

  -- The checks on a non-empty list of records.
  unfoldable pub check_views : Value → List RecordView → Run (Unit {0})
  unfolding records_batch_root duplicates_loop
  check_views root views = do
    add_if (any (λ (v : RecordView). v.signature_count == 0) views) "record-signatures-empty"
    root_or_undecodable root views
    duplicates_loop [] views

  abbrev pub views_of : Value → List Value → Run (List RecordView)
  views_of root [] = do add_if (not (is_none root)) "batch-root-orphaned"; pure []
  views_of root (rec ∷ recs) = do
    check_views root (record_views P 0 (rec ∷ recs))
    pure (record_views P 0 (rec ∷ recs))

  unfoldable pub check_records : VerifyState → Run VerifyState
  unfolding check_views record_views
  check_records st = do
    let records = list_or_empty (get "observationRecords" st.pred)
    views ← views_of (get "batchRoot" st.pred) records
    pure (record st { has_records = is_nonempty records; views = views })
