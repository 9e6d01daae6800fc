-- ===== src/SecondFault.antt =====
-- `second_fault_absence` and the `_sfa_…` functions of packaging/run_vectors.py: the self-check of a vector,
-- which recomputes four commitments of its statement, but those that its expected codes excuse. A finding is
-- added as a code is.
pub mod Registry
pub mod Silent
pub mod Accepted
use aee_conformance.Base.{
  ℕ, String, Bool, true, false, not, Option, none, some, List, [], ◌∷◌, any, get_elem?, is_empty,
  if◌then◌else◌, mem_str,
}
use aee_conformance.Base.Int.{pos}
use mathlib.Core.Option
use aee_conformance.Py.Value.{
  Value, null, bool, int, float, real, str, arr, obj, Fields, end, field, get, as_str, as_list,
  dict_or_empty, list_or_empty, to_list, from_list, is_text, truthy,
}
use aee_conformance.Py.Bytes.{hex}
use aee_conformance.Py.Run.{Run, raised, type_error, ◌>>=◌, ◌>>◌, pure, skip, add, add_if, for_each}
use aee_conformance.Platform.{Platform}
use aee_conformance.Jcs.{jcs_dumps}
use aee_conformance.Merkle.{merkle_root_hex}
use aee_conformance.Shapes.{digest_of}
use aee_conformance.Verifier.Record.{RecordView, record_views}
use aee_conformance.Verifier.Records.{all_paes, is_root}
use aee_conformance.Verifier.Rows.{dict_rows, is_substrate}
use aee_conformance.Verifier.Binding.{binding_preimage, subject_sha}
use Registry.{root_fault_codes, vocab_fault_codes, corpus_fault_codes, binding_fault_codes}

-- `expected_codes & codes`, as a test
unfoldable pub meets : List String → List String → Bool
meets expected codes = any (λ c. mem_str c codes) expected

-- `for ref in r.get("observationRefs") or []`: what is no list holds no integer, and a number is not
-- iterable.
unfoldable pub refs_of : Value → Run (List Value)
refs_of v =
    if truthy v
    then elim v [
      | arr xs ↦ pure (to_list xs)
      | str _ ↦ pure []
      | obj _ ↦ pure []
      | null ↦ pure []
      | bool _ ↦ raised type_error
      | int _ ↦ raised type_error
      | float _ ↦ raised type_error
      | real _ ↦ raised type_error
    ]
    else pure []

-- The record that a reference names, if it is an index of one.
unfoldable pub view_of_ref : List RecordView → Value → Option RecordView
view_of_ref views (int (pos i)) = get_elem? views i
view_of_ref views _ = none

abbrev pub payload_differs : String → Option Fields → Bool
payload_differs derived none = false
payload_differs derived (some p) = not (is_text derived (get "aeeRunBinding" p))

abbrev pub ref_differs : List RecordView → String → Value → Bool
ref_differs views derived ref = elim (view_of_ref views ref) [
  | none ↦ false
  | some v ↦ payload_differs derived v.payload
]

-- The first difference ends the loop over the references of a row.
unfoldable pub binding_scan : List RecordView → String → List Fields → Run (Unit {0})
unfolding for_each refs_of view_of_ref
binding_scan views derived rows = for_each rows (λ r. refs_of (get "observationRefs" r) >>= λ refs.
    add_if (any (ref_differs views derived) refs) "second-fault: record binding != derived binding")

module _ (P : Platform) where
  -- `sha256_hex(jcs_dumps(v))`; `none` is a `JcsError`.
  unfoldable pub digest_or_error : Value → Option String
  unfolding jcs_dumps hex
  digest_or_error v = Option.map (λ b. hex (P.sha256 b)) (jcs_dumps v)

  unfoldable pub sfa_root_recompute : List Value → Value → Run (Unit {0})
  unfolding record_views all_paes merkle_root_hex
  sfa_root_recompute records root = elim (all_paes (record_views P 0 records)) [
    | none ↦ add "second-fault: undecodable record payload"
    | some leaves ↦
        add_if (not (is_root (merkle_root_hex P.sha256 leaves) root))
          "second-fault: batchRoot does not recompute"
  ]

  unfoldable pub sfa_batch_root : Fields → List String → Run (Unit {0})
  unfolding meets sfa_root_recompute
  sfa_batch_root pred expected =
      if meets expected root_fault_codes
      then skip
      else elim (list_or_empty (get "observationRecords" pred)) [
        | [] ↦ skip
        | rec ∷ recs ↦ elim (as_str (get "batchRoot" pred)) [
          | none ↦ skip
          | some root ↦ sfa_root_recompute (rec ∷ recs) (str root)
        ]
      ]

  abbrev pub vocabulary_digest : Fields → List Value → List Value → Run (Unit {0})
  vocabulary_digest vocab labels caught =
      elim (digest_or_error (
        obj (
          field "caught" (arr (from_list caught)) (field "labels" (arr (from_list labels)) end)))) [
            | none ↦ add "second-fault: vocabulary not canonicalizable"
            | some expect ↦
                add_if (not (is_text expect (digest_of (obj vocab))))
                  "second-fault: vocabulary digest mismatch"
          ]

  abbrev pub vocabulary_pair : Fields → Option (List Value) → Option (List Value) → Run (Unit {0})
  vocabulary_pair vocab (some labels) (some caught) = vocabulary_digest vocab labels caught
  vocabulary_pair vocab _ _ = skip

  unfoldable pub sfa_vocabulary : Fields → List String → Run (Unit {0})
  unfolding meets digest_or_error digest_of
  sfa_vocabulary env expected =
      if meets expected vocab_fault_codes then skip else elim (get "observationVocabulary" env) [
        | obj vocab ↦
            vocabulary_pair vocab (as_list (get "labels" vocab)) (as_list (get "caught" vocab))
        | _ ↦ skip
      ]

  abbrev pub manifest_digest : Fields → Fields → Run (Unit {0})
  manifest_digest corpus manifest = elim (digest_or_error (obj manifest)) [
    | none ↦ add "second-fault: corpus manifest not canonicalizable"
    | some expect ↦
        add_if (not (is_text expect (digest_of (obj corpus))))
          "second-fault: corpus digest mismatch"
  ]

  abbrev pub corpus_manifest : Fields → Value → Run (Unit {0})
  corpus_manifest corpus (obj manifest) = manifest_digest corpus manifest
  corpus_manifest corpus _ = skip

  unfoldable pub sfa_corpus : Fields → List String → Run (Unit {0})
  unfolding meets digest_or_error digest_of
  sfa_corpus env expected =
      if meets expected corpus_fault_codes then skip else elim (get "corpus" env) [
        | obj corpus ↦ corpus_manifest corpus (get "manifest" corpus)
        | _ ↦ skip
      ]

  unfoldable pub sfa_derived_binding : Fields → Fields → Option String
  unfolding subject_sha binding_preimage digest_or_error
  sfa_derived_binding stmt env =
      Option.bind (Option.bind (subject_sha P stmt) (binding_preimage P env))
        λ vals. digest_or_error (obj vals)

  abbrev pub scan_records : List Fields → Option String → Option (List Value) → Run (Unit {0})
  scan_records rows (some derived) (some records) =
      binding_scan (record_views P 0 records) derived rows
  scan_records rows _ _ = skip

  unfoldable pub sfa_binding : Fields → Fields → Fields → List String → Run (Unit {0})
  unfolding meets dict_rows sfa_derived_binding record_views binding_scan
  sfa_binding stmt pred env expected =
      let rows = dict_rows (list_or_empty (get "attackResults" pred)) in
      if meets expected binding_fault_codes
      then skip
      else if not (any is_substrate rows)
      then skip
      else scan_records rows (sfa_derived_binding stmt env)
          (as_list (get "observationRecords" pred))

  abbrev pub all_findings : Fields → Value → List String → Run (Unit {0})
  all_findings stmt (obj pred) expected = do
    let env = dict_or_empty (get "observationEnvironment" pred)
    sfa_batch_root pred expected
    sfa_vocabulary env expected
    sfa_corpus env expected
    sfa_binding stmt pred env expected
  all_findings stmt _ expected = skip

  unfoldable pub second_fault_absence : Value → List String → Run (Unit {0})
  unfolding sfa_batch_root sfa_vocabulary sfa_corpus sfa_binding
  second_fault_absence (obj stmt) expected = all_findings stmt (get "predicate" stmt) expected
  second_fault_absence _ expected = skip
