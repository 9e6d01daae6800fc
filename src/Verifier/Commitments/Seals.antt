-- ===== src/Verifier/Commitments/Seals.antt =====
-- The requirements on the carried records that bind to this run: `observed_set_digest`,
-- `_commit_observed_set`, `_commit_sealed_present`, `_commit_carried_cover`, `_carried_record_fault`,
-- `_commit_seal_attacks` and `_commit_assessed_subset` of packaging/run_vectors.py.
use aee_conformance.Base.{
  ℕ, String, Bool, true, false, not, ◌&&◌, ◌||◌, Option, none, some, List, [], ◌∷◌, ◌++◌,
}
use aee_conformance.Base.{any, all, map, str_eq, codes, if◌then◌else◌}
use aee_conformance.Py.Value.{
  Value, str, arr, obj, Fields, get, has, is_text, is_none, mem, as_list, from_list, list_or_empty,
}
use aee_conformance.Py.Bytes.{hex}
use aee_conformance.Py.Run.{Run, ◌>>=◌, ◌>>◌, pure, skip, add, add_if, hash, for_each}
use aee_conformance.Platform.{Platform}
use aee_conformance.Jcs.{lex_lt}
use aee_conformance.Shapes.{is_hex64_lower, attack_id_array_ok, commitment_array_ok}
use aee_conformance.Verifier.State.{VerifyState, method_order}
use aee_conformance.Verifier.Record.{RecordView, kind, method, payload_or_empty}
use aee_conformance.Verifier.Kinds.{arming_ok, sealed_ok, examination_ok}
use aee_conformance.Verifier.Vocabulary.{canonical_digest, hash_all}
use aee_conformance.Verifier.Gate1.{arming_postures, covering_kind, reserved_members}

-- One more leaf in `sorted({…})`, a list in ascending order with no repeats.
unfoldable pub insert_leaf : String → List String → List String
unfolding lex_lt
insert_leaf s [] = s ∷ []
insert_leaf s (t ∷ ts) =
    if str_eq s t
    then t ∷ ts
    else if lex_lt (codes t) (codes s)
    then t ∷ insert_leaf s ts
    else s ∷ t ∷ ts

abbrev pub is_observed : RecordView → Bool
is_observed rv = is_text "interception" (kind rv) || is_text "examination" (kind rv)

-- `rv.payload.get("aeeRunBinding") == st.derived_binding`, where `None` is what a missing member reads
abbrev pub binds : VerifyState → RecordView → Bool
binds st rv = elim (st.derived_binding) [
  | none ↦ is_none (get "aeeRunBinding" (payload_or_empty rv))
  | some b ↦ is_text b (get "aeeRunBinding" (payload_or_empty rv))
]

-- `isinstance(rv.payload, dict)`
abbrev pub has_payload : RecordView → Bool
has_payload rv = elim (rv.payload) [ none ↦ false | some _ ↦ true ]

abbrev pub is_bound : VerifyState → String → RecordView → Bool
is_bound st k rv = is_text k (kind rv) && has_payload rv && binds st rv

module _ (P : Platform) where
  -- `hashlib.sha256(b"\x00" + rv.pae).hexdigest()`
  abbrev leaf_name : List ℕ → String
  leaf_name b = hex (P.sha256 (0x00 ∷ b))

  unfoldable pub observed_leaves : List RecordView → List String
  unfolding insert_leaf hex
  observed_leaves [] = []
  observed_leaves (rv ∷ rvs) = elim (rv.pae) [
    | none ↦ observed_leaves rvs
    | some b ↦
        (let rest = observed_leaves rvs in
          if is_observed rv then insert_leaf (leaf_name b) rest else rest)
  ]

  unfoldable pub observed_set_digest : List RecordView → Run String
  unfolding observed_leaves canonical_digest
  observed_set_digest views = canonical_digest P (arr (from_list (map str (observed_leaves views))))

  -- A bound seal with a well-formed observed set.
  abbrev pub claims_set : VerifyState → RecordView → Bool
  claims_set st rv =
      is_bound st "sealed" rv && is_hex64_lower (get "aeeObservedSet" (payload_or_empty rv))

  abbrev pub set_differs : VerifyState → String → RecordView → Bool
  set_differs st want rv =
      claims_set st rv && not (is_text want (get "aeeObservedSet" (payload_or_empty rv)))

  unfoldable pub observed_set : VerifyState → Run (Unit {0})
  unfolding observed_set_digest is_hex64_lower
  observed_set st =
      if any (claims_set st) st.views
      then (observed_set_digest st.views >>= λ want.
          add_if (any (set_differs st want) st.views) "observed-set-mismatch")
      else skip

  -- `None if ok else code`
  abbrev fault_unless : Bool → String → Option String
  fault_unless true code = none
  fault_unless false code = some code

  unfoldable pub interception_fault : RecordView → Run (Option String)
  unfolding commitment_array_ok
  interception_fault rv =
      let p = payload_or_empty rv in
      if has "aeePayloadCommitment" p && not (commitment_array_ok (get "aeePayloadCommitment" p))
      then pure (some "payload-commitment-malformed")
      else (hash (method rv)
          >> pure (elim (method_order (method rv)) [
            | none ↦ some "payload-missing-reserved"
            | some _ ↦ fault_unless (has "aeePayloadCommitment" p) "payload-missing-reserved"
          ]))

  unfoldable pub carried_record_fault : VerifyState → RecordView → Run (Option String)
  unfolding sealed_ok arming_ok examination_ok interception_fault
  carried_record_fault st rv =
      let p = payload_or_empty rv in
      if is_text "sealed" (kind rv)
      then pure (
          fault_unless (sealed_ok p st.pinned_posture [] st.declared_attacks)
            "sealed-covers-nothing")
      else if is_text "arming" (kind rv)
      then (arming_ok P p st.pinned_posture st.issued_at st.declared_attacks >>= λ ok.
          pure (fault_unless ok "arming-covers-nothing"))
      else if is_text "examination" (kind rv)
      then pure (fault_unless (examination_ok p) "examination-covers-nothing")
      else interception_fault rv

  abbrev add_fault : Option String → Run (Unit {0})
  add_fault none = skip
  add_fault (some code) = add code

  -- The records that must satisfy their kind, referenced or not.
  abbrev pub is_candidate : VerifyState → RecordView → Bool
  is_candidate st rv =
      has_payload rv
      && rv.media_ok
      && all (λ m. has m (payload_or_empty rv)) reserved_members
      && binds st rv
      && covering_kind (kind rv)

  unfoldable pub carried_cover : VerifyState → Run (Unit {0})
  unfolding carried_record_fault for_each
  carried_cover st =
      for_each st.views
        λ rv. if is_candidate st rv then (carried_record_fault st rv >>= add_fault) else skip

-- A bound seal that satisfies every constraint of its kind.
abbrev pub is_sealing : VerifyState → RecordView → Bool
is_sealing st rv =
    is_bound st "sealed" rv
    && rv.media_ok
    && sealed_ok (payload_or_empty rv) st.pinned_posture (arming_postures st.views)
        st.declared_attacks

unfoldable pub sealed_present : VerifyState → Run (Unit {0})
unfolding sealed_ok arming_postures
sealed_present st = add_if (not (any (is_sealing st) st.views)) "sealed-record-absent"

-- The attack identifiers of the caught rows.
unfoldable pub caught_ids : List Value → List Fields → List Value
unfolding mem
caught_ids caught [] = []
caught_ids caught (r ∷ rs) =
    if mem (get "containmentObserved" r) caught
    then get "attackId" r ∷ caught_ids caught rs
    else caught_ids caught rs

abbrev pub names_uncaught : VerifyState → List Value → RecordView → Bool
names_uncaught st ids rv =
    is_bound st "sealed" rv
    && attack_id_array_ok (get "aeeObservedAttacks" (payload_or_empty rv)) st.declared_attacks
    && any (λ a. not (mem a ids)) (list_or_empty (get "aeeObservedAttacks" (payload_or_empty rv)))

unfoldable pub seal_attacks : VerifyState → Run (Unit {0})
unfolding hash_all caught_ids attack_id_array_ok
seal_attacks st = elim (st.caught) [
  | none ↦ skip
  | some caught ↦ do
    hash_all (caught_ids caught st.rows)
    add_if (any (names_uncaught st (caught_ids caught st.rows)) st.views) "observed-attack-uncaught"
]

abbrev texts_in : List Value → List String
texts_in [] = []
texts_in (str t ∷ vs) = t ∷ texts_in vs
texts_in (_ ∷ vs) = texts_in vs

-- The texts under one assessed class.
abbrev texts_under : Fields → Value → List String
texts_under classes (str s) = texts_in (list_or_empty (get s classes))
texts_under classes _ = []

unfoldable pub assessed_ids : Fields → List Value → List String
assessed_ids classes [] = []
assessed_ids classes (cls ∷ rest) = texts_under classes cls ++ assessed_ids classes rest

abbrev pub declares_less : VerifyState → List String → RecordView → Bool
declares_less st assessed rv =
    is_bound st "arming" rv
    && attack_id_array_ok (get "aeeAssessedAttacks" (payload_or_empty rv)) st.declared_attacks
    && any (λ a. not (mem (str a) (list_or_empty (get "aeeAssessedAttacks" (payload_or_empty rv)))))
        assessed

-- `cov.get("assessedClasses")`
abbrev assessed_classes : Value → Option (List Value)
assessed_classes (obj cov) = as_list (get "assessedClasses" cov)
assessed_classes _ = none

abbrev subset_of : VerifyState → Option (List Value) → Option Fields → Run (Unit {0})
subset_of st (some assessed) (some classes) = do
  hash_all assessed
  add_if (any (declares_less st (assessed_ids classes assessed)) st.views)
      "assessed-set-exceeds-declaration"
subset_of st _ _ = skip

unfoldable pub assessed_subset : VerifyState → Run (Unit {0})
unfolding hash_all assessed_ids attack_id_array_ok mem
assessed_subset st = subset_of st (assessed_classes st.coverage) st.manifest_classes
