-- ===== src/Verifier/Commitments/Rows.antt =====
-- The requirements stated over every row: `_resolved_views`, `_commit_clean_row_contradicted`,
-- `_commit_interception_orphaned` and `_commit_attribution` of packaging/run_vectors.py.
use aee_conformance.Base.{
  ℕ, String, Bool, true, false, not, ◌&&◌, ◌||◌, Option, none, some, List, [], ◌∷◌, ◌++◌,
}
use aee_conformance.Base.{any, keep, map, get_elem?, ◌==◌, if◌then◌else◌}
use aee_conformance.Base.Int.{pos}
use aee_conformance.Py.Value.{
  Value, int, str, Fields, end, get, is_text, mem, as_list, list_or_empty,
}
use aee_conformance.Py.Run.{Run, ◌>>◌, skip, add, add_if, hash}
use aee_conformance.Verifier.State.{VerifyState}
use aee_conformance.Verifier.Record.{RecordView, kind, payload_or_empty}
use aee_conformance.Verifier.Rows.{is_clean}

abbrev pub view_list : Option RecordView → List RecordView
view_list none = []
view_list (some v) = v ∷ []

-- The records that one row resolves, in range.
abbrev pub view_at : List RecordView → Value → List RecordView
view_at views (int (pos i)) = view_list (get_elem? views i)
view_at views _ = []

unfoldable pub views_at : List RecordView → List Value → List RecordView
views_at views [] = []
views_at views (ref ∷ refs) = view_at views ref ++ views_at views refs

unfoldable pub resolved_views : List RecordView → Fields → List RecordView
unfolding views_at
resolved_views views r = views_at views (list_or_empty (get "observationRefs" r))

abbrev pub is_interception : RecordView → Bool
is_interception rv = is_text "interception" (kind rv)

abbrev pub contradicted : VerifyState → List Value → List Value → Fields → Bool
contradicted st labels caught r =
    is_clean labels caught r && any is_interception (resolved_views st.views r)

-- The first contradicted row ends the loop.
unfoldable pub clean_row_contradicted : VerifyState → Run (Unit {0})
unfolding resolved_views mem
clean_row_contradicted st = elim (st.labels) [
  | none ↦ skip
  | some labels ↦ elim (st.caught) [
    | none ↦ skip
    | some caught ↦ add_if (any (contradicted st labels caught) st.rows) "clean-row-contradicted"
  ]
]

-- The indices that the caught rows resolve.
unfoldable pub caught_refs : VerifyState → List Value → List Fields → List ℕ
unfolding resolved_views mem
caught_refs st caught [] = []
caught_refs st caught (r ∷ rs) =
    if mem (get "containmentObserved" r) caught
    then map (λ (rv : RecordView). rv.idx) (resolved_views st.views r) ++ caught_refs st caught rs
    else caught_refs st caught rs

abbrev pub mem_index : ℕ → List ℕ → Bool
mem_index i [] = false
mem_index i (j ∷ js) = (i == j) || mem_index i js

abbrev pub orphaned : List ℕ → RecordView → Bool
orphaned resolved rv = is_interception rv && not (mem_index rv.idx resolved)

unfoldable pub interception_orphaned : VerifyState → Run (Unit {0})
unfolding caught_refs
interception_orphaned st = elim (st.caught) [
  | none ↦ skip
  | some caught ↦
      add_if (st.has_records && any (orphaned (caught_refs st caught st.rows)) st.views)
        "interception-record-orphaned"
]

-- `isinstance(values, list) and not any(v in expected for v in values)`
abbrev unmatched : List Value → RecordView → Bool
unmatched expected rv = elim (as_list (get "aeePayloadCommitment" (payload_or_empty rv))) [
  | none ↦ false
  | some values ↦ not (any (λ v. mem v expected) values)
]

-- `expected_map.get(attackId)`: only a text can be a key.
abbrev expected_for : Fields → Value → List Value
expected_for expectations (str a) = list_or_empty (get a expectations)
expected_for expectations _ = []

-- A row that claims to be pinned: the code of what it lacks.
abbrev pub pin_fault : List RecordView → List Value → Option String
pin_fault [] expected = some "attribution-pinned-recordless"
pin_fault (_ ∷ _) [] = some "attribution-unpinnable"
pin_fault (rv ∷ rvs) (e ∷ es) =
    if any (unmatched (e ∷ es)) (rv ∷ rvs) then some "attribution-pin-unmatched" else none

abbrev pub interceptions : VerifyState → Fields → List RecordView
interceptions st r = keep is_interception (resolved_views st.views r)

abbrev is_nonempty {ℓ} : {A : Type ℓ} → List A → Bool
is_nonempty [] = false
is_nonempty (_ ∷ _) = true

unfoldable pub attribution_loop : VerifyState → Fields → List Fields → Run (Unit {0})
unfolding resolved_views mem
attribution_loop st expectations [] = skip
attribution_loop st expectations (r ∷ rs) = elim (is_text "pinned" (get "attribution" r)) [
  | false ↦ attribution_loop st expectations rs
  | true ↦ do
    if is_nonempty (interceptions st r) then hash (get "attackId" r) else skip
    elim (pin_fault (interceptions st r) (expected_for expectations (get "attackId" r))) [
      | some code ↦ add code
      | none ↦ attribution_loop st expectations rs
    ]
]

abbrev pub expected_map : VerifyState → Fields
expected_map st = elim (st.expected_payloads) [ none ↦ end | some m ↦ m ]

unfoldable pub attribution : VerifyState → Run (Unit {0})
unfolding attribution_loop
attribution st = attribution_loop st (expected_map st) st.rows
