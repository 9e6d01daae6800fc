-- ===== src/Verifier/Gate1.antt =====
-- GATE 1 of packaging/run_vectors.py: `_check_gate1_coverage`, `_check_refs_in_range` and the `_gate1_…`
-- methods, per substrate row.
mod Resolve
mod Cover
unfoldable pub use Resolve.*
unfoldable pub use Cover.*
use aee_conformance.Base.{
  ℕ, suc, String, Bool, true, false, not, ◌&&◌, ◌||◌, Option, none, some, List, [], ◌∷◌, ◌++◌,
}
use aee_conformance.Base.{any, all, keep, ltb, ◌==◌, if◌then◌else◌}
use aee_conformance.Py.Value.{
  Value, null, bool, int, float, real, str, arr, obj, Items, Fields, get, has, is_text, is_none,
  mem, list_or_empty,
}
use aee_conformance.Py.Run.{
  Run, done, raised, ◌>>=◌, ◌>>◌, pure, skip, add, add_if, hash, for_each, after,
}
use aee_conformance.Platform.{Platform}
use aee_conformance.Shapes.{digest_of}
use aee_conformance.Verifier.State.{VerifyState, method_order}
use aee_conformance.Verifier.Record.{RecordView, kind, method, payload_or_empty}
use aee_conformance.Verifier.Rows.{is_substrate}

-- `METHOD_ORDER[rv.method]` of the records whose method is a key
unfoldable pub signed_methods : List RecordView → Run (List ℕ)
signed_methods [] = pure []
signed_methods (rv ∷ rvs) = do
  hash (method rv)
  rest ← signed_methods rvs
  pure (elim (method_order (method rv)) [ none ↦ rest | some m ↦ m ∷ rest ])

-- `METHOD_ORDER[method] > min(methods)`
abbrev pub exceeds : Option ℕ → List ℕ → Bool
exceeds none ms = false
exceeds (some m) ms = any (λ k. ltb k m) ms

unfoldable pub method_cap : Fields → List RecordView → Run (Unit {0})
unfolding signed_methods
method_cap r covering = do
  ms ← signed_methods covering
  add_if (exceeds (method_order (get "method" r)) ms) "method-cap-exceeded"

abbrev pub mem_index : ℕ → List ℕ → Bool
mem_index i [] = false
mem_index i (j ∷ js) = (i == j) || mem_index i js

-- `row_covering[i] = covering`, for a row that has one
abbrev pub with_entry :
    ℕ → List (ℕ × List RecordView) → Option (List RecordView) → List (ℕ × List RecordView)
with_entry i rest none = rest
with_entry i rest (some c) = (i, c) ∷ rest

-- A row whose references resolve: the records that cover it, and the cap that they put on its method.
module _ (P : Platform) (st : VerifyState) where
  unfoldable pub cover_row : Fields → List RecordView → Run (List RecordView)
  unfolding check_payloads class_match method_cap
  cover_row r ref_views = do
    check_payloads st.derived_binding ref_views
    covering ← class_match P st r ref_views
    method_cap r covering
    pure covering

  abbrev pub row_refs : Fields → List Value → Run (Option (List RecordView))
  row_refs r [] = do
    add "refs-empty"
    add_if (in_caught st (get "containmentObserved" r)) "caught-row-uncovered"
    pure none
  row_refs r (ref ∷ refs) = resolve_refs st.views (ref ∷ refs)

  abbrev pub covered : Fields → Option (List RecordView) → Run (Option (List RecordView))
  covered r none = pure none
  covered r (some ref_views) = cover_row r ref_views >>= λ c. pure (some c)

  -- What one row adds to `row_covering`.
  unfoldable pub gate1_row : ℕ → Fields → Run (Option (List RecordView))
  unfolding resolve_refs cover_row
  gate1_row i r =
      if not (is_substrate r) || mem_index i st.fail_closed_rows
      then pure none
      else if not st.has_records
      then (do add "records-absent"; pure none)
      else (row_refs r (list_or_empty (get "observationRefs" r)) >>= λ views. covered r views)

  unfoldable pub gate1_rows : ℕ → List Fields → Run (List (ℕ × List RecordView))
  unfolding gate1_row
  gate1_rows i [] = pure []
  gate1_rows i (r ∷ rs) = do
    covering ← gate1_row i r
    rest ← gate1_rows (suc i) rs
    pure (with_entry i rest covering)

module _ (P : Platform) where
  unfoldable pub check_gate1_coverage : VerifyState → Run VerifyState
  unfolding check_refs_in_range gate1_rows digest_of
  check_gate1_coverage st = do
    let pinned = record st { pinned_posture = digest_of (get "networkPosture" st.env) }
    if st.has_records then check_refs_in_range pinned else skip
    covering ← gate1_rows P pinned 0 st.rows
    pure (record pinned { row_covering = covering })
