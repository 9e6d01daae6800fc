-- ===== src/Verifier/Gate1/Resolve.antt =====
-- The references of a row and the payloads that they reach: `_check_refs_in_range`,
-- `_gate1_resolve_refs`, `_gate1_check_payload(s)` of packaging/run_vectors.py.
use aee_conformance.Base.{
  ℕ, String, Bool, false, not, ◌&&◌, Option, none, some, List, [], ◌∷◌, ◌++◌,
}
use aee_conformance.Base.{any, length, leb, get_elem?}
use aee_conformance.Base.Int.{pos}
use aee_conformance.Py.Value.{Value, int, Fields, get, has, is_text, mem, list_or_empty}
use aee_conformance.Py.Run.{Run, ◌>>=◌, ◌>>◌, pure, add, add_if, for_each}
use aee_conformance.Verifier.State.{VerifyState}
use aee_conformance.Verifier.Record.{RecordView}

-- `st.caught is not None and lab in st.caught`
abbrev pub in_caught : VerifyState → Value → Bool
in_caught st lab = elim (st.caught) [ none ↦ false | some caught ↦ mem lab caught ]

-- An integer reference at or past the end.
abbrev pub past_end : ℕ → Value → Bool
past_end n (int (pos i)) = leb n i
past_end n _ = false

unfoldable pub check_refs_in_range : VerifyState → Run (Unit {0})
check_refs_in_range st =
    add_if
      (any (λ r. any (past_end (length st.views)) (list_or_empty (get "observationRefs" r)))
        st.rows)
      "ref-out-of-range"

abbrev pub one_view : Option RecordView → Run (List RecordView)
one_view none = do add "ref-out-of-range"; pure []
one_view (some v) = pure (v ∷ [])

unfoldable pub resolve_ref : List RecordView → Value → Run (List RecordView)
resolve_ref views (int (pos i)) = one_view (get_elem? views i)
resolve_ref views _ = do add "ref-malformed"; pure []

unfoldable pub resolve_all : List RecordView → List Value → Run (List RecordView)
unfolding resolve_ref
resolve_all views [] = pure []
resolve_all views (ref ∷ refs) = do
  found ← resolve_ref views ref
  rest ← resolve_all views refs
  pure (found ++ rest)

-- `None` when every reference failed: there is one at least.
abbrev pub some_views : List RecordView → Option (List RecordView)
some_views [] = none
some_views (v ∷ vs) = some (v ∷ vs)

unfoldable pub resolve_refs : List RecordView → List Value → Run (Option (List RecordView))
unfolding resolve_all
resolve_refs views refs = resolve_all views refs >>= λ found. pure (some_views found)

-- `_RESERVED_MEMBERS`
abbrev pub reserved_members : List String
reserved_members = "aeeRunBinding" ∷ "aeeKind" ∷ "aeeMethod" ∷ []

abbrev pub binding_differs : Option String → Fields → Bool
binding_differs none p = false
binding_differs (some derived) p =
    has "aeeRunBinding" p && not (is_text derived (get "aeeRunBinding" p))

unfoldable pub payload_members : Option String → Option Fields → Run (Unit {0})
payload_members derived none = add "payload-not-canonical"
payload_members derived (some p) = do
  add_if (any (λ m. not (has m p)) reserved_members) "payload-missing-reserved"
  add_if (binding_differs derived p) "run-binding-mismatch"

unfoldable pub check_payload : Option String → RecordView → Run (Unit {0})
unfolding payload_members
check_payload derived rv = do
  add_if (not rv.media_ok) "payload-media-type"
  elim (rv.payload_error) [ some code ↦ add code | none ↦ payload_members derived rv.payload ]

unfoldable pub check_payloads : Option String → List RecordView → Run (Unit {0})
unfolding check_payload for_each
check_payloads derived ref_views = for_each ref_views (check_payload derived)
