-- ===== src/Verifier/Rows.antt =====
-- The row checks of GATE 0 of packaging/run_vectors.py: `_check_rows_setup`, `_check_per_row_statements`,
-- `_check_subject_cardinality`, `_check_substrate_binding_inputs`, `_binding_digest_canonical` and
-- `_check_fail_closed_rows`.
use aee_conformance.Base.{
  ℕ, suc, String, Bool, true, false, not, ◌&&◌, ◌||◌, Option, none, some, List, [], ◌∷◌,
}
use aee_conformance.Base.{any, length, ◌==◌, if◌then◌else◌}
use aee_conformance.Py.Value.{
  Value, null, obj, Fields, get, has, is_str, is_text, is_none, mem, list_or_empty,
}
use aee_conformance.Py.Run.{Run, ◌>>=◌, ◌>>◌, pure, skip, add_if, for_each}
use aee_conformance.Shapes.{digest_of, is_hex64_lower}
use aee_conformance.Verifier.State.{VerifyState, known_basis, known_method, known_attribution}

-- `[r for r in rows if isinstance(r, dict)]`
unfoldable pub dict_rows : List Value → List Fields
dict_rows [] = []
dict_rows (obj r ∷ rs) = r ∷ dict_rows rs
dict_rows (_ ∷ rs) = dict_rows rs

abbrev pub is_substrate : Fields → Bool
is_substrate r = is_text "substrate" (get "basis" r)

unfoldable pub check_rows_setup : VerifyState → Run VerifyState
unfolding dict_rows
check_rows_setup st = do
  let rows = dict_rows (list_or_empty (get "attackResults" st.pred))
  pure (record st { rows = rows; has_substrate = any is_substrate rows })

-- `member in r and not isinstance(r[member], str)`
abbrev pub mistyped : Fields → String → Bool
mistyped r member = has member r && not (is_str (get member r))

abbrev pub row_members : List String
row_members = "attackId" ∷ "containmentObserved" ∷ "basis" ∷ "method" ∷ "actualLayer" ∷ []

-- A clean label: in the vocabulary, and not caught.
abbrev pub is_clean : List Value → List Value → Fields → Bool
is_clean labels caught r =
    mem (get "containmentObserved" r) labels && not (mem (get "containmentObserved" r) caught)

abbrev pub clean_layer_bad : List Value → List Value → Fields → Bool
clean_layer_bad labels caught r =
    is_clean labels caught r && has "actualLayer" r && not (is_text "none" (get "actualLayer" r))

abbrev clean_layers : List Fields → Option (List Value) → Option (List Value) → Run (Unit {0})
clean_layers rows (some labels) (some caught) =
    for_each rows (λ r. add_if (clean_layer_bad labels caught r) "clean-row-layer-not-none")
clean_layers rows _ _ = skip

unfoldable pub check_per_row_statements : VerifyState → Run (Unit {0})
unfolding for_each mem
check_per_row_statements st = do
  for_each st.rows (λ r. for_each row_members (λ m. add_if (mistyped r m) "statement-malformed"))
  for_each st.rows (λ r. add_if (not (has "actualLayer" r)) "malformed-missing-actual-layer")
  clean_layers st.rows st.labels st.caught

unfoldable pub check_subject_cardinality : VerifyState → Run (Unit {0})
check_subject_cardinality st =
    add_if (not (length (list_or_empty (get "subject" st.stmt)) == 1)) "subject-cardinality"

-- `_digest_of(subject[0]) if subject else None`
abbrev pub subject_digest : List Value → Value
subject_digest [] = null
subject_digest (s ∷ _) = digest_of s

abbrev is_nonempty {ℓ} : {A : Type ℓ} → List A → Bool
is_nonempty [] = false
is_nonempty (_ ∷ _) = true

-- The six digests that the run binding reads.
abbrev pub binding_digests : Fields → Value → List Value
binding_digests env subj =
    subj
    ∷ digest_of (get "substrate" env)
    ∷ digest_of (get "corpus" env)
    ∷ digest_of (get "catchPolicy" env)
    ∷ digest_of (get "networkPosture" env)
    ∷ digest_of (get "runEntropy" env)
    ∷ []

unfoldable pub binding_digest_canonical : Fields → Value → Run (Unit {0})
unfolding digest_of is_hex64_lower for_each
binding_digest_canonical env subj =
    for_each (binding_digests env subj)
      (λ v. add_if (not (is_none v) && not (is_hex64_lower v)) "digest-not-canonical")

abbrev binding_inputs : Fields → List Value → Run (Unit {0})
binding_inputs env subject = do
  add_if (is_nonempty subject && is_none (subject_digest subject)) "subject-sha256-missing"
  add_if (not (has "runEntropy" env)) "run-entropy-missing"
  binding_digest_canonical env (subject_digest subject)

unfoldable pub check_substrate_binding_inputs : VerifyState → Run (Unit {0})
unfolding binding_digest_canonical
check_substrate_binding_inputs st =
    if st.has_substrate then binding_inputs st.env (list_or_empty (get "subject" st.stmt)) else skip

abbrev label_bad : Option (List Value) → Value → Bool
label_bad none lab = false
label_bad (some labels) lab = not (mem lab labels)

-- A row outside one of the four closed vocabularies.
unfoldable pub is_fail_closed : Option (List Value) → Fields → Bool
unfolding mem
is_fail_closed labels r =
    label_bad labels (get "containmentObserved" r)
    || not (known_basis (get "basis" r))
    || not (known_method (get "method" r))
    || not (known_attribution (get "attribution" r))

-- The indices of the rows that are fail-closed.
unfoldable pub fail_closed_loop : Option (List Value) → ℕ → List Fields → Run (List ℕ)
unfolding is_fail_closed
fail_closed_loop labels i [] = pure []
fail_closed_loop labels i (r ∷ rs) = do
  add_if (is_fail_closed labels r && is_substrate r) "fail-closed-substrate-row"
  rest ← fail_closed_loop labels (suc i) rs
  pure (if is_fail_closed labels r then i ∷ rest else rest)

unfoldable pub check_fail_closed_rows : VerifyState → Run VerifyState
unfolding fail_closed_loop
check_fail_closed_rows st = do
  failed ← fail_closed_loop st.labels 0 st.rows
  pure (record st { fail_closed_rows = failed })
