-- ===== src/Verifier/Accept/Assigned.antt =====
-- The cover of each row that is not fail-closed, as GATE 1 of packaging/run_vectors.py assigns it.
use aee_conformance.Base.{
  ℕ, suc, ◌≤◌, true, false, Option, none, some, List, [], ◌∷◌, ◌≡◌, ◌≢◌, refl, sym, ◌∙◌, inl, inr,
  All, All-map, Some, arith,
}
use aee_conformance.Py.Value.{Value, Fields, get, list_or_empty}
use aee_conformance.Py.Run.{
  done, add, >>=-eq-silent, >>-eq-silent, >>=-pure-eq-silent, done-injective,
}
use aee_conformance.Platform.{Platform}
use aee_conformance.Verifier.State.{VerifyState}
use aee_conformance.Verifier.Record.{RecordView}
use aee_conformance.Verifier.Rows.{is_substrate}
use aee_conformance.Verifier.Gate1.{
  check_payloads, class_match, method_cap, resolve_ref, resolve_all, resolve_refs, some_views,
  row_refs, covered, cover_row, gate1_row, gate1_rows, with_entry, mem_index,
}
use aee_conformance.Verifier.Tiers.{covering_of}
use aee_conformance.Verifier.Accept.Bound.{resolve_ref-one}
use aee_conformance.Verifier.Accept.Covered.{
  AllFrom, AllFrom-map, gate1_row-open, row_refs-found, no_add,
}
use aee_conformance.Verifier.Accept.Covering.{IsAt, IsReferenced, IsCover}
use aee_conformance.Verifier.Accept.Classes.{context_of, class_match-IsCover}

-- What is resolved is referenced.
resolve_all-IsAt :
    (views : List RecordView) (refs : List Value) {found : List RecordView}
    → resolve_all views refs ≡ done found []
    → All (λ v. Some (IsAt views v) refs) found
unfolding resolve_all
resolve_all-IsAt views [] h = rw (← done-injective h) tt
resolve_all-IsAt views (ref ∷ refs) h =
    let (one, q, h1) = >>=-eq-silent (resolve_ref views ref) _ h in
    let (rest, q1, e) = >>=-pure-eq-silent (resolve_all views refs) _ h1 in
    let (i, v, er, ev, e1) = resolve_ref-one views ref q in
    rw (← e, ← e1)
      (
        inl (i, er, ev),
        All-map (λ w. Some (IsAt views w) refs) (λ w. Some (IsAt views w) (ref ∷ refs)) rest
            (λ w m. inr m) (resolve_all-IsAt views refs q1),
      )

entry_found :
    (i : ℕ) (rest : List (ℕ × List RecordView)) (c : List RecordView)
    → covering_of i ((i, c) ∷ rest) ≡ c
unfolding covering_of
entry_found i rest c = ground arith

entry_skipped :
    (i j : ℕ) (rest : List (ℕ × List RecordView)) (o : Option (List RecordView))
    → suc i ≤ j
    → covering_of j (with_entry i rest o) ≡ covering_of j rest
unfolding covering_of
entry_skipped i j rest none le = refl
entry_skipped i j rest (some c) le = ground arith

listed-same :
    (views vs : List RecordView) {refs refs' : List Value}
    → refs' ≡ refs
    → All (λ v. Some (IsAt views v) refs) vs
    → All (λ v. Some (IsAt views v) refs') vs
listed-same views vs e h = rw (sym e) at h

found-same : {a b : Option (List RecordView)} → a ≡ b → b ≢ none → a ≢ none
found-same e n = λ q. n (sym e ∙ q)

covered-same :
    (P : Platform) (st : VerifyState) (r : Fields) {a b o : Option (List RecordView)}
    → a ≡ b
    → covered P st r a ≡ done o []
    → covered P st r b ≡ done o []
covered-same P st r e h = rw e at h

module _ (P : Platform) (st : VerifyState) (caught : List Value)
    (ec : st.caught ≡ some caught) where
  -- A substrate row that is not fail-closed has a cover.
  abbrev pub IsAssigned : List ℕ → List (ℕ × List RecordView) → ℕ → Fields → Type 0
  IsAssigned failed covering j r =
      is_substrate r ≡ true
      → mem_index j failed ≡ false
      → IsCover P (context_of st.views st caught) r (covering_of j covering)

  cover_row-IsCover :
      (r : Fields) (ref_views : List RecordView) {covering : List RecordView}
      → All (IsReferenced st.views r) ref_views
      → cover_row P st r ref_views ≡ done covering []
      → IsCover P (context_of st.views st caught) r covering
  unfolding cover_row
  cover_row-IsCover r ref_views refs h =
      let (a, h1) = >>-eq-silent (check_payloads st.derived_binding ref_views) _ h in
      let (covering, q, h2) = >>=-eq-silent (class_match P st r ref_views) _ h1 in
      let (b, h3) = >>-eq-silent (method_cap r covering) _ h2 in
      rw (← done-injective h3) (class_match-IsCover st.views r P st caught ref_views ec refs q)

  covered-IsCover :
      (r : Fields) (found : List RecordView) {o : Option (List RecordView)}
      → All (IsReferenced st.views r) found
      → some_views found ≢ none
      → covered P st r (some_views found) ≡ done o []
      → (c : List RecordView) × (o ≡ some c) × IsCover P (context_of st.views st caught) r c
  covered-IsCover r [] refs n h = absurd (n refl)
  covered-IsCover r (v ∷ vs) refs n h =
      let (c, q, e) = >>=-pure-eq-silent (cover_row P st r (v ∷ vs)) some h in
      (c, sym e, cover_row-IsCover r (v ∷ vs) refs q)

  row_refs-IsCover :
      (r : Fields) (refs : List Value) {found o : Option (List RecordView)}
      → list_or_empty (get "observationRefs" r) ≡ refs
      → row_refs P st r refs ≡ done found []
      → covered P st r found ≡ done o []
      → (c : List RecordView) × (o ≡ some c) × IsCover P (context_of st.views st caught) r c
  unfolding resolve_refs
  row_refs-IsCover r [] er h k =
      let (a, h1) = >>-eq-silent (add "refs-empty") _ h in absurd (no_add "refs-empty" a)
  row_refs-IsCover r (ref ∷ refs) er h k =
      let (all_found, q, e) = >>=-pure-eq-silent (resolve_all st.views (ref ∷ refs)) some_views h in
      covered-IsCover r all_found
        (listed-same st.views all_found er (resolve_all-IsAt st.views (ref ∷ refs) q))
        (found-same e (row_refs-found P st r (ref ∷ refs) h)) (covered-same P st r (sym e) k)

  gate1_row-IsCover :
      (i : ℕ) (r : Fields) {o : Option (List RecordView)}
      → gate1_row P st i r ≡ done o []
      → is_substrate r ≡ true
      → mem_index i st.fail_closed_rows ≡ false
      → (c : List RecordView) × (o ≡ some c) × IsCover P (context_of st.views st caught) r c
  gate1_row-IsCover i r h sub open_row =
      let (found, q1, q2) = gate1_row-open P st i r h sub open_row in
      row_refs-IsCover r (list_or_empty (get "observationRefs" r)) refl q1 q2

  IsAssigned-step :
      (failed : List ℕ) (i : ℕ) (r : Fields) (rs : List Fields) (o : Option (List RecordView))
      (rest : List (ℕ × List RecordView))
      → (is_substrate r ≡ true
          → mem_index i failed ≡ false
          → (c : List RecordView) × (o ≡ some c) × IsCover P (context_of st.views st caught) r c)
      → AllFrom (IsAssigned failed rest) (suc i) rs
      → AllFrom (IsAssigned failed (with_entry i rest o)) i (r ∷ rs)
  IsAssigned-step failed i r rs o rest head tail = (
    (λ sub open_row. assigned o (head sub open_row)),
    AllFrom-map (IsAssigned failed rest) (IsAssigned failed (with_entry i rest o)) (suc i) rs
        (λ j r' below k sub open_row. rw (entry_skipped i j rest o below) (k sub open_row)) tail,
  )
    where
      assigned :
          (o : Option (List RecordView))
          → ((c : List RecordView) × (o ≡ some c) × IsCover P (context_of st.views st caught) r c)
          → IsCover P (context_of st.views st caught) r (covering_of i (with_entry i rest o))
      assigned o (c, e, cover) = rw (e, entry_found i rest c) cover

  IsAssigned-same :
      (failed : List ℕ) (i : ℕ) (rs : List Fields) {c d : List (ℕ × List RecordView)}
      → c ≡ d
      → AllFrom (IsAssigned failed c) i rs
      → AllFrom (IsAssigned failed d) i rs
  IsAssigned-same failed i rs e h = rw e at h

  pub gate1_rows-IsAssigned :
      (i : ℕ) (rs : List Fields) {covering : List (ℕ × List RecordView)}
      → gate1_rows P st i rs ≡ done covering []
      → AllFrom (IsAssigned st.fail_closed_rows covering) i rs
  unfolding gate1_rows
  gate1_rows-IsAssigned i [] h = tt
  gate1_rows-IsAssigned i (r ∷ rs) h =
      let (o, q, h1) = >>=-eq-silent (gate1_row P st i r) _ h in
      let (rest, q1, e) = >>=-pure-eq-silent (gate1_rows P st (suc i) rs) _ h1 in
      IsAssigned-same st.fail_closed_rows i (r ∷ rs) e (
        IsAssigned-step st.fail_closed_rows i r rs o rest (gate1_row-IsCover i r q)
          (gate1_rows-IsAssigned (suc i) rs q1))
