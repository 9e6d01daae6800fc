-- ===== src/Verifier/Accept/Covered.antt =====
-- The substrate rows that are not fail-closed, and their records, when GATE 1 adds no code.
use aee_conformance.Base.{
  ℕ, suc, ◌≤◌, String, Bool, true, false, not, Option, none, List, [], ◌∷◌, ◌≡◌, ◌≢◌,
}
use aee_conformance.Base.{arith, if◌then◌else◌}
use aee_conformance.Py.Value.{Value, Fields, get, list_or_empty}
use aee_conformance.Py.Run.{Run, done, skip, ◌>>◌, pure, add, >>=-eq-silent, >>-eq-silent}
use aee_conformance.Platform.{Platform}
use aee_conformance.Verifier.State.{VerifyState}
use aee_conformance.Verifier.Record.{RecordView}
use aee_conformance.Verifier.Rows.{is_substrate}
use aee_conformance.Verifier.Gate1.{row_refs, covered, gate1_row, mem_index}
use aee_conformance.Verifier.Accept.Nonempty.{resolve_refs-found}

-- Every row at its index.
abbrev pub AllFrom : (ℕ → Fields → Type 0) → ℕ → List Fields → Type 0
AllFrom Q i [] = Unit
AllFrom Q i (r ∷ rs) = Q i r × AllFrom Q (suc i) rs

pub AllFrom-zip :
    (Q R : ℕ → Fields → Type 0) (i : ℕ) (rs : List Fields)
    → AllFrom Q i rs
    → AllFrom R i rs
    → AllFrom (λ j r. Q j r × R j r) i rs
AllFrom-zip Q R i [] g h = tt
AllFrom-zip Q R i (r ∷ rs) g h = ((g.0, h.0), AllFrom-zip Q R (suc i) rs g.1 h.1)

pub AllFrom-map :
    (Q R : ℕ → Fields → Type 0) (i : ℕ) (rs : List Fields)
    → ((j : ℕ) (r : Fields) → i ≤ j → Q j r → R j r)
    → AllFrom Q i rs
    → AllFrom R i rs
AllFrom-map Q R i [] f h = tt
AllFrom-map Q R i (r ∷ rs) f h =
    (f i r (omega arith) h.0, AllFrom-map Q R (suc i) rs (λ j r' le. f j r' (omega arith)) h.1)

pub no_add : (code : String) → add code ≡ skip → ⊥
no_add code h = cc

module _ (P : Platform) (st : VerifyState) where
  pub row_refs-found :
      (r : Fields) (refs : List Value) {found : Option (List RecordView)}
      → row_refs P st r refs ≡ done found []
      → found ≢ none
  row_refs-found r [] h =
      let (a, h1) = >>-eq-silent (add "refs-empty") _ h in absurd (no_add "refs-empty" a)
  row_refs-found r (ref ∷ refs) h = resolve_refs-found st.views ref refs h

  -- What a silent step has run on a substrate row that is not fail-closed.
  pub gate1_row-open :
      (i : ℕ) (r : Fields) {o : Option (List RecordView)}
      → gate1_row P st i r ≡ done o []
      → is_substrate r ≡ true
      → mem_index i st.fail_closed_rows ≡ false
      → (found : Option (List RecordView)) × (row_refs P st r
            (list_or_empty (get "observationRefs" r))
          ≡ done found [])
        × (covered P st r found ≡ done o [])
  unfolding gate1_row
  gate1_row-open i r h sub open_row =
      >>=-eq-silent (row_refs P st r (list_or_empty (get "observationRefs" r))) (covered P st r)
        (with_records st.has_records (rw (sub, open_row) at h))
    where
      with_records :
          (has_records : Bool) {m : Run (Option (List RecordView))} {o : Option (List RecordView)}
          → (if not has_records then (add "records-absent" >> pure none) else m) ≡ done o []
          → m ≡ done o []
      with_records true h = h
      with_records false h = cc
