-- ===== src/Verifier/Accept/Referenced.antt =====
-- The run binding of an accepted statement and the records that its substrate rows reference.
use aee_conformance.Base.{
  ℕ, Bool, true, false, String, Option, List, [], ◌≡◌, refl, sym, ap, ◌∙◌, inl, inr, All, any,
  if◌then◌else◌,
}
use aee_conformance.Base.{◌∷◌}
use aee_conformance.Py.Value.{Value, obj, Fields, get}
use aee_conformance.Py.Run.{Run, done, pure}
use aee_conformance.Platform.{Platform}
use aee_conformance.Verifier.{Outcome}
use aee_conformance.Verifier.State.{VerifyState}
use aee_conformance.Verifier.Rows.{is_substrate}
use aee_conformance.Verifier.Record.{RecordView, record_views}
use aee_conformance.Verifier.Binding.{derive}
use aee_conformance.Verifier.Gate1.{mem_index}
use aee_conformance.Verifier.Accept.Frames.{
  records-frame, run_binding-frame, gate1_coverage-frame, fail_closed_rows-frame,
}
use aee_conformance.Verifier.Accept.Chain.{Accepts, Accepts-Accepted}
use aee_conformance.Verifier.Accept.Fields.{kept, rows_of, records_of, environment_of}
use aee_conformance.Verifier.Accept.Covered.{AllFrom, AllFrom-map, AllFrom-zip}
use aee_conformance.Verifier.Accept.Open.{Open, fail_closed_loop-Open}
use aee_conformance.Verifier.Accept.Batch.{IsBatched, views_of-IsBatched}
use aee_conformance.Verifier.Accept.Bound.{IsBoundRow, gate1_rows-IsBoundRow}

AllFrom-All : (Q : Fields → Type 0) (i : ℕ) (rs : List Fields) → AllFrom (λ j. Q) i rs → All Q rs
AllFrom-All Q i [] h = tt
AllFrom-All Q i (r ∷ rs) h = (h.0, AllFrom-All Q (ℕ.suc i) rs h.1)

-- The state's views are those of the carried records.
pub batched_views :
    (P : Platform) (root : Value) (recs : List Value) (views : List RecordView)
    → IsBatched P root recs views
    → views ≡ record_views P 0 recs
unfolding record_views
batched_views P root recs views (inl (er, ev, n)) = rw (er, ev) refl
batched_views P root recs views (inr (e, b)) = e

-- A substrate row is not fail-closed, and so it is bound.
bound_rows :
    (labels : Option (List Value)) (failed : List ℕ) {failed' : List ℕ} (derived : Option String)
    (views : List RecordView) (rows : List Fields) {rows' : List Fields}
    → failed ≡ failed'
    → rows ≡ rows'
    → AllFrom (Open labels failed) 0 rows
    → AllFrom (λ j r. mem_index j failed' ≡ false → IsBoundRow derived views r) 0 rows'
    → All (IsBoundRow derived views) rows'
bound_rows labels failed {failed'} derived views rows {rows'} ef er open_rows bound =
    AllFrom-All (IsBoundRow derived views) 0 rows' (
      AllFrom-map
        (λ j r.
          Open labels failed' j r × (mem_index j failed' ≡ false → IsBoundRow derived views r))
        (λ j. IsBoundRow derived views) 0 rows' (λ j r le k sub. k.1 (k.0 sub).1 sub)
        (AllFrom-zip (Open labels failed')
          (λ j r. mem_index j failed' ≡ false → IsBoundRow derived views r) 0 rows'
          (rw (ef, er) at open_rows) bound))

pub derived_if :
    {a b : Bool} (m : Run (Option String)) {derived : Option String}
    → a ≡ b
    → (if a then m else pure Option.none) ≡ done derived []
    → b ≡ true
    → m ≡ done derived []
derived_if {a} {b} m e h t = rw (e, t) at h

module _ (P : Platform) (pinned_pubs : List (List ℕ)) (stmt : Value) (raw : Option (List ℕ))
    {o : Outcome} (accepts : Accepts P pinned_pubs stmt raw o) where
  -- In an accepted statement each reference of a substrate row, of which it has one at least, is the
  -- index of a carried record whose payload is strict canonical JSON with the three reserved members; if
  -- the run binding derives from the statement, the payload names it.
  pub accepted-IsBoundRow :
      (fields : Fields) × (pred : Fields) × (derived : Option String) × (stmt ≡ obj fields)
      × (get "predicate" fields ≡ obj pred)
      × (any is_substrate (rows_of pred) ≡ true
          → derive P fields (environment_of pred) ≡ done derived [])
      × All (IsBoundRow derived (record_views P 0 (records_of pred))) (rows_of pred)
  accepted-IsBoundRow =
      let a = Accepts-Accepted P pinned_pubs stmt raw accepts in
      let k = kept P a.passed in
      let (failed, q6, e6) = fail_closed_rows-frame a.passed.s5 a.passed.fail_closed in
      let (views, q7, e7) = records-frame P a.passed.s6 a.passed.records in
      let (derived, q8, e8) = run_binding-frame P a.passed.s7 a.passed.run_binding in
      let (covering, q9, e9) = gate1_coverage-frame P a.passed.s8 a.passed.gate1_coverage in
      let closed = fail_closed_loop-Open a.passed.s5.labels 0 a.passed.s5.rows q6 in
      let bound = gate1_rows-IsBoundRow P _ 0 a.passed.s8.rows q9 in
      let batch =
        views_of-IsBatched P (get "batchRoot" a.pred) (records_of a.pred) (rw k.pred6 at q7) in
      let same : a.passed.s8.views ≡ record_views P 0 (records_of a.pred) =
        k.views8
        ∙ ap (λ (t : VerifyState). t.views) e7
        ∙ batched_views P (get "batchRoot" a.pred) (records_of a.pred) views batch in
      let named : a.passed.s8.derived_binding ≡ derived =
        ap (λ (t : VerifyState). t.derived_binding) e8 in
      (
        a.fields,
        a.pred,
        derived,
        a.is_obj,
        a.is_pred,
        derived_if (derive P a.fields (environment_of a.pred)) k.has_substrate7
            (rw (k.stmt7, k.env7) at q8),
        rw (named, same, k.rows8) at
            (bound_rows a.passed.s5.labels failed a.passed.s8.derived_binding a.passed.s8.views
              a.passed.s5.rows
              (sym (ap (λ (t : VerifyState). t.fail_closed_rows) e6)
                ∙ sym k.fail_closed
                ∙ ap (λ (t : VerifyState). t.fail_closed_rows) e9)
              (k.rows5 ∙ sym k.rows8) closed.0 bound),
      )
