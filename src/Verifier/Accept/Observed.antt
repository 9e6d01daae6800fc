-- ===== src/Verifier/Accept/Observed.antt =====
-- The interception records of an accepted statement, and the rows that resolve them.
use aee_conformance.Base.{
  ℕ, Bool, true, false, not, ◌&&◌, ◌||◌, Option, none, some, List, [], ◌∷◌, ◌++◌, ◌≡◌, refl, sym,
  ap, ◌∙◌, ◌⊎◌, inl, inr, map,
}
use aee_conformance.Base.{
  any, All, All-map, Some, any-eq-false, get_elem?, ◌==◌, ==_iff, if◌then◌else◌,
}
use aee_conformance.Base.Int.{pos, negsuc}
use aee_conformance.Py.Value.{
  Value, null, bool, int, float, real, str, arr, obj, Fields, get, mem, is_text, as_dict,
  list_or_empty,
}
use aee_conformance.Py.Run.{skip, >>-eq-silent, add_if-eq-skip}
use aee_conformance.Platform.{Platform}
use aee_conformance.Verifier.{Outcome}
use aee_conformance.Verifier.State.{VerifyState}
use aee_conformance.Verifier.Record.{RecordView, payload_or_empty, record_views}
use aee_conformance.Verifier.Records.{is_nonempty}
use aee_conformance.Verifier.Rows.{is_clean}
use aee_conformance.Verifier.Commitments.{
  check_commitments, clean_row_contradicted, contradicted, interception_orphaned, orphaned,
  caught_refs, resolved_views, views_at, view_at, view_list, is_interception, mem_index,
}
use aee_conformance.Verifier.Accept.Chain.{Accepts, Accepts-Accepted}
use aee_conformance.Verifier.Accept.Fields.{rows_of, records_of, environment_of}
use aee_conformance.Verifier.Accept.Result.{IsVocabulary}
use aee_conformance.Verifier.Accept.Tied.{accepted-IsTied}

-- A reference is the index of a record that has `Q`.
abbrev pub Reaches : List RecordView → (RecordView → Type 0) → Value → Type 0
Reaches views Q ref =
    (i : ℕ) × (v : RecordView) × (ref ≡ int (pos i)) × (get_elem? views i ≡ some v) × Q v

-- Of a clean row, no reference is the index of an interception record.
abbrev pub IsUncontradicted : List RecordView → List Value → List Value → Fields → Type 0
IsUncontradicted views labels caught r =
    is_clean labels caught r ≡ true
    → All
        (λ ref.
          (i : ℕ) (v : RecordView)
          → ref ≡ int (pos i)
          → get_elem? views i ≡ some v
          → is_text "interception" (get "aeeKind" (payload_or_empty v)) ≡ false)
        (list_or_empty (get "observationRefs" r))

-- A row with a caught label has a reference to the record's index.
abbrev pub IsReachedBy : List RecordView → List Value → RecordView → Fields → Type 0
IsReachedBy views caught v r =
    (mem (get "containmentObserved" r) caught ≡ true)
    × Some (Reaches views (λ w. w.idx ≡ v.idx)) (list_or_empty (get "observationRefs" r))

-- An interception record is referenced by a row with a caught label.
abbrev pub IsResolved : List RecordView → List Value → List Fields → RecordView → Type 0
IsResolved views caught rows v =
    is_text "interception" (get "aeeKind" (payload_or_empty v)) ≡ true
    → Some (IsReachedBy views caught v) rows

or_false : (a b : Bool) → a || b ≡ false → (a ≡ false) × (b ≡ false)
or_false true b h = cc
or_false false b h = (refl, h)

any_append :
    (p : RecordView → Bool) (xs ys : List RecordView)
    → any p (xs ++ ys) ≡ false
    → (any p xs ≡ false) × (any p ys ≡ false)
any_append p [] ys h = (refl, h)
any_append p (x ∷ xs) ys h =
    let (a, h1) = or_false (p x) (any p (xs ++ ys)) h in
    let (b, c) = any_append p xs ys h1 in (rw (a, b) refl, c)

module _ (views : List RecordView) where
  none_at :
      (p : RecordView → Bool) (ref : Value)
      → any p (view_at views ref) ≡ false
      → (i : ℕ) (v : RecordView) → ref ≡ int (pos i)
      → get_elem? views i ≡ some v
      → p v ≡ false
  none_at p ref h i v e q =
      (or_false (p v) false (sym (ap (any p) (ap (view_at views) e ∙ ap view_list q)) ∙ h)).0

  none_reached :
      (p : RecordView → Bool) (refs : List Value)
      → any p (views_at views refs) ≡ false
      → All
          (λ ref.
            (i : ℕ) (v : RecordView) → ref ≡ int (pos i) → get_elem? views i ≡ some v → p v ≡ false)
          refs
  unfolding views_at
  none_reached p [] h = tt
  none_reached p (ref ∷ refs) h =
      let (a, b) = any_append p (view_at views ref) (views_at views refs) h in
      (none_at p ref a, none_reached p refs b)

  index_append :
      (n : ℕ) (xs ys : List ℕ)
      → mem_index n (xs ++ ys) ≡ true
      → (mem_index n xs ≡ true) ⊎ (mem_index n ys ≡ true)
  index_append n [] ys h = inr h
  index_append n (x ∷ xs) ys h = split (n == x) h (index_append n xs ys)
    where
      split :
          (b : Bool)
          → b || mem_index n (xs ++ ys) ≡ true
          → (mem_index n (xs ++ ys) ≡ true → (mem_index n xs ≡ true) ⊎ (mem_index n ys ≡ true))
          → (b || mem_index n xs ≡ true) ⊎ (mem_index n ys ≡ true)
      split true h ih = inl refl
      split false h ih = ih h

  reached_at :
      (n : ℕ) (ref : Value)
      → mem_index n (map (λ (v : RecordView). v.idx) (view_at views ref)) ≡ true
      → Reaches views (λ w. w.idx ≡ n) ref
  reached_at n (int (pos i)) h = found (get_elem? views i) refl h
    where
      found :
          (o : Option RecordView)
          → get_elem? views i ≡ o
          → mem_index n (map (λ (v : RecordView). v.idx) (view_list o)) ≡ true
          → Reaches views (λ w. w.idx ≡ n) (int (pos i))
      found none e k = cc
      found (some w) e k = (i, w, refl, e, sym ((==_iff n w.idx).0 (single (n == w.idx) k)))
        where
          single : (b : Bool) → b || false ≡ true → b ≡ true
          single true q = refl
          single false q = q
  reached_at n (int (negsuc i)) h = cc
  reached_at n null h = cc
  reached_at n (bool b) h = cc
  reached_at n (float m) h = cc
  reached_at n (real t) h = cc
  reached_at n (str t) h = cc
  reached_at n (arr xs) h = cc
  reached_at n (obj fs) h = cc

  map_append :
      (xs ys : List RecordView)
      → map (λ (v : RecordView). v.idx) (xs ++ ys)
        ≡ map (λ (v : RecordView). v.idx) xs ++ map (λ (v : RecordView). v.idx) ys
  map_append [] ys = refl
  map_append (x ∷ xs) ys = ap (λ t. x.idx ∷ t) (map_append xs ys)

  reached :
      (n : ℕ) (refs : List Value)
      → mem_index n (map (λ (v : RecordView). v.idx) (views_at views refs)) ≡ true
      → Some (Reaches views (λ w. w.idx ≡ n)) refs
  unfolding views_at
  reached n [] h = cc
  reached n (ref ∷ refs) h =
      elim (index_append n (map (λ (v : RecordView). v.idx) (view_at views ref))
        (map (λ (v : RecordView). v.idx) (views_at views refs))
        (sym (ap (mem_index n) (map_append (view_at views ref) (views_at views refs))) ∙ h)) [
          | inl here ↦ inl (reached_at n ref here)
          | inr there ↦ inr (reached n refs there)
        ]

clean-silent :
    (st : VerifyState) {labels caught : List Value}
    → st.labels ≡ some labels
    → st.caught ≡ some caught
    → clean_row_contradicted st ≡ skip
    → All (IsUncontradicted st.views labels caught) st.rows
unfolding clean_row_contradicted resolved_views
clean-silent st {labels = labels} {caught = caught} el ec h =
    All-map (λ r. contradicted st labels caught r ≡ false) (IsUncontradicted st.views labels caught)
      st.rows
      (λ r e clean.
        none_reached st.views is_interception (list_or_empty (get "observationRefs" r)) (
          second (is_clean labels caught r) (any is_interception (resolved_views st.views r)) clean
            e))
      (any-eq-false (contradicted st labels caught) st.rows
        (add_if-eq-skip _ "clean-row-contradicted" (rw (el, ec) at h)))
  where
    second : (a b : Bool) → a ≡ true → a && b ≡ false → b ≡ false
    second true b e h = h
    second false b e h = cc

caught_refs-reached :
    (st : VerifyState) (caught : List Value) (v : RecordView) (rows : List Fields)
    → mem_index v.idx (caught_refs st caught rows) ≡ true
    → Some (IsReachedBy st.views caught v) rows
unfolding caught_refs resolved_views
caught_refs-reached st caught v [] h = cc
caught_refs-reached st caught v (r ∷ rs) h =
    split (mem (get "containmentObserved" r) caught) refl h (caught_refs-reached st caught v rs)
  where
    split :
        (b : Bool)
        → mem (get "containmentObserved" r) caught ≡ b
        → mem_index v.idx (
            if b
            then map (λ (rv : RecordView). rv.idx) (resolved_views st.views r)
              ++ caught_refs st caught rs
            else caught_refs st caught rs)
          ≡ true
        → (mem_index v.idx (caught_refs st caught rs) ≡ true
            → Some (IsReachedBy st.views caught v) rs)
        → IsReachedBy st.views caught v r ⊎ Some (IsReachedBy st.views caught v) rs
    split false e k ih = inr (ih k)
    split true e k ih =
        elim (index_append st.views v.idx
          (map (λ (rv : RecordView). rv.idx) (resolved_views st.views r)) (caught_refs st caught rs)
          k) [
            | inl here ↦
                inl (e, reached st.views v.idx (list_or_empty (get "observationRefs" r)) here)
            | inr there ↦ inr (ih there)
          ]

orphans-silent :
    (st : VerifyState) {caught : List Value}
    → st.caught ≡ some caught
    → st.has_records ≡ true
    → interception_orphaned st ≡ skip
    → All (IsResolved st.views caught st.rows) st.views
unfolding interception_orphaned
orphans-silent st {caught = caught} ec recs h =
    All-map (λ rv. orphaned (caught_refs st caught st.rows) rv ≡ false)
      (IsResolved st.views caught st.rows) st.views
      (λ rv e inter.
        caught_refs-reached st caught rv st.rows
          (second (is_interception rv) (mem_index rv.idx (caught_refs st caught st.rows)) inter e))
      (any-eq-false (orphaned (caught_refs st caught st.rows)) st.views
        (add_if-eq-skip _ "interception-record-orphaned" (rw (ec, recs) at h)))
  where
    second : (a b : Bool) → a ≡ true → a && not b ≡ false → b ≡ true
    second true true e h = refl
    second true false e h = cc
    second false b e h = cc

-- Without records there are no views.
view_list_of :
    (P : Platform) (st : VerifyState) (recs : List Value) {caught : List Value}
    → st.caught ≡ some caught
    → st.views ≡ record_views P 0 recs
    → st.has_records ≡ is_nonempty recs
    → interception_orphaned st ≡ skip
    → All (IsResolved st.views caught st.rows) st.views
unfolding record_views
view_list_of P st [] ec ev er h = rw ev tt
view_list_of P st (rec ∷ recs) ec ev er h = orphans-silent st ec er h

module _ (P : Platform) where
  commitments-rows :
      (st : VerifyState)
      → check_commitments P st ≡ skip
      → (clean_row_contradicted st ≡ skip) × (interception_orphaned st ≡ skip)
  unfolding check_commitments
  commitments-rows st h =
      let (a, h1) = >>-eq-silent (clean_row_contradicted st) _ h in
      let (b, h2) = >>-eq-silent (interception_orphaned st) _ h1 in (a, b)

module _ (P : Platform) (pinned_pubs : List (List ℕ)) (stmt : Value) (raw : Option (List ℕ))
    {o : Outcome} (accepts : Accepts P pinned_pubs stmt raw o) where
  -- In an accepted statement, under the vocabulary that its environment carries, no reference of a row with a
  -- clean label is the index of an interception record, and each carried interception record is referenced by
  -- a row with a caught label.
  pub accepted_observed :
      (fields : Fields) × (pred : Fields) × (vocab : Fields) × (labels : List Value)
      × (caught : List Value) × (stmt ≡ obj fields)
      × (get "predicate" fields ≡ obj pred)
      × (as_dict (get "observationVocabulary" (environment_of pred)) ≡ some vocab)
      × IsVocabulary vocab labels caught
      × All (IsUncontradicted (record_views P 0 (records_of pred)) labels caught) (rows_of pred)
      × All
          (IsResolved (record_views P 0 (records_of pred)) caught (rows_of pred))
          (record_views P 0 (records_of pred))
  accepted_observed =
      let a = Accepts-Accepted P pinned_pubs stmt raw accepts in
      let t = accepted-IsTied P pinned_pubs stmt raw a in
      let (clean, orphans) = commitments-rows P a.st a.passed.commitments in
      (
        a.fields,
        a.pred,
        t.vocab,
        t.labels,
        t.caught,
        a.is_obj,
        a.is_pred,
        t.is_vocab,
        t.is_vocabulary,
        rw (t.st_views, t.st_rows) at (clean-silent a.st t.st_labels t.st_caught clean),
        rw (t.st_views, t.st_rows) at
            (view_list_of P a.st (records_of a.pred) t.st_caught t.st_views t.st_has_records
              orphans),
      )
