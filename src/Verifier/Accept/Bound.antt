-- ===== src/Verifier/Accept/Bound.antt =====
-- The references of an accepted statement's substrate rows, and the run binding of what they name.
use aee_conformance.Base.{
  ℕ, suc, String, true, false, not, Option, none, some, List, [], ◌∷◌, ◌≡◌, ◌≢◌, refl,
}
use aee_conformance.Base.{All, any, get_elem?}
use aee_conformance.Base.Int.{pos, negsuc}
use aee_conformance.Py.Value.{
  Value, null, bool, int, float, real, str, arr, obj, Fields, get, has, list_or_empty,
}
use aee_conformance.Py.Run.{
  Run, done, skip, add, add_if, >>=-eq-silent, >>-eq-silent, >>=-pure-eq-silent, add_if-eq-skip,
  done-injective, for_each-eq-skip,
}
use aee_conformance.Platform.{Platform}
use aee_conformance.Verifier.State.{VerifyState}
use aee_conformance.Verifier.Rows.{is_substrate}
use aee_conformance.Verifier.Record.{RecordView}
use aee_conformance.Verifier.Gate1.{
  one_view, resolve_ref, resolve_all, resolve_refs, some_views, reserved_members, binding_differs,
  payload_members, check_payload, check_payloads, cover_row, covered, row_refs, gate1_row,
  gate1_rows, mem_index,
}
use aee_conformance.Verifier.Accept.Frames.{not-eq-false}
use aee_conformance.Verifier.Accept.Covered.{AllFrom, gate1_row-open}

-- A record of a JSON media type whose payload was parsed strictly, carries the reserved members, and
-- names the derived run binding if there is one.
abbrev pub IsBound : Option String → RecordView → Type 0
IsBound derived v =
    (p : Fields) × (v.payload ≡ some p)
    × (v.media_ok ≡ true)
    × (v.payload_error ≡ none)
    × (any (λ m. not (has m p)) reserved_members ≡ false)
    × (binding_differs derived p ≡ false)

-- The reference is the index of a record that has `Q`.
abbrev pub Names : List RecordView → (RecordView → Type 0) → Value → Type 0
Names views Q ref =
    (i : ℕ) × (v : RecordView) × (ref ≡ int (pos i)) × (get_elem? views i ≡ some v) × Q v

payload_members-silent :
    (derived : Option String) (o : Option Fields)
    → payload_members derived o ≡ skip
    → (p : Fields) × (o ≡ some p)
      × (any (λ m. not (has m p)) reserved_members ≡ false)
      × (binding_differs derived p ≡ false)
unfolding payload_members
payload_members-silent derived none h = cc
payload_members-silent derived (some p) h =
    let (a, b) =
      >>-eq-silent (add_if (any (λ m. not (has m p)) reserved_members) "payload-missing-reserved") _
        h in
    (
      p,
      refl,
      add_if-eq-skip _ "payload-missing-reserved" a,
      add_if-eq-skip (binding_differs derived p) "run-binding-mismatch" b,
    )

no_error :
    (o : Option String) (m : Run (Unit {0}))
    → (elim o [ some code ↦ add code | none ↦ m ]) ≡ skip
    → (o ≡ none) × (m ≡ skip)
no_error none m h = (refl, h)
no_error (some code) m h = cc

check_payload-IsBound :
    (derived : Option String) (v : RecordView) → check_payload derived v ≡ skip → IsBound derived v
unfolding check_payload
check_payload-IsBound derived v h =
    let (a, h1) = >>-eq-silent (add_if (not v.media_ok) "payload-media-type") _ h in
    let (clean, h2) = no_error v.payload_error _ h1 in
    let (p, e, reserved, same) = payload_members-silent derived v.payload h2 in
    (p, e, not-eq-false _ (add_if-eq-skip _ "payload-media-type" a), clean, reserved, same)

check_payloads-IsBound :
    (derived : Option String) (views : List RecordView)
    → check_payloads derived views ≡ skip
    → All (IsBound derived) views
unfolding check_payloads
check_payloads-IsBound derived views h =
    All-bound views (for_each-eq-skip views (check_payload derived) h)
  where
    All-bound :
        (vs : List RecordView)
        → All (λ v. check_payload derived v ≡ skip) vs
        → All (IsBound derived) vs
    All-bound [] k = tt
    All-bound (v ∷ vs) k = (check_payload-IsBound derived v k.0, All-bound vs k.1)

one_view-one :
    (o : Option RecordView) {xs : List RecordView}
    → one_view o ≡ done xs []
    → (v : RecordView) × (o ≡ some v) × (v ∷ [] ≡ xs)
one_view-one none h = cc
one_view-one (some v) h = (v, refl, done-injective h)

pub resolve_ref-one :
    (views : List RecordView) (ref : Value) {xs : List RecordView}
    → resolve_ref views ref ≡ done xs []
    → (i : ℕ) × (v : RecordView) × (ref ≡ int (pos i))
      × (get_elem? views i ≡ some v)
      × (v ∷ [] ≡ xs)
unfolding resolve_ref
resolve_ref-one views (int (pos i)) h =
    let (v, e, q) = one_view-one (get_elem? views i) h in (i, v, refl, e, q)
resolve_ref-one views (int (negsuc i)) h = cc
resolve_ref-one views null h = cc
resolve_ref-one views (bool b) h = cc
resolve_ref-one views (float n) h = cc
resolve_ref-one views (real t) h = cc
resolve_ref-one views (str t) h = cc
resolve_ref-one views (arr xs) h = cc
resolve_ref-one views (obj fs) h = cc

module _ (views : List RecordView) (Q : RecordView → Type 0) where
  resolve_all-Names :
      (refs : List Value) {found : List RecordView}
      → resolve_all views refs ≡ done found []
      → All Q found
      → All (Names views Q) refs
  unfolding resolve_all
  resolve_all-Names [] h k = tt
  resolve_all-Names (ref ∷ refs) h k =
      let (one, q, h1) = >>=-eq-silent (resolve_ref views ref) _ h in
      let (rest, q1, e) = >>=-pure-eq-silent (resolve_all views refs) _ h1 in
      let (i, v, er, ev, e1) = resolve_ref-one views ref q in
      let split : Q v × All Q rest = rw (← e, ← e1) at k in
      ((i, v, er, ev, split.0), resolve_all-Names refs q1 split.1)

-- The row has references, and each names a bound record.
abbrev pub IsBoundRow : Option String → List RecordView → Fields → Type 0
IsBoundRow derived views r =
    is_substrate r ≡ true
    → (list_or_empty (get "observationRefs" r) ≢ [])
      × All (Names views (IsBound derived)) (list_or_empty (get "observationRefs" r))

module _ (P : Platform) (st : VerifyState) where
  covered-IsBound :
      (r : Fields) (found : List RecordView) {o : Option (List RecordView)}
      → covered P st r (some_views found) ≡ done o []
      → All (IsBound st.derived_binding) found
  unfolding cover_row
  covered-IsBound r [] h = tt
  covered-IsBound r (v ∷ vs) h =
      let (c, q, e) = >>=-pure-eq-silent (cover_row P st r (v ∷ vs)) some h in
      let (a, h1) = >>-eq-silent (check_payloads st.derived_binding (v ∷ vs)) _ q in
      check_payloads-IsBound st.derived_binding (v ∷ vs) a

  row_refs-IsBound :
      (r : Fields) (refs : List Value) {found o : Option (List RecordView)}
      → row_refs P st r refs ≡ done found []
      → covered P st r found ≡ done o []
      → (refs ≢ []) × All (Names st.views (IsBound st.derived_binding)) refs
  unfolding resolve_refs
  row_refs-IsBound r [] h k = let (a, h1) = >>-eq-silent (add "refs-empty") _ h in absurd (silent a)
    where
      silent : add "refs-empty" ≡ skip → ⊥
      silent e = cc
  row_refs-IsBound r (ref ∷ refs) h k =
      let (all_found, q, e) = >>=-pure-eq-silent (resolve_all st.views (ref ∷ refs)) some_views h in
      (
        (λ z. cc),
        resolve_all-Names st.views (IsBound st.derived_binding) (ref ∷ refs) q
            (covered-IsBound r all_found (rw (← e) at k)),
      )

  pub gate1_rows-IsBoundRow :
      (i : ℕ) (rs : List Fields) {covering : List (ℕ × List RecordView)}
      → gate1_rows P st i rs ≡ done covering []
      → AllFrom
          (λ j r.
            mem_index j st.fail_closed_rows ≡ false → IsBoundRow st.derived_binding st.views r)
          i
          rs
  unfolding gate1_rows
  gate1_rows-IsBoundRow i [] h = tt
  gate1_rows-IsBoundRow i (r ∷ rs) h =
      let (o, q, h1) = >>=-eq-silent (gate1_row P st i r) _ h in
      let (rest, q1, e) = >>=-pure-eq-silent (gate1_rows P st (suc i) rs) _ h1 in
      (
        (λ open_row sub.
            let (found, f, c) = gate1_row-open P st i r q sub open_row in
            row_refs-IsBound r (list_or_empty (get "observationRefs" r)) f c),
        gate1_rows-IsBoundRow (suc i) rs q1,
      )
