-- ===== src/SecondFault/Silent.antt =====
-- When the `_sfa_…` functions of packaging/run_vectors.py find nothing.
use aee_conformance.Base.{
  ℕ, String, Bool, true, false, not, ◌&&◌, ◌||◌, Option, none, some, List, [], ◌∷◌, ◌≡◌, ◌≢◌, refl,
  ap, ◌∙◌, ◌⊎◌, inl, inr, All, any, if◌then◌else◌,
}
use aee_conformance.Py.Value.{
  Value, null, bool, int, float, real, str, arr, obj, nil, cons, Fields, get, has, as_str, as_dict,
  is_text, list_or_empty,
}
use aee_conformance.Py.Bytes.{hex}
use aee_conformance.Py.Run.{Run, skip, pure, add, add_if, ◌>>=◌, ◌>>◌, for_each}
use aee_conformance.Platform.{Platform}
use aee_conformance.Jcs.{jcs_dumps}
use aee_conformance.Shapes.{digest_of}
use aee_conformance.Verifier.Rows.{is_substrate}
use aee_conformance.Verifier.Record.{RecordView, record_views}
use aee_conformance.Verifier.Gate1.{reserved_members}
use aee_conformance.Verifier.Accept.Batch.{IsBatch, IsBatched}
use aee_conformance.Verifier.Accept.Bound.{IsBound, Names, IsBoundRow}
use aee_conformance.Verifier.Accept.Manifest.{IsUnchecked, IsChecked}
use aee_conformance.SecondFault.{
  meets, refs_of, view_of_ref, ref_differs, payload_differs, binding_scan, digest_or_error,
  sfa_root_recompute, sfa_batch_root, corpus_manifest,
}

pub skip_unless : (b : Bool) (m : Run (Unit {0})) → m ≡ skip → (if b then skip else m) ≡ skip
skip_unless true m h = refl
skip_unless false m h = h

pub obj-injective : {fs gs : Fields} → obj fs ≡ obj gs → fs ≡ gs
obj-injective e = cc

pub then_skip : {m k : Run (Unit {0})} → m ≡ skip → k ≡ skip → (m >> k) ≡ skip
then_skip e f = rw (e, f) refl

-- A reference to a record that names the derived binding does not differ from it.
module _ (views : List RecordView) (derived : String) where
  named : (present same : Bool) → present && not same ≡ false → present ≡ true → not same ≡ false
  named true same h e = h
  named false same h e = cc

  carries_binding :
      (p : Fields)
      → any (λ m. not (has m p)) reserved_members ≡ false
      → has "aeeRunBinding" p ≡ true
  carries_binding p h =
      head (has "aeeRunBinding" p) (any (λ m. not (has m p)) ("aeeKind" ∷ "aeeMethod" ∷ [])) h
    where
      head : (b rest : Bool) → (not b || rest) ≡ false → b ≡ true
      head true rest k = refl
      head false rest k = cc

  bound_ref :
      (ref : Value)
      → Names views (IsBound (some derived)) ref
      → ref_differs views derived ref ≡ false
  unfolding view_of_ref
  bound_ref ref (i, v, er, ev, (p, ep, m, c, reserved, same)) = rw er (
      ap
        (λ (o : Option RecordView). elim o [
          | none ↦ false
          | some w ↦ payload_differs derived w.payload
        ])
        ev
      ∙ ap (payload_differs derived) ep
      ∙ named (has "aeeRunBinding" p) (is_text derived (get "aeeRunBinding" p)) same
          (carries_binding p reserved))

  bound_refs :
      (refs : List Value)
      → All (Names views (IsBound (some derived))) refs
      → any (ref_differs views derived) refs ≡ false
  bound_refs [] h = refl
  bound_refs (ref ∷ refs) h = rw (bound_ref ref h.0) (bound_refs refs h.1)

  iterated : (v : Value) → list_or_empty v ≢ [] → refs_of v ≡ pure (list_or_empty v)
  unfolding refs_of
  iterated (arr (cons x xs)) n = refl
  iterated (arr nil) n = absurd (n refl)
  iterated null n = absurd (n refl)
  iterated (bool b) n = absurd (n refl)
  iterated (int k) n = absurd (n refl)
  iterated (float k) n = absurd (n refl)
  iterated (real s) n = absurd (n refl)
  iterated (str s) n = absurd (n refl)
  iterated (obj fs) n = absurd (n refl)

  row_scan :
      (r : Fields)
      → is_substrate r ≡ true
      → IsBoundRow (some derived) views r
      → (refs_of (get "observationRefs" r) >>= λ refs.
          add_if
            (any (ref_differs views derived) refs)
            "second-fault: record binding != derived binding")
        ≡ skip
  row_scan r sub bound =
      let (n, names) = bound sub in
      rw
        (
          iterated (get "observationRefs" r) n,
          bound_refs (list_or_empty (get "observationRefs" r)) names,
        )
        refl

  pub binding_scan-skip :
      (rows : List Fields)
      → All (λ r. is_substrate r ≡ true) rows
      → All (IsBoundRow (some derived) views) rows
      → binding_scan views derived rows ≡ skip
  unfolding binding_scan for_each
  binding_scan-skip [] sub bound = refl
  binding_scan-skip (r ∷ rows) sub bound =
      then_skip (row_scan r sub.0 bound.0) (binding_scan-skip rows sub.1 bound.1)

module _ (P : Platform) where
  root_recompute-skip :
      (root : Value) (recs : List Value) {views : List RecordView}
      → views ≡ record_views P 0 recs
      → IsBatch P root views
      → sfa_root_recompute P recs root ≡ skip
  unfolding sfa_root_recompute
  root_recompute-skip root recs e (signed, (leaves, h, el, distinct, em, et)) =
      rw (sfa_root_recompute, ← e, el, em, et) refl

  batch_root-skip :
      (root : Value) (recs : List Value) (views : List RecordView)
      → IsBatched P root recs views
      → (elim recs [
        | [] ↦ skip
        | rec ∷ rs ↦ elim (as_str root) [
          | none ↦ skip
          | some r ↦ sfa_root_recompute P (rec ∷ rs) (str r)
        ]
      ])
        ≡ skip
  batch_root-skip root [] views h = refl
  batch_root-skip (str t) (rec ∷ rs) views (inl (er, ev, n)) = cc
  batch_root-skip (str t) (rec ∷ rs) views (inr (e, b)) = root_recompute-skip (str t) (rec ∷ rs) e b
  batch_root-skip null (rec ∷ rs) views h = refl
  batch_root-skip (bool b) (rec ∷ rs) views h = refl
  batch_root-skip (int k) (rec ∷ rs) views h = refl
  batch_root-skip (float k) (rec ∷ rs) views h = refl
  batch_root-skip (real s) (rec ∷ rs) views h = refl
  batch_root-skip (arr xs) (rec ∷ rs) views h = refl
  batch_root-skip (obj fs) (rec ∷ rs) views h = refl

  pub sfa_batch_root-skip :
      (pred : Fields) (expected : List String) (views : List RecordView)
      → IsBatched P (get "batchRoot" pred) (list_or_empty (get "observationRecords" pred)) views
      → sfa_batch_root P pred expected ≡ skip
  unfolding sfa_batch_root
  sfa_batch_root-skip pred expected views h = skip_unless (meets expected _) _ (
      batch_root-skip (get "batchRoot" pred) (list_or_empty (get "observationRecords" pred)) views
        h)

  no_manifest : (corpus : Fields) (v : Value) → as_dict v ≡ none → corpus_manifest P corpus v ≡ skip
  no_manifest corpus (obj manifest) h = cc
  no_manifest corpus _ h = refl

  same_manifest :
      (corpus : Fields) (v : Value) {manifest : Fields} {bytes : List ℕ}
      → v ≡ obj manifest
      → jcs_dumps (obj manifest) ≡ some bytes
      → is_text (hex (P.sha256 bytes)) (digest_of (obj corpus)) ≡ true
      → corpus_manifest P corpus v ≡ skip
  unfolding digest_or_error
  same_manifest corpus v {manifest} ev ej same =
      ap (corpus_manifest P corpus) ev
      ∙ matched (digest_or_error P (obj manifest)) (rw ej refl) same
    where
      matched :
          (o : Option String) {expect : String}
          → o ≡ some expect
          → is_text expect (digest_of (obj corpus)) ≡ true
          → (elim o [
            | none ↦ add "second-fault: corpus manifest not canonicalizable"
            | some t ↦
                add_if
                  (not (is_text t (digest_of (obj corpus))))
                  "second-fault: corpus digest mismatch"
          ])
            ≡ skip
      matched o e f = rw (e, f) refl

  pub checked_corpus :
      (corpus : Value) (classes : Option Fields)
      → IsUnchecked P corpus ⊎ IsChecked P corpus classes
      → (elim corpus [ obj fs ↦ corpus_manifest P fs (get "manifest" fs) | _ ↦ skip ]) ≡ skip
  unfolding digest_or_error
  checked_corpus (obj fs) classes (inl (inl e)) = cc
  checked_corpus (obj fs) classes (inl (inr (gs, e, n, m))) =
      no_manifest fs (get "manifest" fs) (rw (← obj-injective e) at m)
  checked_corpus (obj fs) classes
        (inr (gs, manifest, cs, e, em, (ec, n, distinct, (bytes, ej, same)), k)) =
      let same_corpus = obj-injective e in
      same_manifest fs (get "manifest" fs) (rw (← same_corpus) at em) ej
        (rw (← same_corpus) at same)
  checked_corpus null classes h = refl
  checked_corpus (bool b) classes h = refl
  checked_corpus (int k) classes h = refl
  checked_corpus (float k) classes h = refl
  checked_corpus (real s) classes h = refl
  checked_corpus (str s) classes h = refl
  checked_corpus (arr xs) classes h = refl
