-- ===== src/Verifier/Accept/Batch.antt =====
-- The records of an accepted statement, and its batch root.
use aee_conformance.Base.{
  ℕ, String, Bool, true, false, not, ◌||◌, Option, none, some, List, [], ◌∷◌, ◌≡◌, ◌≢◌, refl, sym,
  ◌⊎◌, inl, inr,
}
use aee_conformance.Base.{
  any, All, All-map, All-zip, arith, if◌then◌else◌, ◌==◌, any-eq-false, list_eq,
}
use aee_conformance.Py.Value.{Value, obj, Fields, get, is_none, is_text}
use aee_conformance.Py.Run.{
  Run, done, skip, add, add_if, >>-eq-silent, add_if-eq-skip, done-injective,
}
use aee_conformance.Platform.{Platform}
use aee_conformance.Merkle.{merkle_root_hex}
use aee_conformance.Merkle.Collision.{list_eq_self}
use aee_conformance.Verifier.{Outcome}
use aee_conformance.Verifier.Record.{RecordView, record_views}
use aee_conformance.Verifier.Records.{
  all_paes, mem_bytes, record_key, records_batch_root, duplicates_loop, check_views, views_of,
  is_root, push_pae, root_or_undecodable,
}
use aee_conformance.Verifier.Accept.Frames.{not-eq-false, records-frame}
use aee_conformance.Verifier.Accept.Chain.{Accepts, Accepts-Accepted}
use aee_conformance.Verifier.Accept.Fields.{kept, records_of}

-- No two of the list are equal.
abbrev pub IsDistinct : List (List ℕ) → Type 0
IsDistinct [] = Unit
IsDistinct (b ∷ bs) = All (λ c. c ≢ b) bs × IsDistinct bs

abbrev IsDecoded : RecordView → Type 0
IsDecoded v = v.decode_err ≡ false

all_paes-inv :
    (v : RecordView) (vs : List RecordView) {leaves : List (List ℕ)}
    → all_paes (v ∷ vs) ≡ some leaves
    → (b : List ℕ) × (bs : List (List ℕ)) × (v.pae ≡ some b)
      × (all_paes vs ≡ some bs)
      × (leaves ≡ b ∷ bs)
unfolding all_paes
all_paes-inv v vs h = pushed v.pae (all_paes vs) h
  where
    pushed :
        (o : Option (List ℕ)) (p : Option (List (List ℕ))) {leaves : List (List ℕ)}
        → push_pae o p ≡ some leaves
        → (b : List ℕ) × (bs : List (List ℕ)) × (o ≡ some b) × (p ≡ some bs) × (leaves ≡ b ∷ bs)
    pushed (some b) (some bs) h = (b, bs, refl, refl, cc)
    pushed none p h = cc
    pushed (some b) none h = cc

no_leaves : {leaves : List (List ℕ)} → all_paes [] ≡ some leaves → [] ≡ leaves
unfolding all_paes
no_leaves h = cc

apart_from :
    (b c : List ℕ) (seen : List (List ℕ))
    → mem_bytes c (b ∷ seen) ≡ false
    → (c ≢ b) × (mem_bytes c seen ≡ false)
unfolding mem_bytes
apart_from b c seen h =
    ((λ e. differ (list_eq c b) (mem_bytes c seen) h (rw e (list_eq_self b))), ground arith)
  where
    differ : (same rest : Bool) → same || rest ≡ false → same ≡ true → ⊥
    differ true rest h e = cc
    differ false rest h e = cc

module _ (P : Platform) where
  key_of_pae : (v : RecordView) {b : List ℕ} → v.pae ≡ some b → record_key P v ≡ b
  unfolding record_key
  key_of_pae v e = rw e refl

  duplicates_step :
      (seen : List (List ℕ)) (v : RecordView) (vs : List RecordView)
      → v.decode_err ≡ false
      → duplicates_loop P seen (v ∷ vs) ≡ skip
      → (mem_bytes (record_key P v) seen ≡ false)
        × (duplicates_loop P (record_key P v ∷ seen) vs ≡ skip)
  unfolding duplicates_loop
  duplicates_step seen v vs d h =
      let (a, h1) =
        >>-eq-silent (add_if (mem_bytes (record_key P v) seen) "duplicate-record") _ (rw d at h) in
      (add_if-eq-skip _ "duplicate-record" a, h1)

  duplicates_loop-IsDistinct :
      (seen : List (List ℕ)) (vs : List RecordView) (leaves : List (List ℕ))
      → all_paes vs ≡ some leaves
      → All IsDecoded vs
      → duplicates_loop P seen vs ≡ skip
      → All (λ c. mem_bytes c seen ≡ false) leaves × IsDistinct leaves
  duplicates_loop-IsDistinct seen [] leaves e d h = rw (← no_leaves e) (tt, tt)
  duplicates_loop-IsDistinct seen (v ∷ vs) leaves e d h =
      let (b, bs, eb, ebs, el) = all_paes-inv v vs e in
      let (fresh, rest) = duplicates_step seen v vs d.0 h in
      let ih = duplicates_loop-IsDistinct (b ∷ seen) vs bs ebs d.1 (rw (key_of_pae v eb) at rest) in
      rw el (
        (
          rw (key_of_pae v eb) at fresh,
          All-map _ (λ c. mem_bytes c seen ≡ false) bs (λ c m. (apart_from b c seen m).1) ih.0,
        ),
        (All-map _ (λ c. c ≢ b) bs (λ c m. (apart_from b c seen m).0) ih.0, ih.1),
      )

-- The signed bytes of the records are there, no two of them are equal, and their Merkle root is the
-- batch root; each record carries a signature.
abbrev pub IsBatch : Platform → Value → List RecordView → Type 0
IsBatch P root views =
    All (λ (v : RecordView). (v.decode_err ≡ false) × ((v.signature_count == 0) ≡ false)) views
    × ((leaves : List (List ℕ)) × (h : String) × (all_paes views ≡ some leaves)
        × IsDistinct leaves
        × (merkle_root_hex P.sha256 leaves ≡ some h)
        × (is_text h root ≡ true))

is_root-found :
    (o : Option String) (root : Value)
    → is_root o root ≡ true
    → (h : String) × (o ≡ some h) × (is_text h root ≡ true)
is_root-found none root h = cc
is_root-found (some t) root h = (t, refl, h)

module _ (P : Platform) (root : Value) where
  rooted :
      (absent : Bool) (o : Option (List (List ℕ)))
      → (if absent then add "batch-root-missing" else elim o [
        | none ↦ add "batch-root-mismatch"
        | some leaves ↦
            add_if (not (is_root (merkle_root_hex P.sha256 leaves) root)) "batch-root-mismatch"
      ])
        ≡ skip
      → (leaves : List (List ℕ)) × (o ≡ some leaves)
        × (is_root (merkle_root_hex P.sha256 leaves) root ≡ true)
  rooted true o h = cc
  rooted false none h = cc
  rooted false (some leaves) h =
      (leaves, refl, not-eq-false _ (add_if-eq-skip _ "batch-root-mismatch" h))

  decoded_root :
      (undecodable : Bool) (m : Run (Unit {0}))
      → (if undecodable then add "record-undecodable" else m) ≡ skip
      → (undecodable ≡ false) × (m ≡ skip)
  decoded_root true m h = cc
  decoded_root false m h = (refl, h)

  check_views-IsBatch :
      (views : List RecordView) → check_views P root views ≡ skip → IsBatch P root views
  unfolding check_views records_batch_root
  check_views-IsBatch views h =
      let (signed, h1) =
        >>-eq-silent
          (add_if (any (λ (v : RecordView). v.signature_count == 0) views)
            "record-signatures-empty")
          _ h in
      let (a, h2) = >>-eq-silent (root_or_undecodable P root views) _ h1 in
      let (whole, r) = decoded_root (any (λ (v : RecordView). v.decode_err) views) _ a in
      let (leaves, el, ok) = rooted (is_none root) (all_paes views) r in
      let (t, et, same) = is_root-found (merkle_root_hex P.sha256 leaves) root ok in
      let decodes = any-eq-false (λ (v : RecordView). v.decode_err) views whole in
      (
        All-zip IsDecoded (λ (v : RecordView). (v.signature_count == 0) ≡ false) views decodes
            (any-eq-false (λ (v : RecordView). v.signature_count == 0) views
              (add_if-eq-skip _ "record-signatures-empty" signed)),
        (leaves, t, el, (duplicates_loop-IsDistinct P [] views leaves el decodes h2).1, et, same),
      )

  -- No records and no batch root, or a batch.
  abbrev pub IsBatched : List Value → List RecordView → Type 0
  IsBatched recs views =
      ((recs ≡ []) × (views ≡ []) × (is_none root ≡ true))
      ⊎ ((views ≡ record_views P 0 recs) × IsBatch P root views)

  pub views_of-IsBatched :
      (recs : List Value) {views : List RecordView}
      → views_of P root recs ≡ done views []
      → IsBatched recs views
  views_of-IsBatched [] h =
      let (a, h1) = >>-eq-silent (add_if (not (is_none root)) "batch-root-orphaned") _ h in
      inl (refl, sym (done-injective h1), not-eq-false _ (add_if-eq-skip _ "batch-root-orphaned" a))
  views_of-IsBatched (rec ∷ recs) h =
      let (a, h1) = >>-eq-silent (check_views P root (record_views P 0 (rec ∷ recs))) _ h in
      let e = sym (done-injective h1) in
      inr (e, rw e (check_views-IsBatch (record_views P 0 (rec ∷ recs)) a))

module _ (P : Platform) (pinned_pubs : List (List ℕ)) (stmt : Value) (raw : Option (List ℕ))
    {o : Outcome} (accepts : Accepts P pinned_pubs stmt raw o) where
  -- An accepted statement either has no records and no batch root, or the signed bytes of all its records
  -- are there, no two of them are equal, each record decodes and carries a signature, and the batch root
  -- is the Merkle root of the signed bytes in order.
  pub accepted-IsBatched :
      (fields : Fields) × (pred : Fields) × (views : List RecordView) × (stmt ≡ obj fields)
      × (get "predicate" fields ≡ obj pred)
      × IsBatched P (get "batchRoot" pred) (records_of pred) views
  accepted-IsBatched =
      let a = Accepts-Accepted P pinned_pubs stmt raw accepts in
      let k = kept P a.passed in
      let (views, q, e) = records-frame P a.passed.s6 a.passed.records in
      (
        a.fields,
        a.pred,
        views,
        a.is_obj,
        a.is_pred,
        views_of-IsBatched P (get "batchRoot" a.pred) (records_of a.pred) (rw k.pred6 at q),
      )
