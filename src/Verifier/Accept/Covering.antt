-- ===== src/Verifier/Accept/Covering.antt =====
-- The records that cover a row, of `_gate1_class_match` in packaging/run_vectors.py: for each class of rows,
-- which referenced records they are.
use aee_conformance.Base.{
  ℕ, String, Bool, true, false, not, ◌&&◌, Option, none, some, List, [], ◌∷◌, ◌++◌, ◌≡◌, ◌≢◌, refl,
  sym, ◌∙◌, ◌⊎◌,
}
use aee_conformance.Base.{All, All-map, Some, keep, get_elem?, if◌then◌else◌}
use aee_conformance.Base.Int.{pos}
use aee_conformance.Py.Value.{Value, int, Fields, get, mem, is_text, is_none, list_or_empty}
use aee_conformance.Py.Run.{
  done, add_if, >>-eq-silent, >>=-pure-eq-silent, done-injective, add_if-eq-skip,
}
use aee_conformance.Platform.{Platform}
use aee_conformance.Shapes.{commitment_array_ok}
use aee_conformance.Verifier.Record.{RecordView, kind, payload_or_empty}
use aee_conformance.Verifier.Kinds.{examination_ok}
use aee_conformance.Verifier.Gate1.{
  of_kind, cover_reconstructed, committed, caught_cover, cover_caught, is_usable,
}
use aee_conformance.Verifier.Accept.Nonempty.{no_cover-nonempty, keep_flags}
use aee_conformance.Verifier.Accept.Cover.{IsArming, IsOf, IsSeal}

-- A reference of the row is the index of the record.
abbrev pub IsAt : List RecordView → RecordView → Value → Type 0
IsAt views v ref = (i : ℕ) × (ref ≡ int (pos i)) × (get_elem? views i ≡ some v)

abbrev pub IsReferenced : List RecordView → Fields → RecordView → Type 0
IsReferenced views r v = Some (IsAt views v) (list_or_empty (get "observationRefs" r))

-- All records of a list are referenced by the row, and of the kind that has `Q`.
abbrev pub AreOf : List RecordView → Fields → String → (Fields → Type 0) → List RecordView → Type 0
AreOf views r k Q c = All (λ v. IsReferenced views r v × IsOf k Q v) c

-- What an accepted statement is read by: its views, caught labels, posture, issue time and attacks.
pub record Context : Type 0 where
  pub views : List RecordView
  pub caught : List Value
  pub posture : Value
  pub issued_at : Value
  pub declared : List String

-- The cover of a row that was reconstructed: examinations. Of one with a caught label: interceptions with a
-- well-formed commitment. Of any other: arming records and seals, of both one at least.
abbrev pub IsCover : Platform → Context → Fields → List RecordView → Type 0
IsCover P x r c =
    (c ≢ [])
    × (((is_text "reconstructed" (get "method" r) ≡ true)
          × AreOf x.views r "examination" (λ p. is_text "reconstructed" (get "aeeMethod" p) ≡ true)
              c)
        ⊎ (((is_text "reconstructed" (get "method" r) ≡ false)
              × (mem (get "containmentObserved" r) x.caught ≡ true)
              × AreOf x.views r "interception"
                  (λ p. commitment_array_ok (get "aeePayloadCommitment" p) ≡ true) c)
            ⊎ ((is_text "reconstructed" (get "method" r) ≡ false)
                × (mem (get "containmentObserved" r) x.caught ≡ false)
                × (arms : List RecordView) × (seals : List RecordView) × (c ≡ arms ++ seals)
                × (arms ≢ [])
                × (seals ≢ [])
                × AreOf x.views r "arming" (IsArming P x.posture x.issued_at x.declared) arms
                × AreOf x.views r "sealed" (IsSeal x.posture x.declared) seals)))

pub all_kept :
    (Q : RecordView → Type 0) (p : RecordView → Bool) (vs : List RecordView)
    → All Q vs
    → All (λ v. Q v × (p v ≡ true)) (keep p vs)
all_kept Q p [] h = tt
all_kept Q p (v ∷ vs) h = split (p v) refl (all_kept Q p vs h.1)
  where
    split :
        (b : Bool)
        → p v ≡ b
        → All (λ v. Q v × (p v ≡ true)) (keep p vs)
        → All (λ v. Q v × (p v ≡ true)) (if b then v ∷ keep p vs else keep p vs)
    split true e ih = ((h.0, e), ih)
    split false e ih = ih

pub usable_one :
    (k : String) (Q : Fields → Type 0) (v : RecordView)
    → is_usable v ≡ true
    → is_text k (kind v) ≡ true
    → Q (payload_or_empty v)
    → IsOf k Q v
usable_one k Q v u t q = found (v.payload) refl u t q
  where
    found :
        (o : Option Fields)
        → v.payload ≡ o
        → is_usable v ≡ true
        → is_text k (kind v) ≡ true
        → Q (payload_or_empty v)
        → IsOf k Q v
    found none e u t q = absurd (missing (rw e at u))
      where
        missing : false ≡ true → ⊥
        missing h = cc
    found (some p) e u t q = (p, e, rw e at u, rw e at t, rw e at q)

-- The records of one kind among those that can cover.
abbrev pub AreUsable : List RecordView → Fields → List RecordView → Type 0
AreUsable views r vs = All (λ v. IsReferenced views r v × (is_usable v ≡ true)) vs

abbrev pub AreKind : List RecordView → Fields → String → List RecordView → Type 0
AreKind views r k vs =
    All (λ v. (IsReferenced views r v × (is_usable v ≡ true)) × (is_text k (kind v) ≡ true)) vs

pub of_kind-AreKind :
    (views : List RecordView) (r : Fields) (k : String) (usable : List RecordView)
    → AreUsable views r usable
    → AreKind views r k (of_kind k usable)
of_kind-AreKind views r k usable h =
    all_kept (λ v. IsReferenced views r v × (is_usable v ≡ true)) (λ v. is_text k (kind v)) usable h

module _ (views : List RecordView) (r : Fields) where
  pub reconstructed-AreOf :
      (usable : List RecordView) (nothing : Option String) {covering : List RecordView}
      → AreUsable views r usable
      → cover_reconstructed usable nothing ≡ done covering []
      → (covering ≢ [])
        × AreOf views r "examination"
            (λ p. is_text "reconstructed" (get "aeeMethod" p) ≡ true)
            covering
  unfolding cover_reconstructed examination_ok
  reconstructed-AreOf usable nothing u h =
      let (a, h1) = >>-eq-silent _ _ h in
      let good : List RecordView =
        keep (λ rv. examination_ok (payload_or_empty rv)) (of_kind "examination" usable) in
      rw (← done-injective h1) (
        no_cover-nonempty nothing _ _ _ _ a,
        All-map
            (λ v.
              ((IsReferenced views r v × (is_usable v ≡ true))
                × (is_text "examination" (kind v) ≡ true))
              × (examination_ok (payload_or_empty v) ≡ true))
            (λ v.
              IsReferenced views r v
              × IsOf "examination" (λ p. is_text "reconstructed" (get "aeeMethod" p) ≡ true) v)
            good
            (λ v g. (
              g.0.0.0,
              usable_one "examination" (λ p. is_text "reconstructed" (get "aeeMethod" p) ≡ true) v
                  g.0.0.1 g.0.1 g.1,
            ))
            (all_kept _ (λ rv. examination_ok (payload_or_empty rv)) (of_kind "examination" usable)
              (of_kind-AreKind views r "examination" usable u)),
      )

  committed-AreGood :
      (rvs : List RecordView) {covering : List RecordView}
      → AreKind views r "interception" rvs
      → committed rvs ≡ done covering []
      → AreOf views r "interception"
          (λ p. commitment_array_ok (get "aeePayloadCommitment" p) ≡ true)
          covering
  unfolding committed
  committed-AreGood [] u h = rw (← done-injective h) tt
  committed-AreGood (rv ∷ rvs) u h =
      let (a, h1) =
        >>-eq-silent
          (add_if (is_none (get "aeePayloadCommitment" (payload_or_empty rv)))
            "payload-missing-reserved")
          _ h in
      let (b, h2) =
        >>-eq-silent
          (add_if
            (not (is_none (get "aeePayloadCommitment" (payload_or_empty rv)))
              && not (commitment_array_ok (get "aeePayloadCommitment" (payload_or_empty rv))))
            "payload-commitment-malformed")
          _ h1 in
      let (rest, q, e) = >>=-pure-eq-silent (committed rvs) _ h2 in
      let good =
        flags (is_none (get "aeePayloadCommitment" (payload_or_empty rv)))
          (commitment_array_ok (get "aeePayloadCommitment" (payload_or_empty rv)))
          (add_if-eq-skip _ "payload-missing-reserved" a)
          (add_if-eq-skip _ "payload-commitment-malformed" b) in
      let same = sym e ∙ keep_flags rv _ _ rest a b in
      rw same (
        (
          u.0.0.0,
          usable_one "interception" (λ p. commitment_array_ok (get "aeePayloadCommitment" p) ≡ true)
              rv u.0.0.1 u.0.1 good,
        ),
        committed-AreGood rvs u.1 q,
      )
    where
      flags : (missing ok : Bool) → missing ≡ false → not missing && not ok ≡ false → ok ≡ true
      flags true ok e f = cc
      flags false true e f = refl
      flags false false e f = cc

  pub caught-AreOf :
      (usable : List RecordView) (nothing : Option String) {covering : List RecordView}
      → AreUsable views r usable
      → cover_caught usable nothing ≡ done covering []
      → AreOf views r "interception"
          (λ p. commitment_array_ok (get "aeePayloadCommitment" p) ≡ true)
          covering
  unfolding cover_caught
  caught-AreOf usable nothing u h =
      listed (of_kind "interception" usable) (of_kind-AreKind views r "interception" usable u) h
    where
      listed :
          (rvs : List RecordView) {covering : List RecordView}
          → AreKind views r "interception" rvs
          → caught_cover nothing rvs ≡ done covering []
          → AreOf views r "interception"
              (λ p. commitment_array_ok (get "aeePayloadCommitment" p) ≡ true)
              covering
      listed [] k h = cc
      listed (rv ∷ rvs) k h = committed-AreGood (rv ∷ rvs) k h
