-- ===== src/Verifier/Accept/Classes.antt =====
-- A row whose class matches without a code in packaging/run_vectors.py: its cover.
use aee_conformance.Base.{
  String, Bool, true, false, Option, none, some, List, [], ◌∷◌, ◌++◌, ◌≡◌, ◌≢◌, refl, sym, ap, inl,
  inr,
}
use aee_conformance.Base.{All, All-map, keep, if◌then◌else◌}
use aee_conformance.Py.Value.{Value, Fields, get, mem, is_text}
use aee_conformance.Py.Run.{done, >>=-eq-silent, >>-eq-silent, >>=-pure-eq-silent, done-injective}
use aee_conformance.Platform.{Platform}
use aee_conformance.Verifier.State.{VerifyState}
use aee_conformance.Verifier.Record.{RecordView, kind, payload_or_empty}
use aee_conformance.Verifier.Kinds.{arming_ok, sealed_ok}
use aee_conformance.Verifier.Gate1.{
  of_kind, cover_reconstructed, cover_caught, armed, clean_arm, clean_seal, cover_clean,
  class_match, covers_nothing, arming_postures, is_usable, in_caught,
}
use aee_conformance.Verifier.Accept.Nonempty.{no_cover-nonempty, cover_caught-nonempty}
use aee_conformance.Verifier.Accept.Cover.{
  IsOf, IsArming, arming_ok-IsArming, IsSeal, sealed_ok-IsSeal,
}
use aee_conformance.Verifier.Accept.Covering.{
  IsReferenced, AreOf, Context, IsCover, all_kept, usable_one, AreUsable, AreKind, of_kind-AreKind,
  reconstructed-AreOf, caught-AreOf,
}

-- The context that the views and a state give.
abbrev pub context_of : List RecordView → VerifyState → List Value → Context
context_of views st caught = record {
  views = views;
  caught = caught;
  posture = st.pinned_posture;
  issued_at = st.issued_at;
  declared = st.declared_attacks;
}

module _ (views : List RecordView) (r : Fields) where
  module _ (P : Platform) (st : VerifyState) where
    armed-AreGood :
        (rvs : List RecordView) {good : List RecordView}
        → AreKind views r "arming" rvs
        → armed P st rvs ≡ done good []
        → AreOf views r "arming"
            (IsArming P st.pinned_posture st.issued_at st.declared_attacks)
            good
    unfolding armed
    armed-AreGood [] u h = rw (← done-injective h) tt
    armed-AreGood (rv ∷ rvs) u h =
        let (ok, q, h1) =
          >>=-eq-silent
            (arming_ok P (payload_or_empty rv) st.pinned_posture st.issued_at st.declared_attacks) _
            h in
        let (rest, q1, e) = >>=-pure-eq-silent (armed P st rvs) _ h1 in
        rw (← e) (kept_if ok rest q (armed-AreGood rvs u.1 q1))
      where
        kept_if :
            (ok : Bool) (rest : List RecordView)
            → arming_ok P (payload_or_empty rv) st.pinned_posture st.issued_at st.declared_attacks
              ≡ done ok []
            → AreOf views r "arming"
                (IsArming P st.pinned_posture st.issued_at st.declared_attacks)
                rest
            → AreOf views r "arming"
                (IsArming P st.pinned_posture st.issued_at st.declared_attacks)
                (if ok then rv ∷ rest else rest)
        kept_if true rest q ih = (
          (
            u.0.0.0,
            usable_one "arming" (IsArming P st.pinned_posture st.issued_at st.declared_attacks) rv
                u.0.0.1 u.0.1
                (arming_ok-IsArming P (payload_or_empty rv) st.pinned_posture st.issued_at
                  st.declared_attacks q),
          ),
          ih,
        )
        kept_if false rest q ih = ih

    arms_good :
        (usable : List RecordView) (nothing : Option String) {good : List RecordView}
        → AreUsable views r usable
        → clean_arm P st usable nothing ≡ done good []
        → (good ≢ [])
          × AreOf views r "arming"
              (IsArming P st.pinned_posture st.issued_at st.declared_attacks)
              good
    unfolding clean_arm
    arms_good usable nothing u h =
        let (good, q, h1) = >>=-eq-silent (armed P st (of_kind "arming" usable)) _ h in
        let (a, h2) = >>-eq-silent _ _ h1 in
        rw (← done-injective h2) (
          no_cover-nonempty nothing _ _ _ _ a,
          armed-AreGood (of_kind "arming" usable) (of_kind-AreKind views r "arming" usable u) q,
        )

    seals_good :
        (usable : List RecordView) (nothing : Option String) {good : List RecordView}
        → AreUsable views r usable
        → clean_seal P st usable nothing ≡ done good []
        → (good ≢ []) × AreOf views r "sealed" (IsSeal st.pinned_posture st.declared_attacks) good
    unfolding clean_seal
    seals_good usable nothing u h =
        let (a, h1) = >>-eq-silent _ _ h in
        let ok : RecordView → Bool = (λ rv.
          sealed_ok (payload_or_empty rv) st.pinned_posture (arming_postures usable)
            st.declared_attacks) in
        rw (← done-injective h1) (
          no_cover-nonempty nothing _ _ _ _ a,
          All-map
              (λ v.
                ((IsReferenced views r v × (is_usable v ≡ true))
                  × (is_text "sealed" (kind v) ≡ true))
                × (ok v ≡ true))
              (λ v.
                IsReferenced views r v
                × IsOf "sealed" (IsSeal st.pinned_posture st.declared_attacks) v)
              (keep ok (of_kind "sealed" usable))
              (λ v g. (
                g.0.0.0,
                usable_one "sealed" (IsSeal st.pinned_posture st.declared_attacks) v g.0.0.1 g.0.1
                    (sealed_ok-IsSeal (payload_or_empty v) st.pinned_posture
                      (arming_postures usable) st.declared_attacks g.1).0,
              ))
              (all_kept _ ok (of_kind "sealed" usable) (of_kind-AreKind views r "sealed" usable u)),
        )

    append-nonempty : (xs ys : List RecordView) → xs ≢ [] → xs ++ ys ≢ []
    append-nonempty [] ys n = absurd (n refl)
    append-nonempty (x ∷ xs) ys n = λ e. cc

    pub class_match-IsCover :
        (caught : List Value) (ref_views : List RecordView) {covering : List RecordView}
        → st.caught ≡ some caught
        → All (IsReferenced views r) ref_views
        → class_match P st r ref_views ≡ done covering []
        → IsCover P (context_of views st caught) r covering
    unfolding class_match cover_clean
    class_match-IsCover caught ref_views ec refs h =
        let usable = keep is_usable ref_views in
        let (nothing, q, h1) = >>=-eq-silent (covers_nothing usable) _ h in
        pick (is_text "reconstructed" (get "method" r)) (in_caught st (get "containmentObserved" r))
          nothing refl
          (ap
            (λ (o : Option (List Value)). elim o [
              | none ↦ false
              | some cs ↦ mem (get "containmentObserved" r) cs
            ])
            ec)
          (all_kept (IsReferenced views r) is_usable ref_views refs) h1
      where
        pick :
            (reconstructed in_it : Bool) (nothing : Option String) {covering : List RecordView}
            → is_text "reconstructed" (get "method" r) ≡ reconstructed
            → in_it ≡ mem (get "containmentObserved" r) caught
            → AreUsable views r (keep is_usable ref_views)
            → (if reconstructed
                then cover_reconstructed (keep is_usable ref_views) nothing
                else (if in_it
                    then cover_caught (keep is_usable ref_views) nothing
                    else cover_clean P st (keep is_usable ref_views) nothing))
              ≡ done covering []
            → IsCover P (context_of views st caught) r covering
        pick true in_it nothing er ei u h =
            let (n, good) = reconstructed-AreOf views r (keep is_usable ref_views) nothing u h in
            (n, inl (er, good))
        pick false true nothing er ei u h = (
          cover_caught-nonempty (keep is_usable ref_views) nothing h,
          inr (inl (er, sym ei, caught-AreOf views r (keep is_usable ref_views) nothing u h)),
        )
        pick false false nothing er ei u h =
            let (arms, q, h1) =
              >>=-eq-silent (clean_arm P st (keep is_usable ref_views) nothing) _ h in
            let (seals, q2, e) =
              >>=-pure-eq-silent (clean_seal P st (keep is_usable ref_views) nothing) _ h1 in
            let (na, ga) = arms_good (keep is_usable ref_views) nothing u q in
            let (ns, gs) = seals_good (keep is_usable ref_views) nothing u q2 in
            rw (← e) (
              append-nonempty arms seals na,
              inr (inr (er, sym ei, arms, seals, refl, na, ns, ga, gs)),
            )
