-- ===== src/Verifier/Accept/Cover.antt =====
-- What a record must be, to seal a run or to cover a row of packaging/run_vectors.py: the requirements on
-- its payload, member by member.
use aee_conformance.Base.{
  String, Bool, true, false, Option, none, some, List, [], ◌≡◌, ◌∙◌, if◌then◌else◌, refl, ap, all,
  All, &&-eq-true, all→All,
}
use aee_conformance.Py.Value.{Value, bool, Fields, get, is_text, is_none, eq}
use aee_conformance.Shapes.{timestamp_ok, is_hex64_lower, attack_id_array_ok}
use aee_conformance.Verifier.Record.{RecordView, kind, payload_or_empty}
use aee_conformance.Verifier.State.{VerifyState}
use aee_conformance.Platform.{Platform}
use aee_conformance.Py.Run.{Run, done, pure, >>=-pure-eq-silent}
use aee_conformance.Verifier.Kinds.{
  arming_ok, arming_order_ok, arming_chain_ok, version_ok, is_true, drops_ok, sealed_ok,
  sealed_commitments_ok,
}
use aee_conformance.Verifier.Gate1.{arming_postures}
use aee_conformance.Verifier.Commitments.{is_sealing, is_bound, has_payload, binds}

-- A record of a JSON media type with a payload of the kind that has `Q`.
abbrev pub IsOf : String → (Fields → Type 0) → RecordView → Type 0
IsOf k Q v =
    (p : Fields) × (v.payload ≡ some p)
    × (v.media_ok ≡ true)
    × (is_text k (get "aeeKind" p) ≡ true)
    × Q p

-- The payload names the run binding, or none where none is derived.
abbrev pub IsNaming : Option String → Fields → Type 0
IsNaming none p = is_none (get "aeeRunBinding" p) ≡ true
IsNaming (some derived) p = is_text derived (get "aeeRunBinding" p) ≡ true

-- Still armed, within the bound on drops, with the posture of the environment, by interception, and with a
-- well-formed digest of the observed set and declared attacks alone.
abbrev pub IsSeal : Value → List String → Fields → Type 0
IsSeal posture declared p =
    (get "aeeStillArmed" p ≡ bool true)
    × (drops_ok p (get "aeeDropCount" p) ≡ true)
    × (eq (get "aeePostureDigest" p) posture ≡ true)
    × (is_text "intercepted" (get "aeeMethod" p) ≡ true)
    × (is_hex64_lower (get "aeeObservedSet" p) ≡ true)
    × (attack_id_array_ok (get "aeeObservedAttacks" p) declared ≡ true)

-- The posture of a seal is that of each arming record in a list.
abbrev pub HasPostures : List String → Fields → Type 0
HasPostures postures p = All (λ posture. is_text posture (get "aeePostureDigest" p) ≡ true) postures

true_value : (v : Value) → is_true v ≡ true → v ≡ bool true
true_value (bool b) h = ap bool h
true_value _ h = cc

pub sealed_ok-IsSeal :
    (p : Fields) (posture : Value) (postures declared : List String)
    → sealed_ok p posture postures declared ≡ true
    → IsSeal posture declared p × HasPostures postures p
unfolding sealed_ok sealed_commitments_ok
sealed_ok-IsSeal p posture postures declared h =
    let (h1, h6) = &&-eq-true _ (sealed_commitments_ok p declared) h in
    let (h2, e) = &&-eq-true _ (is_text "intercepted" (get "aeeMethod" p)) h1 in
    let (h3, d) = &&-eq-true _ (all (λ t. is_text t (get "aeePostureDigest" p)) postures) h2 in
    let (h4, c) = &&-eq-true _ (eq (get "aeePostureDigest" p) posture) h3 in
    let (a, b) = &&-eq-true (is_true (get "aeeStillArmed" p)) _ h4 in
    let (f, g) = &&-eq-true (is_hex64_lower (get "aeeObservedSet" p)) _ h6 in
    (
      (true_value (get "aeeStillArmed" p) a, b, c, e, f, g),
      all→All (λ t. is_text t (get "aeePostureDigest" p)) postures d,
    )

-- Armed at a well-formed time that is not later than a well-formed issue time, with the posture of the
-- environment, by interception, under the binding version if it names one, in a chain of runs that is well
-- formed, and with declared attacks alone as those assessed.
abbrev pub IsArming : Platform → Value → Value → List String → Fields → Type 0
IsArming P posture issued_at declared p =
    (timestamp_ok P (get "armedAt" p) ≡ true)
    × (arming_order_ok P (get "armedAt" p) issued_at ≡ true)
    × (eq (get "aeePostureDigest" p) posture ≡ true)
    × (is_text "intercepted" (get "aeeMethod" p) ≡ true)
    × (version_ok (get "aeeBindingVersion" p) ≡ true)
    × (arming_chain_ok p ≡ done true [])
    × (attack_id_array_ok (get "aeeAssessedAttacks" p) declared ≡ true)

pub arming_ok-IsArming :
    (P : Platform) (p : Fields) (posture issued_at : Value) (declared : List String)
    → arming_ok P p posture issued_at declared ≡ done true []
    → IsArming P posture issued_at declared p
unfolding arming_ok
arming_ok-IsArming P p posture issued_at declared h =
    let (tests, h1) = tested _ _ h in
    let (t4, v) = &&-eq-true _ (version_ok (get "aeeBindingVersion" p)) tests in
    let (t3, m) = &&-eq-true _ (is_text "intercepted" (get "aeeMethod" p)) t4 in
    let (t2, d) = &&-eq-true _ (eq (get "aeePostureDigest" p) posture) t3 in
    let (t, o) =
      &&-eq-true (timestamp_ok P (get "armedAt" p)) (arming_order_ok P (get "armedAt" p) issued_at)
        t2 in
    let (chained, q, e) = >>=-pure-eq-silent (arming_chain_ok p) _ h1 in
    let (c, a) = &&-eq-true chained (attack_id_array_ok (get "aeeAssessedAttacks" p) declared) e in
    (t, o, d, m, v, q ∙ ap (λ (b : Bool). done b []) c, a)
  where
    tested :
        (b : Bool) (m : Run Bool)
        → (if b then m else pure false) ≡ done true []
        → (b ≡ true) × (m ≡ done true [])
    tested true m h = (refl, h)
    tested false m h = cc

-- A record that seals the run: it is bound to it, and satisfies every constraint of its kind, with the
-- posture of all arming records among the views.
abbrev pub IsSealing : Option String → Value → List String → List RecordView → RecordView → Type 0
IsSealing derived posture declared views =
    IsOf "sealed"
      (λ p. IsNaming derived p × IsSeal posture declared p × HasPostures (arming_postures views) p)

pub is_sealing-IsSealing :
    (st : VerifyState) (v : RecordView)
    → is_sealing st v ≡ true
    → IsSealing st.derived_binding st.pinned_posture st.declared_attacks st.views v
is_sealing-IsSealing st v h =
    let (h1, ok) =
      &&-eq-true _
        (sealed_ok (payload_or_empty v) st.pinned_posture (arming_postures st.views)
          st.declared_attacks)
        h in
    let (bound, media) = &&-eq-true (is_bound st "sealed" v) v.media_ok h1 in
    let (h2, named) = &&-eq-true _ (binds st v) bound in
    let (is_kind, found) = &&-eq-true (is_text "sealed" (kind v)) (has_payload v) h2 in
    sealing (v.payload) refl media is_kind found named ok
  where
    naming :
        (o : Option String) (p : Fields)
        → (elim o [
          | none ↦ is_none (get "aeeRunBinding" p)
          | some b ↦ is_text b (get "aeeRunBinding" p)
        ])
          ≡ true
        → IsNaming o p
    naming none p e = e
    naming (some b) p e = e

    sealing :
        (o : Option Fields)
        → v.payload ≡ o
        → v.media_ok ≡ true
        → is_text "sealed" (kind v) ≡ true
        → has_payload v ≡ true
        → binds st v ≡ true
        → sealed_ok
            (payload_or_empty v)
            st.pinned_posture
            (arming_postures st.views)
            st.declared_attacks
          ≡ true
        → IsSealing st.derived_binding st.pinned_posture st.declared_attacks st.views v
    sealing none e media is_kind found named ok = absurd (missing (rw e at found))
      where
        missing : false ≡ true → ⊥
        missing q = cc
    sealing (some p) e media is_kind found named ok =
        let (seal, postures) =
          sealed_ok-IsSeal p st.pinned_posture (arming_postures st.views) st.declared_attacks
            (rw e at ok) in
        (
          p,
          e,
          media,
          rw e at is_kind,
          (naming st.derived_binding p (rw e at named), seal, postures),
        )
