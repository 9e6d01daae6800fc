-- ===== src/Verifier/Accept/Nonempty.antt =====
-- What a step of GATE 1 of packaging/run_vectors.py that adds no code finds: records, and not none.
use aee_conformance.Base.{
  String, Bool, true, false, not, ◌&&◌, Option, none, some, List, [], ◌∷◌, ◌++◌, ◌≡◌, ◌≢◌, refl,
  sym, ap, ◌∙◌,
}
use aee_conformance.Base.{if◌then◌else◌, get_elem?}
use aee_conformance.Base.Int.{pos, negsuc}
use aee_conformance.Py.Value.{Value, null, bool, int, float, real, str, arr, obj, get, is_none}
use aee_conformance.Py.Run.{
  done, skip, add_if, >>=-eq-silent, >>-eq-silent, >>=-pure-eq-silent, done-injective,
}
use aee_conformance.Verifier.Record.{RecordView, payload_or_empty}
use aee_conformance.Shapes.{commitment_array_ok}
use aee_conformance.Verifier.Gate1.{
  of_kind, no_cover, committed, caught_cover, cover_caught, resolve_refs, resolve_all, resolve_ref,
  some_views, one_view,
}

pub no_cover-nonempty :
    (nothing : Option String) (u c : String) (xs good : List RecordView)
    → no_cover nothing u c xs good ≡ skip
    → good ≢ []
no_cover-nonempty nothing u c [] good h = cc
no_cover-nonempty nothing u c (x ∷ xs) [] h = cc
no_cover-nonempty nothing u c (x ∷ xs) (g ∷ gs) h = λ e. cc

-- The records of one loop that adds no code are all kept.
pub keep_flags :
    (rv : RecordView) (missing ok : Bool) (rest : List RecordView)
    → add_if missing "payload-missing-reserved" ≡ skip
    → add_if (not missing && not ok) "payload-commitment-malformed" ≡ skip
    → (if not missing && ok then rv ∷ rest else rest) ≡ rv ∷ rest
keep_flags rv true ok rest h k = cc
keep_flags rv false true rest h k = refl
keep_flags rv false false rest h k = cc

pub committed-all :
    (rvs : List RecordView) {covering : List RecordView}
    → committed rvs ≡ done covering []
    → covering ≡ rvs
unfolding committed
committed-all [] h = sym (done-injective h)
committed-all (rv ∷ rvs) h =
    let (a, h1) =
      >>-eq-silent
        (add_if (is_none (get "aeePayloadCommitment" (payload_or_empty rv)))
          "payload-missing-reserved")
        _ h in
    let (b, h2) =
      >>-eq-silent
        (add_if
          (not (is_none (get "aeePayloadCommitment" (payload_or_empty rv)))
            && not (commitment_array_ok (get "aeePayloadCommitment" (payload_or_empty rv))))
          "payload-commitment-malformed")
        _ h1 in
    let (rest, q, e) = >>=-pure-eq-silent (committed rvs) _ h2 in
    sym e ∙ keep_flags rv _ _ rest a b ∙ ap (λ (t : List RecordView). rv ∷ t) (committed-all rvs q)

pub caught_cover-nonempty :
    (nothing : Option String) (xs : List RecordView) {covering : List RecordView}
    → caught_cover nothing xs ≡ done covering []
    → covering ≢ []
caught_cover-nonempty nothing [] h = cc
caught_cover-nonempty nothing (x ∷ xs) h = rw (committed-all (x ∷ xs) h) (λ e. cc)

pub cover_caught-nonempty :
    (usable : List RecordView) (nothing : Option String) {covering : List RecordView}
    → cover_caught usable nothing ≡ done covering []
    → covering ≢ []
unfolding cover_caught
cover_caught-nonempty usable nothing h =
    caught_cover-nonempty nothing (of_kind "interception" usable) h

pub one_view-found :
    (o : Option RecordView) {xs : List RecordView} → one_view o ≡ done xs [] → xs ≢ []
one_view-found none h = cc
one_view-found (some v) h = rw (← done-injective h) (λ e. cc)

pub resolve_ref-found :
    (views : List RecordView) (ref : Value) {xs : List RecordView}
    → resolve_ref views ref ≡ done xs []
    → xs ≢ []
unfolding resolve_ref
resolve_ref-found views (int (pos i)) h = one_view-found (get_elem? views i) h
resolve_ref-found views (int (negsuc i)) h = cc
resolve_ref-found views null h = cc
resolve_ref-found views (bool b) h = cc
resolve_ref-found views (float n) h = cc
resolve_ref-found views (real t) h = cc
resolve_ref-found views (str t) h = cc
resolve_ref-found views (arr xs) h = cc
resolve_ref-found views (obj fs) h = cc

pub resolve_refs-found :
    (views : List RecordView) (ref : Value) (refs : List Value) {found : Option (List RecordView)}
    → resolve_refs views (ref ∷ refs) ≡ done found []
    → found ≢ none
unfolding resolve_refs resolve_all
resolve_refs-found views ref refs h =
    let (all_found, q, e) = >>=-pure-eq-silent (resolve_all views (ref ∷ refs)) some_views h in
    let (one, q1, h1) = >>=-eq-silent (resolve_ref views ref) _ q in
    let (more, q2, e2) = >>=-pure-eq-silent (resolve_all views refs) _ h1 in
    rw (← e, ← e2) (some_views-found one more (resolve_ref-found views ref q1))
  where
    some_views-found : (xs ys : List RecordView) → xs ≢ [] → some_views (xs ++ ys) ≢ none
    some_views-found [] ys n = absurd (n refl)
    some_views-found (x ∷ xs) ys n = λ e. cc
