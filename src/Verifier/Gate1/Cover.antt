-- ===== src/Verifier/Gate1/Cover.antt =====
-- Which of the referenced records cover a row: `_covers_nothing`, `_uncovered_code`, `_gate1_class_match`
-- and the `_gate1_cover_…` and `_gate1_clean_…` methods of packaging/run_vectors.py.
use aee_conformance.Base.{
  String, Bool, true, false, not, ◌&&◌, ◌||◌, Option, none, some, List, [], ◌∷◌, ◌++◌,
}
use aee_conformance.Base.{keep, if◌then◌else◌}
use aee_conformance.Py.Value.{Value, str, Fields, get, is_text, is_none, truthy}
use aee_conformance.Py.Run.{Run, ◌>>=◌, ◌>>◌, pure, skip, add, add_if, hash}
use aee_conformance.Platform.{Platform}
use aee_conformance.Shapes.{commitment_array_ok}
use aee_conformance.Verifier.State.{VerifyState}
use aee_conformance.Verifier.Record.{RecordView, kind, payload_or_empty}
use aee_conformance.Verifier.Kinds.{arming_ok, sealed_ok, examination_ok}
use aee_conformance.Verifier.Gate1.Resolve.{in_caught}

-- `_REGISTERED_NONCOVERING.get(v)`, once `v` is hashed
abbrev registered_noncovering : Value → Option String
registered_noncovering v = elim (is_text "moat-drop" v) [
  | true ↦ some "moat-drop-covers-nothing"
  | false ↦ elim (is_text "uncommitted-observation" v) [
    | true ↦ some "uncommitted-observation-covers-nothing"
    | false ↦ none
  ]
]

-- `v in _COVERING_KINDS`
abbrev pub covering_kind : Value → Bool
covering_kind v =
    is_text "interception" v || is_text "arming" v || is_text "sealed" v || is_text "examination" v

-- `rv.kind or ""`
abbrev kind_or_empty : Value → Value
kind_or_empty v = if truthy v then v else str ""

unfoldable pub covers_nothing : List RecordView → Run (Option String)
covers_nothing [] = pure none
covers_nothing (rv ∷ rvs) = do
  hash (kind_or_empty (kind rv))
  elim (registered_noncovering (kind_or_empty (kind rv))) [
    | some code ↦ pure (some code)
    | none ↦ elim (covering_kind (kind rv)) [
      | false ↦ pure (some "record-kind-unknown-covers-nothing")
      | true ↦ covers_nothing rvs
    ]
  ]

abbrev uncovered_code : Option String → String → String
uncovered_code none specific = specific
uncovered_code (some code) specific = code

abbrev pub of_kind : String → List RecordView → List RecordView
of_kind k = keep (λ rv. is_text k (kind rv))

-- No record of the kind, or none that satisfies it.
abbrev pub no_cover :
    Option String → String → String → List RecordView → List RecordView → Run (Unit {0})
no_cover nothing uncovered code [] good = add (uncovered_code nothing uncovered)
no_cover nothing uncovered code (_ ∷ _) [] = add code
no_cover nothing uncovered code (_ ∷ _) (_ ∷ _) = skip

unfoldable pub cover_reconstructed : List RecordView → Option String → Run (List RecordView)
unfolding examination_ok
cover_reconstructed usable nothing = do
  let exams = of_kind "examination" usable
  let good = keep (λ rv. examination_ok (payload_or_empty rv)) exams
  no_cover nothing "reconstructed-row-uncovered" "examination-covers-nothing" exams good
  pure good

-- The interception records whose commitment is well formed.
unfoldable pub committed : List RecordView → Run (List RecordView)
unfolding commitment_array_ok
committed [] = pure []
committed (rv ∷ rvs) = do
  let v = get "aeePayloadCommitment" (payload_or_empty rv)
  add_if (is_none v) "payload-missing-reserved"
  add_if (not (is_none v) && not (commitment_array_ok v)) "payload-commitment-malformed"
  rest ← committed rvs
  pure (if not (is_none v) && commitment_array_ok v then rv ∷ rest else rest)

abbrev pub caught_cover : Option String → List RecordView → Run (List RecordView)
caught_cover nothing [] = do add (uncovered_code nothing "caught-row-uncovered"); pure []
caught_cover nothing (rv ∷ rvs) = committed (rv ∷ rvs)

unfoldable pub cover_caught : List RecordView → Option String → Run (List RecordView)
unfolding committed
cover_caught usable nothing = caught_cover nothing (of_kind "interception" usable)

-- The posture claims of the arming records in a list.
unfoldable pub arming_postures : List RecordView → List String
arming_postures [] = []
arming_postures (rv ∷ rvs) = elim (is_text "arming" (kind rv)) [
  | false ↦ arming_postures rvs
  | true ↦ elim (get "aeePostureDigest" (payload_or_empty rv)) [
    | str s ↦ s ∷ arming_postures rvs
    | _ ↦ arming_postures rvs
  ]
]

-- The records that cover a row can have a payload and a JSON media type.
abbrev pub is_usable : RecordView → Bool
is_usable rv = elim (rv.payload) [ none ↦ false | some _ ↦ rv.media_ok ]

module _ (P : Platform) (st : VerifyState) where
  unfoldable pub armed : List RecordView → Run (List RecordView)
  unfolding arming_ok
  armed [] = pure []
  armed (rv ∷ rvs) = do
    ok ← arming_ok P (payload_or_empty rv) st.pinned_posture st.issued_at st.declared_attacks
    rest ← armed rvs
    pure (if ok then rv ∷ rest else rest)

  unfoldable pub clean_arm : List RecordView → Option String → Run (List RecordView)
  unfolding armed
  clean_arm usable nothing = do
    let armings = of_kind "arming" usable
    good ← armed armings
    no_cover nothing "clean-row-uncovered" "arming-covers-nothing" armings good
    pure good

  unfoldable pub clean_seal : List RecordView → Option String → Run (List RecordView)
  unfolding arming_postures sealed_ok
  clean_seal usable nothing = do
    let sealeds = of_kind "sealed" usable
    let good =
        keep
          (λ rv.
            sealed_ok (payload_or_empty rv) st.pinned_posture (arming_postures usable)
              st.declared_attacks)
          sealeds
    no_cover nothing "clean-row-uncovered" "sealed-covers-nothing" sealeds good
    pure good

  unfoldable pub cover_clean : List RecordView → Option String → Run (List RecordView)
  unfolding clean_arm clean_seal
  cover_clean usable nothing = do
    good_arm ← clean_arm usable nothing
    good_seal ← clean_seal usable nothing
    pure (good_arm ++ good_seal)

  unfoldable pub class_match : Fields → List RecordView → Run (List RecordView)
  unfolding covers_nothing cover_reconstructed cover_caught cover_clean
  class_match r ref_views = do
    let usable = keep is_usable ref_views
    nothing ← covers_nothing usable
    if is_text "reconstructed" (get "method" r)
        then cover_reconstructed usable nothing
        else (if in_caught st (get "containmentObserved" r)
            then cover_caught usable nothing
            else cover_clean usable nothing)
