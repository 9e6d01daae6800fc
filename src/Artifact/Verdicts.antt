-- ===== src/Artifact/Verdicts.antt =====
-- The three verdicts of tools/artifact-binding/verify.py and the codes that they rest on.
use mathlib.Core.Option
use aee_conformance.Base.{
  ℕ, String, Bool, true, false, not, Option, none, some, List, [], ◌∷◌, ◌≡◌, refl, ◌∙◌, is_empty,
  if◌then◌else◌, length, ◌==◌, str_eq,
}
use aee_conformance.Py.Value.{
  Value, null, bool, int, float, real, str, arr, obj, Fields, get, eq, is_text, truthy,
}
use aee_conformance.Py.Run.{raised, value_error, ◌>>◌, pure, skip, add, add_if, for_each}
use aee_conformance.Artifact.Tools.{Tools, Disk}
use aee_conformance.Artifact.Verify.{
  text_at, is_unsafe, check_signer, check_signature, check_file, check_entry, check_entries,
  covered, roles_of, missing_roles, check_profile, is_incomplete, check_dependencies, check_reward,
  check_outcome, entries, reward_of, check_trajectory, signed_by, check_atif_pointer,
  trajectory_entry, check_atif, check_rest, check_record,
}
use aee_conformance.Artifact.Codes.{
  >>=-eq, IsHard, pure-IsHard, add-IsHard, add_if-IsHard, raised-IsHard, >>=-IsHard, flag_same,
  codes_same, IsFlagged, false-IsFlagged, add-IsFlagged, add_if-IsFlagged, >>-IsFlagged,
  >>=-IsFlagged, or-IsFlagged, three, three-IsFlagged,
}

profile-IsFlagged : (roles : List String) → IsFlagged (check_profile roles)
unfolding check_profile for_each
profile-IsFlagged roles = listed (missing_roles roles)
  where
    apart : true ≡ false → ⊥
    apart q = cc

    listed :
        (ms : List String)
        → IsFlagged (for_each ms (λ role. add "required-role-absent") >> pure (not (is_empty ms)))
    listed [] b cs h n = false-IsFlagged b cs h n
    listed (r ∷ rs) b cs h n =
        let (u, c1, r1, e1, f1, s1) =
          >>=-eq (for_each (r ∷ rs) (λ role. add "required-role-absent")) (λ _. pure true) h in
        let (v, c2, r2, e2, f2, s2) =
          >>=-eq (add "required-role-absent")
            (λ _. for_each rs (λ role. add "required-role-absent")) e1 in
        (
          (λ e. absurd (apart (flag_same f1 ∙ e))),
          (λ t. rw (← s1, ← s2, ← codes_same e2) (λ e. cc)),
        )

dependencies-IsFlagged : (rec : Fields) → IsFlagged (check_dependencies rec)
unfolding check_dependencies
dependencies-IsFlagged rec =
    add_if-IsFlagged (is_incomplete (get "dependencies" rec)) "dependencies-incomplete"

atif_pointer-IsHard : (atif : Fields) (v : Option Value) → IsHard (check_atif_pointer atif v)
unfolding check_atif_pointer
atif_pointer-IsHard atif (some (obj payload)) = add_if-IsHard _ "atif-trajectory-id-mismatch" refl
atif_pointer-IsHard atif (some null) = pure-IsHard tt
atif_pointer-IsHard atif (some (bool b)) = pure-IsHard tt
atif_pointer-IsHard atif (some (int n)) = pure-IsHard tt
atif_pointer-IsHard atif (some (float n)) = pure-IsHard tt
atif_pointer-IsHard atif (some (real s)) = pure-IsHard tt
atif_pointer-IsHard atif (some (str s)) = pure-IsHard tt
atif_pointer-IsHard atif (some (arr xs)) = pure-IsHard tt
atif_pointer-IsHard atif none = pure-IsHard tt

module _ (T : Tools) (disk : Disk) where
  file-IsFlagged : (entry : Fields) (o : Option (List ℕ)) → IsFlagged (check_file T entry o)
  unfolding check_file
  file-IsFlagged entry none = add-IsFlagged "artifact-absent"
  file-IsFlagged entry (some blob) =
      >>-IsFlagged _ _ (add_if-IsHard _ "artifact-length-mismatch" refl)
        (>>-IsFlagged _ _ (add_if-IsHard _ "artifact-digest-mismatch" refl) false-IsFlagged)

  entry-IsFlagged : (entry : Fields) → IsFlagged (check_entry T disk entry)
  unfolding check_entry
  entry-IsFlagged entry = safe (is_unsafe (text_at T "path" entry))
    where
      safe :
          (b : Bool)
          → IsFlagged (
              if b
              then (add "artifact-path-unsafe" >> pure false)
              else check_file T entry (disk (text_at T "path" entry)))
      safe true = >>-IsFlagged _ _ (add-IsHard "artifact-path-unsafe" refl) false-IsFlagged
      safe false = file-IsFlagged entry (disk (text_at T "path" entry))

  entries-IsFlagged : (es : List Fields) → IsFlagged (check_entries T disk es)
  unfolding check_entries
  entries-IsFlagged [] = false-IsFlagged
  entries-IsFlagged (e ∷ es) = or-IsFlagged _ _ (entry-IsFlagged e) (entries-IsFlagged es)

  matches_float-IsHard :
      (actual : Value) (o : Option Value)
      → IsHard (elim o [
        | none ↦ raised value_error
        | some x ↦ add_if (not (eq x actual)) "graded-outcome-mismatch"
      ])
  matches_float-IsHard actual none = raised-IsHard value_error
  matches_float-IsHard actual (some x) = add_if-IsHard _ "graded-outcome-mismatch" refl

  reward-IsHard : (actual v : Value) → IsHard (check_reward T actual v)
  unfolding check_reward
  reward-IsHard actual (int n) = matches_float-IsHard actual (T.to_float (int n))
  reward-IsHard actual (bool b) = matches_float-IsHard actual (T.to_float (bool b))
  reward-IsHard actual (float n) = add_if-IsHard _ "graded-outcome-mismatch" refl
  reward-IsHard actual (real s) = not_a_number (str_eq s "nan")
    where
      not_a_number :
          (b : Bool)
          → IsHard (
              if b
              then add "graded-outcome-mismatch"
              else add_if (not (eq (real s) actual)) "graded-outcome-mismatch")
      not_a_number true = add-IsHard "graded-outcome-mismatch" refl
      not_a_number false = add_if-IsHard _ "graded-outcome-mismatch" refl
  reward-IsHard actual null = add-IsHard "graded-outcome-mismatch" refl
  reward-IsHard actual (str s) = add-IsHard "graded-outcome-mismatch" refl
  reward-IsHard actual (arr xs) = add-IsHard "graded-outcome-mismatch" refl
  reward-IsHard actual (obj fs) = add-IsHard "graded-outcome-mismatch" refl

  outcome-IsHard : (rec : Fields) → IsHard (check_outcome T disk rec)
  unfolding check_outcome
  outcome-IsHard rec = graded (get "graded_outcome" rec)
    where
      read :
          (g : Fields) (o : Option Value)
          → IsHard (elim o [ none ↦ skip | some actual ↦ check_reward T actual (get "reward" g) ])
      read g none = pure-IsHard tt
      read g (some actual) = reward-IsHard actual (get "reward" g)

      sourced : (g : Fields) (v : Value) → IsHard (reward_of T disk g v)
      sourced g (str source) = read g (Option.bind (disk source) T.read_float)
      sourced g null = pure-IsHard tt
      sourced g (bool b) = pure-IsHard tt
      sourced g (int n) = pure-IsHard tt
      sourced g (float n) = pure-IsHard tt
      sourced g (real s) = pure-IsHard tt
      sourced g (arr xs) = pure-IsHard tt
      sourced g (obj fs) = pure-IsHard tt

      graded :
          (v : Value)
          → IsHard (elim v [ obj g ↦ reward_of T disk g (get "source_path" g) | _ ↦ skip ])
      graded (obj g) = sourced g (get "source_path" g)
      graded null = pure-IsHard tt
      graded (bool b) = pure-IsHard tt
      graded (int n) = pure-IsHard tt
      graded (float n) = pure-IsHard tt
      graded (real s) = pure-IsHard tt
      graded (str s) = pure-IsHard tt
      graded (arr xs) = pure-IsHard tt

  atif-IsHard : (rec : Fields) → IsHard (check_atif T disk rec)
  unfolding check_atif
  atif-IsHard rec = linked (get "atif" rec)
    where
      found : (atif : Fields) (o : Option Fields) → IsHard (check_trajectory T disk atif o)
      found atif none = pure-IsHard tt
      found atif (some entry) =
          >>=-IsHard _ _ (add_if-IsHard _ "atif-document-digest-mismatch" refl) (λ _.
            atif_pointer-IsHard atif (Option.bind (disk (text_at T "path" entry)) T.json_loads))

      present :
          (b : Bool) (atif : Fields)
          → IsHard (
              if b
              then check_trajectory T disk atif (trajectory_entry (entries rec "artifacts"))
              else skip)
      present true atif = found atif (trajectory_entry (entries rec "artifacts"))
      present false atif = pure-IsHard tt

      linked :
          (v : Value)
          → IsHard (elim v [
            | obj atif ↦
                if truthy (get "present" atif)
                then check_trajectory T disk atif (trajectory_entry (entries rec "artifacts"))
                else skip
            | _ ↦ skip
          ])
      linked (obj atif) = present (truthy (get "present" atif)) atif
      linked null = pure-IsHard tt
      linked (bool b) = pure-IsHard tt
      linked (int n) = pure-IsHard tt
      linked (float n) = pure-IsHard tt
      linked (real s) = pure-IsHard tt
      linked (str s) = pure-IsHard tt
      linked (arr xs) = pure-IsHard tt

  signature-IsHard : (key raw stored : List ℕ) → IsHard (check_signature T key raw stored)
  unfolding check_signature
  signature-IsHard key raw stored =
      signed
        (if length (T.strip stored) == 128 then T.unhex (T.strip stored) else some (T.strip stored))
    where
      signed : (o : Option (List ℕ)) → IsHard (signed_by T key raw o)
      signed none = raised-IsHard value_error
      signed (some blob) = add_if-IsHard _ "signature-invalid" refl

  rest-IsFlagged :
      (key raw stored : List ℕ) (rec : Fields) (same : Bool)
      → IsFlagged (check_rest T disk raw stored key rec same)
  unfolding check_rest
  rest-IsFlagged key raw stored rec same =
      >>-IsFlagged (if same then check_signature T key raw stored else skip)
        (three (check_entries T disk (covered T rec)) (check_profile (roles_of T (covered T rec)))
          (check_dependencies rec) (check_outcome T disk rec) (check_atif T disk rec))
        (signed same)
        (three-IsFlagged (check_entries T disk (covered T rec))
          (check_profile (roles_of T (covered T rec))) (check_dependencies rec)
          (check_outcome T disk rec) (check_atif T disk rec) (entries-IsFlagged (covered T rec))
          (profile-IsFlagged (roles_of T (covered T rec))) (dependencies-IsFlagged rec)
          (outcome-IsHard rec) (atif-IsHard rec))
    where
      signed : (b : Bool) → IsHard (if b then check_signature T key raw stored else skip)
      signed true = signature-IsHard key raw stored
      signed false = pure-IsHard tt

  signer-IsHard : (key : List ℕ) (rec : Fields) → IsHard (check_signer T rec key)
  unfolding check_signer
  signer-IsHard key rec =
      >>=-IsHard
        (add_if (not (is_text (T.sha256_hex key) (get "signer_key_id" rec))) "signer-key-mismatch")
        (λ _. pure (is_text (T.sha256_hex key) (get "signer_key_id" rec)))
        (add_if-IsHard _ "signer-key-mismatch" refl) (λ _. pure-IsHard _)

  pub record-IsFlagged :
      (key raw stored : List ℕ) (rec : Fields) → IsFlagged (check_record T disk raw stored key rec)
  unfolding check_record
  record-IsFlagged key raw stored rec =
      >>=-IsFlagged (check_signer T rec key) (check_rest T disk raw stored key rec)
        (signer-IsHard key rec) (rest-IsFlagged key raw stored rec)
