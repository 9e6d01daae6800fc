-- ===== src/Artifact/Verify.antt =====
-- tools/artifact-binding/verify.py. A code is added as `out.codes.append` does; the messages are not kept.
use mathlib.Core.Option
use aee_conformance.Base.{
  ℕ, String, Bool, true, false, not, ◌||◌, Option, none, some, List, [], ◌∷◌, ◌++◌, any, keep,
  length, codes, list_eq, is_empty, ◌==◌, if◌then◌else◌, mem_str, str_eq,
}
use aee_conformance.Base.Int.{pos}
use aee_conformance.Py.Value.{
  Value, bool, int, float, real, str, obj, Fields, get, has, eq, is_text, truthy, list_or_empty,
}
use aee_conformance.Py.Run.{
  Run, done, raised, value_error, ◌>>=◌, ◌>>◌, pure, skip, add, add_if, for_each,
}
use aee_conformance.Verifier.Rows.{dict_rows}
use aee_conformance.Artifact.Jcs.{canonical_bytes}
use aee_conformance.Artifact.Tools.{Tools, Disk}

pub data Verdict : Type 0 where
  verified failed not_established : Verdict

-- `SCHEMA_VERSION` and `REQUIRED_ROLES` of manifest.py
abbrev pub schema_version : String
schema_version = "artifact-binding/v1"

abbrev pub required_roles : List String
required_roles =
    "atif_trajectory" ∷ "trial_result" ∷ "verifier_files" ∷ "reward" ∷ "grading_stdout"
    ∷ "grading_stderr" ∷ []

-- `_INCONCLUSIVE`
abbrev pub inconclusive : List String
inconclusive = "artifact-absent" ∷ "required-role-absent" ∷ "dependencies-incomplete" ∷ []

-- `_entries`
unfoldable pub entries : Fields → String → List Fields
unfolding dict_rows
entries rec key = dict_rows (list_or_empty (get key rec))

-- `_grading_inputs`
unfoldable pub grading_inputs : Fields → List Fields
unfolding entries
grading_inputs r = elim (get "verification_inputs" r) [
  | obj inputs ↦ entries inputs "grading_inputs"
  | _ ↦ []
]

-- `".." in Path(rel).parts or Path(rel).is_absolute()`: `parts` of the text between slashes, from the
-- first character on
unfoldable pub has_parent : List ℕ → List ℕ → Bool
has_parent part [] = list_eq part (codes "..")
has_parent part (c ∷ cs) =
    let next = has_parent [] cs in
    let longer = has_parent (part ++ (c ∷ [])) cs in
    if c == b'/' then list_eq part (codes "..") || next else longer

abbrev pub starts_with_slash : List ℕ → Bool
starts_with_slash [] = false
starts_with_slash (c ∷ _) = c == b'/'

-- A test of the text: it follows no link, as the source's follows none.
unfoldable pub is_unsafe : String → Bool
unfolding has_parent
is_unsafe rel = has_parent [] (codes rel) || starts_with_slash (codes rel)

abbrev pub missing_roles : List String → List String
missing_roles roles = keep (λ role. not (mem_str role roles)) required_roles

-- Whether any required role is missing.
unfoldable pub check_profile : List String → Run Bool
unfolding for_each
check_profile roles = do
  for_each (missing_roles roles) (λ role. add "required-role-absent")
  pure (not (is_empty (missing_roles roles)))

abbrev pub is_incomplete : Value → Bool
is_incomplete (obj dependencies) = is_text "incomplete" (get "status" dependencies)
is_incomplete _ = false

unfoldable pub check_dependencies : Fields → Run Bool
check_dependencies rec =
    let incomplete = is_incomplete (get "dependencies" rec) in
    (add_if incomplete "dependencies-incomplete" >> pure incomplete)

-- `_check_atif_pointer`, of the document if it is an object
unfoldable pub check_atif_pointer : Fields → Option Value → Run (Unit {0})
unfolding eq
check_atif_pointer atif (some (obj payload)) =
    add_if (not (eq (get "trajectory_id" atif) (get "trajectory_id" payload)))
      "atif-trajectory-id-mismatch"
check_atif_pointer atif _ = skip

-- The first covered trajectory
unfoldable pub trajectory_entry : List Fields → Option Fields
trajectory_entry [] = none
trajectory_entry (e ∷ es) =
    let rest = trajectory_entry es in
    if is_text "atif_trajectory" (get "role" e) then some e else rest

abbrev pub is_hard : String → Bool
is_hard c = not (mem_str c inconclusive)

abbrev pub verdict_of : Option Bool → List String → Verdict
verdict_of none cs = failed
verdict_of (some lacking) cs =
    if any is_hard cs then failed else if lacking then not_established else verified

abbrev pub finished : Run (Option Bool) → Option (Verdict × List String)
finished (raised e) = none
finished (done b cs) = some (verdict_of b cs, cs)

module _ (T : Tools) where
  abbrev pub as_text : Value → String
  as_text (str s) = s
  as_text v = T.str_of v

  -- `str(entry.get(key, ""))`
  unfoldable pub text_at : String → Fields → String
  text_at key entry = if has key entry then as_text (get key entry) else ""

  abbrev pub canonical_as : List ℕ → Option (List ℕ) → Run Bool
  canonical_as raw none = raised value_error
  canonical_as raw (some bytes) = pure (list_eq bytes raw)

  -- `is_canonical`, of bytes that parse to `v`
  unfoldable pub is_canonical : List ℕ → Value → Run Bool
  unfolding canonical_bytes
  is_canonical raw v = canonical_as raw (canonical_bytes T.float_repr v)

  abbrev pub encoded : List ℕ → Option Value → Run (Option Fields)
  encoded raw (some (obj rec)) = do
    same ← is_canonical raw (obj rec)
    add_if (not same) "manifest-encoding-not-canonical"
    add_if (not (is_text schema_version (get "schema_version" rec))) "schema-version-unsupported"
    pure (some rec)
  encoded raw _ = do add "manifest-unparseable"; pure none

  unfoldable pub check_encoding : List ℕ → Run (Option Fields)
  unfolding is_canonical
  check_encoding raw = encoded raw (T.json_loads raw)

  -- Whether the record names the pinned key.
  unfoldable pub check_signer : Fields → List ℕ → Run Bool
  check_signer rec public_key =
      let same = is_text (T.sha256_hex public_key) (get "signer_key_id" rec) in
      (add_if (not same) "signer-key-mismatch" >> pure same)

  -- `verify_bytes` of sign.py
  unfoldable pub verify_bytes : List ℕ → List ℕ → List ℕ → Bool
  verify_bytes public_key message signature =
      if length signature == 64 then T.ed25519 public_key message signature else false

  abbrev pub signed_by : List ℕ → List ℕ → Option (List ℕ) → Run (Unit {0})
  signed_by public_key raw none = raised value_error
  signed_by public_key raw (some blob) =
      add_if (not (verify_bytes public_key raw blob)) "signature-invalid"

  -- The signature of a record whose signer is the pinned key.
  unfoldable pub check_signature : List ℕ → List ℕ → List ℕ → Run (Unit {0})
  unfolding verify_bytes
  check_signature public_key raw stored =
      let signature = T.strip stored in
      signed_by public_key raw
        (if length signature == 128 then T.unhex signature else some signature)

  -- The file of an entry: whether it was absent.
  unfoldable pub check_file : Fields → Option (List ℕ) → Run Bool
  unfolding eq
  check_file entry none = do add "artifact-absent"; pure true
  check_file entry (some blob) = do
    add_if (not (eq (int (pos (length blob))) (get "length" entry))) "artifact-length-mismatch"
    add_if (not (is_text (T.sha256_hex blob) (get "sha256" entry))) "artifact-digest-mismatch"
    pure false

  unfoldable pub check_entry : Disk → Fields → Run Bool
  unfolding text_at is_unsafe check_file
  check_entry disk entry =
      if is_unsafe (text_at "path" entry)
      then (do add "artifact-path-unsafe"; pure false)
      else check_file entry (disk (text_at "path" entry))

  -- Whether any covered file was absent.
  unfoldable pub check_entries : Disk → List Fields → Run Bool
  unfolding check_entry
  check_entries disk [] = pure false
  check_entries disk (entry ∷ rest) = do
    absent ← check_entry disk entry
    others ← check_entries disk rest
    pure (absent || others)

  abbrev pub covered : Fields → List Fields
  covered rec = entries rec "artifacts" ++ grading_inputs rec

  -- The roles that were checked
  abbrev pub roles_of : List Fields → List String
  roles_of [] = []
  roles_of (entry ∷ rest) = text_at "role" entry ∷ roles_of rest

  -- `isinstance(declared, int | float)`, and then whether its float is `actual`
  abbrev pub matches_float : Value → Option Value → Run (Unit {0})
  matches_float actual none = raised value_error
  matches_float actual (some x) = add_if (not (eq x actual)) "graded-outcome-mismatch"

  unfoldable pub check_reward : Value → Value → Run (Unit {0})
  unfolding eq
  check_reward actual (int n) = matches_float actual (T.to_float (int n))
  check_reward actual (bool b) = matches_float actual (T.to_float (bool b))
  check_reward actual (float n) = matches_float actual (some (float n))
  check_reward actual (real s) =
      if str_eq s "nan" then add "graded-outcome-mismatch" else matches_float actual (some (real s))
  check_reward actual _ = add "graded-outcome-mismatch"

  abbrev pub reward_of : Disk → Fields → Value → Run (Unit {0})
  reward_of disk graded (str source) = elim (Option.bind (disk source) T.read_float) [
    | none ↦ skip
    | some actual ↦ check_reward actual (get "reward" graded)
  ]
  reward_of disk graded _ = skip

  unfoldable pub check_outcome : Disk → Fields → Run (Unit {0})
  unfolding check_reward Option.bind
  check_outcome disk rec = elim (get "graded_outcome" rec) [
    | obj graded ↦ reward_of disk graded (get "source_path" graded)
    | _ ↦ skip
  ]

  abbrev pub check_trajectory : Disk → Fields → Option Fields → Run (Unit {0})
  check_trajectory disk atif none = skip
  check_trajectory disk atif (some entry) = do
    add_if (not (eq (get "document_sha256" atif) (get "sha256" entry)))
        "atif-document-digest-mismatch"
    check_atif_pointer atif (Option.bind (disk (text_at "path" entry)) T.json_loads)

  unfoldable pub check_atif : Disk → Fields → Run (Unit {0})
  unfolding eq trajectory_entry check_atif_pointer text_at entries Option.bind
  check_atif disk rec = elim (get "atif" rec) [
    | obj atif ↦
        if truthy (get "present" atif)
        then check_trajectory disk atif (trajectory_entry (entries rec "artifacts"))
        else skip
    | _ ↦ skip
  ]

  -- The checks of `verify` after the signer's: whether something that the record needs is absent.
  unfoldable pub check_rest : Disk → List ℕ → List ℕ → List ℕ → Fields → Bool → Run Bool
  unfolding check_signature check_entries check_profile check_dependencies check_outcome check_atif
      grading_inputs entries
  check_rest disk raw stored public_key rec same = do
    if same then check_signature public_key raw stored else skip
    absent ← check_entries disk (covered rec)
    missing ← check_profile (roles_of (covered rec))
    incomplete ← check_dependencies rec
    check_outcome disk rec
    check_atif disk rec
    pure (absent || (missing || incomplete))

  unfoldable pub check_record : Disk → List ℕ → List ℕ → List ℕ → Fields → Run Bool
  unfolding check_signer check_rest
  check_record disk raw stored public_key rec =
      check_signer rec public_key >>= check_rest disk raw stored public_key rec

  abbrev pub checks_of : Disk → List ℕ → List ℕ → List ℕ → Option Fields → Run (Option Bool)
  checks_of disk raw stored public_key none = pure none
  checks_of disk raw stored public_key (some rec) =
      check_record disk raw stored public_key rec >>= λ b. pure (some b)

  -- `verify`, of the stored bytes of the manifest and of its signature; `none` is an exception.
  unfoldable pub verify_record : Disk → List ℕ → List ℕ → List ℕ → Option (Verdict × List String)
  unfolding check_encoding check_record
  verify_record disk raw stored public_key =
      finished (check_encoding raw >>= checks_of disk raw stored public_key)
