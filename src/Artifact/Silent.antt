-- ===== src/Artifact/Silent.antt =====
-- What it means that a check of tools/artifact-binding/verify.py adds no code.
use aee_conformance.Base.{
  ℕ, String, Bool, true, false, not, Option, none, some, List, [], ◌∷◌, ◌≡◌, refl, sym, ap, ◌∙◌,
  All, keep, if◌then◌else◌, length, ◌==◌, ==_iff, mem_str,
}
use aee_conformance.Base.Int.{pos}
use aee_conformance.Py.Value.{int, obj, Fields, get, eq, is_text}
use aee_conformance.Py.Run.{
  done, ◌>>◌, pure, skip, add, add_if, for_each, >>=-eq-silent, >>-eq-silent, add_if-eq-skip,
  done-injective,
}
use aee_conformance.Artifact.Tools.{Tools, Disk}
use aee_conformance.Artifact.Jcs.{canonical_bytes}
use aee_conformance.Artifact.Paths.{
  IsBelow, is_unsafe-IsBelow, IsComplete, is_incomplete-IsComplete,
}
use aee_conformance.Artifact.Verify.{
  schema_version, required_roles, text_at, is_unsafe, check_signer, verify_bytes, signed_by,
  check_signature, check_file, check_entry, check_entries, covered, roles_of, missing_roles,
  check_profile, is_incomplete, check_dependencies, check_outcome, check_atif, check_rest,
  check_record,
}

pub not-false : (b : Bool) → not b ≡ false → b ≡ true
not-false true h = refl
not-false false h = cc

-- All of `p` when nothing is left over.
none_left :
    (roles ms : List String)
    → keep (λ role. not (mem_str role roles)) ms ≡ []
    → All (λ role. mem_str role roles ≡ true) ms
none_left roles [] h = tt
none_left roles (m ∷ ms) h = split (mem_str m roles) refl (none_left roles ms) h
  where
    split :
        (b : Bool)
        → mem_str m roles ≡ b
        → (keep (λ role. not (mem_str role roles)) ms ≡ []
            → All (λ role. mem_str role roles ≡ true) ms)
        → (if not b
            then m ∷ keep (λ role. not (mem_str role roles)) ms
            else keep (λ role. not (mem_str role roles)) ms)
          ≡ []
        → (mem_str m roles ≡ true) × All (λ role. mem_str role roles ≡ true) ms
    split true e ih h = (e, ih h)
    split false e ih h = cc

silent_profile :
    (ms : List String) → for_each ms (λ role. add "required-role-absent") ≡ skip → ms ≡ []
unfolding for_each
silent_profile [] h = refl
silent_profile (m ∷ ms) h = absurd (added (>>-eq-silent (add "required-role-absent") _ h).0)
  where
    added : add "required-role-absent" ≡ skip → ⊥
    added e = cc

module _ (T : Tools) where
  -- The path of the entry is below the trial directory by its text, and a file of the declared length and
  -- digest is there.
  abbrev pub IsCovered : Disk → Fields → Type 0
  IsCovered disk entry =
      IsBelow (text_at T "path" entry)
      × (blob : List ℕ) × (disk (text_at T "path" entry) ≡ some blob)
      × (eq (int (pos (length blob))) (get "length" entry) ≡ true)
      × (is_text (T.sha256_hex blob) (get "sha256" entry) ≡ true)

  -- 64 bytes, raw or in hexadecimal, that the pinned key verifies over the bytes as stored.
  abbrev pub IsSigned : List ℕ → List ℕ → List ℕ → Type 0
  IsSigned raw stored key =
      (signature : List ℕ) × ((if length (T.strip stored) == 128
          then T.unhex (T.strip stored)
          else some (T.strip stored))
        ≡ some signature)
      × (length signature ≡ 64)
      × (T.ed25519 key raw signature ≡ true)

  abbrev pub IsBacked : Disk → List ℕ → List ℕ → List ℕ → Fields → Type 0
  IsBacked disk raw stored key rec =
      (is_text (T.sha256_hex key) (get "signer_key_id" rec) ≡ true)
      × IsSigned raw stored key
      × All (IsCovered disk) (covered T rec)
      × All (λ role. mem_str role (roles_of T (covered T rec)) ≡ true) required_roles
      × IsComplete (get "dependencies" rec)
      × (check_outcome T disk rec ≡ skip)
      × (check_atif T disk rec ≡ skip)

  abbrev pub IsCanonicalRecord : List ℕ → Fields → Type 0
  IsCanonicalRecord raw rec =
      (T.json_loads raw ≡ some (obj rec))
      × (canonical_bytes T.float_repr (obj rec) ≡ some raw)
      × (is_text schema_version (get "schema_version" rec) ≡ true)

  silent_file :
      (entry : Fields) (o : Option (List ℕ)) {b : Bool}
      → check_file T entry o ≡ done b []
      → (blob : List ℕ) × (o ≡ some blob)
        × (eq (int (pos (length blob))) (get "length" entry) ≡ true)
        × (is_text (T.sha256_hex blob) (get "sha256" entry) ≡ true)
  unfolding check_file
  silent_file entry none h = absurd (added (>>-eq-silent (add "artifact-absent") (pure true) h).0)
    where
      added : add "artifact-absent" ≡ skip → ⊥
      added e = cc
  silent_file entry (some blob) h =
      let (e1, h1) =
        >>-eq-silent
          (add_if (not (eq (int (pos (length blob))) (get "length" entry)))
            "artifact-length-mismatch")
          _ h in
      let (e2, h2) =
        >>-eq-silent
          (add_if (not (is_text (T.sha256_hex blob) (get "sha256" entry)))
            "artifact-digest-mismatch")
          _ h1 in
      (
        blob,
        refl,
        not-false _ (add_if-eq-skip _ "artifact-length-mismatch" e1),
        not-false _ (add_if-eq-skip _ "artifact-digest-mismatch" e2),
      )

  silent_entry :
      (disk : Disk) (entry : Fields) {b : Bool}
      → check_entry T disk entry ≡ done b []
      → IsCovered disk entry
  unfolding check_entry
  silent_entry disk entry h = safe (is_unsafe (text_at T "path" entry)) refl h
    where
      added : add "artifact-path-unsafe" ≡ skip → ⊥
      added e = cc

      safe :
          (u : Bool)
          → is_unsafe (text_at T "path" entry) ≡ u
          → {b : Bool}
          → (if u
              then (add "artifact-path-unsafe" >> pure false)
              else check_file T entry (disk (text_at T "path" entry)))
            ≡ done b []
          → IsCovered disk entry
      safe true e h = absurd (added (>>-eq-silent (add "artifact-path-unsafe") (pure false) h).0)
      safe false e h =
          let (blob, there, sized, hashed) = silent_file entry (disk (text_at T "path" entry)) h in
          (is_unsafe-IsBelow (text_at T "path" entry) e, blob, there, sized, hashed)

  silent_entries :
      (disk : Disk) (es : List Fields) {b : Bool}
      → check_entries T disk es ≡ done b []
      → All (IsCovered disk) es
  unfolding check_entries
  silent_entries disk [] h = tt
  silent_entries disk (e ∷ es) h =
      let (a, e1, h1) = >>=-eq-silent (check_entry T disk e) _ h in
      let (o, e2, h2) = >>=-eq-silent (check_entries T disk es) _ h1 in
      (silent_entry disk e e1, silent_entries disk es e2)

  silent_signature :
      (key raw stored : List ℕ) → check_signature T key raw stored ≡ skip → IsSigned raw stored key
  unfolding check_signature verify_bytes
  silent_signature key raw stored h =
      found
        (if length (T.strip stored) == 128 then T.unhex (T.strip stored) else some (T.strip stored))
        refl h
    where
      sized :
          (b : Bool) (signature : List ℕ)
          → (length signature == 64) ≡ b
          → (if b then T.ed25519 key raw signature else false) ≡ true
          → (length signature ≡ 64) × (T.ed25519 key raw signature ≡ true)
      sized true signature e h = ((==_iff _ _).0 e, h)
      sized false signature e h = cc

      found :
          (o : Option (List ℕ))
          → (if length (T.strip stored) == 128
              then T.unhex (T.strip stored)
              else some (T.strip stored))
            ≡ o
          → signed_by T key raw o ≡ skip
          → IsSigned raw stored key
      found none e h = cc
      found (some signature) e h =
          let (long, good) =
            sized (length signature == 64) signature refl
              (not-false _ (add_if-eq-skip _ "signature-invalid" h)) in
          (signature, e, long, good)

  silent_signer :
      (key : List ℕ) (rec : Fields) {b : Bool}
      → check_signer T rec key ≡ done b []
      → (is_text (T.sha256_hex key) (get "signer_key_id" rec) ≡ true) × (b ≡ true)
  unfolding check_signer
  silent_signer key rec h =
      let (e, k) =
        >>-eq-silent
          (add_if (not (is_text (T.sha256_hex key) (get "signer_key_id" rec)))
            "signer-key-mismatch")
          (pure (is_text (T.sha256_hex key) (get "signer_key_id" rec))) h in
      let named = not-false _ (add_if-eq-skip _ "signer-key-mismatch" e) in
      (named, sym (done-injective k) ∙ named)

  pub silent_record :
      (disk : Disk) (raw stored key : List ℕ) (rec : Fields) {b : Bool}
      → check_record T disk raw stored key rec ≡ done b []
      → IsBacked disk raw stored key rec
  unfolding check_record check_rest check_profile check_dependencies
  silent_record disk raw stored key rec h =
      let (same, e1, h1) =
        >>=-eq-silent (check_signer T rec key) (check_rest T disk raw stored key rec) h in
      let (named, is_same) = silent_signer key rec e1 in
      let (e2, h2) =
        >>-eq-silent (check_signature T key raw stored) _
          (sym (ap (check_rest T disk raw stored key rec) is_same) ∙ h1) in
      let (absent, e3, h3) = >>=-eq-silent (check_entries T disk (covered T rec)) _ h2 in
      let (missing, e4, h4) = >>=-eq-silent (check_profile (roles_of T (covered T rec))) _ h3 in
      let (incomplete, e5, h5) = >>=-eq-silent (check_dependencies rec) _ h4 in
      let (e6, h6) = >>-eq-silent (check_outcome T disk rec) _ h5 in
      let (e7, h7) = >>-eq-silent (check_atif T disk rec) _ h6 in
      let listed : for_each (missing_roles (roles_of T (covered T rec)))
            (λ role. add "required-role-absent")
          ≡ skip =
        (>>-eq-silent
          (for_each (missing_roles (roles_of T (covered T rec)))
            (λ role. add "required-role-absent"))
          _ e4).0 in
      let complete =
        (>>-eq-silent (add_if (is_incomplete (get "dependencies" rec)) "dependencies-incomplete")
          (pure (is_incomplete (get "dependencies" rec))) e5).0 in
      (
        named,
        silent_signature key raw stored e2,
        silent_entries disk (covered T rec) e3,
        none_left (roles_of T (covered T rec)) required_roles
            (silent_profile (missing_roles (roles_of T (covered T rec))) listed),
        is_incomplete-IsComplete (get "dependencies" rec)
            (add_if-eq-skip _ "dependencies-incomplete" complete),
        e6,
        e7,
      )
