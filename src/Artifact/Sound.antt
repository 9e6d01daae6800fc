-- ===== src/Artifact/Sound.antt =====
-- What a verified record of tools/artifact-binding/verify.py stands for: the silence of each check.
use aee_conformance.Base.{
  ℕ, String, Bool, true, not, Option, none, some, List, [], ◌≡◌, refl, sym, ap, ◌∙◌, list_eq→eq,
}
use aee_conformance.Py.Value.{
  Value, null, bool, int, float, real, str, arr, obj, Fields, get, is_text,
}
use aee_conformance.Py.Run.{
  Run, done, raised, ◌>>=◌, ◌>>◌, pure, skip, add, add_if, >>=-eq-silent, >>-eq-silent,
  add_if-eq-skip, done-injective,
}
use aee_conformance.Artifact.Tools.{Tools, Disk}
use aee_conformance.Artifact.Jcs.{canonical_bytes}
use aee_conformance.Artifact.Verify.{
  Verdict, verified, finished, schema_version, canonical_as, is_canonical, encoded, check_encoding,
  check_record, checks_of, verify_record,
}
use aee_conformance.Artifact.Outcomes.{returned, verify_record-IsExplained}
use aee_conformance.Artifact.Silent.{not-false, IsCanonicalRecord, IsBacked, silent_record}

unparsed : {o : Option Fields} → (add "manifest-unparseable" >> pure none) ≡ done o [] → ⊥
unparsed h = added (>>-eq-silent (add "manifest-unparseable") (pure none) h).0
  where
    added : add "manifest-unparseable" ≡ skip → ⊥
    added e = cc

module _ (T : Tools) where
  silent_encoding :
      (raw : List ℕ) (v : Option Value) {o : Option Fields}
      → T.json_loads raw ≡ v
      → encoded T raw v ≡ done o []
      → (rec : Fields) × (o ≡ some rec) × IsCanonicalRecord T raw rec
  unfolding is_canonical
  silent_encoding raw (some (obj rec)) {o = o} p h =
      let (same, e1, h1) =
        >>=-eq-silent (canonical_as T raw (canonical_bytes T.float_repr (obj rec))) _ h in
      let (e2, h2) = >>-eq-silent (add_if (not same) "manifest-encoding-not-canonical") _ h1 in
      let (e3, h3) =
        >>-eq-silent
          (add_if (not (is_text schema_version (get "schema_version" rec)))
            "schema-version-unsupported")
          _ h2 in
      (
        rec,
        sym (done-injective h3),
        (
          p,
          bytes (canonical_bytes T.float_repr (obj rec)) refl e1
              (not-false same (add_if-eq-skip (not same) "manifest-encoding-not-canonical" e2)),
          not-false _ (add_if-eq-skip _ "schema-version-unsupported" e3),
        ),
      )
    where
      bytes :
          (o : Option (List ℕ)) {b : Bool}
          → canonical_bytes T.float_repr (obj rec) ≡ o
          → canonical_as T raw o ≡ done b []
          → b ≡ true
          → canonical_bytes T.float_repr (obj rec) ≡ some raw
      bytes none e h t = cc
      bytes (some t) e h k = e ∙ ap some (list_eq→eq t raw (done-injective h ∙ k))
  silent_encoding raw none p h = absurd (unparsed h)
  silent_encoding raw (some null) p h = absurd (unparsed h)
  silent_encoding raw (some (bool b)) p h = absurd (unparsed h)
  silent_encoding raw (some (int n)) p h = absurd (unparsed h)
  silent_encoding raw (some (float n)) p h = absurd (unparsed h)
  silent_encoding raw (some (real t)) p h = absurd (unparsed h)
  silent_encoding raw (some (str t)) p h = absurd (unparsed h)
  silent_encoding raw (some (arr xs)) p h = absurd (unparsed h)

  silent_checks :
      (disk : Disk) (raw stored key : List ℕ) {b : Option Bool}
      → (check_encoding T raw >>= checks_of T disk raw stored key) ≡ done b []
      → (rec : Fields) × IsCanonicalRecord T raw rec × IsBacked T disk raw stored key rec
  unfolding check_encoding
  silent_checks disk raw stored key h =
      let (o, e1, h1) =
        >>=-eq-silent (encoded T raw (T.json_loads raw)) (checks_of T disk raw stored key) h in
      let (rec, is_some, canonical) = silent_encoding raw (T.json_loads raw) refl e1 in
      let (l, e2, h2) =
        >>=-eq-silent (check_record T disk raw stored key rec) (λ l. pure (some l))
          (sym (ap (checks_of T disk raw stored key) is_some) ∙ h1) in
      (rec, canonical, silent_record T disk raw stored key rec e2)

-- A verified record is an object that is stored as its canonical bytes, of the contract's version; it names
-- the pinned key, which verifies the 64 bytes of the signature over the stored bytes; each file that it
-- covers has a path that is, by its text, relative and of parts between slashes none of which is `..`, and
-- is there with the declared length and digest; every role of the profile is covered, the dependencies are
-- no object whose status says incomplete, and the checks of the graded outcome and of the trajectory add
-- nothing.
pub verified-IsBacked :
    (T : Tools) (disk : Disk) (raw stored key : List ℕ) {cs : List String}
    → verify_record T disk raw stored key ≡ some (verified, cs)
    → (rec : Fields) × IsCanonicalRecord T raw rec × IsBacked T disk raw stored key rec
unfolding verify_record
verified-IsBacked T disk raw stored key {cs = cs} h =
    let explained = verify_record-IsExplained T disk raw stored key h in
    let silent = explained.0.0 refl in
    backed (check_encoding T raw >>= checks_of T disk raw stored key)
      (λ b e. silent_checks T disk raw stored key e) (h ∙ ap (λ ds. some (verified, ds)) silent)
  where
    backed :
        (m : Run (Option Bool))
        → ((b : Option Bool)
            → m ≡ done b []
            → (rec : Fields) × IsCanonicalRecord T raw rec × IsBacked T disk raw stored key rec)
        → finished m ≡ some (verified, [])
        → (rec : Fields) × IsCanonicalRecord T raw rec × IsBacked T disk raw stored key rec
    backed (raised e) g h = cc
    backed (done b ds) g h = g b (ap (done b) (silence h))
      where
        silence : {v : Verdict} → returned v ds ≡ returned verified [] → ds ≡ []
        silence e = cc
