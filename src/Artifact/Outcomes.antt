-- ===== src/Artifact/Outcomes.antt =====
-- When tools/artifact-binding/verify.py gives each of its three verdicts.
use aee_conformance.Base.{
  ℕ, String, Bool, true, false, not, ◌↔◌, Option, none, some, List, [], ◌≡◌, ◌≢◌, refl, sym, ap,
  ◌∙◌, any, if◌then◌else◌, Bool-cases, inl, inr,
}
use aee_conformance.Py.Value.{
  Value, null, bool, int, float, real, str, arr, obj, Fields, get, is_text,
}
use aee_conformance.Py.Run.{Run, done, raised, value_error, ◌>>=◌, ◌>>◌, pure, add, add_if}
use aee_conformance.Artifact.Tools.{Tools, Disk}
use aee_conformance.Artifact.Jcs.{canonical_bytes}
use aee_conformance.Artifact.Verify.{
  Verdict, verified, failed, not_established, is_hard, verdict_of, finished, schema_version,
  canonical_as, is_canonical, encoded, check_encoding, check_record, checks_of, verify_record,
}
use aee_conformance.Artifact.Codes.{
  >>=-eq, any-append, IsHard, pure-IsHard, add_if-IsHard, raised-IsHard, >>=-IsHard, flag_same,
  codes_same, append_nil, left_nonempty, right_nonempty,
}
use aee_conformance.Artifact.Verdicts.{record-IsFlagged}

-- Without a hard code there is a flag, and it is set exactly when there are codes.
abbrev IsGraded : Option Bool → List String → Type 0
IsGraded b cs =
    any is_hard cs ≡ false
    → (l : Bool) × (b ≡ some l) × (l ≡ false → cs ≡ []) × (l ≡ true → cs ≢ [])

module _ (T : Tools) where
  canonical_as-IsHard : (raw : List ℕ) (o : Option (List ℕ)) → IsHard (canonical_as T raw o)
  canonical_as-IsHard raw none = raised-IsHard value_error
  canonical_as-IsHard raw (some bytes) = pure-IsHard _

  encoded-IsHard : (raw : List ℕ) (rec : Fields) → IsHard (encoded T raw (some (obj rec)))
  unfolding is_canonical
  encoded-IsHard raw rec =
      >>=-IsHard (canonical_as T raw (canonical_bytes T.float_repr (obj rec))) _
        (canonical_as-IsHard raw (canonical_bytes T.float_repr (obj rec)))
        (λ same.
          >>=-IsHard (add_if (not same) "manifest-encoding-not-canonical") _
            (add_if-IsHard (not same) "manifest-encoding-not-canonical" refl)
            (λ _.
              >>=-IsHard
                (add_if (not (is_text schema_version (get "schema_version" rec)))
                  "schema-version-unsupported")
                _ (add_if-IsHard _ "schema-version-unsupported" refl)
                (λ _. pure-IsHard (some rec))))

  unparsed :
      {o : Option Fields} {cs : List String}
      → (add "manifest-unparseable" >> pure none) ≡ done o cs
      → any is_hard cs ≡ false
      → ⊥
  unparsed h n = apart (rw (← codes_same h) at n)
    where
      apart : true ≡ false → ⊥
      apart q = cc

  -- Without a hard code there is a record, and it has no code so far.
  encoded-some :
      (raw : List ℕ) (v : Option Value) {o : Option Fields} {cs : List String}
      → encoded T raw v ≡ done o cs
      → any is_hard cs ≡ false
      → (rec : Fields) × (o ≡ some rec) × (cs ≡ [])
  encoded-some raw (some (obj rec)) {o = o} {cs = cs} h n =
      let rest : Bool → Run (Option Fields) = (λ same.
        add_if (not same) "manifest-encoding-not-canonical"
        >> (add_if (not (is_text schema_version (get "schema_version" rec)))
              "schema-version-unsupported"
            >> pure (some rec))) in
      let (same, c1, r1, e1, h1, s1) = >>=-eq (is_canonical T raw (obj rec)) rest h in
      let (u2, c2, r2, e2, h2, s2) =
        >>=-eq (add_if (not same) "manifest-encoding-not-canonical") _ h1 in
      let (u3, c3, r3, e3, h3, s3) =
        >>=-eq
          (add_if (not (is_text schema_version (get "schema_version" rec)))
            "schema-version-unsupported")
          _ h2 in
      (rec, sym (flag_same h3), encoded-IsHard raw rec o cs h n)
  encoded-some raw none h n = absurd (unparsed h n)
  encoded-some raw (some null) h n = absurd (unparsed h n)
  encoded-some raw (some (bool b)) h n = absurd (unparsed h n)
  encoded-some raw (some (int i)) h n = absurd (unparsed h n)
  encoded-some raw (some (float i)) h n = absurd (unparsed h n)
  encoded-some raw (some (real s)) h n = absurd (unparsed h n)
  encoded-some raw (some (str s)) h n = absurd (unparsed h n)
  encoded-some raw (some (arr xs)) h n = absurd (unparsed h n)

  checks-IsGraded :
      (disk : Disk) (raw stored key : List ℕ) {b : Option Bool} {cs : List String}
      → (check_encoding T raw >>= checks_of T disk raw stored key) ≡ done b cs
      → IsGraded b cs
  unfolding check_encoding
  checks-IsGraded disk raw stored key {b = b} {cs = cs} h n =
      let (o, c1, c2, e1, e2, s) =
        >>=-eq (encoded T raw (T.json_loads raw)) (checks_of T disk raw stored key) h in
      let (n1, n2) = any-append is_hard c1 c2 (rw (← s) at n) in
      let (rec, o_some, c1_nil) = encoded-some raw (T.json_loads raw) e1 n1 in
      let (l, ds, es, el, eb, t) =
        >>=-eq (check_record T disk raw stored key rec) (λ l. pure (some l))
          (sym (ap (checks_of T disk raw stored key) o_some) ∙ e2) in
      let (n3, n4) = any-append is_hard ds es (rw (← t) at n2) in
      let r = record-IsFlagged T disk key raw stored rec l ds el n3 in
      let tail : es ≡ [] = sym (codes_same eb) in
      let listed : (ds ≡ []) → cs ≡ [] =
        (λ z. sym s ∙ append_nil c1 c2 c1_nil (sym t ∙ append_nil ds es z tail)) in
      let kept : ds ≢ [] → cs ≢ [] =
        (λ z e. right_nonempty c1 c2 (λ q. left_nonempty ds es z (t ∙ q)) (s ∙ e)) in
      (l, sym (flag_same eb), (λ f. listed (r.0 f)), (λ f. kept (r.1 f)))

abbrev pub returned : Verdict → List String → Option (Verdict × List String)
returned v cs = some (v, cs)

abbrev pub IsExplained : Verdict → List String → Type 0
IsExplained v cs =
    (v ≡ verified ↔ cs ≡ [])
    × (v ≡ failed ↔ any is_hard cs ≡ true)
    × (v ≡ not_established ↔ (cs ≢ []) × (any is_hard cs ≡ false))

hard-IsExplained :
    (v : Verdict) (cs : List String) → v ≡ failed → any is_hard cs ≡ true → IsExplained v cs
hard-IsExplained v cs e k = (
  ((λ q. absurd (a (sym e ∙ q))), (λ q. absurd (b (rw q at k)))),
  ((λ q. k), (λ q. e)),
  ((λ q. absurd (c (sym e ∙ q))), (λ q. absurd (d (sym k ∙ q.1)))),
)
  where
    a : failed ≡ verified → ⊥
    a q = cc

    b : false ≡ true → ⊥
    b q = cc

    c : failed ≡ not_established → ⊥
    c q = cc

    d : true ≡ false → ⊥
    d q = cc

soft-IsExplained :
    (l : Bool) (cs : List String)
    → any is_hard cs ≡ false
    → (l ≡ false → cs ≡ [])
    → (l ≡ true → cs ≢ [])
    → IsExplained (if l then not_established else verified) cs
soft-IsExplained true cs n f g = (
  ((λ q. absurd (a q)), (λ q. absurd (g refl q))),
  ((λ q. absurd (b q)), (λ q. absurd (d (sym n ∙ q)))),
  ((λ q. (g refl, n)), (λ q. refl)),
)
  where
    a : not_established ≡ verified → ⊥
    a q = cc

    b : not_established ≡ failed → ⊥
    b q = cc

    d : false ≡ true → ⊥
    d q = cc
soft-IsExplained false cs n f g = (
  ((λ q. f refl), (λ q. refl)),
  ((λ q. absurd (b q)), (λ q. absurd (d (sym n ∙ q)))),
  ((λ q. absurd (c q)), (λ q. absurd (q.0 (f refl)))),
)
  where
    b : verified ≡ failed → ⊥
    b q = cc

    c : verified ≡ not_established → ⊥
    c q = cc

    d : false ≡ true → ⊥
    d q = cc

graded-IsExplained :
    (b : Option Bool) (cs : List String) → IsGraded b cs → IsExplained (verdict_of b cs) cs
graded-IsExplained b cs g = elim (Bool-cases (any is_hard cs)) [
  | inl hard ↦ hard-IsExplained (verdict_of b cs) cs (verdict_hard b hard) hard
  | inr soft ↦
      let (l, e, f, k) = g soft in
      moved (ap (λ o. verdict_of o cs) e ∙ verdict_soft l soft) (soft-IsExplained l cs soft f k)
]
  where
    verdict_hard : (b : Option Bool) → any is_hard cs ≡ true → verdict_of b cs ≡ failed
    verdict_hard none h = refl
    verdict_hard (some l) h = rw h refl

    verdict_soft :
        (l : Bool)
        → any is_hard cs ≡ false
        → verdict_of (some l) cs ≡ (if l then not_established else verified)
    verdict_soft l h = rw h refl

    moved : {u v : Verdict} → v ≡ u → IsExplained u cs → IsExplained v cs
    moved e h = rw e h

-- If verify returns, its verdict is verified exactly when there is no code, failed exactly when some code
-- is not one of the inconclusive three, and not_established exactly when there are codes and all of them
-- are among those three.
pub verify_record-IsExplained :
    (T : Tools) (disk : Disk) (raw stored key : List ℕ) {v : Verdict} {cs : List String}
    → verify_record T disk raw stored key ≡ some (v, cs)
    → IsExplained v cs
unfolding verify_record
verify_record-IsExplained T disk raw stored key h =
    explained (check_encoding T raw >>= checks_of T disk raw stored key)
      (λ b cs e. checks-IsGraded T disk raw stored key e) h
  where
    verdict_same : {u v : Verdict} {cs ds : List String} → returned u cs ≡ returned v ds → u ≡ v
    verdict_same e = cc

    codes_match : {u v : Verdict} {cs ds : List String} → returned u cs ≡ returned v ds → cs ≡ ds
    codes_match e = cc

    carried :
        {u v : Verdict} {cs ds : List String}
        → u ≡ v
        → cs ≡ ds
        → IsExplained u cs
        → IsExplained v ds
    carried e f x = rw (← e, ← f) x

    explained :
        (m : Run (Option Bool))
        → ((b : Option Bool) (cs : List String) → m ≡ done b cs → IsGraded b cs)
        → {v : Verdict} {cs : List String} → finished m ≡ some (v, cs)
        → IsExplained v cs
    explained (raised e) g h = cc
    explained (done b ds) g h =
        carried (verdict_same h) (codes_match h) (graded-IsExplained b ds (g b ds refl))
