-- ===== src/Verifier/Accept/Partition.antt =====
-- The coverage of an accepted statement: its classes, and the answers of its rows.
use aee_conformance.Base.{
  ℕ, String, Bool, true, false, not, Option, none, some, List, [], ◌∷◌, ◌≡◌, refl, ap, ◌∙◌, ◌⊎◌,
  inl, inr,
}
use aee_conformance.Base.{All, All-map, map, keep, arith, if◌then◌else◌, Bool-cases}
use aee_conformance.Py.Value.{Value, str, obj, Fields, get, eq, mem, list_or_empty, dict_or_empty}
use aee_conformance.Py.Run.{skip, add_if, hash, >>-eq-silent, add_if-eq-skip}
use aee_conformance.Platform.{Platform}
use aee_conformance.Verifier.{Outcome}
use aee_conformance.Verifier.Vocabulary.{hash_all}
use aee_conformance.Verifier.State.{VerifyState}
use aee_conformance.Verifier.Coverage.{
  accounts, partition_ok, attack_class, class_of, expected_ids, row_class, rows_loop, unanswered,
  coverage_check_rows, coverage_of, is_nonempty,
}
use aee_conformance.Verifier.Accept.Frames.{
  not-eq-false, corpus-frame, coverage-frame, rows_setup-frame,
}
use aee_conformance.Verifier.Accept.Chain.{Accepts, Accepts-Accepted}
use aee_conformance.Verifier.Accept.Fields.{kept, rows_of, environment_of}
use aee_conformance.Verifier.Accept.Manifest.{
  IsUnrepeated, unseen, IsManifest, IsUnchecked, IsChecked, corpus_facts-IsChecked,
}

-- The class of an attack is declared, and is assessed.
abbrev pub IsAssessed : List (Value × String) → List Value → Value → Type 0
IsAssessed index assessed aid =
    (cls : String) × (class_of aid index ≡ some cls) × (mem (str cls) assessed ≡ true)

row_class-IsAssessed :
    (assessed : List Value) (o : Option String)
    → row_class assessed o ≡ skip
    → (cls : String) × (o ≡ some cls) × (mem (str cls) assessed ≡ true)
row_class-IsAssessed assessed none h = cc
row_class-IsAssessed assessed (some cls) h =
    (cls, refl, not-eq-false _ (add_if-eq-skip _ "coverage-incomplete" h))

rows_loop-silent :
    (index : List (Value × String)) (assessed seen aids : List Value)
    → rows_loop index assessed seen aids ≡ skip
    → All (λ a. mem a seen ≡ false) aids × IsUnrepeated aids × All (IsAssessed index assessed) aids
unfolding rows_loop
rows_loop-silent index assessed seen [] h = (tt, tt, tt)
rows_loop-silent index assessed seen (a ∷ aids) h =
    let (hashed, h1) = >>-eq-silent (hash a) _ h in
    let (new, h2) = >>-eq-silent (add_if (mem a seen) "statement-malformed") _ h1 in
    let (known, h3) = >>-eq-silent (row_class assessed (class_of a index)) _ h2 in
    let (fresh, distinct, rest) = rows_loop-silent index assessed (a ∷ seen) aids h3 in
    (
      (
        add_if-eq-skip _ "statement-malformed" new,
        All-map _ (λ b. mem b seen ≡ false) aids (λ b m. (unseen a b seen m).1) fresh,
      ),
      (All-map _ (λ b. eq b a ≡ false) aids (λ b m. (unseen a b seen m).0) fresh, distinct),
      (row_class-IsAssessed assessed (class_of a index) known, rest),
    )

mem-keep :
    (p : Value → Bool) (v : Value) (xs : List Value) → mem v (keep p xs) ≡ true → mem v xs ≡ true
unfolding mem
mem-keep p v [] h = h
mem-keep p v (x ∷ xs) h = elim (Bool-cases (p x)) [
  | inl stays ↦ ground (arith, mem-keep p v xs)
  | inr goes ↦ ground (arith, mem-keep p v xs)
]

keep_step :
    (b : Bool) (x : Value) (rest : List Value)
    → is_nonempty (if b then x ∷ rest else rest) ≡ false
    → (b ≡ false) × (is_nonempty rest ≡ false)
keep_step true x rest h = cc
keep_step false x rest h = (refl, h)

keep-none :
    (p : Value → Bool) (xs : List Value)
    → is_nonempty (keep p xs) ≡ false
    → All (λ x. p x ≡ false) xs
keep-none p [] h = tt
keep-none p (x ∷ xs) h = let (e, rest) = keep_step (p x) x (keep p xs) h in (e, keep-none p xs rest)

unanswered-none :
    (index : List (Value × String)) (expected aids : List Value)
    → is_nonempty (unanswered index expected aids) ≡ false
    → All (λ e. mem e aids ≡ true) expected
unfolding unanswered
unanswered-none index expected aids h =
    All-map _ (λ e. mem e aids ≡ true) expected (λ e n. mem-keep _ e aids (not-eq-false _ n))
      (keep-none _ expected h)

-- Each class is accounted for once, each answer is to a different attack of an assessed class, and each
-- attack of the assessed classes is answered.
abbrev pub IsCoverage : Fields → List Fields → Fields → Type 0
IsCoverage classes rows coverage =
    let assessed = list_or_empty (get "assessedClasses" coverage) in
    let aids = map (get "attackId") rows in
    (partition_ok classes (
        accounts assessed (dict_or_empty (get "outOfScope" coverage))
          (dict_or_empty (get "routedElsewhere" coverage)))
      ≡ true)
    × IsUnrepeated aids
    × All (IsAssessed (attack_class classes) assessed) aids
    × All (λ e. mem e aids ≡ true) (expected_ids classes assessed)

check_rows-silent :
    (rows : List Fields) (classes : Fields) (assessed : List Value)
    → coverage_check_rows rows classes assessed ≡ skip
    → IsUnrepeated (map (get "attackId") rows)
      × All (IsAssessed (attack_class classes) assessed) (map (get "attackId") rows)
      × All (λ e. mem e (map (get "attackId") rows) ≡ true) (expected_ids classes assessed)
unfolding coverage_check_rows
check_rows-silent rows classes assessed h =
    let (a, h1) =
      >>-eq-silent (hash_all (map (λ (p : Value × String). p.0) (attack_class classes))) _ h in
    let (b, h2) = >>-eq-silent (hash_all (expected_ids classes assessed)) _ h1 in
    let (c, h3) =
      >>-eq-silent (rows_loop (attack_class classes) assessed [] (map (get "attackId") rows)) _
        h2 in
    let (fresh, distinct, known) =
      rows_loop-silent (attack_class classes) assessed [] (map (get "attackId") rows) c in
    (
      distinct,
      known,
      unanswered-none (attack_class classes) (expected_ids classes assessed)
          (map (get "attackId") rows) (add_if-eq-skip _ "coverage-incomplete" h3),
    )

coverage_of-IsCoverage :
    (rows : List Fields) (classes : Fields) (v : Value)
    → coverage_of rows (some classes) v ≡ skip
    → (coverage : Fields) × (v ≡ obj coverage) × IsCoverage classes rows coverage
coverage_of-IsCoverage rows classes (obj coverage) h =
    let assessed = list_or_empty (get "assessedClasses" coverage) in
    let (a, h1) = >>-eq-silent (hash_all assessed) _ h in
    let (b, h2) =
      >>-eq-silent
        (add_if
          (not (
            partition_ok classes (
              accounts assessed (dict_or_empty (get "outOfScope" coverage))
                (dict_or_empty (get "routedElsewhere" coverage)))))
          "coverage-incomplete")
        _ h1 in
    let (distinct, known, answered) = check_rows-silent rows classes assessed h2 in
    (
      coverage,
      refl,
      (not-eq-false _ (add_if-eq-skip _ "coverage-incomplete" b), distinct, known, answered),
    )
coverage_of-IsCoverage rows classes _ h = cc

-- The corpus is not checked, or has a manifest that the coverage and the rows answer.
abbrev pub IsAnswered : Platform → Value → Value → List Fields → Type 0
IsAnswered P corpus cov rows =
    IsUnchecked P corpus
    ⊎ ((fs : Fields) × (manifest : Fields) × (classes : Fields) × (coverage : Fields) × (corpus
          ≡ obj fs)
        × (get "manifest" fs ≡ obj manifest)
        × IsManifest P fs manifest classes
        × (cov ≡ obj coverage)
        × IsCoverage classes rows coverage)

checked-IsAnswered :
    (P : Platform) (corpus cov : Value) (rows : List Fields) {kept kept' : Option Fields}
    → kept' ≡ kept
    → coverage_of rows kept' cov ≡ skip
    → IsUnchecked P corpus ⊎ IsChecked P corpus kept
    → IsAnswered P corpus cov rows
checked-IsAnswered P corpus cov rows e h (inl u) = inl u
checked-IsAnswered P corpus cov rows e h (inr (fs, manifest, classes, ec, em, is_manifest, ek)) =
    let (coverage, ecov, is_coverage) = coverage_of-IsCoverage rows classes cov (rw (e, ek) at h) in
    inr (fs, manifest, classes, coverage, ec, em, is_manifest, ecov, is_coverage)

module _ (P : Platform) (pinned_pubs : List (List ℕ)) (stmt : Value) (raw : Option (List ℕ))
    {o : Outcome} (accepts : Accepts P pinned_pubs stmt raw o) where
  -- The corpus of an accepted statement either is not checked at all, being no object or having a manifest
  -- that is neither null nor an object; or its manifest declares at least one attack, none twice, under the
  -- digest that the corpus carries, and the coverage accounts for each class once, the rows answer
  -- different attacks of assessed classes, and all attacks of the assessed classes are answered.
  pub accepted-IsAnswered :
      (fields : Fields) × (pred : Fields) × (stmt ≡ obj fields)
      × (get "predicate" fields ≡ obj pred)
      × IsAnswered P (get "corpus" (environment_of pred)) (get "coverage" pred) (rows_of pred)
  accepted-IsAnswered =
      let a = Accepts-Accepted P pinned_pubs stmt raw accepts in
      let k = kept P a.passed in
      let (facts, q3, e3) = corpus-frame P a.passed.s2 a.passed.corpus in
      let (q5, e5) = coverage-frame a.passed.s4 a.passed.coverage in
      let checked = corpus_facts-IsChecked P (get "corpus" a.passed.s2.env) q3 in
      (
        a.fields,
        a.pred,
        a.is_obj,
        a.is_pred,
        checked-IsAnswered P (get "corpus" (environment_of a.pred)) (get "coverage" a.pred)
            (rows_of a.pred)
            (ap (λ (t : VerifyState). t.manifest_classes)
                (rows_setup-frame a.passed.s3 a.passed.rows_setup)
              ∙ ap (λ (t : VerifyState). t.manifest_classes) e3)
            (rw (k.rows4, k.pred4) at q5) (rw k.env2 at checked),
      )
