-- ===== src/Verifier/Coverage.antt =====
-- `_check_coverage`, `_coverage_partition_ok`, `_coverage_index` and `_coverage_check_rows` of
-- packaging/run_vectors.py: coverage integrity at attack granularity.
use aee_conformance.Base.{
  ℕ, ◌+◌, String, Bool, true, false, not, ◌&&◌, Option, none, some, List, [], ◌∷◌, ◌++◌,
}
use aee_conformance.Base.{map, all, keep, ◌==◌, if◌then◌else◌}
use aee_conformance.Py.Value.{
  Value, str, obj, Fields, end, field, get, has, keys, mem, eq, dict_or_empty, list_or_empty,
}
use aee_conformance.Py.Run.{Run, ◌>>◌, pure, skip, add, add_if, hash}
use aee_conformance.Verifier.State.{VerifyState}
use aee_conformance.Verifier.Vocabulary.{hash_all}

-- `acct[c] = acct.get(c, 0) + 1`, on a dict of counts
unfoldable pub bump : Value → List (Value × ℕ) → List (Value × ℕ)
unfolding eq
bump c [] = (c, 1) ∷ []
bump c ((d, n) ∷ acct) = if eq c d then (d, n + 1) ∷ acct else (d, n) ∷ bump c acct

unfoldable pub bump_all : List Value → List (Value × ℕ) → List (Value × ℕ)
unfolding bump
bump_all [] acct = acct
bump_all (c ∷ cs) acct = bump_all cs (bump c acct)

-- `acct.get(c, 0)`
unfoldable pub count_of : Value → List (Value × ℕ) → ℕ
unfolding eq
count_of c [] = 0
count_of c ((d, n) ∷ acct) = if eq c d then n else count_of c acct

-- `c in manifest_classes`
abbrev pub is_class : Fields → Value → Bool
is_class classes (str s) = has s classes
is_class classes _ = false

abbrev pub names : Fields → List Value
names fs = map str (keys fs)

unfoldable pub accounts : List Value → Fields → Fields → List (Value × ℕ)
unfolding bump_all
accounts assessed oos routed = bump_all (names routed) (bump_all (names oos) (bump_all assessed []))

unfoldable pub partition_ok : Fields → List (Value × ℕ) → Bool
unfolding count_of
partition_ok classes acct =
    all (λ (e : Value × ℕ). (e.1 == 1) && is_class classes e.0) acct
    && all (λ (c : String). count_of (str c) acct == 1) (keys classes)

-- `attack_class`: the class of an identifier is the first that lists it.
abbrev index_class : String → List Value → List (Value × String) → List (Value × String)
index_class cls [] rest = rest
index_class cls (aid ∷ ids) rest = (aid, cls) ∷ index_class cls ids rest

unfoldable pub attack_class : Fields → List (Value × String)
attack_class end = []
attack_class (field cls ids classes) = index_class cls (list_or_empty ids) (attack_class classes)

unfoldable pub class_of : Value → List (Value × String) → Option String
unfolding eq
class_of aid [] = none
class_of aid ((a, cls) ∷ rest) = if eq aid a then some cls else class_of aid rest

-- `manifest_classes.get(cls)`, for the members of a list
abbrev pub ids_of : Fields → Value → List Value
ids_of classes (str s) = list_or_empty (get s classes)
ids_of classes _ = []

unfoldable pub expected_ids : Fields → List Value → List Value
expected_ids classes [] = []
expected_ids classes (cls ∷ assessed) = ids_of classes cls ++ expected_ids classes assessed

-- One row: its identifier is new, is one of the manifest's, and its class is assessed.
abbrev pub row_class : List Value → Option String → Run (Unit {0})
row_class assessed none = add "row-attack-unknown"
row_class assessed (some cls) = add_if (not (mem (str cls) assessed)) "coverage-incomplete"

unfoldable pub rows_loop :
    List (Value × String) → List Value → List Value → List Value → Run (Unit {0})
unfolding class_of mem
rows_loop index assessed seen [] = skip
rows_loop index assessed seen (aid ∷ aids) = do
  hash aid
  add_if (mem aid seen) "statement-malformed"
  row_class assessed (class_of aid index)
  rows_loop index assessed (aid ∷ seen) aids

-- `expected_ids - {i for i in row_ids if i in attack_class}`
unfoldable pub unanswered : List (Value × String) → List Value → List Value → List Value
unfolding class_of mem
unanswered index expected row_ids =
    keep (λ e. not (mem e (keep (λ i. mem i (map (λ (p : Value × String). p.0) index)) row_ids)))
      expected

abbrev pub is_nonempty {ℓ} : {A : Type ℓ} → List A → Bool
is_nonempty [] = false
is_nonempty (_ ∷ _) = true

unfoldable pub coverage_check_rows : List Fields → Fields → List Value → Run (Unit {0})
unfolding attack_class expected_ids rows_loop unanswered hash_all
coverage_check_rows rows classes assessed = do
  hash_all (map (λ (p : Value × String). p.0) (attack_class classes))
  hash_all (expected_ids classes assessed)
  let aids = map (get "attackId") rows
  rows_loop (attack_class classes) assessed [] aids
  add_if (is_nonempty (unanswered (attack_class classes) (expected_ids classes assessed) aids))
      "coverage-incomplete"

abbrev pub coverage_classes : List Fields → Fields → Option Fields → Run (Unit {0})
coverage_classes rows coverage none = skip
coverage_classes rows coverage (some classes) = do
  let assessed = list_or_empty (get "assessedClasses" coverage)
  hash_all assessed
  add_if
      (not (
        partition_ok classes (
          accounts assessed (dict_or_empty (get "outOfScope" coverage))
            (dict_or_empty (get "routedElsewhere" coverage)))))
      "coverage-incomplete"
  coverage_check_rows rows classes assessed

abbrev pub coverage_of : List Fields → Option Fields → Value → Run (Unit {0})
coverage_of rows classes (obj coverage) = coverage_classes rows coverage classes
coverage_of rows classes _ = add "coverage-missing"

unfoldable pub check_coverage : VerifyState → Run VerifyState
unfolding partition_ok accounts coverage_check_rows hash_all
check_coverage st = do
  let coverage = get "coverage" st.pred
  coverage_of st.rows st.manifest_classes coverage
  pure (record st { coverage = coverage })
