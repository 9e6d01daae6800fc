-- ===== src/Verifier/Recompute/Meaning.antt =====
-- The recomputed result as an order of precedence, and what each row contributes to it.
use aee_conformance.Base.{◌≤◌, Bool, true, false, ◌||◌, List, [], ◌∷◌, ◌≡◌, refl, arith}
use aee_conformance.Base.{any, if◌then◌else◌}
use aee_conformance.Py.Value.{Value, Fields, get, is_text}
use aee_conformance.Verifier.State.{
  fail, degraded, pass_indirect, pass, result_order, known_attribution,
}
use aee_conformance.Verifier.Rows.{is_clean}
use aee_conformance.Verifier.Recompute.{
  forces_fail, is_indirect, is_partial, min_verdict, recompute,
}

-- The least of the three candidates is the first that applies of fail, degraded and pass_indirect: a
-- row that forces a failure, classes that were not assessed, and evidence that is indirect.
pub recompute_precedence :
    (rows : List Fields) (labels caught : List Value) (coverage : Value)
    → recompute rows labels caught coverage ≡ (
        if any (forces_fail labels caught) rows
        then fail
        else if is_partial coverage
        then degraded
        else if any (is_indirect labels caught) rows
        then pass_indirect
        else pass)
unfolding recompute
recompute_precedence rows labels caught coverage =
    min_of_flags (any (forces_fail labels caught) rows) (is_partial coverage)
      (any (is_indirect labels caught) rows)
  where
    min_of_flags :
        (f d i : Bool)
        → min_verdict
            (if f then fail else pass)
            ((if d then degraded else pass) ∷ (if i then pass_indirect else pass) ∷ [])
          ≡ (if f then fail else if d then degraded else if i then pass_indirect else pass)
    min_of_flags true true true = refl
    min_of_flags true true false = refl
    min_of_flags true false true = refl
    min_of_flags true false false = refl
    min_of_flags false true true = refl
    min_of_flags false true false = refl
    min_of_flags false false true = refl
    min_of_flags false false false = refl

-- A clean row with the strongest declared evidence.
abbrev pub IsDirect : List Value → List Value → Fields → Type 0
IsDirect labels caught r =
    (is_clean labels caught r ≡ true)
    × (is_text "substrate" (get "basis" r) ≡ true)
    × (is_text "intercepted" (get "method" r) ≡ true)
    × (known_attribution (get "attribution" r) ≡ true)

-- One more row never improves the result.
pub recompute_worsens :
    (r : Fields) (rows : List Fields) (labels caught : List Value) (coverage : Value)
    → result_order (recompute (r ∷ rows) labels caught coverage)
      ≤ result_order (recompute rows labels caught coverage)
recompute_worsens r rows labels caught coverage =
    rw (recompute_precedence (r ∷ rows), recompute_precedence rows)
      (flags (forces_fail labels caught r) (any (forces_fail labels caught) rows)
        (is_partial coverage) (is_indirect labels caught r) (any (is_indirect labels caught) rows))
  where
    flags :
        (f fs d i is : Bool)
        → result_order (
            if f || fs
            then fail
            else if d
            then degraded
            else if i || is
            then pass_indirect
            else pass)
          ≤ result_order
              (if fs then fail else if d then degraded else if is then pass_indirect else pass)
    flags f fs d i is = ground arith
