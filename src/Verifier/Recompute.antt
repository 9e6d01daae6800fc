-- ===== src/Verifier/Recompute.antt =====
-- The result recompute of packaging/run_vectors.py: `_recompute` and `_check_result_recompute`.
pub mod Meaning
use aee_conformance.Base.{
  ℕ, String, Bool, true, false, not, ◌&&◌, ◌||◌, Option, none, some, List, [], ◌∷◌,
}
use aee_conformance.Base.{any, ltb, if◌then◌else◌}
use aee_conformance.Py.Value.{
  Value, null, bool, int, float, real, str, arr, obj, Items, nil, cons, Fields, end, field, get,
  is_text, mem, truthy, dict_or_empty,
}
use aee_conformance.Py.Run.{Run, done, raised, ◌>>=◌, ◌>>◌, pure, skip, add, add_if, after}
use aee_conformance.Verifier.State.{
  VerifyState, Verdict, fail, degraded, pass_indirect, pass, verdict_text, result_order,
  in_result_order, known_basis, known_method, known_attribution,
}
use aee_conformance.Verifier.Rows.{is_clean}

-- A row that forces the result to fail.
unfoldable pub forces_fail : List Value → List Value → Fields → Bool
unfolding mem
forces_fail labels caught r =
    not (is_clean labels caught r)
    || not (known_basis (get "basis" r))
    || not (known_method (get "method" r))
    || not (known_attribution (get "attribution" r))

-- A row that does not, and whose evidence is not a substrate interception.
unfoldable pub is_indirect : List Value → List Value → Fields → Bool
unfolding forces_fail
is_indirect labels caught r =
    not (forces_fail labels caught r)
    && (not (is_text "substrate" (get "basis" r)) || not (is_text "intercepted" (get "method" r)))

-- `cov.get("outOfScope") or cov.get("routedElsewhere")`
abbrev pub is_partial : Value → Bool
is_partial coverage =
    truthy (get "outOfScope" (dict_or_empty coverage))
    || truthy (get "routedElsewhere" (dict_or_empty coverage))

-- `min(candidates, key=RESULT_ORDER.__getitem__)`: the first of the least.
unfoldable pub min_verdict : Verdict → List Verdict → Verdict
min_verdict v [] = v
min_verdict v (w ∷ ws) = min_verdict (if ltb (result_order w) (result_order v) then w else v) ws

unfoldable pub recompute : List Fields → List Value → List Value → Value → Verdict
unfolding forces_fail is_indirect min_verdict
recompute rows labels caught coverage =
    min_verdict (if any (forces_fail labels caught) rows then fail else pass) (
      (if is_partial coverage then degraded else pass)
      ∷ (if any (is_indirect labels caught) rows then pass_indirect else pass)
      ∷ [])

abbrev pub compare_result : List Fields → List Value → List Value → Value → Value → Run (Unit {0})
compare_result [] labels caught coverage result = skip
compare_result (r ∷ rs) labels caught coverage result =
    if in_result_order result
    then add_if (not (is_text (verdict_text (recompute (r ∷ rs) labels caught coverage)) result))
        "result-recompute-mismatch"
    else add "result-recompute-mismatch"

unfoldable pub check_result_recompute : VerifyState → Run (Unit {0})
unfolding recompute
check_result_recompute st = elim (st.labels) [
  | none ↦ skip
  | some labels ↦ elim (st.caught) [
    | none ↦ skip
    | some caught ↦ compare_result st.rows labels caught st.coverage st.result
  ]
]
