-- ===== src/Suite/Evaluate.antt =====
-- `evaluate_vector_detailed` of packaging/run_vectors.py and the `_eval_…` functions.
use aee_conformance.Base.{
  String, Bool, true, false, not, ◌&&◌, ◌||◌, Option, none, some, List, [], ◌∷◌, ◌++◌, any,
  is_empty, if◌then◌else◌, str_eq, mem_str, map,
}
use aee_conformance.Py.Value.{Fields, eq, is_none}
use aee_conformance.SecondFault.Registry.{code_stage}
use aee_conformance.Verifier.Vocabulary.{texts_eq}
use aee_conformance.Suite.Score.{
  Status, pass, fail, Gates, set_stage, rail_invocation, verdict_not_established,
  verdict_without_key_differs, verdict_differs, expected_valid, expected_invalid, result_differs,
  column_not_established, column_differs, result_without_key_not_established, tier_altered_result,
  emitted_result_or_tiers, no_reading_observed, second_fault, no_expected_code, Score, no_score,
  reason, reasons_all, fail_gate0, fail_recompute, fail_tier,
}
use aee_conformance.Suite.Expected.{Expected, expected_of}
use aee_conformance.Suite.Rail.{Observed}

-- `obs_verdict in ("valid", "invalid")`
abbrev pub is_verdict : String → Bool
is_verdict v = str_eq v "valid" || str_eq v "invalid"

abbrev pub differs : Option String → String → Bool
differs none v = false
differs (some w) v = not (str_eq w v)

-- `_eval_establishment`: the score, with whether the verdict was established.
unfoldable pub eval_establishment : Observed → Score → Score
eval_establishment o s =
    let s1 = reasons_all (map rail_invocation o.errors) s in
    let s2 =
      if not (is_verdict o.verdict) then reason verdict_not_established (fail_gate0 s1) else s1 in
    if is_verdict o.verdict && differs o.verdict_without_key o.verdict
    then reason verdict_without_key_differs (fail_gate0 s2)
    else s2

-- One of the two tier columns: what is expected of it, and what the rail reported.
unfoldable pub eval_column :
    String → String → Option (List String) → Option (List String) → Observed → Score → Score
eval_column name key none reported o s = s
eval_column name key (some tiers) reported o s =
    if mem_str key o.absent
    then reason (column_not_established name) (fail_tier s)
    else if texts_eq tiers (elim reported [ none ↦ [] | some ts ↦ ts ])
    then s
    else reason (column_differs name) (fail_tier s)

abbrev pub is_reported : Option (List String) → Bool
is_reported none = false
is_reported (some _) = true

-- `_eval_tier_result_invariance`
unfoldable pub eval_tier_result_invariance : Observed → Score → Score
eval_tier_result_invariance o s =
    if not (is_reported o.tiers_with_key) || is_none o.result
    then s
    else if mem_str "result_without_key" o.absent
    then reason result_without_key_not_established (fail_tier s)
    else if eq o.result_without_key o.result
    then s
    else reason tier_altered_result (fail_tier s)

unfoldable pub eval_accept_tiers : Expected → Observed → Score → Score
unfolding eval_column eval_tier_result_invariance
eval_accept_tiers e o s =
    let s1 =
      eval_column "tierWithPinnedKey" "tiers_with_key" e.tier_with_pinned_key o.tiers_with_key o
        s in
    let s2 =
      eval_column "tierWithoutKey" "tiers_without_key" e.tier_without_key o.tiers_without_key o
        s1 in
    eval_tier_result_invariance o s2

-- `for code in obs_codes: gates[CODE_STAGE.get(code, "gate0")] = "FAIL"`
unfoldable pub fail_stages : List String → Gates → Gates
unfolding code_stage
fail_stages [] g = g
fail_stages (c ∷ cs) g = fail_stages cs (set_stage (code_stage c) fail g)

abbrev pub pass_gates : Gates → Gates
pass_gates g = record g { gate0 = pass; gate1 = pass; recompute = pass; tier = pass }

-- `_eval_accept`
unfoldable pub eval_accept : Expected → Observed → Score → Score
unfolding fail_stages eval_accept_tiers eq
eval_accept e o s =
    let s1 = record s { gates = pass_gates s.gates } in
    let s2 =
      if str_eq o.verdict "valid"
      then s1
      else reason expected_valid
          (record s1 { gates = fail_stages o.codes (record (s1.gates) { gate0 = fail }) }) in
    let s3 =
      if str_eq o.verdict "valid" && not (is_none e.result) && not (eq o.result e.result)
      then reason result_differs (fail_recompute s2)
      else s2 in
    eval_accept_tiers e o s3

-- `expected & observed`, as a test
unfoldable pub shares : List String → List String → Bool
shares expected observed = any (λ c. mem_str c observed) expected

-- Whether a code of the stage is expected, and whether one of these is observed.
abbrev pub of_stage : String → List String → List String
of_stage stage [] = []
of_stage stage (c ∷ cs) =
    let rest = of_stage stage cs in if str_eq (code_stage c) stage then c ∷ rest else rest

abbrev pub stage_status : Status → List String → List String → Status
stage_status before [] observed = before
stage_status before (c ∷ cs) observed = if shares (c ∷ cs) observed then pass else fail

-- The loops over `stage_hit`, per stage.
unfoldable pub grade_stages : List String → List String → Gates → Gates
unfolding shares code_stage
grade_stages expected observed g = record g {
  gate0 = stage_status g.gate0 (of_stage "gate0" expected) observed;
  gate1 = stage_status g.gate1 (of_stage "gate1" expected) observed;
  recompute = stage_status g.recompute (of_stage "recompute" expected) observed;
}

-- `_eval_reject_stages`
unfoldable pub eval_reject_stages : List String → List String → Score → Score
unfolding grade_stages
eval_reject_stages [] observed s = record s { gates = record (s.gates) { gate0 = pass } }
eval_reject_stages (c ∷ cs) observed s =
    let s1 =
      if shares (c ∷ cs) observed
      then s
      else record s { parity = s.parity ++ (no_expected_code ∷ []) } in
    record s1 { gates = grade_stages (c ∷ cs) observed s1.gates }

-- `observed.get("result") is not None or observed.get("tiers_with_key")`
abbrev pub has_tiers : Option (List String) → Bool
has_tiers none = false
has_tiers (some ts) = not (is_empty ts)

abbrev pub emits : Observed → Bool
emits o = not (is_none o.result) || has_tiers o.tiers_with_key

unfoldable pub eval_emission : Observed → Score → Score
eval_emission o s = if emits o then reason emitted_result_or_tiers (fail_recompute s) else s

abbrev pub fail_three : Score → Score
fail_three s = record s {
  gates = record (s.gates) { gate0 = fail; gate1 = fail; recompute = fail };
}

abbrev pub check_status : List String → Status
check_status [] = pass
check_status (_ ∷ _) = fail

unfoldable pub eval_self_check : Option (List String) → Score → Score
eval_self_check none s = s
eval_self_check (some findings) s =
    reasons_all (map second_fault findings)
      (record s { gates = record (s.gates) { self_check = check_status findings } })

-- `_eval_reject`
unfoldable pub eval_reject : Expected → Observed → Option (List String) → Score → Score
unfolding eval_reject_stages eval_emission eval_self_check
eval_reject e o findings s = eval_self_check findings (
    if str_eq o.verdict "invalid"
    then eval_emission o (eval_reject_stages e.codes o.codes s)
    else reason expected_invalid (fail_three s))

abbrev pub predicted : List (String × String) → List String
predicted [] = []
predicted ((k, v) ∷ rs) = v ∷ predicted rs

-- `_eval_indeterminate`
unfoldable pub eval_indeterminate : Expected → Observed → Option (List String) → Score → Score
unfolding shares eval_emission eval_self_check
eval_indeterminate e o findings s =
    let passed = record s { gates = record (s.gates) { gate0 = pass } } in
    let read =
      if not (is_empty e.readings) && not (shares (predicted e.readings) o.codes)
      then reason no_reading_observed (fail_gate0 passed)
      else passed in
    eval_self_check findings (
      if str_eq o.verdict "invalid"
      then eval_emission o read
      else reason expected_invalid (fail_three s))

-- `expected.get("verdict") or ("valid" if kind == "accept" else "invalid")`
abbrev pub expected_verdict : String → Expected → String
expected_verdict kind e =
    if not (str_eq e.verdict "")
    then e.verdict
    else if str_eq kind "accept"
    then "valid"
    else "invalid"

unfoldable pub eval_kind : String → Expected → Observed → Option (List String) → Score → Score
unfolding eval_accept eval_indeterminate eval_reject
eval_kind kind e o findings s =
    if str_eq kind "accept"
    then eval_accept e o s
    else if str_eq kind "indeterminate"
    then eval_indeterminate e o findings s
    else eval_reject e o findings s

-- The score before the contract of the kind.
unfoldable pub eval_verdict : String → Expected → Observed → Score
unfolding eval_establishment
eval_verdict kind e o =
    let s = eval_establishment o no_score in
    if is_verdict o.verdict && not (str_eq o.verdict (expected_verdict kind e))
    then reason verdict_differs s
    else s

unfoldable pub evaluate_vector_detailed :
    String → Option Fields → Observed → Option (List String) → Score
unfolding expected_of eval_verdict eval_kind
evaluate_vector_detailed kind entry o findings =
    let e = expected_of entry in eval_kind kind e o findings (eval_verdict kind e o)
