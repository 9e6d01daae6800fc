-- ===== src/Suite/Verdicts.antt =====
-- When a step of `evaluate_vector_detailed` of packaging/run_vectors.py adds no reason.
use aee_conformance.Base.{
  String, Bool, true, false, not, ◌&&◌, ◌||◌, Option, none, some, List, [], ◌∷◌, ◌++◌, ◌≡◌, refl,
  sym, ap, ◌∙◌, is_empty, if◌then◌else◌, str_eq, mem_str, map,
}
use aee_conformance.Py.Value.{eq, is_none}
use aee_conformance.Verifier.Vocabulary.{texts_eq}
use aee_conformance.Suite.Score.{
  Reason, rail_invocation, second_fault, no_expected_code, Score, reason, reasons_all, is_ok,
  verdict_not_established, result_differs, result_without_key_not_established, tier_altered_result,
  expected_invalid, emitted_result_or_tiers, no_reading_observed, fail_gate0, fail_tier,
  fail_recompute, verdict_differs, no_score,
}
use aee_conformance.Suite.Expected.{Expected}
use aee_conformance.Suite.Rail.{Observed}
use aee_conformance.Suite.Evaluate.{
  is_verdict, differs, eval_establishment, eval_column, is_reported, eval_tier_result_invariance,
  eval_accept_tiers, eval_accept, shares, eval_reject_stages, emits, eval_emission, eval_self_check,
  eval_reject, predicted, eval_indeterminate, expected_verdict, eval_verdict,
}

and_false : (b : Bool) → (b && false) ≡ false
and_false true = refl
and_false false = refl

and_assoc : (a b c : Bool) → (a && b) && c ≡ a && (b && c)
and_assoc true b c = refl
and_assoc false b c = refl

last_not_empty : {A : Type 0} (xs : List A) (x : A) → is_empty (xs ++ (x ∷ [])) ≡ false
last_not_empty [] x = refl
last_not_empty (y ∷ ys) x = refl

is_ok-reason : (r : Reason) (s : Score) → is_ok (reason r s) ≡ false
unfolding is_ok
is_ok-reason r s = rw (last_not_empty s.reasons r) refl

-- A reason is added under a test.
pub if_reason :
    (b : Bool) (r : Reason) (s t : Score) → is_ok (if b then reason r t else s) ≡ not b && is_ok s
if_reason true r s t = is_ok-reason r t
if_reason false r s t = refl

append_empty : {A : Type 0} (xs ys : List A) → is_empty (xs ++ ys) ≡ is_empty ys && is_empty xs
append_empty [] [] = refl
append_empty [] (y ∷ ys) = refl
append_empty (x ∷ xs) [] = refl
append_empty (x ∷ xs) (y ∷ ys) = refl

is_ok-reasons_all :
    (rs : List Reason) (s : Score) → is_ok (reasons_all rs s) ≡ is_empty rs && is_ok s
unfolding is_ok
is_ok-reasons_all rs s = rw (append_empty s.reasons rs) (and_assoc (is_empty rs) _ _)

mapped_empty : {A B : Type 0} (f : A → B) (xs : List A) → is_empty (map f xs) ≡ is_empty xs
mapped_empty f [] = refl
mapped_empty f (x ∷ xs) = refl

unless_reason :
    (b : Bool) (r : Reason) (s t : Score) → is_ok (if b then s else reason r t) ≡ b && is_ok s
unless_reason true r s t = refl
unless_reason false r s t = is_ok-reason r t

-- The tests of the steps, in the order in which the last one is the first of the conjunction.
abbrev pub answered_ok : Observed → Bool → Bool
answered_ok o rest =
    not (is_verdict o.verdict && differs o.verdict_without_key o.verdict)
    && (not (not (is_verdict o.verdict)) && (is_empty o.errors && rest))

abbrev invoked : Observed → Score → Score
invoked o s = reasons_all (map rail_invocation o.errors) s

pub eval_establishment-is_ok :
    (o : Observed) (s : Score) → is_ok (eval_establishment o s) ≡ answered_ok o (is_ok s)
unfolding eval_establishment
eval_establishment-is_ok o s =
    if_reason (is_verdict o.verdict && differs o.verdict_without_key o.verdict) _ _ _
    ∙ ap (λ t. not (is_verdict o.verdict && differs o.verdict_without_key o.verdict) && t)
        (if_reason (not (is_verdict o.verdict)) verdict_not_established (invoked o s)
            (fail_gate0 (invoked o s))
          ∙ ap (λ t. not (not (is_verdict o.verdict)) && t)
              (is_ok-reasons_all (map rail_invocation o.errors) s
                ∙ ap (λ t. t && is_ok s) (mapped_empty rail_invocation o.errors)))

abbrev pub column_ok : String → Option (List String) → Option (List String) → Observed → Bool
column_ok key none reported o = true
column_ok key (some tiers) reported o =
    not (mem_str key o.absent) && texts_eq tiers (elim reported [ none ↦ [] | some ts ↦ ts ])

pub eval_column-is_ok :
    (name key : String) (expected reported : Option (List String)) (o : Observed) (s : Score)
    → is_ok (eval_column name key expected reported o s)
      ≡ column_ok key expected reported o && is_ok s
unfolding eval_column
eval_column-is_ok name key none reported o s = refl
eval_column-is_ok name key (some tiers) reported o s =
    let same = texts_eq tiers (elim reported [ none ↦ [] | some ts ↦ ts ]) in
    if_reason (mem_str key o.absent) _ _ _
    ∙ ap (λ t. not (mem_str key o.absent) && t) (unless_reason same _ s _)
    ∙ sym (and_assoc (not (mem_str key o.absent)) same (is_ok s))

abbrev pub invariant_ok : Observed → Bool
invariant_ok o =
    if not (is_reported o.tiers_with_key) || is_none o.result
    then true
    else not (mem_str "result_without_key" o.absent) && eq o.result_without_key o.result

eval_tier_result_invariance-is_ok :
    (o : Observed) (s : Score) → is_ok (eval_tier_result_invariance o s) ≡ invariant_ok o && is_ok s
unfolding eval_tier_result_invariance
eval_tier_result_invariance-is_ok o s =
    tested (not (is_reported o.tiers_with_key) || is_none o.result)
      (mem_str "result_without_key" o.absent) (eq o.result_without_key o.result)
  where
    tested :
        (silent absent same : Bool)
        → is_ok (
            if silent
            then s
            else (if absent
                then reason result_without_key_not_established (fail_tier s)
                else (if same then s else reason tier_altered_result (fail_tier s))))
          ≡ (if silent then true else not absent && same) && is_ok s
    tested true absent same = refl
    tested false true same = is_ok-reason result_without_key_not_established (fail_tier s)
    tested false false true = refl
    tested false false false = is_ok-reason tier_altered_result (fail_tier s)

-- `_eval_accept`
abbrev pub result_ok : Expected → Observed → Bool
result_ok e o =
    not (str_eq o.verdict "valid" && not (is_none e.result) && not (eq o.result e.result))

abbrev pub accept_ok : Expected → Observed → Bool → Bool
accept_ok e o rest =
    invariant_ok o
    && (column_ok "tiers_without_key" e.tier_without_key o.tiers_without_key o
        && (column_ok "tiers_with_key" e.tier_with_pinned_key o.tiers_with_key o
            && (result_ok e o && (str_eq o.verdict "valid" && rest))))

pub eval_accept-is_ok :
    (e : Expected) (o : Observed) (s : Score) → is_ok (eval_accept e o s) ≡ accept_ok e o (is_ok s)
unfolding eval_accept eval_accept_tiers is_ok
eval_accept-is_ok e o s =
    eval_tier_result_invariance-is_ok o _
    ∙ ap (λ t. invariant_ok o && t)
        (eval_column-is_ok "tierWithoutKey" "tiers_without_key" e.tier_without_key
            o.tiers_without_key o _
          ∙ ap (λ t. column_ok "tiers_without_key" e.tier_without_key o.tiers_without_key o && t)
              (eval_column-is_ok "tierWithPinnedKey" "tiers_with_key" e.tier_with_pinned_key
                  o.tiers_with_key o _
                ∙ ap
                    (λ t. column_ok "tiers_with_key" e.tier_with_pinned_key o.tiers_with_key o && t)
                    (if_reason
                        (str_eq o.verdict "valid"
                          && not (is_none e.result)
                          && not (eq o.result e.result))
                        result_differs _ _
                      ∙ ap (λ t. result_ok e o && t)
                          (unless_reason (str_eq o.verdict "valid") _ _ _))))

-- `_eval_reject` and `_eval_indeterminate`
abbrev pub codes_ok : List String → List String → Bool
codes_ok [] observed = true
codes_ok (c ∷ cs) observed = shares (c ∷ cs) observed

eval_reject_stages-is_ok :
    (expected observed : List String) (s : Score)
    → is_ok (eval_reject_stages expected observed s) ≡ codes_ok expected observed && is_ok s
unfolding eval_reject_stages is_ok
eval_reject_stages-is_ok [] observed s = refl
eval_reject_stages-is_ok (c ∷ cs) observed s = parity_added (shares (c ∷ cs) observed)
  where
    parity_added :
        (hit : Bool)
        → is_ok (if hit then s else record s { parity = s.parity ++ (no_expected_code ∷ []) })
          ≡ hit && is_ok s
    parity_added true = refl
    parity_added false =
        rw (last_not_empty s.parity no_expected_code) (and_false (is_empty s.reasons))

abbrev pub findings_ok : Option (List String) → Bool
findings_ok none = true
findings_ok (some fs) = is_empty fs

eval_self_check-is_ok :
    (findings : Option (List String)) (s : Score)
    → is_ok (eval_self_check findings s) ≡ findings_ok findings && is_ok s
unfolding eval_self_check is_ok
eval_self_check-is_ok none s = refl
eval_self_check-is_ok (some fs) s =
    is_ok-reasons_all (map second_fault fs) s
    ∙ ap (λ t. t && is_ok s) (mapped_empty second_fault fs)

abbrev pub refusal_ok : Observed → Option (List String) → Bool → Bool
refusal_ok o findings rest =
    findings_ok findings && (str_eq o.verdict "invalid" && (not (emits o) && rest))

refused :
    (o : Observed) (findings : Option (List String)) (s t : Score)
    → is_ok (
        eval_self_check findings
          (if str_eq o.verdict "invalid" then eval_emission o s else reason expected_invalid t))
      ≡ refusal_ok o findings (is_ok s)
unfolding eval_emission
refused o findings s t =
    eval_self_check-is_ok findings _
    ∙ ap (λ b. findings_ok findings && b)
        (unless_reason (str_eq o.verdict "invalid") expected_invalid (eval_emission o s) t
          ∙ ap (λ b. str_eq o.verdict "invalid" && b)
              (if_reason (emits o) emitted_result_or_tiers s (fail_recompute s)))

pub eval_reject-is_ok :
    (e : Expected) (o : Observed) (findings : Option (List String)) (s : Score)
    → is_ok (eval_reject e o findings s)
      ≡ refusal_ok o findings (codes_ok e.codes o.codes && is_ok s)
unfolding eval_reject
eval_reject-is_ok e o findings s =
    refused o findings (eval_reject_stages e.codes o.codes s) _
    ∙ ap (refusal_ok o findings) (eval_reject_stages-is_ok e.codes o.codes s)

abbrev pub readings_ok : Expected → Observed → Bool
readings_ok e o = not (not (is_empty e.readings) && not (shares (predicted e.readings) o.codes))

pub eval_indeterminate-is_ok :
    (e : Expected) (o : Observed) (findings : Option (List String)) (s : Score)
    → is_ok (eval_indeterminate e o findings s) ≡ refusal_ok o findings (readings_ok e o && is_ok s)
unfolding eval_indeterminate is_ok
eval_indeterminate-is_ok e o findings s =
    refused o findings _ _
    ∙ ap (refusal_ok o findings) (
        if_reason (not (is_empty e.readings) && not (shares (predicted e.readings) o.codes))
          no_reading_observed _ _)

-- The whole evaluation of each kind.
abbrev pub declared_ok : String → Expected → Observed → Bool
declared_ok kind e o =
    not (is_verdict o.verdict && not (str_eq o.verdict (expected_verdict kind e)))

abbrev pub verdict_ok : String → Expected → Observed → Bool
verdict_ok kind e o = declared_ok kind e o && answered_ok o true

pub eval_verdict-is_ok :
    (kind : String) (e : Expected) (o : Observed)
    → is_ok (eval_verdict kind e o) ≡ verdict_ok kind e o
unfolding eval_verdict is_ok
eval_verdict-is_ok kind e o =
    if_reason (is_verdict o.verdict && not (str_eq o.verdict (expected_verdict kind e)))
      verdict_differs _ _
    ∙ ap (λ t. declared_ok kind e o && t) (eval_establishment-is_ok o no_score)
