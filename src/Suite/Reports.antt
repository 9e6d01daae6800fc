-- ===== src/Suite/Reports.antt =====
-- What the report of one invocation of an external rail is, in packaging/run_vectors.py.
use aee_conformance.Base.{
  ℕ, String, Bool, true, false, not, ◌&&◌, Option, none, some, List, [], ◌∷◌, ◌++◌, ◌≡◌, ◌≢◌, ◌⊎◌,
  inl, inr, refl, if◌then◌else◌, eq_iff, keep, Bool-cases,
}
use aee_conformance.Base.Int.{ℤ}
use aee_conformance.Py.Value.{
  Value, null, bool, int, float, real, str, arr, obj, Fields, get, is_none, is_text,
}
use aee_conformance.Suite.Rail.{
  Invocation, timed_out, unrunnable, exited, Shell, Report, report_members, absent_members,
  member_type_errors, external_failure, external_record, checked_report, report_of, last_line,
  exit_verdict, parse_external, run_external, observe_external,
}
use aee_conformance.Suite.Score.{is_ok}
use aee_conformance.Suite.Expected.{text_or_empty}
use aee_conformance.Suite.Evaluate.{evaluate_vector_detailed}
use aee_conformance.Suite.Conform.{evaluate_vector_detailed-IsConformant}

-- No usable report: the verdict is an error, the fault is named, and no member is established.
abbrev pub IsFailure : Report → Type 0
IsFailure r = (r.verdict ≡ "error") × (r.errors ≢ []) × (r.absent ≡ report_members)

-- The record of an object whose members have their types. Without a key policy its verdict is that of the
-- exit status.
abbrev pub IsRecord : ℤ → Bool → Fields → Report → Type 0
IsRecord code has_keys parsed r =
    (member_type_errors parsed ≡ [])
    × (r.errors ≡ [])
    × (r.absent ≡ absent_members (some parsed))
    × (has_keys ≡ false → r.verdict ≡ exit_verdict code)

failure : (e : String) (es : List String) → IsFailure (external_failure (e ∷ es))
unfolding external_failure absent_members
failure e es = (refl, (λ q. cc), refl)

named_verdict : (v : Value) (t : String) → is_text t v ≡ true → text_or_empty v ≡ t
named_verdict (str s) t h = (eq_iff s t).0 h
named_verdict null t h = cc
named_verdict (bool b) t h = cc
named_verdict (int n) t h = cc
named_verdict (float n) t h = cc
named_verdict (real s) t h = cc
named_verdict (arr xs) t h = cc
named_verdict (obj fs) t h = cc

-- The two channels of a verdict, when they must agree.
agreeing :
    (code : ℤ) (parsed : Fields) (silent same keys : Bool) (r : Report)
    → member_type_errors parsed ≡ []
    → r.errors ≡ []
    → r.absent ≡ absent_members (some parsed)
    → (silent ≡ true → r.verdict ≡ exit_verdict code)
    → (silent ≡ false → same ≡ true → r.verdict ≡ exit_verdict code)
    → IsFailure (
        if not silent && not same && not keys
        then external_failure ("external-verdict-contradicts-exit-status" ∷ [])
        else r)
      ⊎ IsRecord code keys parsed (
          if not silent && not same && not keys
          then external_failure ("external-verdict-contradicts-exit-status" ∷ [])
          else r)
agreeing code parsed true same keys r typed e a v w = inr (typed, e, a, λ k. v refl)
agreeing code parsed false true keys r typed e a v w = inr (typed, e, a, λ k. w refl refl)
agreeing code parsed false false true r typed e a v w = inr (typed, e, a, λ k. cc)
agreeing code parsed false false false r typed e a v w =
    inl (failure "external-verdict-contradicts-exit-status" [])

external_record-IsRecord :
    (code : ℤ) (parsed : Fields) (has_keys : Bool)
    → member_type_errors parsed ≡ []
    → IsFailure (external_record parsed (exit_verdict code) has_keys)
      ⊎ IsRecord code has_keys parsed (external_record parsed (exit_verdict code) has_keys)
unfolding external_record
external_record-IsRecord code parsed has_keys typed =
    agreeing code parsed (is_none (get "verdict" parsed))
      (is_text (exit_verdict code) (get "verdict" parsed)) has_keys _ typed refl refl
      (λ q. rw q refl)
      (λ q same. rw q (named_verdict (get "verdict" parsed) (exit_verdict code) same))

checked_report-IsRecord :
    (code : ℤ) (parsed : Fields) (has_keys : Bool) (es : List String)
    → member_type_errors parsed ≡ es
    → IsFailure (checked_report es parsed (exit_verdict code) has_keys)
      ⊎ IsRecord code has_keys parsed (checked_report es parsed (exit_verdict code) has_keys)
checked_report-IsRecord code parsed has_keys [] typed =
    external_record-IsRecord code parsed has_keys typed
checked_report-IsRecord code parsed has_keys (e ∷ es) typed = inl (failure e es)

-- The object that the last line of the output holds, if the rail exited and wrote one.
abbrev pub IsReported : Shell → Invocation → Bool → Report → Type 0
IsReported sh inv has_keys r =
    (code : ℤ) × (stdout : List ℕ) × (line : String) × (parsed : Fields) × (inv
      ≡ exited code stdout)
    × (last_line (keep (λ l. not (sh.is_blank l)) (sh.splitlines (sh.decode_replace stdout)))
        ≡ some line)
    × (sh.json_loads line ≡ some (obj parsed))
    × IsRecord code has_keys parsed r

module _ (sh : Shell) (has_keys : Bool) (code : ℤ) (stdout : List ℕ) (line : String)
    (last : last_line (keep (λ l. not (sh.is_blank l)) (sh.splitlines (sh.decode_replace stdout)))
      ≡ some line) where
  abbrev Reported : Report → Type 0
  Reported r = IsFailure r ⊎ IsReported sh (exited code stdout) has_keys r

  report_of-Reported :
      (v : Option Value)
      → sh.json_loads line ≡ v
      → Reported (report_of v (exit_verdict code) has_keys)
  report_of-Reported none e = inl (failure "external-output-malformed-json" [])
  report_of-Reported (some (obj parsed)) e =
      elim (checked_report-IsRecord code parsed has_keys (member_type_errors parsed) refl) [
        | inl f ↦ inl f
        | inr r ↦ inr (code, stdout, line, parsed, refl, last, e, r)
      ]
  report_of-Reported (some null) e = inl (failure "external-output-not-an-object" [])
  report_of-Reported (some (bool b)) e = inl (failure "external-output-not-an-object" [])
  report_of-Reported (some (int n)) e = inl (failure "external-output-not-an-object" [])
  report_of-Reported (some (float n)) e = inl (failure "external-output-not-an-object" [])
  report_of-Reported (some (real t)) e = inl (failure "external-output-not-an-object" [])
  report_of-Reported (some (str t)) e = inl (failure "external-output-not-an-object" [])
  report_of-Reported (some (arr xs)) e = inl (failure "external-output-not-an-object" [])

parse_external-Reported :
    (sh : Shell) (has_keys : Bool) (code : ℤ) (stdout : List ℕ) (o : Option String)
    → last_line (keep (λ l. not (sh.is_blank l)) (sh.splitlines (sh.decode_replace stdout))) ≡ o
    → (let r : Report = elim o [
      | none ↦ external_failure ("external-output-absent" ∷ [])
      | some l ↦ report_of (sh.json_loads l) (exit_verdict code) has_keys
    ] in
        IsFailure r ⊎ IsReported sh (exited code stdout) has_keys r)
parse_external-Reported sh has_keys code stdout none e = inl (failure "external-output-absent" [])
parse_external-Reported sh has_keys code stdout (some l) e =
    report_of-Reported sh has_keys code stdout l e (sh.json_loads l) refl

-- An invocation either gives no usable report, under the verdict of an error and with the fault named, or
-- it exited and its last line is an object whose members have their types; then every member that the
-- object lacks is marked absent and, without a key policy, the verdict is that of the exit status.
pub run_external-IsReported :
    (sh : Shell) (inv : Invocation) (has_keys : Bool)
    → IsFailure (run_external sh inv has_keys)
      ⊎ IsReported sh inv has_keys (run_external sh inv has_keys)
unfolding run_external parse_external
run_external-IsReported sh timed_out has_keys = inl (failure "external-verifier-timeout" [])
run_external-IsReported sh unrunnable has_keys = inl (failure "external-verifier-unrunnable" [])
run_external-IsReported sh (exited code stdout) has_keys =
    parse_external-Reported sh has_keys code stdout _ refl

-- Two lists of faults that are none together are none.
no_faults : (xs ys : List String) → xs ++ ys ≡ [] → (xs ≡ []) × (ys ≡ [])
no_faults [] ys h = (refl, h)
no_faults (x ∷ xs) ys h = cc

-- A rail that fails in one of its two passes passes no vector, of whatever kind and expectation.
pub observe_external-fails :
    (sh : Shell) (pinned unpinned : Invocation) (kind : String) (entry : Option Fields)
    (findings : Option (List String))
    → IsFailure (run_external sh pinned true) ⊎ IsFailure (run_external sh unpinned false)
    → is_ok (evaluate_vector_detailed kind entry (observe_external sh pinned unpinned) findings)
      ≡ false
unfolding observe_external
observe_external-fails sh pinned unpinned kind entry findings fails =
    elim (Bool-cases (
      is_ok (evaluate_vector_detailed kind entry (observe_external sh pinned unpinned) findings))) [
        | inl ok ↦
            let none_found =
              no_faults _ _
                ((evaluate_vector_detailed-IsConformant kind entry _ findings).0 ok).0.0 in
            absurd (elim fails [ inl f ↦ f.1 none_found.0 | inr f ↦ f.1 none_found.1 ])
        | inr bad ↦ bad
      ]
