-- ===== src/Suite/Rail.antt =====
-- External rails of packaging/run_vectors.py: one invocation, the contract on its report, and the
-- record that the two passes merge into. The text of a fault is its name.
use aee_conformance.Base.{
  ℕ, String, Bool, true, false, not, ◌&&◌, ◌||◌, Option, none, some, List, [], ◌∷◌, ◌++◌, all, keep,
  if◌then◌else◌, str_eq,
}
use aee_conformance.Base.Int.{ℤ, pos, eq_ℤ}
use aee_conformance.Py.Value.{
  Value, null, arr, obj, Fields, get, is_none, is_str, is_text, as_str, list_or_empty,
}
use aee_conformance.Suite.Expected.{text_or_empty, texts, text_column}
use aee_conformance.Base.{mem_str}

-- What the code takes from subprocess and json: the end of one invocation, and functions on its output.
-- `none` of `json_loads` is a `ValueError`.
pub data Invocation : Type 0 where
  timed_out unrunnable : Invocation
  exited : ℤ → List ℕ → Invocation

pub record Shell : Type 0 where
  -- `b.decode("utf-8", "replace")`, and `s.splitlines()`
  pub decode_replace : List ℕ → String
  pub splitlines : String → List String
  -- `not ln.strip()`
  pub is_blank : String → Bool
  pub json_loads : String → Option Value

-- `external_failure` and `external_record`. A missing member, and a null one, is `none`.
pub record Report : Type 0 where
  pub verdict : String
  pub codes : List String
  pub result : Value
  pub tiers : Option (List String)
  pub primary_code : Option String
  pub absent : List String
  pub errors : List String

-- `REPORT_MEMBERS`
abbrev pub report_members : List String
report_members = "codes" ∷ "result" ∷ "tiers" ∷ "primaryCode" ∷ []

unfoldable pub absent_members : Option Fields → List String
absent_members none = report_members
absent_members (some parsed) = keep (λ m. is_none (get m parsed)) report_members

-- `MEMBER_TYPES`: whether a member is a list, and not a text
abbrev pub member_types : List (String × Bool)
member_types =
    ("verdict", false)
    ∷ ("codes", true)
    ∷ ("result", false)
    ∷ ("tiers", true)
    ∷ ("primaryCode", false)
    ∷ []

-- A value that is there has the type, and a list holds texts alone.
abbrev pub has_type : Bool → Value → Bool
has_type false v = is_none v || is_str v
has_type true null = true
has_type true (arr xs) = all is_str (list_or_empty (arr xs))
has_type true _ = false

-- The members of a wrong type, in the order of `MEMBER_TYPES`.
unfoldable pub wrong_members : List (String × Bool) → Fields → List String
wrong_members [] parsed = []
wrong_members ((m, is_list) ∷ ms) parsed =
    let rest = wrong_members ms parsed in
    if has_type is_list (get m parsed) then rest else "external-output-member-type" ∷ rest

unfoldable pub member_type_errors : Fields → List String
unfolding wrong_members
member_type_errors parsed = wrong_members member_types parsed

unfoldable pub external_failure : List String → Report
unfolding absent_members
external_failure errors = record {
  verdict = "error";
  codes = [];
  result = null;
  tiers = none;
  primary_code = none;
  absent = absent_members none;
  errors = errors;
}

-- `reported if reported is not None else exit_verdict`
abbrev pub verdict_or : String → Value → String
verdict_or exit_verdict v = if is_none v then exit_verdict else text_or_empty v

-- `has_keys`: a consumer key policy was supplied.
unfoldable pub external_record : Fields → String → Bool → Report
unfolding external_failure absent_members
external_record parsed exit_verdict has_keys =
    let reported = get "verdict" parsed in
    if not (is_none reported) && not (is_text exit_verdict reported) && not has_keys
    then external_failure ("external-verdict-contradicts-exit-status" ∷ [])
    else record {
      verdict = verdict_or exit_verdict reported;
      codes = texts (list_or_empty (get "codes" parsed));
      result = get "result" parsed;
      tiers = text_column (get "tiers" parsed);
      primary_code = as_str (get "primaryCode" parsed);
      absent = absent_members (some parsed);
      errors = [];
    }

abbrev pub checked_report : List String → Fields → String → Bool → Report
checked_report [] parsed exit_verdict has_keys = external_record parsed exit_verdict has_keys
checked_report (e ∷ es) parsed exit_verdict has_keys = external_failure (e ∷ es)

abbrev pub report_of : Option Value → String → Bool → Report
report_of none exit_verdict has_keys = external_failure ("external-output-malformed-json" ∷ [])
report_of (some (obj parsed)) exit_verdict has_keys =
    checked_report (member_type_errors parsed) parsed exit_verdict has_keys
report_of (some _) exit_verdict has_keys = external_failure ("external-output-not-an-object" ∷ [])

-- `lines[-1]`, of the lines that are not blank
abbrev pub last_line : List String → Option String
last_line [] = none
last_line (l ∷ []) = some l
last_line (_ ∷ l ∷ ls) = last_line (l ∷ ls)

abbrev pub exit_verdict : ℤ → String
exit_verdict code = if eq_ℤ code (pos 0) then "valid" else "invalid"

module _ (sh : Shell) where
  unfoldable pub parse_external : ℤ → List ℕ → Bool → Report
  unfolding external_failure external_record member_type_errors
  parse_external code stdout has_keys =
      elim (last_line
        (keep (λ l. not (sh.is_blank l)) (sh.splitlines (sh.decode_replace stdout)))) [
          | none ↦ external_failure ("external-output-absent" ∷ [])
          | some l ↦ report_of (sh.json_loads l) (exit_verdict code) has_keys
        ]

  -- `run_external`, of the invocation with or without a key policy
  unfoldable pub run_external : Invocation → Bool → Report
  unfolding parse_external
  run_external timed_out has_keys = external_failure ("external-verifier-timeout" ∷ [])
  run_external unrunnable has_keys = external_failure ("external-verifier-unrunnable" ∷ [])
  run_external (exited code stdout) has_keys = parse_external code stdout has_keys

-- What the evaluator reads of one rail on one vector.
pub record Observed : Type 0 where
  pub verdict : String
  pub verdict_without_key : Option String
  pub codes : List String
  pub primary_code : Option String
  pub result : Value
  pub tiers_with_key : Option (List String)
  pub tiers_without_key : Option (List String)
  pub result_without_key : Value
  pub absent : List String
  pub errors : List String

-- `WITH_KEY_MEMBER` and `WITHOUT_KEY_MEMBER`, on the absent members of a pass
unfoldable pub with_key_members : List String → List String
with_key_members [] = []
with_key_members (m ∷ ms) =
    let rest = with_key_members ms in
    if str_eq m "tiers"
    then "tiers_with_key" ∷ rest
    else if mem_str m ("codes" ∷ "result" ∷ "primaryCode" ∷ [])
    then m ∷ rest
    else rest

unfoldable pub without_key_members : List String → List String
without_key_members [] = []
without_key_members (m ∷ ms) =
    let rest = without_key_members ms in
    if str_eq m "tiers"
    then "tiers_without_key" ∷ rest
    else if str_eq m "result"
    then "result_without_key" ∷ rest
    else rest

-- `observe_external`: the absent members are sorted there, and read as a set.
unfoldable pub observe_external : Shell → Invocation → Invocation → Observed
unfolding run_external with_key_members without_key_members
observe_external sh pinned unpinned =
    let a = run_external sh pinned true in
    let b = run_external sh unpinned false in
    record {
      verdict = a.verdict;
      verdict_without_key = some b.verdict;
      codes = a.codes;
      primary_code = a.primary_code;
      result = a.result;
      tiers_with_key = a.tiers;
      tiers_without_key = b.tiers;
      result_without_key = b.result;
      absent = with_key_members a.absent ++ without_key_members b.absent;
      errors = a.errors ++ b.errors;
    }
