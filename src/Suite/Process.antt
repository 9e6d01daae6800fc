-- ===== src/Suite/Process.antt =====
-- `_run_observe`, `_load_statement`, `_run_process_vector` and `_parity_status` of
-- packaging/run_vectors.py: one vector, from its bytes to its row.
use mathlib.Core.Option
use aee_conformance.Base.{
  ℕ, String, Bool, true, false, ◌&&◌, ◌||◌, Option, none, some, List, [], ◌∷◌, ◌++◌, length, ltb,
  is_empty, if◌then◌else◌, str_eq, map,
}
use aee_conformance.Py.Value.{Value, null, Fields, is_none}
use aee_conformance.Py.Run.{Run, raised, done}
use aee_conformance.Platform.{Platform}
use aee_conformance.Verifier.{
  Outcome, Validity, valid, invalid, verdict, Verification, returned, verify,
}
use aee_conformance.Verifier.Tiers.{Tier, declared, attested, unattested}
use aee_conformance.SecondFault.{second_fault_absence}
use aee_conformance.Suite.Score.{Status, unset, pass, fail, Gates, all_gates, Reason, Score, is_ok}
use aee_conformance.Suite.Expected.{expected_of}
use aee_conformance.Suite.Rail.{Invocation, Shell, Observed, observe_external}
use aee_conformance.Suite.Evaluate.{predicted, evaluate_vector_detailed}

abbrev pub tier_text : Tier → String
tier_text declared = "declared"
tier_text attested = "attested"
tier_text unattested = "unattested"

abbrev pub validity_text : Validity → String
validity_text valid = "valid"
validity_text invalid = "invalid"

abbrev pub first_code : List String → Option String
first_code [] = none
first_code (c ∷ _) = some c

-- `None` in a result is an absent one.
abbrev pub result_or_none : Option Value → Value
result_or_none none = null
result_or_none (some v) = v

abbrev pub column_texts : Option (List Tier) → Option (List String)
column_texts none = none
column_texts (some ts) = some (map tier_text ts)

abbrev pub is_absent {ℓ} : {A : Type ℓ} → Option A → Bool
is_absent none = true
is_absent (some _) = false

abbrev name_if : Bool → List String → List String
name_if b names = if b then names else []

-- `_reference_absent`
unfoldable pub reference_absent : Outcome → Outcome → List String
reference_absent o p =
    name_if (is_empty o.codes) ("codes" ∷ "primaryCode" ∷ [])
    ++ (name_if (is_none (result_or_none o.result)) ("result" ∷ [])
        ++ (name_if (is_absent o.tiers_with_key) ("tiers_with_key" ∷ [])
            ++ (name_if (is_absent p.tiers_without_key) ("tiers_without_key" ∷ [])
                ++ name_if (is_none (result_or_none p.result)) ("result_without_key" ∷ []))))

unfoldable pub observed_of : Outcome → Outcome → Observed
unfolding reference_absent verdict
observed_of o p = record {
  verdict = validity_text (verdict o);
  verdict_without_key = some (validity_text (verdict p));
  codes = o.codes;
  primary_code = first_code o.codes;
  result = result_or_none o.result;
  tiers_with_key = column_texts o.tiers_with_key;
  tiers_without_key = column_texts p.tiers_without_key;
  result_without_key = result_or_none p.result;
  absent = reference_absent o p;
  errors = [];
}

abbrev pub both_passes : Verification → Verification → Option Observed
both_passes (returned o) (returned p) = some (observed_of o p)
both_passes _ _ = none

-- `_run_observe` without an external rail: `none` when an exception leaves `verify`.
unfoldable pub observe_reference :
    Platform → List (List ℕ) → Value → Option (List ℕ) → Option Observed
unfolding verify observed_of
observe_reference P pinned stmt raw = both_passes (verify P pinned stmt raw) (verify P [] stmt raw)

-- The rail of a run: the two passes of an external one over the vector, or this file's own.
pub data Rail : Type 0 where
  external : Invocation → Invocation → Rail
  reference : List (List ℕ) → Rail

unfoldable pub run_observe : Platform → Shell → Rail → Value → Option (List ℕ) → Option Observed
unfolding observe_external observe_reference
run_observe P sh (external pinned unpinned) stmt raw = some (observe_external sh pinned unpinned)
run_observe P sh (reference pinned) stmt raw = observe_reference P pinned stmt raw

-- `_load_statement`: the value, and whether the parse was faithful
unfoldable pub load_statement : Platform → Shell → List ℕ → Value × Bool
unfolding Option.bind
load_statement P sh raw = elim (Option.bind (P.utf8_decode raw) sh.json_loads) [
  | some v ↦ (v, true)
  | none ↦ elim (sh.json_loads (sh.decode_replace raw)) [
    | some v ↦ (v, false)
    | none ↦ (null, false)
  ]
]

-- `MAX_STATEMENT_BYTES`
abbrev pub max_statement_bytes : ℕ
max_statement_bytes = 67108864

-- `_parity_status`
unfoldable pub parity_status : String → List Reason → Status
parity_status kind [] = if str_eq kind "reject" then pass else unset
parity_status kind (_ ∷ _) = fail

pub record Row : Type 0 where
  pub status : Status
  pub conformance : Status
  pub reason_parity : Status
  pub gates : Gates
  pub observed : Option Observed
  pub reasons : List Reason
  pub failed : Bool

abbrev pub pass_if : Bool → Status
pass_if b = if b then pass else fail

-- A row whose vector could not be read carries no evaluation.
abbrev pub unreadable : Row
unreadable = record {
  status = fail;
  conformance = unset;
  reason_parity = unset;
  gates = all_gates fail;
  observed = none;
  reasons = [];
  failed = true;
}

unfoldable pub row_of : String → Observed → Score → Row
unfolding is_ok parity_status
row_of kind o s = record {
  status = pass_if (is_ok s);
  conformance = pass_if (is_empty s.reasons);
  reason_parity = parity_status kind s.parity;
  gates = s.gates;
  observed = some o;
  reasons = s.reasons ++ s.parity;
  failed = if is_ok s then false else true;
}

-- The codes that the self-check exempts: the expected ones, those declared beside them, and those that
-- the readings predict.
unfoldable pub exempt_codes : Option Fields → List String
unfolding expected_of
exempt_codes entry =
    let e = expected_of entry in e.codes ++ (e.also_carries ++ predicted e.readings)

abbrev pub findings_of : Run (Unit {0}) → Option (Option (List String))
findings_of (raised e) = none
findings_of (done _ findings) = some (some findings)

-- `none` when an exception leaves the self-check
unfoldable pub self_check_of :
    Platform → String → Option Fields → Value → Bool → Option (Option (List String))
unfolding exempt_codes second_fault_absence
self_check_of P kind entry stmt faithful =
    if (str_eq kind "reject" || str_eq kind "indeterminate") && faithful
    then findings_of (second_fault_absence P stmt (exempt_codes entry))
    else some none

-- `_run_process_vector` on the bytes of the file, if it was read; `none` when an exception ends the run
unfoldable pub process_vector :
    Platform → Shell → Rail → String → Option Fields → Option (List ℕ) → Option Row
unfolding load_statement run_observe self_check_of evaluate_vector_detailed row_of Option.bind
process_vector P sh rail kind entry none = some unreadable
process_vector P sh rail kind entry (some raw) =
    if ltb max_statement_bytes (length raw)
    then some unreadable
    else (let loaded = load_statement P sh raw in
        Option.bind (run_observe P sh rail loaded.0 (some raw)) λ o.
          Option.bind (self_check_of P kind entry loaded.0 loaded.1)
            λ findings. some (row_of kind o (evaluate_vector_detailed kind entry o findings)))
