-- ===== src/Suite/Score.antt =====
-- What `evaluate_vector_detailed` of packaging/run_vectors.py fills: the gate columns, the reasons and
-- the parity findings of one vector. A reason stands for the text of its message.
use aee_conformance.Base.{String, Bool, List, [], ◌∷◌, ◌++◌, if◌then◌else◌, str_eq}
use aee_conformance.Base.{is_empty, ◌&&◌}

-- "-", "PASS" and "FAIL"
pub data Status : Type 0 where
  unset pass fail : Status

-- The columns of `GATE_NAMES`.
pub record Gates : Type 0 where
  pub gate0 : Status
  pub gate1 : Status
  pub recompute : Status
  pub tier : Status
  pub self_check : Status

-- `{g: status for g in GATE_NAMES}`
abbrev pub all_gates : Status → Gates
all_gates s = record { gate0 = s; gate1 = s; recompute = s; tier = s; self_check = s }

-- `gates[stage] = status`, of a stage of the code registry
abbrev pub set_stage : String → Status → Gates → Gates
set_stage stage s g =
    if str_eq stage "gate0"
    then record g { gate0 = s }
    else if str_eq stage "gate1"
    then record g { gate1 = s }
    else if str_eq stage "recompute"
    then record g { recompute = s }
    else g

pub data Reason : Type 0 where
  rail_invocation : String → Reason
  verdict_not_established : Reason
  verdict_without_key_differs : Reason
  verdict_differs : Reason
  expected_valid : Reason
  expected_invalid : Reason
  result_differs : Reason
  column_not_established : String → Reason
  column_differs : String → Reason
  result_without_key_not_established : Reason
  tier_altered_result : Reason
  emitted_result_or_tiers : Reason
  no_reading_observed : Reason
  second_fault : String → Reason
  no_expected_code : Reason

pub record Score : Type 0 where
  pub gates : Gates
  pub reasons : List Reason
  pub parity : List Reason

abbrev pub no_score : Score
no_score = record { gates = all_gates unset; reasons = []; parity = [] }

-- `reasons.append(r)`, and `reasons.extend(rs)`
abbrev pub reason : Reason → Score → Score
reason r s = record s { reasons = s.reasons ++ (r ∷ []) }

abbrev pub reasons_all : List Reason → Score → Score
reasons_all rs s = record s { reasons = s.reasons ++ rs }

abbrev pub fail_gate0 : Score → Score
fail_gate0 s = record s { gates = record (s.gates) { gate0 = fail } }

abbrev pub fail_recompute : Score → Score
fail_recompute s = record s { gates = record (s.gates) { recompute = fail } }

abbrev pub fail_tier : Score → Score
fail_tier s = record s { gates = record (s.gates) { tier = fail } }

-- `not (reasons or parity)`
unfoldable pub is_ok : Score → Bool
is_ok s = is_empty s.reasons && is_empty s.parity
