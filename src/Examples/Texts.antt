-- ===== src/Examples/Texts.antt =====
-- Canonical JSON, the scan of string literals and the digest shape of packaging/run_vectors.py, on test
-- data; scalars of Ed25519, and one more key for a row that is attested.
use aee_conformance.Base.{
  arith, ℕ, ◌+◌, ◌-◌, some, get_elem?, ◌≤◌, true, [], ◌∷◌, List, codes, length, ◌≡◌, refl, ◌↔◌,
}
use aee_conformance.Py.Value.{null, bool, obj, Fields, end, field}
use aee_conformance.Jcs.{jcs_dumps, key_lt}
use aee_conformance.Jcs.Members.{
  SameValue, same, objects, under, swapped, no_fields, jcs_dumps_same,
}
use aee_conformance.Scalars.{check_string_literal, check_string_scalars, literal_loop, scalars_loop}
use aee_conformance.Scalars.Fuel.{check_string_scalars_fuel, check_string_literal_bounds}
use aee_conformance.Shapes.{matches_hex64}
use aee_conformance.Shapes.Hex.{IsHexLine, matches_hex64_iff}
use aee_conformance.Verifier.Record.{RecordView, record_view}
use aee_conformance.Verifier.Tiers.{row_tier, attested}
use aee_conformance.Verifier.Tiers.Growth.{row_tier_more_keys}
use aee_conformance.Ed25519.{base, mul_loop, bits, order, identity, pt_mul}
use aee_conformance.Ed25519.Fuel.{pt_mul_fuel}
use aee_conformance.Examples.Data.{platform, key, caught_row, zeros, record_of, interception_text}

abbrev b_first : Fields
b_first = field "x" (obj (field "b" null (field "a" (bool true) end))) (field "c" null end)

abbrev a_first : Fields
a_first = field "x" (obj (field "a" (bool true) (field "b" null end))) (field "c" null end)

abbrev c_last : List ℕ
c_last = codes "{\"c\":null,\"x\":{\"a\":true,\"b\":null}}"

inner : SameValue (obj b_first) (obj a_first)
unfolding key_lt
inner = objects (
    under "x" (objects (swapped "b" "a" null (bool true) end refl))
      (under "c" (same null) no_fields))

jcs_dumps_same_example : jcs_dumps (obj b_first) ≡ jcs_dumps (obj a_first)
jcs_dumps_same_example = jcs_dumps_same (obj b_first) (obj a_first) inner

check_string_literal_bounds_example :
    (2 ≤ 4) × (4 ≤ length (codes "\"a1\":")) × (get_elem? (codes "\"a1\":") (4 - 1) ≡ some 0x22)
unfolding check_string_literal
check_string_literal_bounds_example = check_string_literal_bounds (codes "\"a1\":") 4 refl

check_string_scalars_fuel_example :
    (scalars_loop (length (codes interception_text) + 5) (codes interception_text) 0
      ≡ check_string_scalars (codes interception_text))
    × (literal_loop (length (codes interception_text) + 5) (codes interception_text) 1
        ≡ check_string_literal (codes interception_text))
check_string_scalars_fuel_example = check_string_scalars_fuel (codes interception_text) 5

matches_hex64_iff_example : (matches_hex64 zeros ≡ true) ↔ IsHexLine 64 (codes zeros)
matches_hex64_iff_example = matches_hex64_iff zeros

abbrev signed : List RecordView
signed = record_view platform 0 (record_of "aQ==") ∷ []

signed-attested : row_tier platform key true signed caught_row ≡ attested
unfolding row_tier record_view
signed-attested = refl

row_tier_more_keys_example : row_tier platform ((2 ∷ []) ∷ key) true signed caught_row ≡ attested
row_tier_more_keys_example =
    row_tier_more_keys platform key (2 ∷ []) signed caught_row signed-attested

-- The base point of RFC 8032.
base_point : base.x ≡ 15112221349535400772501151409588531511454012693041857206046113283949847762202
unfolding base
base_point = refl

pt_mul_fuel_example : mul_loop (bits + 7) order base identity ≡ pt_mul order base
pt_mul_fuel_example = pt_mul_fuel order 7 base (omega arith)
