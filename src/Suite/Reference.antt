-- ===== src/Suite/Reference.antt =====
-- What the reference rail of packaging/run_vectors.py reports of any statement.
use aee_conformance.Base.{String, true, false, some, [], ◌≡◌, ◌≢◌, ◌⊎◌}
use aee_conformance.Py.Value.{Value, is_none}
use aee_conformance.Platform.{Platform}
use aee_conformance.Verifier.{verdict}
use aee_conformance.Suite.Rail.{Observed}
use aee_conformance.Suite.Evaluate.{is_verdict, is_reported, has_tiers}
use aee_conformance.Suite.Contract.{IsInvariant}

abbrev pub IsSilent : Observed → Type 0
IsSilent o =
    (o.verdict ≡ "invalid")
    × (o.codes ≢ [])
    × (is_none o.result ≡ true)
    × (has_tiers o.tiers_with_key ≡ false)

abbrev pub IsEvident : Observed → Type 0
IsEvident o =
    (o.verdict ≡ "valid")
    × (o.codes ≡ [])
    × (is_none o.result ≡ false)
    × (is_reported o.tiers_with_key ≡ true)
    × (is_reported o.tiers_without_key ≡ true)

-- No fault, a verdict, the same one under both key policies, and a result that the tiers do not move;
-- with a result and both columns, or with a code and neither.
abbrev pub IsBehaved : Observed → Type 0
IsBehaved o =
    (o.errors ≡ [])
    × (is_verdict o.verdict ≡ true)
    × ((w : String) → o.verdict_without_key ≡ some w → w ≡ o.verdict)
    × IsInvariant o
    × (IsEvident o ⊎ IsSilent o)
