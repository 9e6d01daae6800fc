-- ===== src/Suite/Contract.antt =====
-- The manifest's contract of packaging/run_vectors.py, per kind, as a predicate on what a rail reports.
use aee_conformance.Base.{
  String, true, false, Option, none, some, List, [], ◌≡◌, is_empty, if◌then◌else◌, str_eq, mem_str,
}
use aee_conformance.Py.Value.{eq, is_none}
use aee_conformance.Verifier.Vocabulary.{texts_eq}
use aee_conformance.Suite.Expected.{Expected}
use aee_conformance.Suite.Rail.{Observed}
use aee_conformance.Suite.Evaluate.{
  is_verdict, is_reported, expected_verdict, shares, has_tiers, predicted,
}

-- The rail answered, with the verdict that the manifest declares, and with the same one under both key
-- policies.
abbrev pub IsAnswered : String → Expected → Observed → Type 0
IsAnswered kind e o =
    (o.errors ≡ [])
    × (is_verdict o.verdict ≡ true)
    × (o.verdict ≡ expected_verdict kind e)
    × ((w : String) → o.verdict_without_key ≡ some w → w ≡ o.verdict)

-- A tier column that is expected is there, and is the one expected.
abbrev pub IsColumn : String → Option (List String) → Option (List String) → Observed → Type 0
IsColumn key expected reported o =
    (ts : List String)
    → expected ≡ some ts
    → (mem_str key o.absent ≡ false)
      × (texts_eq ts (elim reported [ none ↦ [] | some us ↦ us ]) ≡ true)

-- A rail that reports tiers and a result reports the same result without the key.
abbrev pub IsInvariant : Observed → Type 0
IsInvariant o =
    is_reported o.tiers_with_key ≡ true
    → is_none o.result ≡ false
    → (mem_str "result_without_key" o.absent ≡ false) × (eq o.result_without_key o.result ≡ true)

abbrev pub IsAcceptContract : Expected → Observed → Type 0
IsAcceptContract e o =
    (o.verdict ≡ "valid")
    × (is_none e.result ≡ false → eq o.result e.result ≡ true)
    × IsColumn "tiers_with_key" e.tier_with_pinned_key o.tiers_with_key o
    × IsColumn "tiers_without_key" e.tier_without_key o.tiers_without_key o
    × IsInvariant o

-- An invalid statement has no result and no tiers, and the self-check found nothing if it ran.
abbrev pub IsRefusal : Observed → Option (List String) → Type 0
IsRefusal o findings =
    (o.verdict ≡ "invalid")
    × (is_none o.result ≡ true)
    × (has_tiers o.tiers_with_key ≡ false)
    × ((fs : List String) → findings ≡ some fs → fs ≡ [])

-- One of the expected codes is observed, if there are any.
abbrev pub IsRejectContract : Expected → Observed → Option (List String) → Type 0
IsRejectContract e o findings =
    IsRefusal o findings × (is_empty e.codes ≡ false → shares e.codes o.codes ≡ true)

-- The condition that some declared reading predicts is observed, if there are any.
abbrev pub IsIndeterminateContract : Expected → Observed → Option (List String) → Type 0
IsIndeterminateContract e o findings =
    IsRefusal o findings
    × (is_empty e.readings ≡ false → shares (predicted e.readings) o.codes ≡ true)

-- Any kind but the first two is held to the reject contract.
abbrev pub IsConformant : String → Expected → Observed → Option (List String) → Type 0
IsConformant kind e o findings =
    IsAnswered kind e o
    × (if str_eq kind "accept"
        then IsAcceptContract e o
        else (if str_eq kind "indeterminate"
            then IsIndeterminateContract e o findings
            else IsRejectContract e o findings))
