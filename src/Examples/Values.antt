-- ===== src/Examples/Values.antt =====
-- The hash tree, the encoding, the recompute and the tiers of packaging/run_vectors.py, on test data.
use aee_conformance.Base.{
  ℕ, zero, suc, ◌*◌, ◌^◌, ◌≤◌, ◌<◌, true, false, List, [], ◌∷◌, some, codes, ◌≡◌, ◌≢◌, refl, ◌⊎◌,
  ◌↔◌, any, All, arith, if◌then◌else◌,
}
use aee_conformance.Py.Value.{Value, Fields, end, field, str, null, get, is_text}
use aee_conformance.Py.Bytes.{utf8, hex}
use aee_conformance.Py.Bytes.Laws.{IsByte}
use aee_conformance.Merkle.{split, merkle_root_hex}
use aee_conformance.Merkle.Tree.{Tree, leaves_of, tree_hash, IsRfc6962}
use aee_conformance.Merkle.Shape.{split_largest_power, merkle_root_hex-tree_hash}
use aee_conformance.Merkle.Collision.{IsDigest, Collision, merkle_root_hex-injective}
use aee_conformance.Pae.Unambiguous.{pae-injective}
use aee_conformance.Verifier.Record.{record_view}
use aee_conformance.Verifier.State.{fail, degraded, pass_indirect, pass, result_order}
use aee_conformance.Verifier.Recompute.{forces_fail, is_indirect, is_partial, recompute}
use aee_conformance.Verifier.Recompute.Meaning.{recompute_precedence, recompute_worsens}
use aee_conformance.Verifier.Tiers.{row_tier, attested}
use aee_conformance.Verifier.Tiers.Keys.{IsSigned, row_tier_attested}
use aee_conformance.Examples.Data.{zero_bytes, platform, no_digest, caught_row, key}

zero_bytes-IsByte : (n : ℕ) → All IsByte (zero_bytes n)
zero_bytes-IsByte zero = tt
zero_bytes-IsByte (suc n) = (omega arith, zero_bytes-IsByte n)

no_digest-IsDigest : IsDigest no_digest
no_digest-IsDigest = record { bytes = λ xs. zero_bytes-IsByte 32; len = λ xs. refl }

abbrev two : List (List ℕ)
two = (3 ∷ []) ∷ []

split_largest_power_example :
    ((e : ℕ) × (split 6 ≡ 2 ^ e)) × (0 < split 6) × (split 6 < 6) × (6 ≤ split 6 * 2)
split_largest_power_example = split_largest_power 6 (omega arith)

merkle_root_hex-tree_hash_example :
    (t : Tree) × (leaves_of t ≡ (7 ∷ []) ∷ two)
    × IsRfc6962 t
    × (merkle_root_hex no_digest ((7 ∷ []) ∷ two) ≡ some (hex (tree_hash no_digest t)))
merkle_root_hex-tree_hash_example = merkle_root_hex-tree_hash no_digest (7 ∷ []) two

merkle_root_hex-injective_example :
    (t : Tree) × (u : Tree) × (leaves_of t ≡ (7 ∷ []) ∷ two)
    × IsRfc6962 t
    × (leaves_of u ≡ (8 ∷ []) ∷ [])
    × IsRfc6962 u
    × ((((7 ∷ []) ∷ two) ≡ ((8 ∷ []) ∷ [])) ⊎ Collision no_digest t u)
unfolding merkle_root_hex
merkle_root_hex-injective_example =
    merkle_root_hex-injective no_digest no_digest-IsDigest (7 ∷ []) two (8 ∷ []) [] refl

abbrev payload : List ℕ
payload = 1 ∷ 2 ∷ []

pae-injective_example : (utf8 (codes "a+json") ≡ utf8 (codes "a+json")) × (payload ≡ payload)
pae-injective_example = pae-injective "a+json" "a+json" payload payload refl

abbrev blocked : List Value
blocked = str "blocked" ∷ []

abbrev direct_row : Fields
direct_row = field "containmentObserved" (str "leaked") (
    field "basis" (str "substrate")
      (field "method" (str "intercepted") (field "attribution" (str "paired") end)))

abbrev labels : List Value
labels = str "blocked" ∷ str "leaked" ∷ []

recompute_precedence_example : recompute (caught_row ∷ []) labels blocked null ≡ (
    if any (forces_fail labels blocked) (caught_row ∷ [])
    then fail
    else if is_partial null
    then degraded
    else if any (is_indirect labels blocked) (caught_row ∷ [])
    then pass_indirect
    else pass)
recompute_precedence_example = recompute_precedence (caught_row ∷ []) labels blocked null

recompute_worsens_example :
    result_order (recompute (caught_row ∷ direct_row ∷ []) labels blocked null)
    ≤ result_order (recompute (direct_row ∷ []) labels blocked null)
recompute_worsens_example = recompute_worsens caught_row (direct_row ∷ []) labels blocked null

row_tier_attested_example :
    (row_tier platform key true (record_view platform 0 (str "") ∷ []) caught_row ≡ attested) ↔ (
      (is_text "artifact" (get "basis" caught_row) ≡ false)
      × (key ≢ [])
      × ((record_view platform 0 (str "") ∷ []) ≢ [])
      × All (IsSigned platform key) (record_view platform 0 (str "") ∷ []))
row_tier_attested_example =
    row_tier_attested platform key (record_view platform 0 (str "") ∷ []) caught_row
