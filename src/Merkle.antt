-- ===== src/Merkle.antt =====
-- `merkle_root_hex` of packaging/run_vectors.py: the RFC 6962 tree over leaf hashes, split at the
-- largest power of two below the number of leaves.
pub mod Tree
pub mod Shape
pub mod Collision
use aee_conformance.Base.{
  ℕ, zero, suc, ◌+◌, ◌-◌, ◌*◌, String, Bool, true, false, Option, none, some,
}
use aee_conformance.Base.{List, [], ◌∷◌, ◌++◌, length, get_elem?, ltb, ◌==◌}
use mathlib.Core.Option
use aee_conformance.Py.Bytes.{hex}

-- `while k * 2 < n: k *= 2`
pub split_loop : ℕ → ℕ → ℕ → ℕ
split_loop zero n k = k
split_loop (suc f) n k = elim (ltb (k * 2) n) [ true ↦ split_loop f n (k * 2) | false ↦ k ]

-- `n` rounds are enough: each doubles `k`, which starts at 1 and stays below `n`.
pub split : ℕ → ℕ
unfolding split_loop
split n = split_loop n n 1

module _ (sha256 : List ℕ → List ℕ) where
  leaf_hash : List ℕ → List ℕ
  leaf_hash leaf = sha256 (0x00 ∷ leaf)

  node_hash : List ℕ → List ℕ → List ℕ
  node_hash left right = sha256 (0x01 ∷ (left ++ right))

  join : Option (List ℕ) → Option (List ℕ) → Option (List ℕ)
  unfolding node_hash
  join (some l) (some r) = some (node_hash l r)
  join _ _ = none

  -- `node(lo, hi)`: `none` is an `IndexError`, or a recursion deeper than the fuel.
  pub node : ℕ → List (List ℕ) → ℕ → ℕ → Option (List ℕ)
  unfolding leaf_hash split join
  node zero leaves lo hi = none
  node (suc f) leaves lo hi =
      let k = split (hi - lo) in
      let left = node f leaves lo (lo + k) in
      let right = node f leaves (lo + k) hi in
      elim (hi - lo == 1) [
        | true ↦ Option.map leaf_hash (get_elem? leaves lo)
        | false ↦ join left right
      ]

  -- `none` is the `ValueError` for an empty list of leaves.
  unfoldable pub merkle_root_hex : List (List ℕ) → Option String
  unfolding node
  merkle_root_hex [] = none
  merkle_root_hex (l ∷ ls) = Option.map hex (node (length (l ∷ ls)) (l ∷ ls) 0 (length (l ∷ ls)))
