-- ===== src/Merkle/Tree.antt =====
-- Binary hash trees, as RFC 6962 section 2.1 describes them, without indices or loops.
use aee_conformance.Base.{ℕ, ◌^◌, ◌≤◌, List, [], ◌∷◌, ◌++◌, length, ◌≡◌}

pub data Tree : Type 0 where
  leaf : List ℕ → Tree
  branch : Tree → Tree → Tree

abbrev pub leaves_of : Tree → List (List ℕ)
leaves_of (leaf d) = d ∷ []
leaves_of (branch l r) = leaves_of l ++ leaves_of r

-- The hash of a tree: leaves and branches are told apart by their first byte.
abbrev pub tree_hash : (List ℕ → List ℕ) → Tree → List ℕ
tree_hash sha256 (leaf d) = sha256 (0x00 ∷ d)
tree_hash sha256 (branch l r) = sha256 (0x01 ∷ (tree_hash sha256 l ++ tree_hash sha256 r))

-- At each branch the left part has 2 ^ e leaves, and the right part at least one and at most as many.
abbrev pub IsRfc6962 : Tree → Type 0
IsRfc6962 (leaf d) = Unit
IsRfc6962 (branch l r) =
    ((e : ℕ) × (length (leaves_of l) ≡ 2 ^ e))
    × (1 ≤ length (leaves_of r))
    × (length (leaves_of r) ≤ length (leaves_of l))
    × IsRfc6962 l
    × IsRfc6962 r

-- What is hashed on the way to the hash of a tree.
abbrev pub hashed : (List ℕ → List ℕ) → Tree → List (List ℕ)
hashed sha256 (leaf d) = (0x00 ∷ d) ∷ []
hashed sha256 (branch l r) =
    (0x01 ∷ (tree_hash sha256 l ++ tree_hash sha256 r)) ∷ (hashed sha256 l ++ hashed sha256 r)
