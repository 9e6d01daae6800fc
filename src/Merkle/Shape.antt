-- ===== src/Merkle/Shape.antt =====
-- The split point and the recursion of `merkle_root_hex` of packaging/run_vectors.py, against RFC 6962.
use aee_conformance.Base.{ℕ, zero, suc, ◌+◌, ◌-◌, ◌*◌, ◌^◌, ◌≤◌, ◌<◌, true, false, Option, some}
use aee_conformance.Base.{
  List, [], ◌∷◌, ◌++◌, length, get_elem?, take, drop, ltb, ◌==◌, ◌≡◌, refl, ap, sym, ◌∙◌,
}
use aee_conformance.Base.{Bool-cases, inl, inr, arith, length-take, length-drop}
use native.Mathlib.Nat.{pow-suc}
use mathlib.Core.Option
use aee_conformance.Py.Bytes.{hex}
use aee_conformance.Merkle.{split_loop, split, node, merkle_root_hex, leaf_hash, node_hash, join}
use aee_conformance.Merkle.Tree.{Tree, leaf, branch, leaves_of, tree_hash, IsRfc6962}

-- The split point lies below `n`, and twice the split point does not.
split_loop_bounds :
    (f n k : ℕ)
    → 0 < k
    → k < n
    → n ≤ k + f
    → (0 < split_loop f n k) × (split_loop f n k < n) × (n ≤ split_loop f n k * 2)
unfolding split_loop
split_loop_bounds zero n k p h fuel = absurd (omega arith)
split_loop_bounds (suc f) n k p h fuel = elim (Bool-cases (ltb (k * 2) n)) [
  | inl more ↦
      rw (more, split_loop)
        (split_loop_bounds f n (k * 2) (omega arith) (ground arith) (omega arith))
  | inr stop ↦ rw (stop, split_loop) (ground arith)
]

split_loop_power : (f n k e : ℕ) → k ≡ 2 ^ e → (d : ℕ) × (split_loop f n k ≡ 2 ^ d)
unfolding split_loop
split_loop_power zero n k e p = (e, p)
split_loop_power (suc f) n k e p = elim (Bool-cases (ltb (k * 2) n)) [
  | inl more ↦
      rw (more, split_loop) (split_loop_power f n (k * 2) (suc e) (rw pow-suc (omega arith)))
  | inr stop ↦ rw (stop, split_loop) (e, p)
]

-- For two leaves or more the split point is the largest power of two below their number.
pub split_largest_power :
    (n : ℕ)
    → 2 ≤ n
    → ((e : ℕ) × (split n ≡ 2 ^ e)) × (0 < split n) × (split n < n) × (n ≤ split n * 2)
unfolding split
split_largest_power n h =
    let b = split_loop_bounds n n 1 (omega arith) (omega arith) (omega arith) in
    (split_loop_power n n 1 0 refl, b.0, b.1, b.2)

module _ {A : Type 0} where
  slice_split : (xs : List A) (k m : ℕ) → take (k + m) xs ≡ take k xs ++ take m (drop k xs)
  slice_split xs zero m = ap (λ (t : ℕ). take t xs) (omega arith)
  slice_split [] (suc k) zero = rw (zero_of k) refl
    where
      zero_of : (k : ℕ) → suc k + 0 ≡ suc (k + 0)
      zero_of k = omega arith
  slice_split [] (suc k) (suc m) =
      let e : suc k + suc m ≡ suc (k + suc m) = omega arith in rw e refl
  slice_split (x ∷ xs) (suc k) m =
      let e : suc k + m ≡ suc (k + m) = omega arith in rw (e, slice_split xs k m) refl

  drop-drop : (xs : List A) (a b : ℕ) → drop b (drop a xs) ≡ drop (a + b) xs
  drop-drop xs zero b = let e : 0 + b ≡ b = omega arith in rw e refl
  drop-drop [] (suc a) zero = let e : suc a + 0 ≡ suc a = omega arith in rw e refl
  drop-drop [] (suc a) (suc b) = let e : suc a + suc b ≡ suc (a + suc b) = omega arith in rw e refl
  drop-drop (x ∷ xs) (suc a) b =
      let e : suc a + b ≡ suc (a + b) = omega arith in rw e (drop-drop xs a b)

  take_one :
      (xs : List A) (i : ℕ)
      → i < length xs
      → (x : A) × (get_elem? xs i ≡ some x) × (take 1 (drop i xs) ≡ x ∷ [])
  take_one [] i h = elim h [ ]
  take_one (x ∷ xs) zero h = (x, refl, refl)
  take_one (x ∷ xs) (suc i) h = take_one xs i (omega arith)

module _ (sha256 : List ℕ → List ℕ) where
  -- What `node(lo, hi)` returns.
  abbrev Hashes : Option (List ℕ) → List (List ℕ) → Type 0
  Hashes o ds = (t : Tree) × (leaves_of t ≡ ds) × IsRfc6962 t × (o ≡ some (tree_hash sha256 t))

  join-Hashes :
      {l r : Option (List ℕ)} (ds es : List (List ℕ))
      → Hashes l ds
      → Hashes r es
      → ((e : ℕ) × (length ds ≡ 2 ^ e))
      → 1 ≤ length es
      → length es ≤ length ds
      → Hashes (join sha256 l r) (ds ++ es)
  unfolding join node_hash
  join-Hashes ds es (t, et, it, ht) (u, eu, iu, hu) p one le =
      (branch t u, cc, (rw et p, rw eu one, rw (et, eu) le, it, iu), rw (ht, hu) refl)

  node_one :
      (f : ℕ) (leaves : List (List ℕ)) (lo hi : ℕ)
      → (hi - lo == 1) ≡ true
      → node sha256 (suc f) leaves lo hi ≡ Option.map (leaf_hash sha256) (get_elem? leaves lo)
  unfolding node
  node_one f leaves lo hi e = rw (e, node) refl

  node_many :
      (f : ℕ) (leaves : List (List ℕ)) (lo hi : ℕ)
      → (hi - lo == 1) ≡ false
      → node sha256 (suc f) leaves lo hi
        ≡ join sha256
            (node sha256 f leaves lo (lo + split (hi - lo)))
            (node sha256 f leaves (lo + split (hi - lo)) hi)
  unfolding node
  node_many f leaves lo hi e = rw (e, node) refl

  leaf-Hashes :
      (f : ℕ) (leaves : List (List ℕ)) (lo hi : ℕ)
      → hi ≡ lo + 1
      → hi ≤ length leaves
      → Hashes (node sha256 (suc f) leaves lo hi) (take 1 (drop lo leaves))
  unfolding leaf_hash
  leaf-Hashes f leaves lo hi e h =
      let (d, got, slice) = take_one leaves lo (omega arith) in
      rw (node_one f leaves lo hi (ground arith), got) (leaf d, sym slice, tt, refl)

  -- The two parts of `node(lo, hi)`, put together.
  branch-Hashes :
      (f : ℕ) (leaves : List (List ℕ)) (lo hi n k : ℕ)
      → hi ≡ lo + n
      → 2 ≤ n
      → k ≡ split n
      → hi ≤ length leaves
      → Hashes (node sha256 f leaves lo (lo + k)) (take k (drop lo leaves))
      → Hashes (node sha256 f leaves (lo + k) hi) (take (n - k) (drop (lo + k) leaves))
      → Hashes (node sha256 (suc f) leaves lo hi) (take n (drop lo leaves))
  branch-Hashes f leaves lo hi n k eh two ek h left right =
      let (pow, pos, below, twice) = split_largest_power n two in
      let width : hi - lo ≡ n = omega arith in
      let slices : take n (drop lo leaves)
          ≡ take k (drop lo leaves) ++ take (n - k) (drop (lo + k) leaves) =
        ap (λ (t : ℕ). take t (drop lo leaves)) (omega arith)
        ∙ slice_split (drop lo leaves) k (n - k)
        ∙ ap (λ (t : List (List ℕ)). take k (drop lo leaves) ++ take (n - k) t)
            (drop-drop leaves lo k) in
      let length_l : length (take k (drop lo leaves)) ≡ k =
        length-take k (drop lo leaves) (omega (arith, length-drop lo leaves)) in
      let length_r : length (take (n - k) (drop (lo + k) leaves)) ≡ n - k =
        length-take (n - k) (drop (lo + k) leaves) (omega (arith, length-drop (lo + k) leaves)) in
      rw (node_many f leaves lo hi (ground arith), width, ← ek, slices)
        (join-Hashes _ _ left right (rw (length_l, ek) pow) (omega arith) (omega arith))

  node-Hashes :
      (f : ℕ) (leaves : List (List ℕ)) (lo hi n : ℕ)
      → hi ≡ lo + n
      → 0 < n
      → n ≤ f
      → hi ≤ length leaves
      → Hashes (node sha256 f leaves lo hi) (take n (drop lo leaves))
  node-Hashes zero leaves lo hi n e p fuel h = absurd (omega arith)
  node-Hashes (suc f) leaves lo hi zero e p fuel h = absurd (omega arith)
  node-Hashes (suc f) leaves lo hi (suc zero) e p fuel h =
      leaf-Hashes f leaves lo hi (omega arith) h
  node-Hashes (suc f) leaves lo hi (suc (suc m)) e p fuel h =
      let n : ℕ = suc (suc m) in
      let (pow, pos, below, twice) = split_largest_power n (omega arith) in
      branch-Hashes f leaves lo hi n (split n) e (omega arith) refl h
        (node-Hashes f leaves lo (lo + split n) (split n) refl pos (omega arith) (omega arith))
        (node-Hashes f leaves (lo + split n) hi (n - split n) (omega arith) (omega arith)
          (omega arith) h)

  -- For every list of leaves but the empty one the code returns the hash of the RFC 6962 tree that has
  -- exactly those leaves in order, in hexadecimal.
  pub merkle_root_hex-tree_hash :
      (l : List ℕ) (ls : List (List ℕ))
      → (t : Tree) × (leaves_of t ≡ l ∷ ls)
        × IsRfc6962 t
        × (merkle_root_hex sha256 (l ∷ ls) ≡ some (hex (tree_hash sha256 t)))
  unfolding merkle_root_hex
  merkle_root_hex-tree_hash l ls =
      let n : ℕ = length (l ∷ ls) in
      let (t, et, it, ht) =
        node-Hashes n (l ∷ ls) 0 n n (omega arith) (omega arith) (omega arith) (omega arith) in
      (t, et ∙ take_all (l ∷ ls), it, ap (Option.map hex) ht)
    where
      take_all : (xs : List (List ℕ)) → take (length xs) xs ≡ xs
      take_all [] = refl
      take_all (x ∷ xs) = ap (λ r. x ∷ r) (take_all xs)
