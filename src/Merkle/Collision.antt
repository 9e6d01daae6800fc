-- ===== src/Merkle/Collision.antt =====
-- Collisions of the hash, and lists of leaves with one root: `merkle_root_hex` of packaging/run_vectors.py.
use aee_conformance.Base.{ℕ, true, list_eq, list_eq→eq}
use aee_conformance.Base.{List, [], ◌∷◌, ◌++◌, length, All, Some, ◌≡◌, ◌≢◌, ◌⊎◌, refl, ap, sym, ◌∙◌}
use aee_conformance.Base.{Bool-cases, inl, inr, arith}
use aee_conformance.Py.Bytes.{hex}
use aee_conformance.Py.Bytes.Laws.{append_inj, hex-injective, IsByte}
use aee_conformance.Merkle.{merkle_root_hex}
use aee_conformance.Merkle.Tree.{Tree, leaf, branch, leaves_of, tree_hash, hashed, IsRfc6962}
use aee_conformance.Merkle.Shape.{merkle_root_hex-tree_hash}

-- What `hashlib.sha256` documents of its results: 32 bytes.
pub record IsDigest (sha256 : List ℕ → List ℕ) : Type 0 where
  pub bytes : (xs : List ℕ) → All IsByte (sha256 xs)
  pub len : (xs : List ℕ) → length (sha256 xs) ≡ 32

-- The bytes are among those of a list.
abbrev pub IsAmong : List ℕ → List (List ℕ) → Type 0
IsAmong xs yss = Some (λ ys. ys ≡ xs) yss

-- Two inputs with one digest, of which the first is hashed for one tree and the second for the other.
abbrev pub Collision : (List ℕ → List ℕ) → Tree → Tree → Type 0
Collision sha256 t u =
    (xs : List ℕ) × (ys : List ℕ) × IsAmong xs (hashed sha256 t)
    × IsAmong ys (hashed sha256 u)
    × (xs ≢ ys)
    × (sha256 xs ≡ sha256 ys)

amid_left : (xs : List ℕ) (yss zss : List (List ℕ)) → IsAmong xs yss → IsAmong xs (yss ++ zss)
amid_left xs [] zss h = absurd h
amid_left xs (ys ∷ yss) zss (inl e) = inl e
amid_left xs (ys ∷ yss) zss (inr h) = inr (amid_left xs yss zss h)

amid_right : (xs : List ℕ) (yss zss : List (List ℕ)) → IsAmong xs zss → IsAmong xs (yss ++ zss)
amid_right xs [] zss h = h
amid_right xs (ys ∷ yss) zss h = inr (amid_right xs yss zss h)

pub list_eq_self : (xs : List ℕ) → list_eq xs xs ≡ true
list_eq_self [] = refl
list_eq_self (x ∷ xs) = ground (arith, list_eq_self xs)

module _ (sha256 : List ℕ → List ℕ) (digest : IsDigest sha256) where
  -- Equal digests of what is hashed last: equal inputs, or a collision of the two trees.
  collide :
      (t u : Tree) (xs ys : List ℕ) {rest rest' : List (List ℕ)}
      → hashed sha256 t ≡ xs ∷ rest
      → hashed sha256 u ≡ ys ∷ rest'
      → sha256 xs ≡ sha256 ys
      → (xs ≡ ys) ⊎ Collision sha256 t u
  collide t u xs ys et eu e = elim (Bool-cases (list_eq xs ys)) [
    | inl same ↦ inl (list_eq→eq xs ys same)
    | inr differ ↦
        inr (xs, ys, rw et (inl refl), rw eu (inl refl), (λ q. cc (list_eq_self ys, q, differ)), e)
  ]

  collide_left :
      (l r l' r' : Tree) → Collision sha256 l l' → Collision sha256 (branch l r) (branch l' r')
  collide_left l r l' r' (xs, ys, mx, my, n, e) = (
    xs,
    ys,
    inr (amid_left xs (hashed sha256 l) (hashed sha256 r) mx),
    inr (amid_left ys (hashed sha256 l') (hashed sha256 r') my),
    n,
    e,
  )

  collide_right :
      (l r l' r' : Tree) → Collision sha256 r r' → Collision sha256 (branch l r) (branch l' r')
  collide_right l r l' r' (xs, ys, mx, my, n, e) = (
    xs,
    ys,
    inr (amid_right xs (hashed sha256 l) (hashed sha256 r) mx),
    inr (amid_right ys (hashed sha256 l') (hashed sha256 r') my),
    n,
    e,
  )

  hash_length : (t : Tree) → length (tree_hash sha256 t) ≡ 32
  hash_length (leaf d) = digest.len _
  hash_length (branch l r) = digest.len _

  hash_bytes : (t : Tree) → All IsByte (tree_hash sha256 t)
  hash_bytes (leaf d) = digest.bytes _
  hash_bytes (branch l r) = digest.bytes _

  branch_join :
      {l r l' r' : Tree}
      → (l ≡ l') ⊎ Collision sha256 l l'
      → (r ≡ r') ⊎ Collision sha256 r r'
      → (branch l r ≡ branch l' r') ⊎ Collision sha256 (branch l r) (branch l' r')
  branch_join (inl p) (inl q) = inl (cc)
  branch_join {l} {r} {l'} {r'} (inl p) (inr c) = inr (collide_right l r l' r' c)
  branch_join {l} {r} {l'} {r'} (inr c) q = inr (collide_left l r l' r' c)

  tree_hash-injective :
      (t u : Tree) → tree_hash sha256 t ≡ tree_hash sha256 u → (t ≡ u) ⊎ Collision sha256 t u
  tree_hash-injective (leaf c) (leaf d) e =
      elim (collide (leaf c) (leaf d) (0x00 ∷ c) (0x00 ∷ d) refl refl e) [
        | inl p ↦ inl (cc p)
        | inr q ↦ inr q
      ]
  tree_hash-injective (leaf c) (branch l r) e =
      inr (_, _, inl refl, inl refl, (λ q. ground arith), e)
  tree_hash-injective (branch l r) (leaf d) e =
      inr (_, _, inl refl, inl refl, (λ q. ground arith), e)
  tree_hash-injective (branch l r) (branch l' r') e =
      branches (tree_hash-injective l l') (tree_hash-injective r r')
        (collide (branch l r) (branch l' r') _ _ refl refl e)
    where
      branches :
          (tree_hash sha256 l ≡ tree_hash sha256 l' → (l ≡ l') ⊎ Collision sha256 l l')
          → (tree_hash sha256 r ≡ tree_hash sha256 r' → (r ≡ r') ⊎ Collision sha256 r r')
          → ((0x01 ∷ (tree_hash sha256 l ++ tree_hash sha256 r))
              ≡ (0x01 ∷ (tree_hash sha256 l' ++ tree_hash sha256 r')))
            ⊎ Collision sha256 (branch l r) (branch l' r')
          → (branch l r ≡ branch l' r') ⊎ Collision sha256 (branch l r) (branch l' r')
      branches left right (inr c) = inr c
      branches left right (inl p) =
          let k =
            append_inj (tree_hash sha256 l) (tree_hash sha256 l')
              (hash_length l ∙ sym (hash_length l')) (cc p) in
          branch_join (left k.0) (right k.1)

  -- Two non-empty lists of leaves with the same root, of whatever lengths they are, are the same list, or
  -- what is hashed for the RFC 6962 trees over the two lists has a collision: an input of the one and a
  -- different input of the other with one digest.
  pub merkle_root_hex-injective :
      (x : List ℕ) (xs : List (List ℕ)) (y : List ℕ) (ys : List (List ℕ))
      → merkle_root_hex sha256 (x ∷ xs) ≡ merkle_root_hex sha256 (y ∷ ys)
      → (t : Tree) × (u : Tree) × (leaves_of t ≡ x ∷ xs)
        × IsRfc6962 t
        × (leaves_of u ≡ y ∷ ys)
        × IsRfc6962 u
        × (((x ∷ xs) ≡ (y ∷ ys)) ⊎ Collision sha256 t u)
  merkle_root_hex-injective x xs y ys e =
      let (t, et, it, ht) = merkle_root_hex-tree_hash sha256 x xs in
      let (u, eu, iu, hu) = merkle_root_hex-tree_hash sha256 y ys in
      let same : hex (tree_hash sha256 t) ≡ hex (tree_hash sha256 u) = cc (ht, hu, e) in
      (
        t,
        u,
        et,
        it,
        eu,
        iu,
        elim (tree_hash-injective t u (hex-injective _ _ (hash_bytes t) (hash_bytes u) same)) [
          | inl p ↦ inl (sym et ∙ ap leaves_of p ∙ eu)
          | inr c ↦ inr c
        ],
      )
