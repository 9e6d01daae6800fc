-- ===== src/Ed25519/Sign.antt =====
-- Ed25519 keys and signatures of packaging/run_vectors.py: `_pt_compress` to `ed25519_sign`.
use aee_conformance.Base.{ℕ, zero, suc, ◌+◌, ◌*◌, ◌/◌, ◌%◌, ◌^◌, List, [], ◌∷◌, ◌++◌, take, drop}
use aee_conformance.Ed25519.{Point, prime, order, inv, pt_mul, base, from_little}

-- `x.to_bytes(n, "little")`, of a number below 256 ^ n: the numbers that are written are.
unfoldable pub to_little : ℕ → ℕ → List ℕ
to_little zero x = []
to_little (suc n) x = x % 256 ∷ to_little n (x / 256)

-- The coordinates of a point in the plane.
abbrev pub affine : ℕ → ℕ → ℕ
affine coordinate zi = coordinate * zi % prime

-- `y | ((x & 1) << 255)`, where y is below 2 ^ 255
unfoldable pub pt_compress : Point → List ℕ
unfolding inv to_little
pt_compress p = let zi = inv p.z in to_little 32 (affine p.y zi + affine p.x zi % 2 * 2 ^ 255)

module _ (sha512 : List ℕ → List ℕ) where
  -- The scalar of a seed: `a &= (1 << 254) - 8` and `a |= 1 << 254`
  unfoldable pub secret_scalar : List ℕ → ℕ
  unfolding from_little
  secret_scalar seed = from_little (take 32 (sha512 seed)) % 2 ^ 254 / 8 * 8 + 2 ^ 254

  unfoldable pub ed25519_public_key : List ℕ → List ℕ
  unfolding secret_scalar pt_compress pt_mul base
  ed25519_public_key seed = pt_compress (pt_mul (secret_scalar seed) base)

  -- `r`, and the scalar that is signed with
  unfoldable pub nonce : List ℕ → List ℕ → ℕ
  unfolding from_little
  nonce seed msg = from_little (sha512 (drop 32 (sha512 seed) ++ msg)) % order

  unfoldable pub nonce_point : List ℕ → List ℕ → List ℕ
  unfolding nonce pt_compress pt_mul base
  nonce_point seed msg = pt_compress (pt_mul (nonce seed msg) base)

  -- `k`, which the signature and its verification compute alike
  unfoldable pub challenge : List ℕ → List ℕ → ℕ
  unfolding nonce_point ed25519_public_key from_little
  challenge seed msg =
      from_little (sha512 (nonce_point seed msg ++ (ed25519_public_key seed ++ msg))) % order

  unfoldable pub signing_scalar : List ℕ → List ℕ → ℕ
  unfolding nonce challenge secret_scalar
  signing_scalar seed msg = (nonce seed msg + challenge seed msg * secret_scalar seed) % order

  unfoldable pub ed25519_sign : List ℕ → List ℕ → List ℕ
  unfolding nonce_point signing_scalar to_little
  ed25519_sign seed msg = nonce_point seed msg ++ to_little 32 (signing_scalar seed msg)
