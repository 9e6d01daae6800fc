-- ===== src/Ed25519/Signing.antt =====
-- Signatures that `ed25519_sign` of packaging/run_vectors.py makes, under `ed25519_verify`.
use aee_conformance.Base.{
  ℕ, ◌+◌, ◌*◌, ◌%◌, ◌^◌, ◌<◌, Bool, false, not, Option, none, some, List, [], ◌∷◌, ◌++◌, ◌≡◌, refl,
  ap, ◌∙◌, length, take, drop, leb, ◌==◌, if◌then◌else◌, arith, length-append,
}
use aee_conformance.Ed25519.{
  Point, order, inv, pt_add, pt_eq, pt_mul, base, from_little, lift_x, pt_decompress, verify_points,
  ed25519_verify,
}
use aee_conformance.Ed25519.Sign.{
  to_little, affine, pt_compress, secret_scalar, ed25519_public_key, nonce, nonce_point, challenge,
  signing_scalar, ed25519_sign,
}
use aee_conformance.Ed25519.Encoding.{
  length-to_little, from_little-to_little, pt_decompress-pt_compress,
}

take_first : (xs ys : List ℕ) (n : ℕ) → length xs ≡ n → take n (xs ++ ys) ≡ xs
take_first [] ys n h = rw (← h) refl
take_first (x ∷ xs) ys n h = rw (← h) (ap (λ t. x ∷ t) (take_first xs ys (length xs) refl))

drop_first : (xs ys : List ℕ) (n : ℕ) → length xs ≡ n → drop n (xs ++ ys) ≡ ys
drop_first [] ys n h = rw (← h) refl
drop_first (x ∷ xs) ys n h = rw (← h) (drop_first xs ys (length xs) refl)

compressed_size : (p : Point) → length (pt_compress p) ≡ 32
unfolding pt_compress
compressed_size p = length-to_little 32 (affine p.y (inv p.z) + affine p.x (inv p.z) % 2 * 2 ^ 255)

below_order : (x : ℕ) → x % order < 256 ^ 32
below_order x = omega arith

not_over : (x : ℕ) → leb order (x % order) ≡ false
not_over x = ground arith

-- The point that the compressed bytes of a point stand for, if there is one.
abbrev pub written : Point → Option Point
written p = lift_x (affine p.y (inv p.z)) (affine p.x (inv p.z) % 2)

-- The equation of a verification, of the points that decode.
abbrev pub group_check : ℕ → ℕ → Option Point → Option Point → Bool
group_check s k none r = false
group_check s k (some a) none = false
group_check s k (some a) (some r) = pt_eq (pt_mul s base) (pt_add r (pt_mul k a))

module _ (sha512 : List ℕ → List ℕ) where
  points_checked :
      (pub_key msg sig r : List ℕ) (s : ℕ) (o p : Option Point)
      → take 32 sig ≡ r
      → from_little (drop 32 sig) ≡ s
      → leb order s ≡ false
      → verify_points sha512 pub_key msg sig o p
        ≡ group_check s (from_little (sha512 (r ++ (pub_key ++ msg))) % order) o p
  points_checked pub_key msg sig r s none p front scalar under = refl
  points_checked pub_key msg sig r s (some a) none front scalar under = refl
  points_checked pub_key msg sig r s (some a) (some p) front scalar under =
      rw (front, scalar, under) refl

  signature_checked :
      (pub_key msg sig r : List ℕ) (s : ℕ)
      → length sig ≡ 64
      → take 32 sig ≡ r
      → from_little (drop 32 sig) ≡ s
      → leb order s ≡ false
      → ed25519_verify sha512 pub_key msg sig
        ≡ group_check s
            (from_little (sha512 (r ++ (pub_key ++ msg))) % order)
            (pt_decompress pub_key)
            (pt_decompress r)
  unfolding ed25519_verify
  signature_checked pub_key msg sig r s size front scalar under =
      ap
        (λ (n : ℕ).
          if not (n == 64)
          then false
          else verify_points sha512 pub_key msg sig (pt_decompress pub_key)
              (pt_decompress (take 32 sig)))
        size
      ∙ points_checked pub_key msg sig r s (pt_decompress pub_key) (pt_decompress (take 32 sig))
          front scalar under
      ∙ ap
          (λ t.
            group_check s (from_little (sha512 (r ++ (pub_key ++ msg))) % order)
              (pt_decompress pub_key) (pt_decompress t))
          front

  nonce_size : (seed msg : List ℕ) → length (nonce_point sha512 seed msg) ≡ 32
  unfolding nonce_point
  nonce_size seed msg = compressed_size (pt_mul (nonce sha512 seed msg) base)

  nonce_reads_back :
      (seed msg : List ℕ)
      → pt_decompress (nonce_point sha512 seed msg) ≡ written (pt_mul (nonce sha512 seed msg) base)
  unfolding nonce_point
  nonce_reads_back seed msg = pt_decompress-pt_compress (pt_mul (nonce sha512 seed msg) base)

  key_reads_back :
      (seed : List ℕ)
      → pt_decompress (ed25519_public_key sha512 seed)
        ≡ written (pt_mul (secret_scalar sha512 seed) base)
  unfolding ed25519_public_key
  key_reads_back seed = pt_decompress-pt_compress (pt_mul (secret_scalar sha512 seed) base)

  reduced : (seed msg : List ℕ) → (x : ℕ) × (signing_scalar sha512 seed msg ≡ x % order)
  unfolding signing_scalar
  reduced seed msg =
      (nonce sha512 seed msg + challenge sha512 seed msg * secret_scalar sha512 seed, refl)

  scalar_under : (seed msg : List ℕ) → leb order (signing_scalar sha512 seed msg) ≡ false
  scalar_under seed msg = let (x, e) = reduced seed msg in rw e (not_over x)

  scalar_fits : (seed msg : List ℕ) → signing_scalar sha512 seed msg < 256 ^ 32
  scalar_fits seed msg = let (x, e) = reduced seed msg in rw e (below_order x)

  scalar_back :
      (seed msg : List ℕ)
      → from_little (drop 32 (ed25519_sign sha512 seed msg)) ≡ signing_scalar sha512 seed msg
  unfolding ed25519_sign
  scalar_back seed msg =
      ap from_little (
        drop_first (nonce_point sha512 seed msg) (to_little 32 (signing_scalar sha512 seed msg)) 32
          (nonce_size seed msg))
      ∙ from_little-to_little 32 (signing_scalar sha512 seed msg) (scalar_fits seed msg)

  front_back :
      (seed msg : List ℕ) → take 32 (ed25519_sign sha512 seed msg) ≡ nonce_point sha512 seed msg
  unfolding ed25519_sign
  front_back seed msg =
      take_first (nonce_point sha512 seed msg) (to_little 32 (signing_scalar sha512 seed msg)) 32
        (nonce_size seed msg)

  signature_size : (seed msg : List ℕ) → length (ed25519_sign sha512 seed msg) ≡ 64
  unfolding ed25519_sign
  signature_size seed msg =
      length-append (nonce_point sha512 seed msg) (to_little 32 (signing_scalar sha512 seed msg))
      ∙ sum (nonce_size seed msg) (length-to_little 32 (signing_scalar sha512 seed msg))
    where
      sum : {m n : ℕ} → m ≡ 32 → n ≡ 32 → m + n ≡ 64
      sum e f = omega arith

  same_challenge :
      (seed msg : List ℕ)
      → from_little
            (sha512 (nonce_point sha512 seed msg ++ (ed25519_public_key sha512 seed ++ msg)))
          % order
        ≡ challenge sha512 seed msg
  unfolding challenge
  same_challenge seed msg = refl

  -- A signature that ed25519_sign makes is read back by ed25519_verify under the key of the seed, whatever
  -- the hash is: its length and scalar pass, and the answer is that of the equation for the scalar and the
  -- challenge that were signed with, of the points that the key and the nonce were written from.
  pub ed25519_verify-ed25519_sign :
      (seed msg : List ℕ)
      → ed25519_verify sha512 (ed25519_public_key sha512 seed) msg (ed25519_sign sha512 seed msg)
        ≡ group_check
            (signing_scalar sha512 seed msg)
            (challenge sha512 seed msg)
            (written (pt_mul (secret_scalar sha512 seed) base))
            (written (pt_mul (nonce sha512 seed msg) base))
  ed25519_verify-ed25519_sign seed msg =
      signature_checked (ed25519_public_key sha512 seed) msg (ed25519_sign sha512 seed msg)
        (nonce_point sha512 seed msg) (signing_scalar sha512 seed msg) (signature_size seed msg)
        (front_back seed msg) (scalar_back seed msg) (scalar_under seed msg)
      ∙ ap
          (λ (k : ℕ).
            group_check (signing_scalar sha512 seed msg) k
              (pt_decompress (ed25519_public_key sha512 seed))
              (pt_decompress (nonce_point sha512 seed msg)))
          (same_challenge seed msg)
      ∙ ap
          (λ a.
            group_check (signing_scalar sha512 seed msg) (challenge sha512 seed msg) a
              (pt_decompress (nonce_point sha512 seed msg)))
          (key_reads_back seed)
      ∙ ap
          (λ r.
            group_check (signing_scalar sha512 seed msg) (challenge sha512 seed msg)
              (written (pt_mul (secret_scalar sha512 seed) base)) r)
          (nonce_reads_back seed msg)
