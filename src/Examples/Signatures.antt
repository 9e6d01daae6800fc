-- ===== src/Examples/Signatures.antt =====
-- A key and a signature of packaging/run_vectors.py, with a function in place of SHA-512.
use aee_conformance.Base.{true, refl}
use aee_conformance.Base.{ℕ, List, [], ◌∷◌, ◌++◌, ◌≡◌}
use aee_conformance.Ed25519.{pt_mul, base, ed25519_verify}
use aee_conformance.Base.{◌%◌}
use aee_conformance.Ed25519.{pt_decompress, lift_x, inv}
use aee_conformance.Ed25519.Encoding.{pt_decompress-pt_compress}
use aee_conformance.Ed25519.Sign.{
  pt_compress, affine, secret_scalar, ed25519_public_key, nonce, challenge, signing_scalar,
  ed25519_sign,
}
use aee_conformance.Ed25519.Signing.{written, group_check, ed25519_verify-ed25519_sign}

-- The input, and behind it enough bytes for a scalar and a prefix.
abbrev hash : List ℕ → List ℕ
hash bytes = bytes ++ (8 ∷ 0 ∷ 0 ∷ 0 ∷ 0 ∷ 0 ∷ 0 ∷ 0 ∷ [])

abbrev seed : List ℕ
seed = 1 ∷ 2 ∷ 3 ∷ []

abbrev message : List ℕ
message = 104 ∷ 105 ∷ []

ed25519_verify-ed25519_sign_example :
    ed25519_verify hash (ed25519_public_key hash seed) message (ed25519_sign hash seed message)
    ≡ group_check
        (signing_scalar hash seed message)
        (challenge hash seed message)
        (written (pt_mul (secret_scalar hash seed) base))
        (written (pt_mul (nonce hash seed message) base))
ed25519_verify-ed25519_sign_example = ed25519_verify-ed25519_sign hash seed message

verifies :
    ed25519_verify hash (ed25519_public_key hash seed) message (ed25519_sign hash seed message)
    ≡ true
unfolding ed25519_verify ed25519_public_key ed25519_sign
verifies = refl

pt_decompress-pt_compress_example :
    pt_decompress (pt_compress base)
    ≡ lift_x (affine base.y (inv base.z)) (affine base.x (inv base.z) % 2)
pt_decompress-pt_compress_example = pt_decompress-pt_compress base
