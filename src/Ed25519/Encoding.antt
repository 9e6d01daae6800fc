-- ===== src/Ed25519/Encoding.antt =====
-- Encodings of points of packaging/run_vectors.py are read back.
use native.Mathlib.Nat.{pow-suc}
use aee_conformance.Base.{
  ℕ, zero, suc, ◌+◌, ◌*◌, ◌/◌, ◌%◌, ◌^◌, ◌<◌, false, not, Option, none, List, ◌≡◌, refl, ap, ◌∙◌,
  length, leb, ◌==◌, if◌then◌else◌, arith,
}
use aee_conformance.Ed25519.{Point, prime, inv, from_little, lift_x, pt_decompress}
use aee_conformance.Ed25519.Sign.{to_little, affine, pt_compress}

pub length-to_little : (n x : ℕ) → length (to_little n x) ≡ n
unfolding to_little
length-to_little zero x = refl
length-to_little (suc n) x = omega (arith, length-to_little n (x / 256))

byte : (x k : ℕ) → x < k * 256 → x / 256 < k
byte x k h = omega arith

bytes_back : (x : ℕ) → x % 256 + 256 * (x / 256) ≡ x
bytes_back x = omega arith

pub from_little-to_little : (n x : ℕ) → x < 256 ^ n → from_little (to_little n x) ≡ x
unfolding to_little from_little
from_little-to_little zero x h = omega arith
from_little-to_little (suc n) x h =
    ap (λ (t : ℕ). x % 256 + 256 * t)
      (from_little-to_little n (x / 256) (byte x (256 ^ n) (rw pow-suc at h)))
    ∙ bytes_back x

below_prime : (x : ℕ) → x % prime < 2 ^ 255
below_prime x = omega arith

fits : (y b : ℕ) → y < 2 ^ 255 → y + b % 2 * 2 ^ 255 < 256 ^ 32
fits y b h = omega arith

low : (y b : ℕ) → y < 2 ^ 255 → (y + b % 2 * 2 ^ 255) % 2 ^ 255 ≡ y
low y b h = omega arith

high : (y b : ℕ) → y < 2 ^ 255 → (y + b % 2 * 2 ^ 255) / 2 ^ 255 ≡ b % 2
high y b h = omega arith

not_above : (y : ℕ) → leb prime (y % prime) ≡ false
not_above y = ground arith

decoded : ℕ → ℕ → ℕ → Option Point
decoded size y sign = if not (size == 32) then none else if leb prime y then none else lift_x y sign

decompress-decoded :
    (s : List ℕ)
    → pt_decompress s ≡ decoded (length s) (from_little s % 2 ^ 255) (from_little s / 2 ^ 255)
unfolding pt_decompress decoded
decompress-decoded s = refl

lifted : (y sign : ℕ) → leb prime y ≡ false → decoded 32 y sign ≡ lift_x y sign
unfolding decoded
lifted y sign h = rw h refl

read_back :
    (s : List ℕ) (y b : ℕ)
    → length s ≡ 32
    → from_little s ≡ y + b % 2 * 2 ^ 255
    → y < 2 ^ 255
    → leb prime y ≡ false
    → pt_decompress s ≡ lift_x y (b % 2)
read_back s y b size value small under =
    decompress-decoded s
    ∙ ap (λ (n : ℕ). decoded n (from_little s % 2 ^ 255) (from_little s / 2 ^ 255)) size
    ∙ ap (λ (v : ℕ). decoded 32 (v % 2 ^ 255) (v / 2 ^ 255)) value
    ∙ ap (λ (v : ℕ). decoded 32 v ((y + b % 2 * 2 ^ 255) / 2 ^ 255)) (low y b small)
    ∙ ap (λ (v : ℕ). decoded 32 y v) (high y b small)
    ∙ lifted y (b % 2) under

-- The bytes that a point is compressed to are decompressed from its coordinates in the plane: y, which is
-- never at or above the prime, and the parity of x as the sign.
pub pt_decompress-pt_compress :
    (p : Point)
    → pt_decompress (pt_compress p) ≡ lift_x (affine p.y (inv p.z)) (affine p.x (inv p.z) % 2)
unfolding pt_compress
pt_decompress-pt_compress p = read (affine p.x (inv p.z)) (p.y * inv p.z)
  where
    read :
        (b y : ℕ)
        → pt_decompress (to_little 32 (y % prime + b % 2 * 2 ^ 255)) ≡ lift_x (y % prime) (b % 2)
    read b y =
        read_back (to_little 32 (y % prime + b % 2 * 2 ^ 255)) (y % prime) b
          (length-to_little 32 (y % prime + b % 2 * 2 ^ 255))
          (from_little-to_little 32 (y % prime + b % 2 * 2 ^ 255)
            (fits (y % prime) b (below_prime y)))
          (below_prime y) (not_above y)
