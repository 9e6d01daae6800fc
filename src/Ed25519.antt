-- ===== src/Ed25519.antt =====
-- The Ed25519 arithmetic of packaging/run_vectors.py and `ed25519_verify`. SHA-512 is a parameter.
pub mod Fuel
pub mod Sign
pub mod Encoding
pub mod Signing
use aee_conformance.Base.{
  ℕ, zero, suc, ◌+◌, ◌-◌, ◌*◌, ◌/◌, ◌%◌, ◌^◌, Bool, true, false, not, ◌&&◌, ◌||◌,
}
use aee_conformance.Base.{
  Option, none, some, List, [], ◌∷◌, ◌++◌, length, take, drop, leb, ◌==◌, if◌then◌else◌,
}

-- `_P` and `_L`
abbrev pub prime : ℕ
prime = 57896044618658097711785492504343953926634992332820282019728792003956564819949

abbrev pub order : ℕ
order = 7237005577332262213973186563042994240857116359379907606001950938285454250989

-- `x - y`, up to a multiple of the prime: every use of it is reduced.
abbrev pub minus : ℕ → ℕ → ℕ
minus x y = x + (prime - y % prime)

-- `pow(x, e, _P)`, for an exponent of at most `f` bits.
unfoldable pub pow_mod : ℕ → ℕ → ℕ → ℕ
pow_mod zero x e = 1
pow_mod (suc f) x e =
    let rest = pow_mod f (x * x % prime) (e / 2) in
    if e == 0 then 1 else if e % 2 == 1 then x * rest % prime else rest

abbrev pub bits : ℕ
bits = 256

unfoldable pub inv : ℕ → ℕ
unfolding pow_mod
inv x = pow_mod bits x (prime - 2)

-- `_D` and `_I`
unfoldable pub curve_d : ℕ
unfolding inv
curve_d = minus 0 (121665 * inv 121666) % prime

unfoldable pub root_of_minus_one : ℕ
unfolding pow_mod
root_of_minus_one = pow_mod bits 2 ((prime - 1) / 4)

-- `_Point`
pub record Point : Type 0 where
  pub x : ℕ
  pub y : ℕ
  pub z : ℕ
  pub t : ℕ

abbrev pub identity : Point
identity = record { x = 0; y = 1; z = 1; t = 0 }

unfoldable pub pt_add : Point → Point → Point
unfolding curve_d
pt_add p q =
    let a = minus p.y p.x * minus q.y q.x % prime in
    let b = (p.y + p.x) * (q.y + q.x) % prime in
    let c = p.t * 2 * curve_d * q.t % prime in
    let d = p.z * 2 * q.z % prime in
    let e = minus b a in
    let f = minus d c in
    let g = d + c in
    let h = b + a in
    record { x = e * f % prime; y = g * h % prime; z = f * g % prime; t = e * h % prime }

-- `while s > 0` of `_pt_mul`, on a scalar of at most `n` bits.
unfoldable pub mul_loop : ℕ → ℕ → Point → Point → Point
unfolding pt_add
mul_loop zero s p q = q
mul_loop (suc n) s p q = elim (s == 0) [
  | true ↦ q
  | false ↦ mul_loop n (s / 2) (pt_add p p) (if s % 2 == 1 then pt_add q p else q)
]

unfoldable pub pt_mul : ℕ → Point → Point
unfolding mul_loop
pt_mul s p = mul_loop bits s p identity

unfoldable pub pt_eq : Point → Point → Bool
pt_eq p q =
    (minus (p.x * q.z) (q.x * p.z) % prime == 0) && (minus (p.y * q.z) (q.y * p.z) % prime == 0)

-- `(y * y - 1) * _inv(_D * y * y + 1) % _P`
unfoldable pub x_squared : ℕ → ℕ
unfolding inv curve_d
x_squared y = minus (y * y) 1 * inv (curve_d * y * y + 1) % prime

abbrev pub is_root : ℕ → ℕ → Bool
is_root x xx = minus (x * x) xx % prime == 0

-- A candidate for the square root, and the other one where it is none.
unfoldable pub root_candidate : ℕ → ℕ
unfolding pow_mod root_of_minus_one
root_candidate xx =
    let x = pow_mod bits xx ((prime + 3) / 8) in
    if is_root x xx then x else x * root_of_minus_one % prime

-- `_BY`, `_BX` and `_B`
unfoldable pub base_y : ℕ
unfolding inv
base_y = 4 * inv 5 % prime

unfoldable pub xrecover : ℕ → ℕ
unfolding x_squared root_candidate
xrecover y = let x = root_candidate (x_squared y) in if x % 2 == 0 then x else prime - x

unfoldable pub base : Point
unfolding base_y xrecover
base = record { x = xrecover base_y; y = base_y; z = 1; t = xrecover base_y * base_y % prime }

-- `int.from_bytes(b, "little")`
unfoldable pub from_little : List ℕ → ℕ
from_little [] = 0
from_little (b ∷ bs) = b + 256 * from_little bs

-- The point of an encoding that is below the prime, with the given sign bit.
unfoldable pub lift_x : ℕ → ℕ → Option Point
unfolding x_squared root_candidate
lift_x y sign =
    let xx = x_squared y in
    let root = root_candidate xx in
    let x = if root % 2 == sign then root else prime - root in
    if not (is_root root xx)
    then none
    else if (root == 0) && not (sign == 0)
    then none
    else some (record { x = x; y = y; z = 1; t = x * y % prime })

unfoldable pub pt_decompress : List ℕ → Option Point
unfolding from_little lift_x
pt_decompress s =
    if not (length s == 32)
    then none
    else if leb prime (from_little s % 2 ^ 255)
    then none
    else lift_x (from_little s % 2 ^ 255) (from_little s / 2 ^ 255)

module _ (sha512 : List ℕ → List ℕ) where
  -- The last step of the verification, with both points decoded.
  abbrev pub equation : List ℕ → List ℕ → List ℕ → Point → Point → Bool
  equation pub_key msg sig a rp =
      let k = from_little (sha512 (take 32 sig ++ (pub_key ++ msg))) % order in
      pt_eq (pt_mul (from_little (drop 32 sig)) base) (pt_add rp (pt_mul k a))

  abbrev pub verify_points : List ℕ → List ℕ → List ℕ → Option Point → Option Point → Bool
  verify_points pub_key msg sig none rp = false
  verify_points pub_key msg sig (some a) none = false
  verify_points pub_key msg sig (some a) (some rp) =
      if leb order (from_little (drop 32 sig)) then false else equation pub_key msg sig a rp

  unfoldable pub ed25519_verify : List ℕ → List ℕ → List ℕ → Bool
  unfolding pt_decompress from_little pt_eq pt_mul base pt_add
  ed25519_verify pub_key msg sig =
      if not (length sig == 64)
      then false
      else verify_points pub_key msg sig (pt_decompress pub_key) (pt_decompress (take 32 sig))
