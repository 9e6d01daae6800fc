-- ===== src/Ed25519/Fuel.antt =====
-- The rounds of `_pt_mul` in packaging/run_vectors.py.
use native.Mathlib.Nat.{pow-suc}
use aee_conformance.Base.{
  ℕ, zero, suc, ◌+◌, ◌*◌, ◌/◌, ◌%◌, ◌^◌, ◌<◌, Bool, true, false, ◌≡◌, refl, sym, ap, ◌∙◌,
}
use aee_conformance.Base.{◌==◌, arith, if◌then◌else◌}
use aee_conformance.Ed25519.{Point, pt_add, mul_loop, pt_mul, bits, identity}

mul_loop-done : (n : ℕ) (p q : Point) → mul_loop n 0 p q ≡ q
unfolding mul_loop
mul_loop-done zero p q = refl
mul_loop-done (suc n) p q = refl

-- One round.
abbrev round : ℕ → ℕ → Point → Point → Bool → Point
round n s p q b = elim b [
  | true ↦ q
  | false ↦ mul_loop n (s / 2) (pt_add p p) (if s % 2 == 1 then pt_add q p else q)
]

mul_loop-step : (n s : ℕ) (p q : Point) → mul_loop (suc n) s p q ≡ round n s p q (s == 0)
unfolding mul_loop
mul_loop-step n s p q = refl

half : (s n : ℕ) → s < 2 ^ n * 2 → s / 2 < 2 ^ n
half s n h = omega arith

mul_loop_fuel :
    (n extra s : ℕ) (p q : Point) → s < 2 ^ n → mul_loop (n + extra) s p q ≡ mul_loop n s p q
mul_loop_fuel zero extra s p q h =
    let e : s ≡ 0 = omega arith in
    rw e (mul_loop-done (0 + extra) p q ∙ sym (mul_loop-done zero p q))
mul_loop_fuel (suc n) extra s p q h =
    ap (λ (t : ℕ). mul_loop t s p q) (suc_first n extra)
    ∙ mul_loop-step (n + extra) s p q
    ∙ rounds (s == 0) (
        mul_loop_fuel n extra (s / 2) (pt_add p p) (if s % 2 == 1 then pt_add q p else q)
          (half s n (rw pow-suc at h)))
    ∙ sym (mul_loop-step n s p q)
  where
    suc_first : (n extra : ℕ) → suc n + extra ≡ suc (n + extra)
    suc_first n extra = omega arith

    rounds :
        (b : Bool)
        → mul_loop (n + extra) (s / 2) (pt_add p p) (if s % 2 == 1 then pt_add q p else q)
          ≡ mul_loop n (s / 2) (pt_add p p) (if s % 2 == 1 then pt_add q p else q)
        → round (n + extra) s p q b ≡ round n s p q b
    rounds true e = refl
    rounds false e = e

-- A scalar below 2 ^ 256 is used up by `_pt_mul` in the rounds that it is given: with more of them the
-- product is the same.
pub pt_mul_fuel :
    (s extra : ℕ) (p : Point) → s < 2 ^ 256 → mul_loop (bits + extra) s p identity ≡ pt_mul s p
unfolding pt_mul
pt_mul_fuel s extra p h = mul_loop_fuel bits extra s p identity h
