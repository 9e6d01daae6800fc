-- ===== src/Verifier/Accept/Open.antt =====
-- The rows that the fail-closed loop of packaging/run_vectors.py passes without a code.
use aee_conformance.Base.{
  ℕ, suc, ◌<◌, Bool, true, false, ◌&&◌, Option, List, [], ◌∷◌, ◌≡◌, refl, arith, if◌then◌else◌,
}
use aee_conformance.Py.Value.{Value, Fields}
use aee_conformance.Py.Run.{
  done, add_if, >>=-pure-eq-silent, >>-eq-silent, add_if-eq-skip, done-injective,
}
use aee_conformance.Verifier.Rows.{is_substrate, is_fail_closed, fail_closed_loop}
use aee_conformance.Verifier.Gate1.{mem_index}
use aee_conformance.Verifier.Accept.Covered.{AllFrom, AllFrom-map}

mem_index-kept :
    (i j : ℕ) (flag : Bool) (rest : List ℕ)
    → (j ≡ i → ⊥)
    → mem_index j rest ≡ false
    → mem_index j (if flag then i ∷ rest else rest) ≡ false
mem_index-kept i j true rest n h = ground arith
mem_index-kept i j false rest n h = h

abbrev pub Open : Option (List Value) → List ℕ → ℕ → Fields → Type 0
Open labels failed j r =
    is_substrate r ≡ true → (is_fail_closed labels r ≡ false) × (mem_index j failed ≡ false)

open_head :
    (i : ℕ) (flag sub : Bool) (rest : List ℕ)
    → flag && sub ≡ false
    → sub ≡ true
    → mem_index i rest ≡ false
    → (flag ≡ false) × (mem_index i (if flag then i ∷ rest else rest) ≡ false)
open_head i true sub rest h s n = cc
open_head i false sub rest h s n = (refl, n)

Open-same :
    (labels : Option (List Value)) (i : ℕ) (rs : List Fields) {c d : List ℕ}
    → c ≡ d
    → AllFrom (Open labels c) i rs × ((j : ℕ) → j < i → mem_index j c ≡ false)
    → AllFrom (Open labels d) i rs × ((j : ℕ) → j < i → mem_index j d ≡ false)
Open-same labels i rs e h = rw e at h

-- Without a code, no substrate row is fail-closed, and the indices kept are those of the rows from `i` on.
pub fail_closed_loop-Open :
    (labels : Option (List Value)) (i : ℕ) (rs : List Fields) {failed : List ℕ}
    → fail_closed_loop labels i rs ≡ done failed []
    → AllFrom (Open labels failed) i rs × ((j : ℕ) → j < i → mem_index j failed ≡ false)
unfolding fail_closed_loop
fail_closed_loop-Open labels i [] h = (tt, λ j below. rw (← done-injective h) refl)
fail_closed_loop-Open labels i (r ∷ rs) h =
    let (a, h1) =
      >>-eq-silent (add_if (is_fail_closed labels r && is_substrate r) "fail-closed-substrate-row")
        _ h in
    let (rest, q, e) = >>=-pure-eq-silent (fail_closed_loop labels (suc i) rs) _ h1 in
    let ih = fail_closed_loop-Open labels (suc i) rs q in
    Open-same labels i (r ∷ rs) e
      (step rest (add_if-eq-skip _ "fail-closed-substrate-row" a) ih.0 ih.1)
  where
    step :
        (rest : List ℕ)
        → is_fail_closed labels r && is_substrate r ≡ false
        → AllFrom (Open labels rest) (suc i) rs
        → ((j : ℕ) → j < suc i → mem_index j rest ≡ false)
        → AllFrom (Open labels (if is_fail_closed labels r then i ∷ rest else rest)) i (r ∷ rs)
          × ((j : ℕ)
              → j < i
              → mem_index j (if is_fail_closed labels r then i ∷ rest else rest) ≡ false)
    step rest n tail below = (
      (
        (λ s.
            open_head i (is_fail_closed labels r) (is_substrate r) rest n s
              (below i (omega arith))),
        AllFrom-map (Open labels rest)
            (Open labels (if is_fail_closed labels r then i ∷ rest else rest)) (suc i) rs
            (λ j r' le k s.
              ((k s).0, mem_index-kept i j (is_fail_closed labels r) rest (omega arith) (k s).1))
            tail,
      ),
      λ j lt.
          mem_index-kept i j (is_fail_closed labels r) rest (omega arith) (below j (omega arith)),
    )
