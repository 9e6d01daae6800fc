-- ===== src/Verifier/Tiers/Growth.antt =====
-- `_record_verifies` and `_tiers` of packaging/run_vectors.py under one more pinned key.
use aee_conformance.Base.{ℕ, Bool, true, false, Option, none, some, List, [], ◌∷◌, ◌≡◌}
use aee_conformance.Base.{any, all, arith, Bool-cases, inl, inr, &&-eq-true}
use aee_conformance.Py.Value.{Value, str, obj, Fields, get}
use aee_conformance.Platform.{Platform}
use aee_conformance.IJson.{strict_b64decode}
use aee_conformance.Verifier.Record.{RecordView}
use aee_conformance.Verifier.Tiers.{
  attested, verified_by_some, sig_text, signature_verifies, raw_signatures, record_verifies,
  row_tier,
}
use aee_conformance.Verifier.Tiers.Keys.{row_tier-tests}

any_more :
    {A : Type 0} (p q : A → Bool) (xs : List A)
    → ((x : A) → p x ≡ true → q x ≡ true)
    → any p xs ≡ true
    → any q xs ≡ true
any_more p q [] f h = h
any_more p q (x ∷ xs) f h = elim (Bool-cases (p x)) [
  | inl yes_x ↦ ground (arith, f x yes_x)
  | inr no_x ↦ ground (arith, any_more p q xs f)
]

all_more :
    {A : Type 0} (p q : A → Bool) (xs : List A)
    → ((x : A) → p x ≡ true → q x ≡ true)
    → all p xs ≡ true
    → all q xs ≡ true
all_more p q [] f h = h
all_more p q (x ∷ xs) f h =
    let both = &&-eq-true (p x) (all p xs) h in ground (arith, f x both.0, all_more p q xs f both.1)

module _ (P : Platform) (pinned_pubs : List (List ℕ)) (key : List ℕ) where
  verified_more :
      (pae : List ℕ) (o : Option (List ℕ))
      → verified_by_some P pinned_pubs pae o ≡ true
      → verified_by_some P (key ∷ pinned_pubs) pae o ≡ true
  verified_more pae none h = h
  verified_more pae (some sig) h = ground arith

  sig_text_more :
      (pae : List ℕ) (v : Value)
      → sig_text P pinned_pubs pae v ≡ true
      → sig_text P (key ∷ pinned_pubs) pae v ≡ true
  sig_text_more pae (str s) h = verified_more pae (strict_b64decode P s) h
  sig_text_more pae _ h = cc

  signature_more :
      (pae : List ℕ) (v : Value)
      → signature_verifies P pinned_pubs pae v ≡ true
      → signature_verifies P (key ∷ pinned_pubs) pae v ≡ true
  signature_more pae (obj sig) h = sig_text_more pae (get "sig" sig) h
  signature_more pae _ h = cc

  record_more :
      (rv : RecordView)
      → record_verifies P pinned_pubs rv ≡ true
      → record_verifies P (key ∷ pinned_pubs) rv ≡ true
  unfolding record_verifies
  record_more rv h = signed rv.pae h
    where
      signed :
          (o : Option (List ℕ))
          → elim o [
            | none ↦ false
            | some pae ↦
                any (signature_verifies P pinned_pubs pae) (raw_signatures P pinned_pubs rv.raw)
          ]
            ≡ true
          → elim o [
            | none ↦ false
            | some pae ↦
                any
                  (signature_verifies P (key ∷ pinned_pubs) pae)
                  (raw_signatures P (key ∷ pinned_pubs) rv.raw)
          ]
            ≡ true
      signed none h = h
      signed (some pae) h =
          any_more _ _ (raw_signatures P pinned_pubs rv.raw) (signature_more pae) h

  -- A row that is attested stays so when one more key is pinned.
  pub row_tier_more_keys :
      (covering : List RecordView) (r : Fields)
      → row_tier P pinned_pubs true covering r ≡ attested
      → row_tier P (key ∷ pinned_pubs) true covering r ≡ attested
  row_tier_more_keys covering r h =
      let (basis, pinned, covered, verified) = (row_tier-tests P pinned_pubs covering r).0 h in
      (row_tier-tests P (key ∷ pinned_pubs) covering r).1 (
        basis,
        (λ q. cc),
        covered,
        all_more (record_verifies P pinned_pubs) (record_verifies P (key ∷ pinned_pubs)) covering
            record_more verified,
      )
