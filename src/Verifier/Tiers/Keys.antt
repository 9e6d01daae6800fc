-- ===== src/Verifier/Tiers/Keys.antt =====
-- `_tiers` of packaging/run_vectors.py and the pinned keys.
use aee_conformance.Base.{
  ℕ, suc, String, true, false, Option, none, some, List, [], ◌∷◌, ◌≡◌, ◌≢◌, refl, arith,
}
use aee_conformance.Base.{map, any, all, All, Some, if◌then◌else◌, ◌↔◌, any_each, all_each}
use aee_conformance.Py.Value.{Value, str, obj, Fields, get, is_text, list_or_empty}
use aee_conformance.IJson.{strict_b64decode}
use aee_conformance.Ed25519.{ed25519_verify}
use aee_conformance.Platform.{Platform}
use aee_conformance.Verifier.Record.{RecordView}
use aee_conformance.Verifier.Tiers.{
  declared, attested, unattested, verified_by_some, sig_text, signature_verifies, raw_signatures,
  record_verifies, row_tier, tiers,
}

-- With no keys at all a row is declared if its basis is an artifact, and unattested otherwise, whatever
-- its records carry.
pub tiers_without_key :
    (P : Platform) (pinned_pubs : List (List ℕ)) (row_covering : List (ℕ × List RecordView)) (i : ℕ)
    (rows : List Fields)
    → tiers P pinned_pubs false row_covering i rows
      ≡ map
          (λ (r : Fields). if is_text "artifact" (get "basis" r) then declared else unattested)
          rows
unfolding tiers row_tier
tiers_without_key P pinned_pubs row_covering i [] = refl
tiers_without_key P pinned_pubs row_covering i (r ∷ rs) =
    rw (tiers_without_key P pinned_pubs row_covering (suc i) rs) (ground arith)

-- The conditions of the tier, as tests.
pub row_tier-tests :
    (P : Platform) (pinned_pubs : List (List ℕ)) (covering : List RecordView) (r : Fields)
    → (row_tier P pinned_pubs true covering r ≡ attested) ↔ (
        (is_text "artifact" (get "basis" r) ≡ false)
        × (pinned_pubs ≢ [])
        × (covering ≢ [])
        × (all (record_verifies P pinned_pubs) covering ≡ true))
unfolding row_tier
row_tier-tests P [] covering r = ((λ h. ground arith), (λ h. absurd (h.1 refl)))
row_tier-tests P (k ∷ ks) [] r = ((λ h. ground arith), (λ h. absurd (h.2 refl)))
row_tier-tests P (k ∷ ks) (rv ∷ rvs) r =
    ((λ h. (ground arith, (λ q. cc), (λ q. cc), ground arith)), (λ h. ground arith))

module _ (P : Platform) (pinned_pubs : List (List ℕ)) where
  -- An entry of `signatures` whose text decodes to bytes that one of the pinned keys verifies.
  abbrev pub IsSignedBy : List ℕ → Value → Type 0
  IsSignedBy pae v =
      (sig : Fields) × (s : String) × (bytes : List ℕ) × (v ≡ obj sig)
      × (get "sig" sig ≡ str s)
      × (strict_b64decode P s ≡ some bytes)
      × Some (λ key. ed25519_verify P.sha512 key pae bytes ≡ true) pinned_pubs

  -- The record has signed bytes, and one of its signatures is verified over them.
  abbrev pub IsSigned : RecordView → Type 0
  IsSigned rv =
      (rec : Fields) × (pae : List ℕ) × (rv.raw ≡ obj rec)
      × (rv.pae ≡ some pae)
      × Some (IsSignedBy pae) (list_or_empty (get "signatures" rec))

  entry-IsSignedBy :
      (pae : List ℕ) (v : Value)
      → (signature_verifies P pinned_pubs pae v ≡ true) ↔ IsSignedBy pae v
  entry-IsSignedBy pae v = (forward v, backward)
    where
      decoded :
          (sig : Fields) (s : String) (o : Option (List ℕ))
          → get "sig" sig ≡ str s
          → strict_b64decode P s ≡ o
          → verified_by_some P pinned_pubs pae o ≡ true
          → IsSignedBy pae (obj sig)
      decoded sig s none e d h = cc
      decoded sig s (some bytes) e d h = (
        sig,
        s,
        bytes,
        refl,
        e,
        d,
        (any_each (λ key. ed25519_verify P.sha512 key pae bytes)
              (λ key. ed25519_verify P.sha512 key pae bytes ≡ true) pinned_pubs
              (λ key. ((λ q. q), (λ q. q)))).0
            h,
      )

      text :
          (sig : Fields) (w : Value)
          → get "sig" sig ≡ w
          → sig_text P pinned_pubs pae w ≡ true
          → IsSignedBy pae (obj sig)
      text sig (str s) e h = decoded sig s (strict_b64decode P s) e refl h
      text sig _ e h = cc

      forward : (v : Value) → signature_verifies P pinned_pubs pae v ≡ true → IsSignedBy pae v
      forward (obj sig) h = text sig (get "sig" sig) refl h
      forward _ h = cc

      backward : IsSignedBy pae v → signature_verifies P pinned_pubs pae v ≡ true
      backward (sig, s, bytes, ev, es, ed, keys) =
          rw (ev, es, ed)
            ((any_each (λ key. ed25519_verify P.sha512 key pae bytes)
                (λ key. ed25519_verify P.sha512 key pae bytes ≡ true) pinned_pubs
                (λ key. ((λ q. q), (λ q. q)))).1
              keys)

  record-IsSigned : (rv : RecordView) → (record_verifies P pinned_pubs rv ≡ true) ↔ IsSigned rv
  unfolding record_verifies
  record-IsSigned rv = (forward rv.pae rv.raw refl refl, backward)
    where
      forward :
          (o : Option (List ℕ)) (raw : Value)
          → rv.pae ≡ o
          → rv.raw ≡ raw
          → elim o [
            | none ↦ false
            | some pae ↦
                any (signature_verifies P pinned_pubs pae) (raw_signatures P pinned_pubs raw)
          ]
            ≡ true
          → IsSigned rv
      forward none raw e r h = cc
      forward (some pae) (obj rec) e r h = (
        rec,
        pae,
        r,
        e,
        (any_each (signature_verifies P pinned_pubs pae) (IsSignedBy pae)
              (list_or_empty (get "signatures" rec)) (entry-IsSignedBy pae)).0
            h,
      )
      forward (some pae) _ e r h = cc

      backward :
          IsSigned rv
          → elim (rv.pae) [
            | none ↦ false
            | some pae ↦
                any (signature_verifies P pinned_pubs pae) (raw_signatures P pinned_pubs rv.raw)
          ]
            ≡ true
      backward (rec, pae, r, e, signed) =
          rw (e, r)
            ((any_each (signature_verifies P pinned_pubs pae) (IsSignedBy pae)
                (list_or_empty (get "signatures" rec)) (entry-IsSignedBy pae)).1
              signed)

  -- With keys, a row is attested exactly when it is no artifact row, a key is pinned, the row has covering
  -- records, and each of them has signed bytes and among its signatures one that decodes to bytes which a
  -- pinned key verifies over them.
  pub row_tier_attested :
      (covering : List RecordView) (r : Fields)
      → (row_tier P pinned_pubs true covering r ≡ attested) ↔ (
          (is_text "artifact" (get "basis" r) ≡ false)
          × (pinned_pubs ≢ [])
          × (covering ≢ [])
          × All IsSigned covering)
  row_tier_attested covering r =
      let tests = row_tier-tests P pinned_pubs covering r in
      let signed = all_each (record_verifies P pinned_pubs) IsSigned covering record-IsSigned in
      (
        (λ h. let (a, b, c, d) = tests.0 h in (a, b, c, signed.0 d)),
        (λ h. let (a, b, c, d) = h in tests.1 (a, b, c, signed.1 d)),
      )
