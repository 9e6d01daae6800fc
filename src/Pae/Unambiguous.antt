-- ===== src/Pae/Unambiguous.antt =====
-- Reading back the pre-authentication encoding of `pae` in packaging/run_vectors.py.
use aee_conformance.Base.{ℕ, List, String, codes, length, ◌≡◌, refl}
use aee_conformance.Py.Bytes.{utf8}
use aee_conformance.Py.Bytes.Laws.{show_nat_field, append_inj}
use aee_conformance.Pae.{pae_bytes, pae}

pae_bytes-injective :
    (pt pt' payload payload' : List ℕ)
    → pae_bytes pt payload ≡ pae_bytes pt' payload'
    → (pt ≡ pt') × (payload ≡ payload')
unfolding pae_bytes
pae_bytes-injective pt pt' payload payload' e =
    let (n, rest) =
      show_nat_field (length pt) (length pt')
        (append_inj (codes "DSSEv1 ") (codes "DSSEv1 ") refl e).1 in
    let (same, rest') = append_inj pt pt' n rest in
    let (m, final) = show_nat_field (length payload) (length payload') (cc rest') in (same, final)

-- Equal encodings come from equal payloads, under payload types with equal bytes: a signature over
-- one record cannot be read as one over another record.
pub pae-injective :
    (t t' : String) (payload payload' : List ℕ)
    → pae t payload ≡ pae t' payload'
    → (utf8 (codes t) ≡ utf8 (codes t')) × (payload ≡ payload')
unfolding pae
pae-injective t t' payload payload' e = pae_bytes-injective _ _ payload payload' e
