-- ===== src/Pae.antt =====
-- `pae` of packaging/run_vectors.py: the bytes that a DSSE signature covers.
pub mod Unambiguous
use aee_conformance.Base.{ℕ, List, [], ◌∷◌, ◌++◌, String, codes, length}
use aee_conformance.Py.Bytes.{utf8, show_nat}

-- `b"DSSEv1 %d %s %d " % (len(pt), pt, len(payload)) + payload`, for `pt` in bytes
unfoldable pub pae_bytes : List ℕ → List ℕ → List ℕ
unfolding show_nat
pae_bytes pt payload =
    codes "DSSEv1 "
    ++ (show_nat (length pt)
        ++ (b' ' ∷ (pt ++ (b' ' ∷ (show_nat (length payload) ++ (b' ' ∷ payload))))))

unfoldable pub pae : String → List ℕ → List ℕ
unfolding pae_bytes utf8
pae payload_type payload = pae_bytes (utf8 (codes payload_type)) payload
