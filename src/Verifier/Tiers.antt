-- ===== src/Verifier/Tiers.antt =====
-- GATE 2 of packaging/run_vectors.py: `_record_verifies` and `_tiers`.
pub mod Keys
pub mod Growth
use aee_conformance.Base.{
  ℕ, suc, String, Bool, true, false, not, ◌&&◌, ◌||◌, Option, none, some, List, [], ◌∷◌,
}
use aee_conformance.Base.{any, all, ◌==◌, if◌then◌else◌, is_empty}
use aee_conformance.Py.Value.{
  Value, null, bool, int, float, real, str, arr, obj, Items, Fields, get, is_text, list_or_empty,
}
use aee_conformance.Platform.{Platform}
use aee_conformance.Ed25519.{ed25519_verify}
use aee_conformance.IJson.{strict_b64decode}
use aee_conformance.Verifier.Record.{RecordView}

-- The three evidence tiers of a row.
pub data Tier : Type 0 where
  declared attested unattested : Tier

-- `row_covering.get(i, [])`
unfoldable pub covering_of : ℕ → List (ℕ × List RecordView) → List RecordView
covering_of i [] = []
covering_of i ((j, c) ∷ rest) = if i == j then c else covering_of i rest

module _ (P : Platform) (pinned_pubs : List (List ℕ)) where
  abbrev pub verified_by_some : List ℕ → Option (List ℕ) → Bool
  verified_by_some pae none = false
  verified_by_some pae (some sig) =
      any (λ pub_key. ed25519_verify P.sha512 pub_key pae sig) pinned_pubs

  -- One entry of `signatures`, of a record with the given bytes.
  abbrev pub sig_text : List ℕ → Value → Bool
  sig_text pae (str s) = verified_by_some pae (strict_b64decode P s)
  sig_text pae _ = false

  abbrev pub signature_verifies : List ℕ → Value → Bool
  signature_verifies pae (obj sig) = sig_text pae (get "sig" sig)
  signature_verifies pae _ = false

  abbrev pub raw_signatures : Value → List Value
  raw_signatures (obj rec) = list_or_empty (get "signatures" rec)
  raw_signatures _ = []

  unfoldable pub record_verifies : RecordView → Bool
  unfolding strict_b64decode ed25519_verify
  record_verifies rv = elim (rv.pae) [
    | none ↦ false
    | some pae ↦ any (signature_verifies pae) (raw_signatures rv.raw)
  ]

  abbrev pub all_verify : List RecordView → Bool
  all_verify covering = not (is_empty covering) && all record_verifies covering

  unfoldable pub row_tier : Bool → List RecordView → Fields → Tier
  unfolding record_verifies
  row_tier with_keys covering r =
      if is_text "artifact" (get "basis" r)
      then declared
      else if not with_keys || is_empty pinned_pubs
      then unattested
      else if all_verify covering
      then attested
      else unattested

  unfoldable pub tiers : Bool → List (ℕ × List RecordView) → ℕ → List Fields → List Tier
  unfolding row_tier covering_of
  tiers with_keys row_covering i [] = []
  tiers with_keys row_covering i (r ∷ rs) =
      row_tier with_keys (covering_of i row_covering) r ∷ tiers with_keys row_covering (suc i) rs
