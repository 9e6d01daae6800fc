-- ===== src/Verifier/Record.antt =====
-- `RecordView` of packaging/run_vectors.py: what is decoded of one observation record.
use aee_conformance.Base.{
  ℕ, suc, String, Bool, true, false, Option, none, some, List, [], ◌∷◌, length, ends_with,
}
use mathlib.Core.Option
use aee_conformance.Py.Value.{Value, null, str, obj, Fields, end, get, list_or_empty}
use aee_conformance.Platform.{Platform}
use aee_conformance.IJson.{Parsed, parsed, ijson_error, strict_b64decode, strict_payload_parse}
use aee_conformance.Pae.{pae}

pub record RecordView : Type 0 where
  pub idx : ℕ
  pub raw : Value
  pub payload_type : Value
  pub payload_bytes : Option (List ℕ)
  pub pae : Option (List ℕ)
  pub payload : Option Fields
  pub payload_error : Option String
  pub decode_err : Bool
  pub media_ok : Bool
  pub signature_count : ℕ

-- `rv.payload or {}`
abbrev pub payload_or_empty : RecordView → Fields
payload_or_empty rv = elim (rv.payload) [ none ↦ end | some p ↦ p ]

-- The properties `kind` and `method`. A payload `{}` has neither member.
abbrev pub kind : RecordView → Value
kind rv = get "aeeKind" (payload_or_empty rv)

abbrev pub method : RecordView → Value
method rv = get "aeeMethod" (payload_or_empty rv)

module _ (P : Platform) where
  -- The payload's bytes, and whether they failed to decode.
  abbrev decoded : Value → Option (List ℕ) × Bool
  decoded (str s) = elim (strict_b64decode P s) [ none ↦ (none, true) | some b ↦ (some b, false) ]
  decoded _ = (none, false)

  abbrev signed_bytes : Value → Option (List ℕ) → Option (List ℕ)
  signed_bytes (str t) (some b) = some (pae t b)
  signed_bytes _ _ = none

  abbrev payload_of : Option (Parsed Fields) → Option Fields
  payload_of (some (parsed fs)) = some fs
  payload_of _ = none

  abbrev error_of : Option (Parsed Fields) → Option String
  error_of (some (ijson_error code)) = some code
  error_of _ = none

  abbrev json_media : Value → Bool
  json_media (str t) = ends_with t "+json"
  json_media _ = false

  -- `rec.get(k) if isinstance(rec, dict) else None`
  abbrev member_of : String → Value → Value
  member_of k (obj fs) = get k fs
  member_of k _ = null

  unfoldable pub record_view : ℕ → Value → RecordView
  unfolding strict_b64decode pae strict_payload_parse
  record_view i rec =
      let (bytes, failed) = decoded (member_of "payload" rec) in
      let result : Option (Parsed Fields) = Option.map (strict_payload_parse P) bytes in
      record {
        idx = i;
        raw = rec;
        payload_type = member_of "payloadType" rec;
        payload_bytes = bytes;
        pae = signed_bytes (member_of "payloadType" rec) bytes;
        payload = payload_of result;
        payload_error = error_of result;
        decode_err = failed;
        media_ok = json_media (member_of "payloadType" rec);
        signature_count = length (list_or_empty (member_of "signatures" rec));
      }

  -- `[RecordView(i, rec) for i, rec in enumerate(records)]`
  unfoldable pub record_views : ℕ → List Value → List RecordView
  unfolding record_view
  record_views i [] = []
  record_views i (rec ∷ recs) = record_view i rec ∷ record_views (suc i) recs
