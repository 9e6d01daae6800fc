-- ===== src/Examples/Data.antt =====
-- A statement with one caught substrate row, an interception record and a seal, and functions in place
-- of hashlib, base64, json and datetime that read it.
use aee_conformance.Base.{
  ℕ, zero, suc, String, true, ◌&&◌, Option, none, some, List, [], ◌∷◌, ◌++◌, str_eq, list_eq, leb,
  codes, if◌then◌else◌,
}
use aee_conformance.Base.Int.{pos}
use aee_conformance.Py.Value.{Value, int, str, arr, obj, Items, nil, cons, Fields, end, field}
use aee_conformance.Platform.{
  Platform, Json, jbool, jint, jstr, jarr, jobj, no_elements, element, no_members, member,
}

abbrev pub zeros : String
zeros = "0000000000000000000000000000000000000000000000000000000000000000"

abbrev pub zero_bytes : ℕ → List ℕ
zero_bytes zero = []
zero_bytes (suc n) = 0 ∷ zero_bytes n

-- 32 zero bytes, whatever the text.
abbrev pub no_digest : List ℕ → List ℕ
no_digest b = zero_bytes 32

abbrev pub interception_text : String
interception_text =
    "{\"aeeKind\":\"interception\",\"aeeMethod\":\"intercepted\",\"aeePayloadCommitment\":[\"0000000000000000000000000000000000000000000000000000000000000000\"],\"aeeRunBinding\":\"0000000000000000000000000000000000000000000000000000000000000000\"}"

abbrev interception_json : Json
interception_json = jobj (
    member "aeeKind" (jstr "interception") (
      member "aeeMethod" (jstr "intercepted") (
        member "aeePayloadCommitment" (jarr (element (jstr zeros) no_elements))
          (member "aeeRunBinding" (jstr zeros) no_members))))

abbrev pub seal_text : String
seal_text =
    "{\"aeeDropCount\":0,\"aeeKind\":\"sealed\",\"aeeMethod\":\"intercepted\",\"aeeObservedAttacks\":[\"a1\"],\"aeeObservedSet\":\"0000000000000000000000000000000000000000000000000000000000000000\",\"aeePostureDigest\":\"0000000000000000000000000000000000000000000000000000000000000000\",\"aeeRunBinding\":\"0000000000000000000000000000000000000000000000000000000000000000\",\"aeeStillArmed\":true}"

abbrev seal_json : Json
seal_json = jobj (
    member "aeeDropCount" (jint (pos 0)) (
      member "aeeKind" (jstr "sealed") (
        member "aeeMethod" (jstr "intercepted") (
          member "aeeObservedAttacks" (jarr (element (jstr "a1") no_elements)) (
            member "aeeObservedSet" (jstr zeros) (
              member "aeePostureDigest" (jstr zeros) (
                member "aeeRunBinding" (jstr zeros)
                  (member "aeeStillArmed" (jbool true) no_members))))))))

-- The encoding of the neutral point, and it again with a zero scalar: a signature where the hash is 0.
abbrev pub neutral : List ℕ
neutral = 1 ∷ zero_bytes 31

abbrev pub neutral_signature : List ℕ
neutral_signature = neutral ++ zero_bytes 32

-- Two payloads and one signature, under short names.
abbrev decode : String → Option (List ℕ)
decode s =
    if str_eq s "aQ=="
    then some (codes interception_text)
    else if str_eq s "cw=="
    then some (codes seal_text)
    else if str_eq s "AA=="
    then some neutral_signature
    else none

abbrev encode : List ℕ → String
encode b =
    if list_eq b (codes interception_text)
    then "aQ=="
    else if list_eq b (codes seal_text)
    then "cw=="
    else "AA=="

abbrev decode_utf8 : List ℕ → Option String
decode_utf8 b =
    if list_eq b (codes interception_text)
    then some interception_text
    else if list_eq b (codes seal_text)
    then some seal_text
    else none

abbrev syntax_of : String → Option Json
syntax_of s =
    if str_eq s interception_text
    then some interception_json
    else if str_eq s seal_text
    then some seal_json
    else none

abbrev pub platform : Platform
platform = record {
  sha256 = no_digest;
  b64decode = decode;
  b64encode = encode;
  utf8_decode = decode_utf8;
  json_syntax = syntax_of;
  fromisoformat = λ s. some (record { instant = pos 0; utcoffset = some (pos 0) });
  is_decimal_digit = λ c. leb b'0' c && leb c b'9';
  strip = λ s. s;
  sha512 = λ b. zero_bytes 64;
  repr = λ v. [];
}

abbrev with_digest : Fields → Value
with_digest fs = obj (field "digest" (obj (field "sha256" (str zeros) end)) fs)

abbrev pub texts : List String → Items
texts [] = nil
texts (s ∷ ss) = cons (str s) (texts ss)

abbrev pub environment : Fields
environment = field "substrate" (with_digest end) (
    field "corpus"
      (with_digest (
        field "manifest" (obj (field "classes" (obj (field "c" (arr (texts ("a1" ∷ []))) end)) end))
          end))
      (field "catchPolicy" (with_digest end) (
        field "networkPosture" (with_digest (field "posture" (str "no_network") end)) (
          field "runEntropy" (with_digest end) (
            field "observationVocabulary"
              (with_digest (
                field "labels" (arr (texts ("blocked" ∷ "leaked" ∷ [])))
                  (field "caught" (arr (texts ("blocked" ∷ []))) end)))
              end)))))

abbrev pub caught_row : Fields
caught_row = field "attackId" (str "a1") (
    field "containmentObserved" (str "blocked") (
      field "basis" (str "substrate") (
        field "method" (str "intercepted") (
          field "attribution" (str "paired") (
            field "actualLayer" (str "syscall")
              (field "observationRefs" (arr (cons (int (pos 0)) nil)) end))))))

abbrev pub record_of : String → Value
record_of payload = obj (
    field "payloadType" (str "application/vnd.aee+json") (
      field "payload" (str payload)
        (field "signatures" (arr (cons (obj (field "sig" (str "AA==") end)) nil)) end)))

abbrev pub predicate : Fields
predicate = field "result" (str "fail") (
    field "issuedAt" (str "2024-01-01T00:00:00Z") (
      field "observationEnvironment" (obj environment) (
        field "attackResults" (arr (cons (obj caught_row) nil)) (
          field "coverage" (obj (field "assessedClasses" (arr (texts ("c" ∷ []))) end)) (
            field "observationRecords" (arr (cons (record_of "aQ==") (cons (record_of "cw==") nil)))
              (field "batchRoot" (str zeros) end))))))

abbrev pub statement : Fields
statement = field "_type" (str "https://in-toto.io/Statement/v1") (
    field "predicateType" (str "https://in-toto.io/attestation/adversarial-execution-evidence/v0.7")
      (field "subject" (arr (cons (with_digest end) nil)) (field "predicate" (obj predicate) end)))

abbrev pub key : List (List ℕ)
key = neutral ∷ []
