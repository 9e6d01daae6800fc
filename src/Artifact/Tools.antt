-- ===== src/Artifact/Tools.antt =====
-- What tools/artifact-binding takes from hashlib, json, pathlib, float and cryptography: functions that
-- the model is given, with the files below the trial directory.
use aee_conformance.Base.{ℕ, String, Bool, Option, List}
use aee_conformance.Base.Int.{ℤ}
use aee_conformance.Py.Value.{Value}

pub record Tools : Type 0 where
  -- `hashlib.sha256(b).hexdigest()`
  pub sha256_hex : List ℕ → String
  -- `json.loads(b.decode("utf-8"))`; `none` is an error of the decoder or the parser
  pub json_loads : List ℕ → Option Value
  -- `str(v)` of what is no text, and `repr(x)` of an integral float
  pub str_of : Value → String
  pub float_repr : ℤ → String
  -- `float(b.decode("utf-8").strip())`, and `float(v)` of a number; `none` is an error
  pub read_float : List ℕ → Option Value
  pub to_float : Value → Option Value
  -- `b.strip()`, and `bytes.fromhex(b.decode("utf-8"))`
  pub strip : List ℕ → List ℕ
  pub unhex : List ℕ → Option (List ℕ)
  -- whether `Ed25519PublicKey.from_public_bytes(key).verify(signature, message)` returns
  pub ed25519 : List ℕ → List ℕ → List ℕ → Bool

-- The bytes of a path below the trial directory, if a file is there.
abbrev pub Disk : Type 0
Disk = String → Option (List ℕ)
