-- ===== src/Platform.antt =====
-- What packaging/run_vectors.py takes from hashlib, base64, json and datetime: functions that the model is given.
use aee_conformance.Base.{ℕ, String, Bool, Option, List}
use aee_conformance.Base.Int.{ℤ, ltb_ℤ}
use aee_conformance.Py.Value.{Value}

-- The number literal of a JSON text with a fraction or an exponent, as `decimal.Decimal` reads it:
-- `coefficient * 10 ** exponent`, negated if `negative`.
pub record Decimal : Type 0 where
  pub negative : Bool
  pub coefficient : ℕ
  pub exponent : ℤ

-- A JSON text as the scanner of the json module reads it, before its hooks: the members of an object
-- in order, repeats included. `constant` is NaN or an infinity.
mutual
  pub data Json : Type 0 where
    jnull : Json
    jbool : Bool → Json
    jint : ℤ → Json
    jfloat : Decimal → Json
    constant : String → Json
    jstr : String → Json
    jarr : Elements → Json
    jobj : Members → Json

  pub data Elements : Type 0 where
    no_elements : Elements
    element : Json → Elements → Elements

  pub data Members : Type 0 where
    no_members : Members
    member : String → Json → Members → Members

-- A `datetime`: its instant, and `utcoffset()` unless it is naive. Both in microseconds.
pub record Datetime : Type 0 where
  pub instant : ℤ
  pub utcoffset : Option ℤ

-- `a > b`, of two datetimes with an offset
abbrev pub later : Datetime → Datetime → Bool
later a b = ltb_ℤ b.instant a.instant

pub record Platform : Type 0 where
  -- `hashlib.sha256(b).digest()`
  pub sha256 : List ℕ → List ℕ
  -- `base64.b64decode(s, validate=True)`, and `base64.b64encode(b).decode("ascii")`
  pub b64decode : String → Option (List ℕ)
  pub b64encode : List ℕ → String
  -- `b.decode("utf-8")`
  pub utf8_decode : List ℕ → Option String
  -- `json.loads`, without its hooks; `none` is a `ValueError` or a `RecursionError`
  pub json_syntax : String → Option Json
  -- `datetime.fromisoformat`
  pub fromisoformat : String → Option Datetime
  -- whether `\d` matches the character
  pub is_decimal_digit : ℕ → Bool
  -- `s.strip()`
  pub strip : String → String
  -- `hashlib.sha512(b).digest()`
  pub sha512 : List ℕ → List ℕ
  -- `repr(obj).encode("utf-8")`
  pub repr : Value → List ℕ
