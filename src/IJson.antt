-- ===== src/IJson.antt =====
-- The strict I-JSON parse of packaging/run_vectors.py: `_safe_integer_literal`, `_reject_dup_pairs`,
-- `_walk_check_ints`, `_max_json_depth`, `parse_json_value`, `strict_payload_parse`, `strict_b64decode`
-- and `_statement_strict_fault`.
pub mod Duplicates
pub mod Plain
pub mod Strict
use aee_conformance.Base.{
  ℕ, zero, suc, ◌+◌, ◌-◌, ◌*◌, ◌/◌, ◌%◌, ◌^◌, String, Bool, true, false, not,
}
use aee_conformance.Base.{◌&&◌, ◌||◌, Option, none, some, List, [], ◌∷◌, length, str_eq, list_eq}
use aee_conformance.Base.{ltb, ◌==◌, if◌then◌else◌, codes}
use aee_conformance.Base.Int.{ℤ, pos, negsuc, abs}
use mathlib.Core.Option
use aee_conformance.Py.Value.{
  Value, null, bool, int, float, real, str, arr, obj, Items, nil, cons, Fields, end, field, has,
}
use aee_conformance.Platform.{
  Platform, Decimal, Json, jnull, jbool, jint, jfloat, constant, jstr, jarr, jobj, Elements,
  no_elements, element, Members, no_members, member,
}
use aee_conformance.Jcs.{safe_int_limit, jcs_dumps, member_names_bmp}
use aee_conformance.Scalars.{check_string_scalars}

abbrev pub max_parse_depth : ℕ
max_parse_depth = 128

abbrev pub max_parse_bytes : ℕ
max_parse_bytes = 20 * 2 ^ 20

-- A parsed value, or an `IJsonError` with its code.
pub data Parsed (A : Type 0) : Type 0 where
  parsed : A → Parsed A
  ijson_error : String → Parsed A

-- `-m`
abbrev negate : ℕ → ℤ
negate zero = pos zero
negate (suc n) = negsuc n

abbrev signed : Bool → ℕ → ℤ
signed neg m = if neg then negate m else pos m

-- The value of a decimal that is an integer below the limit.
abbrev within_limit : Bool → ℕ → Option ℤ
within_limit neg m = if ltb m safe_int_limit then some (signed neg m) else none

-- The decimal `coefficient / 10 ** places`
abbrev integral_quotient : Bool → ℕ → ℕ → Option ℤ
integral_quotient neg coefficient scale =
    if coefficient % scale == 0 then within_limit neg (coefficient / scale) else none

-- `none` is an `IJsonError`, as in all that follows up to `parse_json_value`.
unfoldable pub safe_integer_literal : Decimal → Option ℤ
safe_integer_literal d = elim d.exponent [
  | pos e ↦ within_limit d.negative (d.coefficient * 10 ^ e)
  | negsuc e ↦ integral_quotient d.negative d.coefficient (10 ^ suc e)
]

abbrev pub pair_items : Option Value → Option Items → Option Items
pair_items (some x) (some xs) = some (cons x xs)
pair_items _ _ = none

-- A key that the rest repeats is a duplicate.
abbrev pub pair_fields : String → Option Value → Option Fields → Option Fields
pair_fields k (some v) (some fs) = if has k fs then none else some (field k v fs)
pair_fields _ _ _ = none

-- `json.loads` with `_reject_dup_pairs` and `_safe_integer_literal` for its hooks
unfoldable mutual
  pub load_strict : Json → Option Value
  load_strict jnull = some null
  load_strict (jbool b) = some (bool b)
  load_strict (jint n) = some (int n)
  load_strict (jfloat d) = Option.map int (safe_integer_literal d)
  load_strict (constant s) = some (real s)
  load_strict (jstr s) = some (str s)
  load_strict (jarr xs) = Option.map arr (load_elements xs)
  load_strict (jobj ms) = Option.map obj (load_members ms)

  pub load_elements : Elements → Option Items
  load_elements no_elements = some nil
  load_elements (element x xs) = pair_items (load_strict x) (load_elements xs)

  pub load_members : Members → Option Fields
  load_members no_members = some end
  load_members (member k v ms) = pair_fields k (load_strict v) (load_members ms)

-- `_walk_check_ints`: whether it returns.
unfoldable mutual
  pub walk_check_ints : Value → Bool
  walk_check_ints (int n) = ltb (abs n) safe_int_limit
  walk_check_ints (float n) = false
  walk_check_ints (real s) = false
  walk_check_ints (arr xs) = walk_items xs
  walk_check_ints (obj fs) = walk_fields fs
  walk_check_ints _ = true

  pub walk_items : Items → Bool
  walk_items nil = true
  walk_items (cons x xs) = walk_check_ints x && walk_items xs

  pub walk_fields : Fields → Bool
  walk_fields end = true
  walk_fields (field k v fs) = walk_check_ints v && walk_fields fs

-- The variables of the loop of `_max_json_depth`. `depth` may fall below 0, where it is an opening
-- bracket short: `below` counts that.
pub record Scan : Type 0 where
  pub depth : ℕ
  pub below : ℕ
  pub maxd : ℕ
  pub in_str : Bool
  pub esc : Bool

abbrev opened : Scan → Scan
opened s = if ltb 0 s.below then record s { below = s.below - 1 } else record s {
  depth = s.depth + 1;
  maxd = if ltb s.maxd (s.depth + 1) then s.depth + 1 else s.maxd;
}

abbrev closed : Scan → Scan
closed s =
    if ltb 0 s.depth then record s { depth = s.depth - 1 } else record s { below = s.below + 1 }

unfoldable pub scan_char : Scan → ℕ → Scan
scan_char s ch =
    if s.in_str
    then (if s.esc
        then record s { esc = false }
        else if ch == 0x5C
        then record s { esc = true }
        else if ch == 0x22
        then record s { in_str = false }
        else s)
    else if ch == 0x22
    then record s { in_str = true }
    else if (ch == b'[') || (ch == b'{')
    then opened s
    else if (ch == b']') || (ch == b'}')
    then closed s
    else s

unfoldable pub scan_loop : Scan → List ℕ → Scan
unfolding scan_char
scan_loop s [] = s
scan_loop s (ch ∷ rest) = scan_loop (scan_char s ch) rest

abbrev pub scan_start : Scan
scan_start = record { depth = 0; below = 0; maxd = 0; in_str = false; esc = false }

unfoldable pub max_json_depth : String → ℕ
unfolding scan_loop
max_json_depth text = (scan_loop scan_start (codes text)).maxd

-- Whether an object anywhere in the text repeats a member name.
abbrev pub names_member : String → Members → Bool
names_member k no_members = false
names_member k (member j v ms) = str_eq k j || names_member k ms

unfoldable mutual
  pub has_duplicates : Json → Bool
  has_duplicates (jarr xs) = elements_duplicates xs
  has_duplicates (jobj ms) = members_duplicates ms
  has_duplicates _ = false

  pub elements_duplicates : Elements → Bool
  elements_duplicates no_elements = false
  elements_duplicates (element x xs) = has_duplicates x || elements_duplicates xs

  pub members_duplicates : Members → Bool
  members_duplicates no_members = false
  members_duplicates (member k v ms) =
      names_member k ms || has_duplicates v || members_duplicates ms

module _ (P : Platform) where
  -- `none` is a `ValueError`.
  unfoldable pub strict_b64decode : String → Option (List ℕ)
  strict_b64decode s = elim (P.b64decode s) [
    | none ↦ none
    | some raw ↦ if str_eq (P.b64encode raw) s then some raw else none
  ]

  -- `json.loads` on a text within the depth bound, then the scan of its string literals.
  unfoldable pub parse_text : List ℕ → String → Option Value
  unfolding load_strict check_string_scalars
  parse_text raw text = elim (P.json_syntax text) [
    | none ↦ none
    | some j ↦ elim (load_strict j) [
      | none ↦ none
      | some v ↦ if check_string_scalars raw then some v else none
    ]
  ]

  -- Every `IJsonError` that `parse_json_value` raises has the code payload-not-ijson.
  unfoldable pub parse_json_value : List ℕ → Option Value
  unfolding parse_text max_json_depth
  parse_json_value raw =
      if ltb max_parse_bytes (length raw) then none else elim (P.utf8_decode raw) [
        | none ↦ none
        | some text ↦
            if ltb max_parse_depth (max_json_depth text) then none else parse_text raw text
      ]

  -- `if canon != raw`
  abbrev pub check_canonical : List ℕ → Fields → Option (List ℕ) → Parsed Fields
  check_canonical raw fs none = ijson_error "payload-not-ijson"
  check_canonical raw fs (some canon) =
      if list_eq canon raw then parsed fs else ijson_error "payload-not-canonical"

  unfoldable pub canonical_dict : List ℕ → Value → Parsed Fields
  unfolding member_names_bmp walk_check_ints jcs_dumps
  canonical_dict raw (obj fs) =
      if not (member_names_bmp (obj fs))
      then ijson_error "payload-not-canonical"
      else if not (walk_check_ints (obj fs))
      then ijson_error "payload-not-ijson"
      else check_canonical raw fs (jcs_dumps (obj fs))
  canonical_dict raw _ = ijson_error "payload-not-canonical"

  unfoldable pub strict_payload_parse : List ℕ → Parsed Fields
  unfolding parse_json_value canonical_dict
  strict_payload_parse raw = elim (parse_json_value raw) [
    | none ↦ ijson_error "payload-not-ijson"
    | some v ↦ canonical_dict raw v
  ]

  unfoldable pub statement_strict_fault : List ℕ → Bool
  unfolding max_json_depth has_duplicates check_string_scalars
  statement_strict_fault raw =
      if ltb max_parse_bytes (length raw) then true else elim (P.utf8_decode raw) [
        | none ↦ true
        | some text ↦
            if ltb max_parse_depth (max_json_depth text) then true else elim (P.json_syntax text) [
              | none ↦ true
              | some j ↦ has_duplicates j || not (check_string_scalars raw)
            ]
      ]
