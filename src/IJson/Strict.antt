-- ===== src/IJson/Strict.antt =====
-- What the strict parse of packaging/run_vectors.py lets through.
use aee_conformance.Base.{
  ℕ, String, Bool, true, false, not, Option, none, some, List, ◌≡◌, refl, ap,
}
use aee_conformance.Base.{length, list_eq, list_eq→eq, ltb, if◌then◌else◌}
use aee_conformance.Py.Value.{Value, obj, Fields}
use aee_conformance.Platform.{Platform, Json}
use aee_conformance.Jcs.{jcs_dumps, member_names_bmp}
use aee_conformance.Scalars.{check_string_scalars}
use aee_conformance.IJson.{
  parsed, ijson_error, max_parse_depth, max_parse_bytes, load_strict, walk_check_ints,
  max_json_depth, parse_text, parse_json_value, check_canonical, canonical_dict,
  strict_payload_parse, statement_strict_fault,
}
use aee_conformance.IJson.Plain.{
  IsUnrepeated, IsSafe, IsBasic, has_duplicates-IsUnrepeated, walk_check_ints-IsSafe,
  member_names_bmp-IsBasic,
}
use aee_conformance.IJson.Duplicates.{load_strict_unique}

parsed-injective : {a b : Fields} → parsed a ≡ parsed b → a ≡ b
parsed-injective h = cc

module _ (P : Platform) (raw : List ℕ) where
  -- The bytes are within the bounds, they decode to a text that is within the depth, and the JSON value of
  -- that text repeats no name in any of its objects and loads as the value.
  abbrev pub IsStrict : Value → Type 0
  IsStrict v =
      (text : String) × (j : Json) × (ltb max_parse_bytes (length raw) ≡ false)
      × (P.utf8_decode raw ≡ some text)
      × (ltb max_parse_depth (max_json_depth text) ≡ false)
      × (P.json_syntax text ≡ some j)
      × IsUnrepeated j
      × (load_strict j ≡ some v)
      × (check_string_scalars raw ≡ true)

  parse_text-inv :
      (text : String) {v : Value}
      → parse_text P raw text ≡ some v
      → (j : Json) × (P.json_syntax text ≡ some j)
        × (load_strict j ≡ some v)
        × (check_string_scalars raw ≡ true)
  unfolding parse_text
  parse_text-inv text h = read (P.json_syntax text) h
    where
      scanned :
          (scalars : Bool) (u : Value) {v : Value}
          → (if scalars then some u else none) ≡ some v
          → (u ≡ v) × (scalars ≡ true)
      scanned true u h = (cc, refl)
      scanned false u h = cc

      loaded :
          (o : Option Value) {v : Value}
          → (elim o [ none ↦ none | some u ↦ if check_string_scalars raw then some u else none ])
            ≡ some v
          → (o ≡ some v) × (check_string_scalars raw ≡ true)
      loaded none h = cc
      loaded (some u) h = let (e, c) = scanned (check_string_scalars raw) u h in (ap some e, c)

      read :
          (o : Option Json) {v : Value}
          → (elim o [
            | none ↦ none
            | some j ↦ elim (load_strict j) [
              | none ↦ none
              | some u ↦ if check_string_scalars raw then some u else none
            ]
          ])
            ≡ some v
          → (j : Json) × (o ≡ some j) × (load_strict j ≡ some v) × (check_string_scalars raw ≡ true)
      read none h = cc
      read (some j) h = let (e, c) = loaded (load_strict j) h in (j, refl, e, c)

  parse_json_value-IsStrict : {v : Value} → parse_json_value P raw ≡ some v → IsStrict v
  unfolding parse_json_value
  parse_json_value-IsStrict h = sized (ltb max_parse_bytes (length raw)) refl h
    where
      deep :
          (text : String) (b : Bool) {v : Value}
          → ltb max_parse_depth (max_json_depth text) ≡ b
          → (if b then none else parse_text P raw text) ≡ some v
          → (ltb max_parse_depth (max_json_depth text) ≡ false) × (parse_text P raw text ≡ some v)
      deep text true e h = cc
      deep text false e h = (e, h)

      decoded :
          (o : Option String) {v : Value}
          → ltb max_parse_bytes (length raw) ≡ false
          → P.utf8_decode raw ≡ o
          → (elim o [
            | none ↦ none
            | some text ↦
                if ltb max_parse_depth (max_json_depth text) then none else parse_text P raw text
          ])
            ≡ some v
          → IsStrict v
      decoded none size e h = cc
      decoded (some text) size e h =
          let (shallow, h1) = deep text (ltb max_parse_depth (max_json_depth text)) refl h in
          let (j, q, l, c) = parse_text-inv text h1 in
          (
            text,
            j,
            size,
            e,
            shallow,
            q,
            has_duplicates-IsUnrepeated j (load_strict_unique j l),
            l,
            c,
          )

      sized :
          (b : Bool) {v : Value}
          → ltb max_parse_bytes (length raw) ≡ b
          → (if b then none else (elim (P.utf8_decode raw) [
            | none ↦ none
            | some text ↦
                if ltb max_parse_depth (max_json_depth text) then none else parse_text P raw text
          ]))
            ≡ some v
          → IsStrict v
      sized true e h = cc
      sized false e h = decoded (P.utf8_decode raw) e refl h

  same_bytes :
      (gs : Fields) (o : Option (List ℕ)) {fs : Fields}
      → check_canonical P raw gs o ≡ parsed fs
      → (gs ≡ fs) × (o ≡ some raw)
  same_bytes gs none h = cc
  same_bytes gs (some canon) h = compared (list_eq canon raw) refl h
    where
      compared :
          (b : Bool) {fs : Fields}
          → list_eq canon raw ≡ b
          → (if b then parsed gs else ijson_error "payload-not-canonical") ≡ parsed fs
          → (gs ≡ fs) × (some canon ≡ some raw)
      compared true e h = (parsed-injective h, ap some (list_eq→eq canon raw e))
      compared false e h = cc

  -- The names of the object are of code points up to 0xFFFF, its numbers are integers of absolute value below
  -- 2 ^ 53, at every depth, and its canonical bytes are the input.
  abbrev pub IsCanonical : Fields → Type 0
  IsCanonical fs = IsBasic (obj fs) × IsSafe (obj fs) × (jcs_dumps (obj fs) ≡ some raw)

  checked :
      (names ints : Bool) (gs : Fields) (o : Option (List ℕ)) {fs : Fields}
      → (if not names
          then ijson_error "payload-not-canonical"
          else if not ints
          then ijson_error "payload-not-ijson"
          else check_canonical P raw gs o)
        ≡ parsed fs
      → (names ≡ true) × (ints ≡ true) × (gs ≡ fs) × (o ≡ some raw)
  checked true true gs o h = let (e, q) = same_bytes gs o h in (refl, refl, e, q)
  checked false ints gs o h = cc
  checked true false gs o h = cc

  canonical_dict-IsCanonical :
      (v : Value) {fs : Fields} → canonical_dict P raw v ≡ parsed fs → (v ≡ obj fs) × IsCanonical fs
  unfolding canonical_dict
  canonical_dict-IsCanonical (obj gs) h =
      let (names, ints, e, q) =
        checked (member_names_bmp (obj gs)) (walk_check_ints (obj gs)) gs (jcs_dumps (obj gs)) h in
      let canonical : IsCanonical gs =
        (member_names_bmp-IsBasic (obj gs) names, walk_check_ints-IsSafe (obj gs) ints, q) in
      (ap obj e, rw e at canonical)
  canonical_dict-IsCanonical _ h = cc

  found :
      (o : Option Value) {fs : Fields}
      → (elim o [ none ↦ ijson_error "payload-not-ijson" | some v ↦ canonical_dict P raw v ])
        ≡ parsed fs
      → (o ≡ some (obj fs)) × IsCanonical fs
  found none h = cc
  found (some v) h = let (e, q) = canonical_dict-IsCanonical v h in (ap some e, q)

  -- A payload that the strict parse accepts is within the bounds on size and depth; no object of its JSON
  -- text, at any depth, has two members of one name; its string literals pass the scan for scalar values;
  -- and in the object that is returned every number is an integer of absolute value below 2 ^ 53, every
  -- name is of code points up to 0xFFFF, and the canonical bytes are the payload.
  pub strict_payload_parse-IsCanonical :
      (fs : Fields) → strict_payload_parse P raw ≡ parsed fs → IsStrict (obj fs) × IsCanonical fs
  unfolding strict_payload_parse
  strict_payload_parse-IsCanonical fs h =
      let (e, q) = found (parse_json_value P raw) h in (parse_json_value-IsStrict e, q)

  -- Bytes that the strict parse of payloads accepts have no fault of a strict statement: the two entry
  -- points, which find repeated names in different ways, agree.
  pub strict_payload_parse-statement_strict_fault :
      (fs : Fields) → strict_payload_parse P raw ≡ parsed fs → statement_strict_fault P raw ≡ false
  unfolding statement_strict_fault
  strict_payload_parse-statement_strict_fault fs h =
      let (strict, canonical) = strict_payload_parse-IsCanonical fs h in
      let (text, j, size, e, shallow, q, d, l, c) = strict in
      rw (size, e, shallow, q, load_strict_unique j l, c) refl
