-- ===== src/Jcs.antt =====
-- RFC 8785 canonical JSON as packaging/run_vectors.py writes it: `_utf16_sort_key`, `_all_bmp`,
-- `_member_names_bmp`, `_jcs_string`, `_jcs_float`, `jcs_dumps`, `_sorted_no_dupes`. `none` is a `JcsError`.
pub mod Order
pub mod Members
use aee_conformance.Base.{ℕ, ◌/◌, ◌%◌, ◌^◌, String, Bool, true, false, ◌&&◌, ◌||◌}
use aee_conformance.Base.{Option, none, some, List, [], ◌∷◌, ◌++◌, map, all}
use aee_conformance.Base.{ltb, leb, ◌==◌, if◌then◌else◌, codes, ◌≡◌, refl}
use mathlib.Core.Option
use Prim.Native.Char.{code}
use aee_conformance.Base.Int.{ℤ, abs}
use aee_conformance.Py.Bytes.{utf8, utf16_units, show_int, hex_digit}
use aee_conformance.Py.Value.{
  Value, null, bool, int, float, real, str, arr, obj, Items, nil, cons, Fields, end, field,
}

abbrev pub safe_int_limit : ℕ
safe_int_limit = 2 ^ 53

-- Python's order on sequences.
unfoldable pub lex_lt : List ℕ → List ℕ → Bool
lex_lt [] [] = false
lex_lt [] (_ ∷ _) = true
lex_lt (_ ∷ _) [] = false
lex_lt (x ∷ xs) (y ∷ ys) = ltb x y || ((x == y) && lex_lt xs ys)

unfoldable pub utf16_sort_key : String → List ℕ
unfolding utf16_units
utf16_sort_key s = utf16_units (codes s)

-- `_utf16_sort_key(s) < _utf16_sort_key(t)`
unfoldable pub key_lt : String → String → Bool
unfolding utf16_sort_key lex_lt
key_lt s t = lex_lt (utf16_sort_key s) (utf16_sort_key t)

-- `sorted(xs, key=_utf16_sort_key)`, of entries with their names: a stable sort.
unfoldable pub insert_entry {ℓ} : {A : Type ℓ} → String × A → List (String × A) → List (String × A)
insert_entry e [] = e ∷ []
insert_entry e (x ∷ xs) = if key_lt x.0 e.0 then x ∷ insert_entry e xs else e ∷ x ∷ xs

unfoldable pub sort_entries {ℓ} : {A : Type ℓ} → List (String × A) → List (String × A)
unfolding insert_entry
sort_entries [] = []
sort_entries (x ∷ xs) = insert_entry x (sort_entries xs)

unfoldable pub insert_name : String → List String → List String
insert_name s [] = s ∷ []
insert_name s (t ∷ ts) = if key_lt t s then t ∷ insert_name s ts else s ∷ t ∷ ts

-- The same of names alone.
unfoldable pub sort_names : List String → List String
unfolding insert_name
sort_names [] = []
sort_names (x ∷ xs) = insert_name x (sort_names xs)

unfoldable pub sorted_no_dupes : List String → Bool
unfolding key_lt
sorted_no_dupes [] = true
sorted_no_dupes (x ∷ []) = true
sorted_no_dupes (x ∷ y ∷ ys) = key_lt x y && sorted_no_dupes (y ∷ ys)

unfoldable pub all_bmp : List String → Bool
all_bmp ss = all (λ s. all (λ c. leb c 0xFFFF) (codes s)) ss

unfoldable mutual
  pub member_names_bmp : Value → Bool
  member_names_bmp (obj fs) = names_bmp fs
  member_names_bmp (arr xs) = items_bmp xs
  member_names_bmp _ = true

  pub items_bmp : Items → Bool
  items_bmp nil = true
  items_bmp (cons x xs) = member_names_bmp x && items_bmp xs

  pub names_bmp : Fields → Bool
  names_bmp end = true
  names_bmp (field k v fs) = all_bmp (k ∷ []) && member_names_bmp v && names_bmp fs

-- `_JCS_CTRL.get(o, f"\\u{o:04x}")`, below 0x20
unfoldable pub control_escape : ℕ → List ℕ
unfolding hex_digit
control_escape o =
    if o == 0x08
    then codes "\\b"
    else if o == 0x09
    then codes "\\t"
    else if o == 0x0A
    then codes "\\n"
    else if o == 0x0C
    then codes "\\f"
    else if o == 0x0D
    then codes "\\r"
    else codes "\\u00" ++ (code (hex_digit (o / 16)) ∷ code (hex_digit (o % 16)) ∷ [])

unfoldable pub jcs_char : ℕ → List ℕ
unfolding control_escape
jcs_char o =
    if o == 0x22
    then 0x5C ∷ 0x22 ∷ []
    else if o == 0x5C
    then 0x5C ∷ 0x5C ∷ []
    else if ltb o 0x20
    then control_escape o
    else o ∷ []

unfoldable pub jcs_chars : List ℕ → List ℕ
unfolding jcs_char
jcs_chars [] = []
jcs_chars (c ∷ cs) = jcs_char c ++ jcs_chars cs

unfoldable pub jcs_string : String → List ℕ
unfolding jcs_chars
jcs_string s = 0x22 ∷ (jcs_chars (codes s) ++ (0x22 ∷ []))

-- An integral float; one that is not is refused by its clause of `ser`.
unfoldable pub jcs_float : ℤ → Option (List ℕ)
unfolding show_int
jcs_float n = if leb safe_int_limit (abs n) then none else some (show_int n)

-- `",".join(parts)`
unfoldable pub join_commas : List (List ℕ) → List ℕ
join_commas [] = []
join_commas (p ∷ []) = p
join_commas (p ∷ q ∷ ps) = p ++ (b',' ∷ join_commas (q ∷ ps))

abbrev pub entry_text : String × List ℕ → List ℕ
entry_text (k, v) = jcs_string k ++ (b':' ∷ v)

unfoldable pub object_text : List (String × List ℕ) → List ℕ
unfolding join_commas sort_entries jcs_string key_lt
object_text es = b'{' ∷ (join_commas (map entry_text (sort_entries es)) ++ (b'}' ∷ []))

unfoldable pub array_text : List (List ℕ) → List ℕ
unfolding join_commas
array_text xs = b'[' ∷ (join_commas xs ++ (b']' ∷ []))

abbrev pub both {ℓ} : {A : Type ℓ} → Option A → Option (List A) → Option (List A)
both (some x) (some xs) = some (x ∷ xs)
both _ _ = none

-- `ser`
unfoldable mutual
  pub ser : Value → Option (List ℕ)
  ser null = some (codes "null")
  ser (bool true) = some (codes "true")
  ser (bool false) = some (codes "false")
  ser (int n) = some (show_int n)
  ser (float n) = jcs_float n
  ser (real s) = none
  ser (str s) = some (jcs_string s)
  ser (arr xs) = Option.map array_text (ser_items xs)
  ser (obj fs) = Option.map object_text (ser_fields fs)

  pub ser_items : Items → Option (List (List ℕ))
  ser_items nil = some []
  ser_items (cons x xs) = both (ser x) (ser_items xs)

  pub ser_fields : Fields → Option (List (String × List ℕ))
  ser_fields end = some []
  ser_fields (field k v fs) = both (Option.map (λ t. (k, t)) (ser v)) (ser_fields fs)

unfoldable pub jcs_dumps : Value → Option (List ℕ)
unfolding ser utf8 object_text array_text jcs_float jcs_string show_int
jcs_dumps v = Option.map utf8 (ser v)

sorted_members :
    jcs_dumps (obj (field "b" (arr (cons null (cons (bool true) nil))) (field "a" (str "x\"") end)))
    ≡ some (codes "{\"a\":\"x\\\"\",\"b\":[null,true]}")
unfolding jcs_dumps Option.map
sorted_members = refl
