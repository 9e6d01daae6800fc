-- ===== src/Artifact/Jcs.antt =====
-- tools/artifact-binding/jcs.py: the canonical bytes that a record is signed over.
use mathlib.Core.Option
use mathlib.Core.List.{reverse}
use aee_conformance.Base.{
  ℕ, zero, suc, ◌+◌, ◌-◌, ◌*◌, String, Bool, true, false, ◌&&◌, ◌||◌, Option, none, some, List, [],
  ◌∷◌, ◌++◌, codes, ◌≡◌, refl, length, take, drop, ◌==◌, list_eq, if◌then◌else◌,
}
use aee_conformance.Base.Int.{ℤ, pos, negsuc, abs, ltb_ℤ, leb_ℤ, eq_ℤ, add_ℤ, sub_ℤ}
use aee_conformance.Py.Value.{
  Value, null, bool, int, float, real, str, arr, obj, Items, nil, cons, Fields, end, field,
}
use aee_conformance.Py.Bytes.{utf8, show_nat, show_int}
use aee_conformance.Jcs.{jcs_string, object_text, array_text}

-- `s.partition(sep)` at one character: what stands before it, and after it
unfoldable pub before : ℕ → List ℕ → List ℕ
before sep [] = []
before sep (c ∷ cs) = let rest = before sep cs in if c == sep then [] else c ∷ rest

unfoldable pub behind : ℕ → List ℕ → List ℕ
behind sep [] = []
behind sep (c ∷ cs) = let rest = behind sep cs in if c == sep then cs else rest

-- `s.lstrip("0")` and `s.rstrip("0")`
unfoldable pub lstrip_zeros : List ℕ → List ℕ
lstrip_zeros [] = []
lstrip_zeros (c ∷ cs) = let rest = lstrip_zeros cs in if c == b'0' then rest else c ∷ cs

unfoldable pub rstrip_zeros : List ℕ → List ℕ
unfolding lstrip_zeros
rstrip_zeros cs = reverse (lstrip_zeros (reverse cs))

-- `int(exponent) if exponent else 0`
unfoldable pub read_digits : ℕ → List ℕ → ℕ
read_digits n [] = n
read_digits n (c ∷ cs) = read_digits (n * 10 + (c - b'0')) cs

unfoldable pub read_exponent : List ℕ → ℤ
unfolding read_digits
read_exponent [] = pos 0
read_exponent (c ∷ cs) =
    if c == b'-'
    then sub_ℤ (pos 0) (pos (read_digits 0 cs))
    else if c == b'+'
    then pos (read_digits 0 cs)
    else pos (read_digits 0 (c ∷ cs))

unfoldable pub zeros : ℕ → List ℕ
zeros zero = []
zeros (suc n) = b'0' ∷ zeros n

abbrev or_zero : List ℕ → List ℕ
or_zero [] = b'0' ∷ []
or_zero (c ∷ cs) = c ∷ cs

-- The significant digits of a positive number, and the place of its point.
unfoldable pub significant : List ℕ → List ℕ × ℤ
unfolding before behind lstrip_zeros rstrip_zeros read_exponent
significant text =
    let mantissa = before b'e' text in
    let n = read_exponent (behind b'e' text) in
    let whole = before b'.' mantissa in
    let frac = behind b'.' mantissa in
    let stripped = lstrip_zeros frac in
    if list_eq whole (b'0' ∷ [])
    then (or_zero (rstrip_zeros stripped), sub_ℤ n (pos (length frac - length stripped)))
    else (or_zero (rstrip_zeros (whole ++ frac)), add_ℤ n (pos (length whole)))

abbrev with_point : List ℕ → List ℕ
with_point [] = []
with_point (d ∷ []) = d ∷ []
with_point (d ∷ ds) = d ∷ b'.' ∷ ds

abbrev exponent_tail : ℤ → List ℕ
exponent_tail m = b'e' ∷ (if leb_ℤ (pos 0) m then b'+' else b'-') ∷ show_nat (abs m)

-- ECMAScript's text of the digits and the place of the point.
unfoldable pub lay_out : List ℕ → ℤ → List ℕ
unfolding zeros show_nat
lay_out digits n =
    let k = length digits in
    if leb_ℤ (pos k) n && leb_ℤ n (pos 21)
    then digits ++ zeros (abs n - k)
    else if ltb_ℤ (pos 0) n && leb_ℤ n (pos 21)
    then take (abs n) digits ++ (b'.' ∷ drop (abs n) digits)
    else if ltb_ℤ (negsuc 5) n && leb_ℤ n (pos 0)
    then b'0' ∷ b'.' ∷ (zeros (abs n) ++ digits)
    else with_point digits ++ exponent_tail (sub_ℤ n (pos 1))

abbrev is_infinite : List ℕ → Bool
is_infinite t = list_eq t (codes "nan") || list_eq t (codes "inf") || list_eq t (codes "-inf")

-- `es6_number`, of the text that `repr` gives; `none` is the `ValueError` for NaN and the infinities.
unfoldable pub es6_number : List ℕ → Option (List ℕ)
unfolding significant lay_out
es6_number [] = none
es6_number (c ∷ cs) =
    if is_infinite (c ∷ cs)
    then none
    else if c == b'-'
    then some (b'-' ∷ lay_out (significant cs).0 (significant cs).1)
    else some (lay_out (significant (c ∷ cs)).0 (significant (c ∷ cs)).1)

abbrev push_text : Option (List ℕ) → Option (List (List ℕ)) → Option (List (List ℕ))
push_text (some t) (some ts) = some (t ∷ ts)
push_text _ _ = none

abbrev push_member :
    String → Option (List ℕ) → Option (List (String × List ℕ)) → Option (List (String × List ℕ))
push_member k (some t) (some ts) = some ((k, t) ∷ ts)
push_member k _ _ = none

abbrev bool_text : Bool → List ℕ
bool_text true = codes "true"
bool_text false = codes "false"

-- `_encode`. `float_repr` is the `repr` of an integral float.
unfoldable mutual
  unfolding es6_number jcs_string show_int object_text array_text

  pub encode : (ℤ → String) → Value → Option (List ℕ)
  encode float_repr null = some (codes "null")
  encode float_repr (bool b) = some (bool_text b)
  encode float_repr (int n) = some (show_int n)
  encode float_repr (float n) =
      if eq_ℤ n (pos 0) then some (b'0' ∷ []) else es6_number (codes (float_repr n))
  encode float_repr (real s) = es6_number (codes s)
  encode float_repr (str s) = some (jcs_string s)
  encode float_repr (arr xs) = Option.map array_text (encode_items float_repr xs)
  encode float_repr (obj fs) = Option.map object_text (encode_fields float_repr fs)

  pub encode_items : (ℤ → String) → Items → Option (List (List ℕ))
  encode_items float_repr nil = some []
  encode_items float_repr (cons x xs) = push_text (encode float_repr x) (encode_items float_repr xs)

  pub encode_fields : (ℤ → String) → Fields → Option (List (String × List ℕ))
  encode_fields float_repr end = some []
  encode_fields float_repr (field k v fs) =
      push_member k (encode float_repr v) (encode_fields float_repr fs)

unfoldable pub canonical_bytes : (ℤ → String) → Value → Option (List ℕ)
unfolding encode utf8
canonical_bytes float_repr v = Option.map utf8 (encode float_repr v)

small_number : es6_number (codes "1e-07") ≡ some (codes "1e-7")
unfolding es6_number
small_number = refl

large_number : es6_number (codes "-1.5e+300") ≡ some (codes "-1.5e+300")
unfolding es6_number
large_number = refl

plain_number : es6_number (codes "1234.5") ≡ some (codes "1234.5")
unfolding es6_number
plain_number = refl
