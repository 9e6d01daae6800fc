-- ===== src/Scalars.antt =====
-- The byte-level scan of string literals in packaging/run_vectors.py: `_hex4`, `_is_noncharacter`,
-- `_check_surrogate_pair`, `_check_escape`, `_check_string_literal`, `_utf8_seq_len` and
-- `check_string_scalars`. `none` is a `StringNotScalarError`; a span is a number of bytes.
use Prim.Native.Nat.{bit_and}
pub mod Fuel
use aee_conformance.Base.{ℕ, zero, suc, ◌+◌, ◌-◌, ◌*◌, Bool, true, false, not, ◌&&◌, ◌||◌}
use aee_conformance.Base.{Option, none, some, List, [], ◌∷◌, length, get_elem?, take, drop}
use aee_conformance.Base.{ltb, leb, ◌==◌, if◌then◌else◌, list_eq}

-- One hex digit of `_hex4`.
unfoldable pub hex_value : ℕ → Option ℕ
hex_value c =
    if leb 0x30 c && leb c 0x39
    then some (c - 0x30)
    else if leb 0x61 c && leb c 0x66
    then some (c - 0x61 + 10)
    else if leb 0x41 c && leb c 0x46
    then some (c - 0x41 + 10)
    else none

-- The loop of `_hex4`: `v << 4 | d` is `v * 16 + d`, since `d` is below 16.
unfoldable pub hex_loop : ℕ → List ℕ → Option ℕ
unfolding hex_value
hex_loop v [] = some v
hex_loop v (c ∷ cs) = elim (hex_value c) [ none ↦ none | some d ↦ hex_loop (v * 16 + d) cs ]

unfoldable pub hex4 : List ℕ → Option ℕ
unfolding hex_loop
hex4 b = if ltb (length b) 4 then none else hex_loop 0 (take 4 b)

unfoldable pub is_noncharacter : ℕ → Bool
is_noncharacter cp = (bit_and cp 0xFFFE == 0xFFFE) || (leb 0xFDD0 cp && leb cp 0xFDEF)

-- The code point of a pair of surrogates.
unfoldable pub pair_value : ℕ → ℕ → ℕ
pair_value hi lo = 0x10000 + (hi - 0xD800) * 0x400 + (lo - 0xDC00)

unfoldable pub check_low : ℕ → ℕ → Option ℕ
unfolding pair_value is_noncharacter
check_low hi lo =
    if not (leb 0xDC00 lo && ltb lo 0xE000)
    then none
    else if is_noncharacter (pair_value hi lo)
    then none
    else some 12

unfoldable pub check_surrogate_pair : List ℕ → ℕ → Option ℕ
unfolding check_low hex4
check_surrogate_pair b hi =
    if ltb (length b) 12 || not (list_eq (take 2 (drop 6 b)) (0x5C ∷ b'u' ∷ []))
    then none
    else elim (hex4 (drop 8 b)) [ none ↦ none | some lo ↦ check_low hi lo ]

unfoldable pub check_unit : List ℕ → ℕ → Option ℕ
unfolding check_surrogate_pair is_noncharacter
check_unit b hi =
    if leb 0xD800 hi && ltb hi 0xDC00
    then check_surrogate_pair b hi
    else if leb 0xDC00 hi && ltb hi 0xE000
    then none
    else if is_noncharacter hi
    then none
    else some 6

unfoldable pub check_escape : List ℕ → Option ℕ
unfolding check_unit hex4
check_escape b =
    if ltb (length b) 2
    then none
    else if not (list_eq (take 1 (drop 1 b)) (b'u' ∷ []))
    then some 2
    else elim (hex4 (drop 2 b)) [ none ↦ none | some hi ↦ check_unit b hi ]

unfoldable pub utf8_seq_len : ℕ → ℕ
utf8_seq_len lead =
    if leb 0xC2 lead && leb lead 0xDF
    then 2
    else if leb 0xE0 lead && leb lead 0xEF
    then 3
    else if leb 0xF0 lead && leb lead 0xF4
    then 4
    else 0

abbrev is_continuation : ℕ → Bool
is_continuation c = leb 0x80 c && ltb c 0xC0

abbrev in_range : ℕ → ℕ → ℕ → Option ℕ
in_range lo hi cp = if leb lo cp && leb cp hi then some cp else none

-- `b.decode("utf-8")` for the bytes of one sequence: continuation bytes, no overlong form, no
-- surrogate, nothing above U+10FFFF.
unfoldable pub decode_sequence : List ℕ → Option ℕ
decode_sequence (a ∷ b ∷ []) =
    if is_continuation b then in_range 0x80 0x7FF ((a - 0xC0) * 0x40 + (b - 0x80)) else none
decode_sequence (a ∷ b ∷ c ∷ []) =
    if is_continuation b && is_continuation c
    then (let cp = (a - 0xE0) * 0x1000 + (b - 0x80) * 0x40 + (c - 0x80) in
        if leb 0xD800 cp && ltb cp 0xE000 then none else in_range 0x800 0xFFFF cp)
    else none
decode_sequence (a ∷ b ∷ c ∷ d ∷ []) =
    if is_continuation b && is_continuation c && is_continuation d
    then in_range 0x10000 0x10FFFF
        ((a - 0xF0) * 0x40000 + (b - 0x80) * 0x1000 + (c - 0x80) * 0x40 + (d - 0x80))
    else none
decode_sequence _ = none

-- A multi-byte sequence at the head of `rest`: its size.
unfoldable pub check_sequence : ℕ → List ℕ → Option ℕ
unfolding utf8_seq_len decode_sequence is_noncharacter
check_sequence c rest =
    let n = utf8_seq_len c in
    if (n == 0) || ltb (length rest) n then none else elim (decode_sequence (take n rest)) [
      | none ↦ none
      | some cp ↦ if is_noncharacter cp then none else some n
    ]

-- What one round of the loop does at the byte `c` before which `rest` begins: `none` is an error,
-- `some 0` the closing quote, `some n` a step of `n` bytes.
unfoldable pub literal_step : ℕ → List ℕ → Option ℕ
unfolding check_escape check_sequence
literal_step c rest =
    if c == 0x22
    then some 0
    else if c == 0x5C
    then check_escape rest
    else if ltb c 0x20
    then none
    else if ltb c 0x80
    then some 1
    else check_sequence c rest

-- `while i < len(b)` of `_check_string_literal`
unfoldable pub literal_loop : ℕ → List ℕ → ℕ → Option ℕ
unfolding literal_step
literal_loop zero b i = none
literal_loop (suc f) b i = elim (get_elem? b i) [
  | none ↦ none
  | some c ↦ elim (literal_step c (drop i b)) [
    | none ↦ none
    | some zero ↦ some (i + 1)
    | some (suc n) ↦ literal_loop f b (i + suc n)
  ]
]

unfoldable pub check_string_literal : List ℕ → Option ℕ
unfolding literal_loop
check_string_literal b = literal_loop (length b) b 1

-- `while i < n` of `check_string_scalars`: whether the scan ends without an error.
unfoldable pub scalars_loop : ℕ → List ℕ → ℕ → Bool
unfolding check_string_literal
scalars_loop zero raw i = leb (length raw) i
scalars_loop (suc f) raw i = elim (get_elem? raw i) [
  | none ↦ true
  | some c ↦ elim (not (c == 0x22)) [
    | true ↦ scalars_loop f raw (i + 1)
    | false ↦ elim (check_string_literal (drop i raw)) [
      | none ↦ false
      | some n ↦ scalars_loop f raw (i + n)
    ]
  ]
]

unfoldable pub check_string_scalars : List ℕ → Bool
unfolding scalars_loop
check_string_scalars raw = scalars_loop (length raw) raw 0
