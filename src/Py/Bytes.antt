-- ===== src/Py/Bytes.antt =====
-- What the verifier uses of Python's `str.encode`, `str(int)`, `%d` and `bytes.hex`, over lists of
-- byte values.
pub mod Laws
use Prim.Native.Char.{Char}
use aee_conformance.Base.{ℕ, zero, suc, ◌+◌, ◌-◌, ◌*◌, ◌/◌, ◌%◌, String, Bool, List, [], ◌∷◌, ◌++◌}
use aee_conformance.Base.{codes, ltb, leb, ◌==◌, if◌then◌else◌, ◌≡◌, refl}
use aee_conformance.Base.Int.{ℤ, pos, negsuc}

-- `chr(c).encode("utf-8")`, of a scalar value
unfoldable pub utf8_char : ℕ → List ℕ
utf8_char c =
    if ltb c 0x80
    then c ∷ []
    else if ltb c 0x800
    then (0xC0 + c / 0x40) ∷ (0x80 + c % 0x40) ∷ []
    else if ltb c 0x10000
    then (0xE0 + c / 0x1000) ∷ (0x80 + (c / 0x40) % 0x40) ∷ (0x80 + c % 0x40) ∷ []
    else (0xF0 + c / 0x40000)
      ∷ (0x80 + (c / 0x1000) % 0x40)
      ∷ (0x80 + (c / 0x40) % 0x40)
      ∷ (0x80 + c % 0x40)
      ∷ []

unfoldable pub utf8 : List ℕ → List ℕ
unfolding utf8_char
utf8 [] = []
utf8 (c ∷ cs) = utf8_char c ++ utf8 cs

-- `s.encode("utf-16-be")` by its 16-bit units, in order: they compare as its bytes do.
unfoldable pub utf16_units : List ℕ → List ℕ
utf16_units [] = []
utf16_units (c ∷ cs) =
    if ltb c 0x10000
    then c ∷ utf16_units cs
    else (0xD800 + (c - 0x10000) / 0x400) ∷ (0xDC00 + (c - 0x10000) % 0x400) ∷ utf16_units cs

-- The decimal digits of a number. `n + 1` rounds are enough, since each divides by ten.
unfoldable pub decimal : ℕ → ℕ → List ℕ
decimal zero n = []
decimal (suc f) n =
    let rest = decimal f (n / 10) in
    if ltb n 10 then (b'0' + n) ∷ [] else rest ++ ((b'0' + n % 10) ∷ [])

-- `b"%d" % n`
unfoldable pub show_nat : ℕ → List ℕ
unfolding decimal
show_nat n = decimal (suc n) n

-- `str(n)`
unfoldable pub show_int : ℤ → List ℕ
unfolding show_nat
show_int (pos n) = show_nat n
show_int (negsuc n) = b'-' ∷ show_nat (suc n)

unfoldable pub hex_digit : ℕ → Char
hex_digit n =
    if n == 0
    then "0"
    else if n == 1
    then "1"
    else if n == 2
    then "2"
    else if n == 3
    then "3"
    else if n == 4
    then "4"
    else if n == 5
    then "5"
    else if n == 6
    then "6"
    else if n == 7
    then "7"
    else if n == 8
    then "8"
    else if n == 9
    then "9"
    else if n == 10
    then "a"
    else if n == 11
    then "b"
    else if n == 12
    then "c"
    else if n == 13
    then "d"
    else if n == 14
    then "e"
    else "f"

-- `b.hex()`
unfoldable pub hex : List ℕ → String
unfolding hex_digit
hex [] = String.[]
hex (b ∷ bs) = String.◌∷◌ (hex_digit (b / 16)) (String.◌∷◌ (hex_digit (b % 16)) (hex bs))

hex_example : hex (0x00 ∷ 0x9a ∷ 0xff ∷ []) ≡ "009aff"
unfolding hex
hex_example = refl

show_example : show_int (negsuc 1022) ≡ codes "-1023"
unfolding show_int
show_example = refl

utf8_example :
    utf8 (0x41 ∷ 0xE9 ∷ 0x20AC ∷ 0x1F600 ∷ [])
    ≡ 0x41 ∷ 0xC3 ∷ 0xA9 ∷ 0xE2 ∷ 0x82 ∷ 0xAC ∷ 0xF0 ∷ 0x9F ∷ 0x98 ∷ 0x80 ∷ []
unfolding utf8
utf8_example = refl

utf16_example : utf16_units (0x1F600 ∷ 0xE000 ∷ []) ≡ 0xD83D ∷ 0xDE00 ∷ 0xE000 ∷ []
unfolding utf16_units
utf16_example = refl
