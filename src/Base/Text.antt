-- ===== src/Base/Text.antt =====
-- Python's `str` as the native text, and its code points.
use Prim.Native.Nat.{ℕ}
use Prim.Native.Char.{code}
use Prim.Native.String.{String}
use mathlib.Core.Path.{◌≡◌, refl}
use mathlib.Core.Bool.{Bool, true, false, ◌&&◌, ◌||◌}
use mathlib.Core.List.{List, [], ◌∷◌, reverse}
use text.Mathlib.TextPositions.{eq_refl}
use native.Mathlib.Omega.{arith}
use aee_conformance.Base.Tests.{◌==◌}
pub use text.Mathlib.Text.{◌==◌ as str_eq}
pub use text.Mathlib.TextEquality.{eq_iff}

-- `[ord(ch) for ch in s]`
abbrev pub codes : String → List ℕ
codes String.[] = []
codes (String.◌∷◌ c s) = code c ∷ codes s

-- `a == b` on sequences of numbers: bytes, or code points.
abbrev pub list_eq : List ℕ → List ℕ → Bool
list_eq [] [] = true
list_eq (x ∷ xs) (y ∷ ys) = (x == y) && list_eq xs ys
list_eq _ _ = false

abbrev pub list_starts_with : List ℕ → List ℕ → Bool
list_starts_with _ [] = true
list_starts_with [] (_ ∷ _) = false
list_starts_with (x ∷ xs) (y ∷ ys) = (x == y) && list_starts_with xs ys

-- `s.endswith(t)`
abbrev pub ends_with : String → String → Bool
ends_with s t = list_starts_with (reverse (codes s)) (reverse (codes t))

-- `x in xs` on a list of texts.
abbrev pub mem_str : String → List String → Bool
mem_str s [] = false
mem_str s (t ∷ ts) = str_eq s t || mem_str s ts

pub str_eq_refl : (s : String) → str_eq s s ≡ true
str_eq_refl s = eq_refl s

pub list_eq→eq : (xs ys : List ℕ) → list_eq xs ys ≡ true → xs ≡ ys
list_eq→eq [] [] h = refl
list_eq→eq [] (y ∷ ys) h = ground (arith)
list_eq→eq (x ∷ xs) [] h = ground (arith)
list_eq→eq (x ∷ xs) (y ∷ ys) h = ground (arith, list_eq→eq xs ys)
