-- ===== src/Py/Bytes/Laws.antt =====
-- Reading back decimal and hexadecimal text.
use Prim.Native.Char.{code}
use aee_conformance.Base.{ℕ, zero, suc, ◌+◌, ◌-◌, ◌*◌, ◌/◌, ◌%◌, ◌≤◌, ◌<◌, List, [], ◌∷◌, ◌++◌}
use aee_conformance.Base.{All, ltb, if◌then◌else◌, ◌≡◌, refl, ap, sym, ◌∙◌, arith, length, inl, inr}
use aee_conformance.Base.{&&-eq-true, Bool-cases, Bool, true, ◌&&◌, ◌==◌, ==_iff, codes}
use aee_conformance.Py.Bytes.{decimal, show_nat, hex_digit, hex}

-- The number that digits stand for, read from the left.
read_onto : ℕ → List ℕ → ℕ
read_onto acc [] = acc
read_onto acc (d ∷ ds) = read_onto (acc * 10 + (d - b'0')) ds

read_onto-append :
    (acc : ℕ) (ds : List ℕ) (d : ℕ)
    → read_onto acc (ds ++ (d ∷ [])) ≡ read_onto acc ds * 10 + (d - b'0')
unfolding read_onto
read_onto-append acc [] d = refl
read_onto-append acc (e ∷ ds) d = read_onto-append (acc * 10 + (e - b'0')) ds d

read-decimal : (f n : ℕ) → n < f → read_onto 0 (decimal f n) ≡ n
unfolding decimal read_onto
read-decimal zero n h = elim h [ ]
read-decimal (suc f) n h = elim (Bool-cases (ltb n 10)) [
  | inl small ↦ rw small (omega arith)
  | inr big ↦ rw (big, read_onto-append) (ground (arith, read-decimal f (n / 10)))
]

abbrev pub IsDigit : ℕ → Type 0
IsDigit d = b'0' ≤ d

decimal-IsDigit : (f n : ℕ) → All IsDigit (decimal f n)
unfolding decimal
decimal-IsDigit zero n = tt
decimal-IsDigit (suc f) n = elim (Bool-cases (ltb n 10)) [
  | inl small ↦ rw small (omega arith)
  | inr big ↦ rw big (All-append_one (decimal f (n / 10)) (decimal-IsDigit f (n / 10)))
]
  where
    All-append_one : (ds : List ℕ) → All IsDigit ds → All IsDigit (ds ++ ((b'0' + n % 10) ∷ []))
    All-append_one [] h = (omega arith, tt)
    All-append_one (d ∷ ds) h = (h.0, All-append_one ds h.1)

pub show_nat-injective : (m n : ℕ) → show_nat m ≡ show_nat n → m ≡ n
unfolding show_nat
show_nat-injective m n h =
    sym (read-decimal (suc m) m (omega arith))
    ∙ ap (read_onto 0) h
    ∙ read-decimal (suc n) n (omega arith)

-- A run of digits ends at the first space.
digits_end :
    (ds es : List ℕ) {xs ys : List ℕ}
    → All IsDigit ds
    → All IsDigit es
    → ds ++ (b' ' ∷ xs) ≡ es ++ (b' ' ∷ ys)
    → (ds ≡ es) × (xs ≡ ys)
digits_end [] [] hd he h = (refl, cc)
digits_end [] (e ∷ es) hd he h = absurd (ground (arith))
digits_end (d ∷ ds) [] hd he h = absurd (ground (arith))
digits_end (d ∷ ds) (e ∷ es) hd he h = let k = digits_end ds es hd.1 he.1 (cc) in (cc k.0, k.1)

-- A number and the space behind it determine one another.
pub show_nat_field :
    (m n : ℕ) {xs ys : List ℕ}
    → show_nat m ++ (b' ' ∷ xs) ≡ show_nat n ++ (b' ' ∷ ys)
    → (m ≡ n) × (xs ≡ ys)
unfolding show_nat
show_nat_field m n h =
    let k =
      digits_end (show_nat m) (show_nat n) (decimal-IsDigit (suc m) m) (decimal-IsDigit (suc n) n)
        h in
    (show_nat-injective m n k.0, k.1)

-- Equal lists whose heads are as long split alike.
pub append_inj {ℓ} :
    {A : Type ℓ} (us vs : List A) {xs ys : List A}
    → length us ≡ length vs
    → us ++ xs ≡ vs ++ ys
    → (us ≡ vs) × (xs ≡ ys)
append_inj [] [] l h = (refl, h)
append_inj [] (b ∷ vs) l h = absurd (omega arith)
append_inj (a ∷ us) [] l h = absurd (omega arith)
append_inj (a ∷ us) (b ∷ vs) l h = let k = append_inj us vs (omega arith) (cc) in (cc k.0, k.1)

-- The digit pair of a byte gives the byte back.
nibble : ℕ → ℕ
nibble c = if ltb c 0x3A then c - 0x30 else c - 0x57

-- Whether `p` holds of the `n` numbers from `k` on.
holds_on : (ℕ → Bool) → ℕ → ℕ → Bool
holds_on p k zero = true
holds_on p k (suc n) = p k && holds_on p (suc k) n

holds_on_at : (p : ℕ → Bool) (k n x : ℕ) → k ≤ x → x < k + n → holds_on p k n ≡ true → p x ≡ true
unfolding holds_on
holds_on_at p k zero x low high h = absurd (omega arith)
holds_on_at p k (suc n) x low high h = elim (Bool-cases (k == x)) [
  | inl here ↦ rw (← (==_iff k x).0 here) (&&-eq-true (p k) (holds_on p (suc k) n) h).0
  | inr later ↦
      holds_on_at p (suc k) n x (ground arith) (omega arith)
        (&&-eq-true (p k) (holds_on p (suc k) n) h).1
]

nibble_table : holds_on (λ n. nibble (code (hex_digit n)) == n) 0 16 ≡ true
unfolding holds_on nibble hex_digit
nibble_table = refl

nibble-hex_digit : (n : ℕ) → n < 16 → nibble (code (hex_digit n)) ≡ n
nibble-hex_digit n h = (==_iff _ n).0 (holds_on_at _ 0 16 n (omega arith) h nibble_table)

abbrev pub IsByte : ℕ → Type 0
IsByte b = b < 256

hex_digit-injective : (m n : ℕ) → m < 16 → n < 16 → code (hex_digit m) ≡ code (hex_digit n) → m ≡ n
hex_digit-injective m n hm hn e = sym (nibble-hex_digit m hm) ∙ ap nibble e ∙ nibble-hex_digit n hn

hex_codes-injective :
    (xs ys : List ℕ) → All IsByte xs → All IsByte ys → codes (hex xs) ≡ codes (hex ys) → xs ≡ ys
unfolding hex
hex_codes-injective [] [] hx hy e = refl
hex_codes-injective [] (y ∷ ys) hx hy e = cc
hex_codes-injective (x ∷ xs) [] hx hy e = cc
hex_codes-injective (x ∷ xs) (y ∷ ys) (bx, hx) (by, hy) e =
    let hi = hex_digit-injective (x / 16) (y / 16) (omega arith) (omega arith) (cc) in
    let lo = hex_digit-injective (x % 16) (y % 16) (omega arith) (omega arith) (cc) in
    let rest = hex_codes-injective xs ys hx hy (cc) in let same : x ≡ y = omega arith in cc

-- Hexadecimal text determines its bytes.
pub hex-injective : (xs ys : List ℕ) → All IsByte xs → All IsByte ys → hex xs ≡ hex ys → xs ≡ ys
hex-injective xs ys hx hy e = hex_codes-injective xs ys hx hy (ap codes e)
