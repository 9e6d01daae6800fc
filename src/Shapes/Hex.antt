-- ===== src/Shapes/Hex.antt =====
-- The texts that `HEX64_RE` of packaging/run_vectors.py matches.
use aee_conformance.Base.{
  ℕ, zero, suc, String, true, List, [], ◌∷◌, ◌++◌, ◌≡◌, refl, ap, ◌∙◌, ◌⊎◌, inl, inr, ◌↔◌,
}
use aee_conformance.Base.{All, length, codes, ==_iff, &&-eq-true}
use aee_conformance.Shapes.{at_end, is_hex_lower, hex_then_end, matches_hex64}

-- Lower-case hexadecimal digits, `n` of them, and no more than a newline after them.
abbrev pub IsHexLine : ℕ → List ℕ → Type 0
IsHexLine n cs =
    (ds : List ℕ) × (length ds ≡ n)
    × All (λ d. is_hex_lower d ≡ true) ds
    × ((cs ≡ ds) ⊎ (cs ≡ ds ++ (0x0A ∷ [])))

at_end-line : (cs : List ℕ) → at_end cs ≡ true → (cs ≡ []) ⊎ (cs ≡ 0x0A ∷ [])
at_end-line [] h = inl refl
at_end-line (c ∷ []) h = inr (ap (λ (x : ℕ). x ∷ []) ((==_iff c 0x0A).0 h))
at_end-line (c ∷ d ∷ cs) h = cc

longer :
    (c : ℕ) (n : ℕ) (cs : List ℕ)
    → is_hex_lower c ≡ true
    → IsHexLine n cs
    → IsHexLine (suc n) (c ∷ cs)
longer c n cs hex (ds, len, digits, inl e) =
    (c ∷ ds, ap suc len, (hex, digits), inl (ap (λ (xs : List ℕ). c ∷ xs) e))
longer c n cs hex (ds, len, digits, inr e) =
    (c ∷ ds, ap suc len, (hex, digits), inr (ap (λ (xs : List ℕ). c ∷ xs) e))

hex_then_end-IsHexLine : (n : ℕ) (cs : List ℕ) → hex_then_end n cs ≡ true → IsHexLine n cs
unfolding hex_then_end
hex_then_end-IsHexLine zero cs h = ([], refl, tt, at_end-line cs h)
hex_then_end-IsHexLine (suc n) [] h = cc
hex_then_end-IsHexLine (suc n) (c ∷ cs) h =
    let both = &&-eq-true (is_hex_lower c) (hex_then_end n cs) h in
    longer c n cs both.0 (hex_then_end-IsHexLine n cs both.1)

digits_then :
    (ds rest : List ℕ)
    → All (λ d. is_hex_lower d ≡ true) ds
    → at_end rest ≡ true
    → hex_then_end (length ds) (ds ++ rest) ≡ true
unfolding hex_then_end
digits_then [] rest h e = e
digits_then (d ∷ ds) rest h e = rw (h.0, digits_then ds rest h.1 e) refl

nothing_after : (ds : List ℕ) → ds ≡ ds ++ []
nothing_after [] = refl
nothing_after (d ∷ ds) = ap (λ (xs : List ℕ). d ∷ xs) (nothing_after ds)

IsHexLine-hex_then_end : (n : ℕ) (cs : List ℕ) → IsHexLine n cs → hex_then_end n cs ≡ true
IsHexLine-hex_then_end n cs (ds, len, digits, inl e) =
    rw (← len, e ∙ nothing_after ds) (digits_then ds [] digits refl)
IsHexLine-hex_then_end n cs (ds, len, digits, inr e) =
    rw (← len, e) (digits_then ds (0x0A ∷ []) digits refl)

-- A text is taken for a digest exactly when it is 64 lower-case hexadecimal digits, or these and a newline.
pub matches_hex64_iff : (s : String) → (matches_hex64 s ≡ true) ↔ IsHexLine 64 (codes s)
unfolding matches_hex64
matches_hex64_iff s = (hex_then_end-IsHexLine 64 (codes s), IsHexLine-hex_then_end 64 (codes s))
