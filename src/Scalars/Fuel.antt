-- ===== src/Scalars/Fuel.antt =====
-- Fuel and bounds of the loops over the bytes of a JSON text in packaging/run_vectors.py.
use aee_conformance.Base.{
  ℕ, zero, suc, ◌+◌, ◌-◌, ◌≤◌, ◌<◌, Bool, true, false, not, Option, none, some, List, [], ◌∷◌, ◌≡◌,
  refl, sym, ap, ◌∙◌,
}
use aee_conformance.Base.{
  length, get_elem?, take, drop, arith, ◌==◌, ◌||◌, ltb, list_eq, if◌then◌else◌,
}
use aee_conformance.Scalars.{
  check_low, check_surrogate_pair, check_unit, check_escape, check_sequence, hex4, utf8_seq_len,
  decode_sequence, is_noncharacter, literal_step, literal_loop, check_string_literal, scalars_loop,
  check_string_scalars,
}

suc_first : (f extra : ℕ) → suc f + extra ≡ suc (f + extra)
suc_first f extra = omega arith

get_elem-past : (b : List ℕ) (i : ℕ) → length b ≤ i → get_elem? b i ≡ none
get_elem-past [] i h = refl
get_elem-past (x ∷ xs) zero h = absurd (omega arith)
get_elem-past (x ∷ xs) (suc i) h = get_elem-past xs i (omega arith)

get_elem-inside : (b : List ℕ) (i : ℕ) {c : ℕ} → get_elem? b i ≡ some c → i < length b
get_elem-inside [] i h = cc
get_elem-inside (x ∷ xs) zero h = omega arith
get_elem-inside (x ∷ xs) (suc i) h = let below = get_elem-inside xs i h in omega arith

-- One round of the loop in a literal.
abbrev literal_round : ℕ → List ℕ → ℕ → Option ℕ → Option ℕ
literal_round f b i none = none
literal_round f b i (some c) = elim (literal_step c (drop i b)) [
  | none ↦ none
  | some zero ↦ some (i + 1)
  | some (suc n) ↦ literal_loop f b (i + suc n)
]

literal_unroll :
    (f : ℕ) (b : List ℕ) (i : ℕ) → literal_loop (suc f) b i ≡ literal_round f b i (get_elem? b i)
unfolding literal_loop
literal_unroll f b i = byte (get_elem? b i)
  where
    byte :
        (o : Option ℕ)
        → elim o [
          | none ↦ none
          | some c ↦ elim (literal_step c (drop i b)) [
            | none ↦ none
            | some zero ↦ some (i + 1)
            | some (suc n) ↦ literal_loop f b (i + suc n)
          ]
        ]
          ≡ literal_round f b i o
    byte none = refl
    byte (some c) = refl

literal_ended : (f : ℕ) (b : List ℕ) (i : ℕ) → length b ≤ i → literal_loop f b i ≡ none
unfolding literal_loop
literal_ended zero b i h = refl
literal_ended (suc f) b i h = rw (literal_loop, get_elem-past b i h) refl

literal_ended_zero : (b : List ℕ) (i : ℕ) → literal_loop zero b i ≡ none
unfolding literal_loop
literal_ended_zero b i = refl

literal_more :
    (f extra : ℕ) (b : List ℕ) (i : ℕ) (o : Option ℕ)
    → ((n : ℕ) → literal_loop (f + extra) b (i + suc n) ≡ literal_loop f b (i + suc n))
    → elim o [
      | none ↦ none
      | some zero ↦ some (i + 1)
      | some (suc n) ↦ literal_loop (f + extra) b (i + suc n)
    ]
      ≡ elim o [
        | none ↦ none
        | some zero ↦ some (i + 1)
        | some (suc n) ↦ literal_loop f b (i + suc n)
      ]
literal_more f extra b i none ih = refl
literal_more f extra b i (some zero) ih = refl
literal_more f extra b i (some (suc n)) ih = ih n

literal_round_more :
    (f extra : ℕ) (b : List ℕ) (i : ℕ) (o : Option ℕ)
    → ((n : ℕ) → literal_loop (f + extra) b (i + suc n) ≡ literal_loop f b (i + suc n))
    → literal_round (f + extra) b i o ≡ literal_round f b i o
literal_round_more f extra b i none ih = refl
literal_round_more f extra b i (some c) ih = literal_more f extra b i (literal_step c (drop i b)) ih

-- Where the fuel covers the rest of the bytes, more fuel changes nothing.
literal_loop_fuel :
    (f extra : ℕ) (b : List ℕ) (i : ℕ)
    → length b ≤ i + f
    → literal_loop (f + extra) b i ≡ literal_loop f b i
literal_loop_fuel zero extra b i h =
    literal_ended (0 + extra) b i (omega arith) ∙ sym (literal_ended zero b i (omega arith))
literal_loop_fuel (suc f) extra b i h =
    ap (λ (t : ℕ). literal_loop t b i) (suc_first f extra)
    ∙ literal_unroll (f + extra) b i
    ∙ literal_round_more f extra b i (get_elem? b i)
        (λ n. literal_loop_fuel f extra b (i + suc n) (omega arith))
    ∙ sym (literal_unroll f b i)

some-injective : {m n : ℕ} → some m ≡ some n → m ≡ n
some-injective h = cc

-- No escape and no sequence of bytes is a step of 0 bytes.
low_moves : (hi lo : ℕ) → check_low hi lo ≡ some zero → ⊥
unfolding check_low
low_moves hi lo h = ground arith

pair_moves : (b : List ℕ) (hi : ℕ) → check_surrogate_pair b hi ≡ some zero → ⊥
unfolding check_surrogate_pair
pair_moves b hi h =
    split (ltb (length b) 12 || not (list_eq (take 2 (drop 6 b)) (0x5C ∷ b'u' ∷ [])))
      (hex4 (drop 8 b)) h
  where
    split :
        (a : Bool) (o : Option ℕ)
        → (if a then none else elim o [ none ↦ none | some lo ↦ check_low hi lo ]) ≡ some zero
        → ⊥
    split true o e = cc
    split false none e = cc
    split false (some lo) e = low_moves hi lo e

unit_moves : (b : List ℕ) (hi : ℕ) → check_unit b hi ≡ some zero → ⊥
unfolding check_unit
unit_moves b hi h = ground (arith, pair_moves b hi)

escape_moves : (b : List ℕ) → check_escape b ≡ some zero → ⊥
unfolding check_escape
escape_moves b h =
    split (ltb (length b) 2) (not (list_eq (take 1 (drop 1 b)) (b'u' ∷ []))) (hex4 (drop 2 b)) h
  where
    split :
        (a d : Bool) (o : Option ℕ)
        → (if a
            then none
            else if d
            then some 2
            else elim o [ none ↦ none | some hi ↦ check_unit b hi ])
          ≡ some zero
        → ⊥
    split true d o e = cc
    split false true o e = cc
    split false false none e = cc
    split false false (some hi) e = unit_moves b hi e

sequence_moves : (c : ℕ) (rest : List ℕ) → check_sequence c rest ≡ some zero → ⊥
unfolding check_sequence
sequence_moves c rest h =
    split (utf8_seq_len c) (ltb (length rest) (utf8_seq_len c))
      (decode_sequence (take (utf8_seq_len c) rest)) h
  where
    split :
        (n : ℕ) (short : Bool) (o : Option ℕ)
        → (if (n == 0) || short
            then none
            else elim o [ none ↦ none | some cp ↦ if is_noncharacter cp then none else some n ])
          ≡ some zero
        → ⊥
    split n short none e = ground arith
    split n short (some cp) e = ground arith

-- The step that ends a literal is at a quote.
literal_step-closing : (c : ℕ) (rest : List ℕ) → literal_step c rest ≡ some zero → c ≡ 0x22
unfolding literal_step
literal_step-closing c rest h = ground (arith, escape_moves rest, sequence_moves c rest)

-- The end of a literal: after position `i`, inside the bytes, and behind a quote.
abbrev IsEnd : List ℕ → ℕ → ℕ → Type 0
IsEnd b i n = (i < n) × (n ≤ length b) × (get_elem? b (n - 1) ≡ some 0x22)

behind : (i : ℕ) → (i + 1) - 1 ≡ i
behind i = omega arith

literal_step_bounds :
    (f : ℕ) (b : List ℕ) (i c : ℕ) (o : Option ℕ) {n : ℕ}
    → get_elem? b i ≡ some c
    → (o ≡ some zero → c ≡ 0x22)
    → ((k m : ℕ) → literal_loop f b (i + suc k) ≡ some m → IsEnd b (i + suc k) m)
    → elim o [
      | none ↦ none
      | some zero ↦ some (i + 1)
      | some (suc k) ↦ literal_loop f b (i + suc k)
    ]
      ≡ some n
    → IsEnd b i n
literal_step_bounds f b i c none e closed ih h = cc
literal_step_bounds f b i c (some zero) e closed ih h =
    let below = get_elem-inside b i e in
    rw (← some-injective h)
      (omega arith, omega arith, ap (get_elem? b) (behind i) ∙ e ∙ ap some (closed refl))
literal_step_bounds f b i c (some (suc k)) e closed ih h =
    let (low, high, quoted) = ih k _ h in (omega arith, high, quoted)

literal_round_bounds :
    (f : ℕ) (b : List ℕ) (i : ℕ) (o : Option ℕ) {n : ℕ}
    → get_elem? b i ≡ o
    → ((k m : ℕ) → literal_loop f b (i + suc k) ≡ some m → IsEnd b (i + suc k) m)
    → literal_round f b i o ≡ some n
    → IsEnd b i n
literal_round_bounds f b i none e ih h = cc
literal_round_bounds f b i (some c) e ih h =
    literal_step_bounds f b i c (literal_step c (drop i b)) e (literal_step-closing c (drop i b)) ih
      h

literal_bounds : (f : ℕ) (b : List ℕ) (i n : ℕ) → literal_loop f b i ≡ some n → IsEnd b i n
literal_bounds zero b i n h = absurd (no_fuel h)
  where
    no_fuel : literal_loop zero b i ≡ some n → ⊥
    no_fuel q = cc (literal_ended_zero b i, q)
literal_bounds (suc f) b i n h =
    literal_round_bounds f b i (get_elem? b i) refl (λ k m. literal_bounds f b (i + suc k) m)
      (sym (literal_unroll f b i) ∙ h)

-- A string literal that is scanned without an error ends inside the bytes, behind the byte at which the
-- scan begins, and the last byte of it is a quote.
pub check_string_literal_bounds :
    (b : List ℕ) (n : ℕ)
    → check_string_literal b ≡ some n
    → (2 ≤ n) × (n ≤ length b) × (get_elem? b (n - 1) ≡ some 0x22)
unfolding check_string_literal
check_string_literal_bounds b n h =
    let (low, high, quoted) = literal_bounds (length b) b 1 n h in (omega arith, high, quoted)

abbrev scalars_round : ℕ → List ℕ → ℕ → Option ℕ → Bool
scalars_round f raw i none = true
scalars_round f raw i (some c) = elim (not (c == 0x22)) [
  | true ↦ scalars_loop f raw (i + 1)
  | false ↦ elim (check_string_literal (drop i raw)) [
    | none ↦ false
    | some n ↦ scalars_loop f raw (i + n)
  ]
]

scalars_unroll :
    (f : ℕ) (raw : List ℕ) (i : ℕ)
    → scalars_loop (suc f) raw i ≡ scalars_round f raw i (get_elem? raw i)
unfolding scalars_loop
scalars_unroll f raw i = byte (get_elem? raw i)
  where
    byte :
        (o : Option ℕ)
        → elim o [
          | none ↦ true
          | some c ↦ elim (not (c == 0x22)) [
            | true ↦ scalars_loop f raw (i + 1)
            | false ↦ elim (check_string_literal (drop i raw)) [
              | none ↦ false
              | some n ↦ scalars_loop f raw (i + n)
            ]
          ]
        ]
          ≡ scalars_round f raw i o
    byte none = refl
    byte (some c) = refl

scalars_ended : (f : ℕ) (raw : List ℕ) (i : ℕ) → length raw ≤ i → scalars_loop f raw i ≡ true
unfolding scalars_loop
scalars_ended zero raw i h = ground arith
scalars_ended (suc f) raw i h = rw (scalars_loop, get_elem-past raw i h) refl

scalars_span :
    (f extra : ℕ) (raw : List ℕ) (i : ℕ) (o : Option ℕ)
    → check_string_literal (drop i raw) ≡ o
    → ((n : ℕ) → 1 ≤ n → scalars_loop (f + extra) raw (i + n) ≡ scalars_loop f raw (i + n))
    → elim o [ none ↦ false | some n ↦ scalars_loop (f + extra) raw (i + n) ]
      ≡ elim o [ none ↦ false | some n ↦ scalars_loop f raw (i + n) ]
scalars_span f extra raw i none e ih = refl
scalars_span f extra raw i (some n) e ih =
    let (low, high, quoted) = check_string_literal_bounds (drop i raw) n e in ih n (omega arith)

scalars_round_more :
    (f extra : ℕ) (raw : List ℕ) (i : ℕ) (o : Option ℕ)
    → ((n : ℕ) → 1 ≤ n → scalars_loop (f + extra) raw (i + n) ≡ scalars_loop f raw (i + n))
    → scalars_round (f + extra) raw i o ≡ scalars_round f raw i o
scalars_round_more f extra raw i none ih = refl
scalars_round_more f extra raw i (some c) ih = quote (not (c == 0x22))
  where
    quote :
        (b : Bool)
        → elim b [
          | true ↦ scalars_loop (f + extra) raw (i + 1)
          | false ↦ elim (check_string_literal (drop i raw)) [
            | none ↦ false
            | some n ↦ scalars_loop (f + extra) raw (i + n)
          ]
        ]
          ≡ elim b [
            | true ↦ scalars_loop f raw (i + 1)
            | false ↦ elim (check_string_literal (drop i raw)) [
              | none ↦ false
              | some n ↦ scalars_loop f raw (i + n)
            ]
          ]
    quote true = ih 1 (omega arith)
    quote false = scalars_span f extra raw i (check_string_literal (drop i raw)) refl ih

scalars_loop_fuel :
    (f extra : ℕ) (raw : List ℕ) (i : ℕ)
    → length raw ≤ i + f
    → scalars_loop (f + extra) raw i ≡ scalars_loop f raw i
scalars_loop_fuel zero extra raw i h =
    scalars_ended (0 + extra) raw i (omega arith) ∙ sym (scalars_ended zero raw i (omega arith))
scalars_loop_fuel (suc f) extra raw i h =
    ap (λ (t : ℕ). scalars_loop t raw i) (suc_first f extra)
    ∙ scalars_unroll (f + extra) raw i
    ∙ scalars_round_more f extra raw i (get_elem? raw i)
        (λ n pos. scalars_loop_fuel f extra raw (i + n) (omega arith))
    ∙ sym (scalars_unroll f raw i)

-- The length of a text is fuel enough for its scan, and so it is for each literal in it: with more fuel
-- the scan of the text, and of any bytes as a literal, give the same.
pub check_string_scalars_fuel :
    (raw : List ℕ) (extra : ℕ)
    → (scalars_loop (length raw + extra) raw 0 ≡ check_string_scalars raw)
      × (literal_loop (length raw + extra) raw 1 ≡ check_string_literal raw)
unfolding check_string_scalars check_string_literal
check_string_scalars_fuel raw extra = (
  scalars_loop_fuel (length raw) extra raw 0 (omega arith),
  literal_loop_fuel (length raw) extra raw 1 (omega arith),
)
