-- ===== src/Jcs/Order.antt =====
-- The order of member names in packaging/run_vectors.py, and the sort by it.
use aee_conformance.Base.{
  ℕ, String, true, false, ◌||◌, List, [], ◌∷◌, ◌≡◌, refl, sym, ap, ◌∙◌, inl, inr,
}
use aee_conformance.Base.{arith, Bool-cases}
use aee_conformance.Jcs.{lex_lt, utf16_sort_key, key_lt, insert_entry, sort_entries}

lex_lt_asymm : (xs ys : List ℕ) → lex_lt xs ys ≡ true → lex_lt ys xs ≡ false
unfolding lex_lt
lex_lt_asymm [] [] h = refl
lex_lt_asymm [] (y ∷ ys) h = refl
lex_lt_asymm (x ∷ xs) [] h = cc
lex_lt_asymm (x ∷ xs) (y ∷ ys) h = ground (arith, lex_lt_asymm xs ys)

lex_lt_trans : (xs ys zs : List ℕ) → lex_lt xs ys ≡ true → lex_lt ys zs ≡ true → lex_lt xs zs ≡ true
unfolding lex_lt
lex_lt_trans [] [] [] h k = h
lex_lt_trans [] (y ∷ ys) [] h k = k
lex_lt_trans [] ys (z ∷ zs) h k = refl
lex_lt_trans (x ∷ xs) [] zs h k = cc
lex_lt_trans (x ∷ xs) (y ∷ ys) [] h k = cc
lex_lt_trans (x ∷ xs) (y ∷ ys) (z ∷ zs) h k = ground (arith, lex_lt_trans xs ys zs)

key_lt_asymm : (s t : String) → key_lt s t ≡ true → key_lt t s ≡ false
unfolding key_lt
key_lt_asymm s t h = lex_lt_asymm (utf16_sort_key s) (utf16_sort_key t) h

key_lt_trans : (s t u : String) → key_lt s t ≡ true → key_lt t u ≡ true → key_lt s u ≡ true
unfolding key_lt
key_lt_trans s t u h k = lex_lt_trans (utf16_sort_key s) (utf16_sort_key t) (utf16_sort_key u) h k

module _ {A : Type 0} where
  insert_past :
      (e x : String × A) (es : List (String × A))
      → key_lt x.0 e.0 ≡ true
      → insert_entry e (x ∷ es) ≡ x ∷ insert_entry e es
  unfolding insert_entry
  insert_past e x es h = rw h refl

  insert_here :
      (e x : String × A) (es : List (String × A))
      → key_lt x.0 e.0 ≡ false
      → insert_entry e (x ∷ es) ≡ e ∷ x ∷ es
  unfolding insert_entry
  insert_here e x es h = rw h refl

  insert_single :
      (e f : String × A) → key_lt e.0 f.0 ≡ true → insert_entry e (f ∷ []) ≡ insert_entry f (e ∷ [])
  unfolding insert_entry
  insert_single e f h = rw (key_lt_asymm e.0 f.0 h, h) refl

  insert_nil : (e : String × A) → insert_entry e [] ≡ e ∷ []
  unfolding insert_entry
  insert_nil e = refl

  insert_less :
      (e f : String × A) (es : List (String × A))
      → key_lt e.0 f.0 ≡ true
      → insert_entry e (insert_entry f es) ≡ insert_entry f (insert_entry e es)
  insert_less e f [] h =
      ap (insert_entry e) (insert_nil f)
      ∙ insert_single e f h
      ∙ sym (ap (insert_entry f) (insert_nil e))
  insert_less e f (x ∷ es) h = elim (Bool-cases (key_lt x.0 e.0)) [
    | inl below ↦
        (let passed = key_lt_trans x.0 e.0 f.0 below h in
          ap (insert_entry e) (insert_past f x es passed)
          ∙ insert_past e x (insert_entry f es) below
          ∙ ap (λ (t : List (String × A)). x ∷ t) (insert_less e f es h)
          ∙ sym (insert_past f x (insert_entry e es) passed)
          ∙ sym (ap (insert_entry f) (insert_past e x es below)))
    | inr above ↦ elim (Bool-cases (key_lt x.0 f.0)) [
      | inl between ↦
          ap (insert_entry e) (insert_past f x es between)
          ∙ insert_here e x (insert_entry f es) above
          ∙ sym (
              ap (insert_entry f) (insert_here e x es above)
              ∙ insert_past f e (x ∷ es) h
              ∙ ap (λ (t : List (String × A)). e ∷ t) (insert_past f x es between))
      | inr beyond ↦
          ap (insert_entry e) (insert_here f x es beyond)
          ∙ insert_here e f (x ∷ es) (key_lt_asymm e.0 f.0 h)
          ∙ sym (
              ap (insert_entry f) (insert_here e x es above)
              ∙ insert_past f e (x ∷ es) h
              ∙ ap (λ (t : List (String × A)). e ∷ t) (insert_here f x es beyond))
    ]
  ]

  -- Two entries whose names are apart can be inserted in either order.
  pub insert_swap :
      (e f : String × A) (es : List (String × A))
      → key_lt e.0 f.0 || key_lt f.0 e.0 ≡ true
      → insert_entry e (insert_entry f es) ≡ insert_entry f (insert_entry e es)
  insert_swap e f es h = elim (Bool-cases (key_lt e.0 f.0)) [
    | inl less ↦ insert_less e f es less
    | inr more ↦ sym (insert_less f e es (ground arith))
  ]

  pub sort_cons :
      (e : String × A) (es : List (String × A))
      → sort_entries (e ∷ es) ≡ insert_entry e (sort_entries es)
  unfolding sort_entries
  sort_cons e es = refl
