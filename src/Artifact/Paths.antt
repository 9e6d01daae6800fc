-- ===== src/Artifact/Paths.antt =====
-- What the test of a declared path in tools/artifact-binding/verify.py lets through: the text of the path
-- alone. It follows no link and reads no directory.
use aee_conformance.Base.{
  ℕ, String, Bool, true, false, ◌||◌, ◌&&◌, List, [], ◌∷◌, ◌++◌, ◌≡◌, ◌≢◌, refl, sym, ap, ◌∙◌,
}
use aee_conformance.Base.{All, codes, list_eq, ◌==◌, arith, if◌then◌else◌}
use aee_conformance.Py.Value.{Value, Fields, str, obj, get}
use aee_conformance.Artifact.Verify.{has_parent, starts_with_slash, is_unsafe, is_incomplete}

-- The parts of a path, joined by slashes.
abbrev pub joined : List ℕ → List (List ℕ) → List ℕ
joined part [] = part
joined part (next ∷ rest) = part ++ (0x2F ∷ joined next rest)

-- A part of a path has no slash and is not the one that leads to the parent directory.
abbrev pub IsPart : List ℕ → Type 0
IsPart part = All (λ c. c ≢ 0x2F) part × (part ≢ 0x2E ∷ 0x2E ∷ [])

-- The path is of such parts, and the first of them is empty only when the whole path is.
abbrev pub IsBelow : String → Type 0
IsBelow rel =
    (first : List ℕ) × (rest : List (List ℕ)) × (codes rel ≡ joined first rest)
    × IsPart first
    × All IsPart rest
    × (first ≡ [] → rest ≡ [])

or_false : (a b : Bool) → a || b ≡ false → (a ≡ false) × (b ≡ false)
or_false a b h = ground arith

list_eq_refl : (xs : List ℕ) → list_eq xs xs ≡ true
list_eq_refl [] = refl
list_eq_refl (x ∷ xs) = rw (list_eq_refl xs) (same x)
  where
    same : (x : ℕ) → (x == x) && true ≡ true
    same x = ground arith

not_parent : (part : List ℕ) → list_eq part (codes "..") ≡ false → part ≢ 0x2E ∷ 0x2E ∷ []
not_parent part h e = bad (rw e at h)
  where
    bad : true ≡ false → ⊥
    bad q = cc

append_one : (xs : List ℕ) (y : ℕ) (ys : List ℕ) → (xs ++ (y ∷ [])) ++ ys ≡ xs ++ (y ∷ ys)
append_one [] y ys = refl
append_one (x ∷ xs) y ys = ap (λ (t : List ℕ). x ∷ t) (append_one xs y ys)

all_one :
    (xs : List ℕ) (y : ℕ) → All (λ c. c ≢ 0x2F) xs → y ≢ 0x2F → All (λ c. c ≢ 0x2F) (xs ++ (y ∷ []))
all_one [] y h n = (n, tt)
all_one (x ∷ xs) y h n = (h.0, all_one xs y h.1 n)

abbrev IsSlash : ℕ → Bool → Type 0
IsSlash c true = c ≡ 0x2F
IsSlash c false = c ≢ 0x2F

slash : (c : ℕ) (b : Bool) → (c == 0x2F) ≡ b → IsSlash c b
slash c true h = ground arith
slash c false h = λ e. ground arith

-- The parts of a text of which the first is read up to `part`.
has_parent-parts :
    (part cs : List ℕ)
    → All (λ c. c ≢ 0x2F) part
    → has_parent part cs ≡ false
    → (first : List ℕ) × (rest : List (List ℕ)) × (part ++ cs ≡ joined first rest)
      × IsPart first
      × All IsPart rest
unfolding has_parent
has_parent-parts part [] plain h = (part, [], append_nil part, (plain, not_parent part h), tt)
  where
    append_nil : (xs : List ℕ) → xs ++ [] ≡ xs
    append_nil [] = refl
    append_nil (x ∷ xs) = ap (λ (t : List ℕ). x ∷ t) (append_nil xs)
has_parent-parts part (c ∷ cs) plain h =
    split (c == 0x2F) (slash c (c == 0x2F) refl) h (has_parent-parts [] cs tt)
      (λ n. has_parent-parts (part ++ (c ∷ [])) cs (all_one part c plain n))
  where
    split :
        (b : Bool)
        → IsSlash c b
        → (if b
            then list_eq part (codes "..") || has_parent [] cs
            else has_parent (part ++ (c ∷ [])) cs)
          ≡ false
        → (has_parent [] cs ≡ false
            → (first : List ℕ) × (rest : List (List ℕ)) × (cs ≡ joined first rest)
              × IsPart first
              × All IsPart rest)
        → (c ≢ 0x2F
            → has_parent (part ++ (c ∷ [])) cs ≡ false
            → (first : List ℕ) × (rest : List (List ℕ)) × ((part ++ (c ∷ [])) ++ cs
                ≡ joined first rest)
              × IsPart first
              × All IsPart rest)
        → (first : List ℕ) × (rest : List (List ℕ)) × (part ++ (c ∷ cs) ≡ joined first rest)
          × IsPart first
          × All IsPart rest
    split true is h next longer =
        let (a, b) = or_false (list_eq part (codes "..")) (has_parent [] cs) h in
        let (first, rest, e, good, goods) = next b in
        (
          part,
          first ∷ rest,
          ap (λ (d : ℕ). part ++ (d ∷ cs)) is ∙ ap (λ (t : List ℕ). part ++ (0x2F ∷ t)) e,
          (plain, not_parent part a),
          (good, goods),
        )
    split false is h next longer =
        let (first, rest, e, good, goods) = longer is h in
        (first, rest, sym (append_one part c cs) ∙ e, good, goods)

pub is_unsafe-IsBelow : (rel : String) → is_unsafe rel ≡ false → IsBelow rel
unfolding is_unsafe
is_unsafe-IsBelow rel h =
    let (a, b) = or_false (has_parent [] (codes rel)) (starts_with_slash (codes rel)) h in
    let (first, rest, e, good, goods) = has_parent-parts [] (codes rel) tt a in
    (first, rest, e, good, goods, λ empty. leading first rest empty (rw e at b))
  where
    leading :
        (first : List ℕ) (rest : List (List ℕ))
        → first ≡ []
        → starts_with_slash (joined first rest) ≡ false
        → rest ≡ []
    leading first [] e b = refl
    leading [] (next ∷ rest) e b = cc
    leading (c ∷ cs) (next ∷ rest) e b = cc

-- An object that stands for the dependencies does not say that they are incomplete.
abbrev pub IsComplete : Value → Type 0
IsComplete v = (d : Fields) → v ≡ obj d → get "status" d ≢ str "incomplete"

pub is_incomplete-IsComplete : (v : Value) → is_incomplete v ≡ false → IsComplete v
is_incomplete-IsComplete v h d e s = bad (rw (e, s) at h)
  where
    bad : true ≡ false → ⊥
    bad q = cc
