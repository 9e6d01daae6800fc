-- ===== src/Artifact/Chains.antt =====
-- The chains in which check_lineage of tools/artifact-binding/regrade.py finds no problem.
use aee_conformance.Base.{
  ℕ, suc, String, Bool, true, false, not, ◌||◌, ◌↔◌, Option, none, some, List, [], ◌∷◌, ◌++◌, ◌≡◌,
  refl, sym, ap, ◌∙◌, All, if◌then◌else◌, length, ◌==◌, ==_iff, mem_str, str_eq, str_eq_refl,
}
use aee_conformance.Base.{arith, eq_iff}
use aee_conformance.Py.Value.{Fields, get, is_text}
use aee_conformance.Artifact.Tools.{Tools}
use aee_conformance.Artifact.Lineage.{
  Problem, archives_differ, first_not_execute, source_differs, not_regrade, distinct, problem_if,
  with_problem, source_problems, regrade_problems, archive_text, archive_texts, with_rest,
  check_lineage,
}

mem_self : (x : String) (xs : List String) → mem_str x (x ∷ xs) ≡ true
mem_self x xs = rw (str_eq_refl x) refl

-- A text that the set has once is all that the list has.
mem-distinct :
    (y : String) (xs : List String) → mem_str y xs ≡ true → mem_str y (distinct xs) ≡ true
unfolding distinct
mem-distinct y [] h = h
mem-distinct y (x ∷ xs) h = split (mem_str x (distinct xs)) refl (mem-distinct y xs)
  where
    moved : str_eq y x ≡ true → mem_str x (distinct xs) ≡ true → mem_str y (distinct xs) ≡ true
    moved e m = rw ((eq_iff y x).0 e) m

    either :
        (c : Bool)
        → str_eq y x ≡ c
        → mem_str x (distinct xs) ≡ true
        → (mem_str y xs ≡ true → mem_str y (distinct xs) ≡ true)
        → c || mem_str y xs ≡ true
        → mem_str y (distinct xs) ≡ true
    either true e m ih k = moved e m
    either false e m ih k = ih k

    longer :
        (c : Bool)
        → (mem_str y xs ≡ true → mem_str y (distinct xs) ≡ true)
        → c || mem_str y xs ≡ true
        → c || mem_str y (distinct xs) ≡ true
    longer true ih k = refl
    longer false ih k = ih k

    split :
        (b : Bool)
        → mem_str x (distinct xs) ≡ b
        → (mem_str y xs ≡ true → mem_str y (distinct xs) ≡ true)
        → mem_str y (if b then distinct xs else x ∷ distinct xs) ≡ true
    split true e ih = either (str_eq y x) refl e ih h
    split false e ih = longer (str_eq y x) ih h

-- Equal to one text
abbrev IsAll : String → List String → Type 0
IsAll x xs = All (λ y. y ≡ x) xs

mem_single :
    (y z : String) (xs : List String)
    → length xs ≡ 1
    → mem_str z xs ≡ true
    → mem_str y xs ≡ true
    → y ≡ z
mem_single y z [] e m k = cc
mem_single y z (x ∷ x2 ∷ xs) e m k = absurd (more (length xs) e)
  where
    more : (n : ℕ) → suc (suc n) ≡ 1 → ⊥
    more n h = omega arith
mem_single y z (x ∷ []) e m k = only y k ∙ sym (only z m)
  where
    or_false : (b : Bool) → b || false ≡ true → b ≡ true
    or_false true h = refl
    or_false false h = h

    only : (w : String) → str_eq w x || false ≡ true → w ≡ x
    only w h = (eq_iff w x).0 (or_false (str_eq w x) h)

mem_later : (y x : String) (xs : List String) → mem_str y xs ≡ true → mem_str y (x ∷ xs) ≡ true
mem_later y x xs h = either (str_eq y x)
  where
    either : (b : Bool) → b || mem_str y xs ≡ true
    either true = refl
    either false = h

mem_all :
    (P : String → Type 0) (xs : List String) → ((y : String) → mem_str y xs ≡ true → P y) → All P xs
mem_all P [] h = tt
mem_all P (x ∷ xs) h = (h x (mem_self x xs), mem_all P xs (λ y m. h y (mem_later y x xs m)))

-- A set with one member: the first text is it, and so are the others.
distinct_single : (x : String) (xs : List String) → length (distinct (x ∷ xs)) ≡ 1 → IsAll x xs
distinct_single x xs h =
    mem_all (λ y. y ≡ x) xs
      (λ y m.
        mem_single y x (distinct (x ∷ xs)) h (mem-distinct x (x ∷ xs) (mem_self x xs))
          (mem-distinct y (x ∷ xs) (mem_later y x xs m)))

distinct_same : (x : String) (xs : List String) → IsAll x xs → distinct (x ∷ xs) ≡ x ∷ []
unfolding distinct
distinct_same x [] h = refl
distinct_same x (y ∷ ys) h =
    let inner : distinct (y ∷ ys) ≡ x ∷ [] = (rw (h.0) (distinct_same x ys h.1)) in
    again (distinct (y ∷ ys)) inner
  where
    again : (ds : List String) → ds ≡ x ∷ [] → (if mem_str x ds then ds else x ∷ ds) ≡ x ∷ []
    again ds e = rw (e, str_eq_refl x) refl

no_problem : (b : Bool) (p : Problem) → problem_if (not b) p ≡ [] → b ≡ true
no_problem true p h = refl
no_problem false p h = cc

both_nil : (ps qs : List Problem) → ps ++ qs ≡ [] → (ps ≡ []) × (qs ≡ [])
both_nil [] qs h = (refl, h)
both_nil (p ∷ ps) qs h = cc

some_same : (ps qs : List Problem) → some ps ≡ some qs → ps ≡ qs
some_same ps qs h = cc

-- Each record after the first names the digest of the one before.
abbrev pub IsLinked : List Fields → List String → Type 0
IsLinked [] ds = Unit
IsLinked (r ∷ rs) [] = ⊥
IsLinked (r ∷ rs) (d ∷ ds) = (is_text d (get "source_record_digest" r) ≡ true) × IsLinked rs ds

abbrev pub IsRegrade : Fields → Type 0
IsRegrade r = is_text "regrade" (get "operation" r) ≡ true

silent-IsLinked :
    (n : ℕ) (rs : List Fields) (ds : List String)
    → source_problems n rs ds ≡ some []
    → IsLinked rs ds
unfolding source_problems
silent-IsLinked n [] ds h = tt
silent-IsLinked n (r ∷ rs) [] h = cc
silent-IsLinked n (r ∷ rs) (d ∷ ds) h =
    split (source_problems (suc n) rs ds) (silent-IsLinked (suc n) rs ds) h
  where
    one : List Problem
    one = problem_if (not (is_text d (get "source_record_digest" r))) (source_differs n)

    split :
        (o : Option (List Problem))
        → (o ≡ some [] → IsLinked rs ds)
        → with_problem one o ≡ some []
        → (is_text d (get "source_record_digest" r) ≡ true) × IsLinked rs ds
    split none ih e = cc
    split (some qs) ih e =
        let (p, q) = both_nil one qs (some_same (one ++ qs) [] e) in
        (no_problem _ (source_differs n) p, ih (ap some q))

linked_to :
    (n : ℕ) (rs : List Fields) (ds : List String)
    → IsLinked rs ds
    → source_problems n rs ds ≡ some []
unfolding source_problems
linked_to n [] ds h = refl
linked_to n (r ∷ rs) [] h = absurd h
linked_to n (r ∷ rs) (d ∷ ds) h = rw (h.0, linked_to (suc n) rs ds h.1) refl

regrades_of : (n : ℕ) (rs : List Fields) → regrade_problems n rs ≡ [] → All IsRegrade rs
unfolding regrade_problems
regrades_of n [] h = tt
regrades_of n (r ∷ rs) h =
    let (p, q) =
      both_nil (problem_if (not (is_text "regrade" (get "operation" r))) (not_regrade n))
        (regrade_problems (suc n) rs) h in
    (no_problem _ (not_regrade n) p, regrades_of (suc n) rs q)

regrades_to : (n : ℕ) (rs : List Fields) → All IsRegrade rs → regrade_problems n rs ≡ []
unfolding regrade_problems
regrades_to n [] h = refl
regrades_to n (r ∷ rs) h = rw (h.0, regrades_to (suc n) rs h.1) refl

module _ (T : Tools) where
  -- An execute record and then regrades, whose archive digests have the text of the first one's under
  -- `str`, where a missing digest reads as None, and each of which names the record before it.
  abbrev pub IsChain : List Fields → List String → Type 0
  IsChain [] digests = ⊥
  IsChain (first ∷ rest) digests =
      All (λ t. t ≡ archive_text T first) (archive_texts T rest)
      × IsLinked rest digests
      × (is_text "execute" (get "operation" first) ≡ true)
      × All IsRegrade rest

  silent-IsChain :
      (records : List Fields) (digests : List String)
      → check_lineage T records digests ≡ some []
      → IsChain records digests
  unfolding check_lineage
  silent-IsChain [] digests h = cc
  silent-IsChain (first ∷ rest) digests h = split (source_problems 1 rest digests) refl h
    where
      archives : List Problem
      archives =
          problem_if (not (length (distinct (archive_texts T (first ∷ rest))) == 1)) archives_differ

      execute : List Problem
      execute = problem_if (not (is_text "execute" (get "operation" first))) first_not_execute

      split :
          (o : Option (List Problem))
          → source_problems 1 rest digests ≡ o
          → with_rest T archives (execute ++ regrade_problems 1 rest) o ≡ some []
          → IsChain (first ∷ rest) digests
      split none q e = cc
      split (some sources) q e =
          let (p1, e1) =
            both_nil archives (sources ++ (execute ++ regrade_problems 1 rest))
              (some_same (archives ++ (sources ++ (execute ++ regrade_problems 1 rest))) [] e) in
          let (p2, e2) = both_nil sources (execute ++ regrade_problems 1 rest) e1 in
          let (p3, p4) = both_nil execute (regrade_problems 1 rest) e2 in
          (
            distinct_single (archive_text T first) (archive_texts T rest)
                ((==_iff _ _).0 (no_problem _ archives_differ p1)),
            silent-IsLinked 1 rest digests (q ∙ ap some p2),
            no_problem _ first_not_execute p3,
            regrades_of 1 rest p4,
          )

  chain_to :
      (records : List Fields) (digests : List String)
      → IsChain records digests
      → check_lineage T records digests ≡ some []
  unfolding check_lineage
  chain_to [] digests h = absurd h
  chain_to (first ∷ rest) digests (same, linked, execute, regrades) =
      rw
        (
          distinct_same (archive_text T first) (archive_texts T rest) same,
          linked_to 1 rest digests linked,
          execute,
          regrades_to 1 rest regrades,
        )
        refl

-- check_lineage returns no problem exactly for a chain: a first record that is an execute record, then
-- regrade records alone, whose source_archive_digest has the text that `str` gives for the first one's, a
-- missing one reading as None, and each of which names the digest that is given for the record before it.
-- That a record is verified is no part of it.
pub check_lineage-IsChain :
    (T : Tools) (records : List Fields) (digests : List String)
    → (check_lineage T records digests ≡ some []) ↔ IsChain T records digests
check_lineage-IsChain T records digests =
    (silent-IsChain T records digests, chain_to T records digests)
