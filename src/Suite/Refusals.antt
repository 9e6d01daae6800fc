-- ===== src/Suite/Refusals.antt =====
-- What it means that a check of `manifest_closure` in packaging/run_vectors.py refuses nothing.
use aee_conformance.Base.{
  String, Bool, true, false, not, List, [], ◌∷◌, ◌++◌, ◌≡◌, refl, sym, ◌∙◌, All, keep,
  if◌then◌else◌, str_eq, mem_str,
}
use aee_conformance.Py.Value.{Value, null, bool, int, float, real, str, arr, obj}
use aee_conformance.Suite.Family.{sort_texts}
use aee_conformance.Suite.Tree.{Tree, Listed, ids_at, kinds_in}
use aee_conformance.Suite.Closure.{
  Refusal, unscored_kind, no_file, absent_file, unlisted_file, refuse_if, refuse_each, is_replayed,
  closure_kind_coverage, file_refusals, replayed_vids,
}
use aee_conformance.Suite.Listing.{all_at, sort-mem}

pub flipped : (b : Bool) → not b ≡ false → b ≡ true
flipped true e = refl
flipped false e = cc

pub no_refusal : (b : Bool) (r : Refusal) → refuse_if b r ≡ [] → b ≡ false
no_refusal true r h = cc
no_refusal false r h = refl

pub both_silent : (ps qs : List Refusal) → ps ++ qs ≡ [] → (ps ≡ []) × (qs ≡ [])
both_silent [] qs h = (refl, h)
both_silent (p ∷ ps) qs h = cc

pub each_silent :
    (f : String → List Refusal) (xs : List String) → refuse_each f xs ≡ [] → All (λ x. f x ≡ []) xs
each_silent f [] h = tt
each_silent f (x ∷ xs) h =
    let (p, q) = both_silent (f x) (refuse_each f xs) h in (p, each_silent f xs q)

-- The declared file is a text and on disk.
abbrev pub IsPresent : Tree → Value → Type 0
IsPresent tree v = (file : String) × (v ≡ str file) × (tree.isfile file ≡ true)

pub present :
    (tree : Tree) (vid : String) (v : Value) → file_refusals tree vid v ≡ [] → IsPresent tree v
present tree vid (str file) h = split (str_eq file "") h
  where
    split :
        (b : Bool)
        → (if b then no_file vid ∷ [] else refuse_if (not (tree.isfile file)) (absent_file vid))
          ≡ []
        → IsPresent tree (str file)
    split true e = cc
    split false e = (file, refl, flipped (tree.isfile file) (no_refusal _ (absent_file vid) e))
present tree vid null h = cc
present tree vid (bool b) h = cc
present tree vid (int n) h = cc
present tree vid (float n) h = cc
present tree vid (real s) h = cc
present tree vid (arr xs) h = cc
present tree vid (obj fs) h = cc

all_append : (P : String → Type 0) (xs ys : List String) → All P (xs ++ ys) → All P xs × All P ys
all_append P [] ys h = (tt, h)
all_append P (x ∷ xs) ys h = let (p, q) = all_append P xs ys h.1 in ((h.0, p), q)

-- What all identifiers of replayed kinds have, those under one such kind have.
pub under_replayed :
    (P : String → Type 0) (listed : Listed) (kinds : List String)
    → All P (replayed_vids listed kinds)
    → All (λ kind. is_replayed kind ≡ true → All P (ids_at kind listed)) kinds
under_replayed P listed [] h = tt
under_replayed P listed (kind ∷ kinds) h =
    split (is_replayed kind) refl (under_replayed P listed kinds) h
  where
    split :
        (b : Bool)
        → is_replayed kind ≡ b
        → (All P (replayed_vids listed kinds)
            → All (λ k. is_replayed k ≡ true → All P (ids_at k listed)) kinds)
        → All P (
            if b
            then ids_at kind listed ++ replayed_vids listed kinds
            else replayed_vids listed kinds)
        → (is_replayed kind ≡ true → All P (ids_at kind listed))
          × All (λ k. is_replayed k ≡ true → All P (ids_at k listed)) kinds
    split true e ih a =
        let (p, q) = all_append P (ids_at kind listed) (replayed_vids listed kinds) a in
        ((λ r. p), ih q)
    split false e ih a = ((λ r. absurd (apart (sym e ∙ r))), ih a)
      where
        apart : false ≡ true → ⊥
        apart q = cc

pub all_kept :
    (p : String → Bool) (xs : List String)
    → keep (λ x. not (p x)) xs ≡ []
    → All (λ x. p x ≡ true) xs
all_kept p [] h = tt
all_kept p (x ∷ xs) h = split (p x) refl (all_kept p xs) h
  where
    split :
        (b : Bool)
        → p x ≡ b
        → (keep (λ x. not (p x)) xs ≡ [] → All (λ x. p x ≡ true) xs)
        → (if not b then x ∷ keep (λ x. not (p x)) xs else keep (λ x. not (p x)) xs) ≡ []
        → (p x ≡ true) × All (λ x. p x ≡ true) xs
    split true e ih k = (e, ih k)
    split false e ih k = cc

pub each_listed : (xs : List String) → refuse_each (λ vid. unlisted_file vid ∷ []) xs ≡ [] → xs ≡ []
each_listed [] h = refl
each_listed (x ∷ xs) h = cc

pub kinds_replayed :
    (listed : Listed) (kind : String)
    → closure_kind_coverage listed ≡ []
    → mem_str kind (kinds_in listed) ≡ true
    → is_replayed kind ≡ true
unfolding closure_kind_coverage
kinds_replayed listed kind h m =
    let first =
      (both_silent
        (refuse_each (λ k. refuse_if (not (is_replayed k)) (unscored_kind k))
          (sort_texts (kinds_in listed)))
        _ h).0 in
    flipped (is_replayed kind) (
      no_refusal (not (is_replayed kind)) (unscored_kind kind) (
        all_at (λ k. refuse_if (not (is_replayed k)) (unscored_kind k) ≡ []) kind
          (sort_texts (kinds_in listed))
          (each_silent (λ k. refuse_if (not (is_replayed k)) (unscored_kind k))
            (sort_texts (kinds_in listed)) first)
          (sort-mem kind (kinds_in listed) ∙ m)))
