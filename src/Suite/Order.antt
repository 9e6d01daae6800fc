-- ===== src/Suite/Order.antt =====
-- `_eval_reject_stages` of packaging/run_vectors.py reads its codes as sets.
use aee_conformance.Base.{
  String, Bool, true, false, ◌||◌, List, [], ◌∷◌, ◌++◌, ◌≡◌, ◌⊎◌, refl, sym, ap, inl, inr,
  if◌then◌else◌, str_eq, eq_iff, str_eq_refl, mem_str, Bool-cases,
}
use aee_conformance.SecondFault.Registry.{code_stage}
use aee_conformance.Suite.Score.{Status, pass, fail, Gates, Score, no_expected_code}
use aee_conformance.Suite.Evaluate.{
  shares, of_stage, stage_status, grade_stages, eval_reject_stages,
}

-- Every text of the first list is in the second.
abbrev pub IsWithin : List String → List String → Type 0
IsWithin xs ys = (c : String) → mem_str c xs ≡ true → mem_str c ys ≡ true

-- The two lists are the same set.
abbrev pub IsSame : List String → List String → Type 0
IsSame xs ys = IsWithin xs ys × IsWithin ys xs

or_cases : (a b : Bool) → (a || b) ≡ true → (a ≡ true) ⊎ (b ≡ true)
or_cases true b h = inl refl
or_cases false b h = inr h

or_left : (a b : Bool) → a ≡ true → (a || b) ≡ true
or_left a b h = rw h refl

or_right : (a b : Bool) → b ≡ true → (a || b) ≡ true
or_right true b h = refl
or_right false b h = h

head_within : (c : String) (cs ys : List String) → IsWithin (c ∷ cs) ys → mem_str c ys ≡ true
head_within c cs ys w = w c (or_left _ _ (str_eq_refl c))

tail-IsWithin : (c : String) (cs ys : List String) → IsWithin (c ∷ cs) ys → IsWithin cs ys
tail-IsWithin c cs ys w d m = w d (or_right (str_eq d c) (mem_str d cs) m)

shares_at :
    (c : String) (ys os : List String)
    → mem_str c ys ≡ true
    → mem_str c os ≡ true
    → shares ys os ≡ true
unfolding shares
shares_at c [] os h m = cc
shares_at c (y ∷ ys) os h m = elim (or_cases (str_eq c y) (mem_str c ys) h) [
  | inl e ↦ or_left (mem_str y os) _ (rw ((eq_iff c y).0 e) at m)
  | inr t ↦ or_right (mem_str y os) _ (shares_at c ys os t m)
]

shares_within :
    (xs ys os ps : List String)
    → IsWithin xs ys
    → IsWithin os ps
    → shares xs os ≡ true
    → shares ys ps ≡ true
unfolding shares
shares_within [] ys os ps w v h = cc
shares_within (x ∷ xs) ys os ps w v h = elim (or_cases (mem_str x os) _ h) [
  | inl m ↦ shares_at x ys ps (head_within x xs ys w) (v x m)
  | inr t ↦ shares_within xs ys os ps (tail-IsWithin x xs ys w) v t
]

of_stage-mem :
    (stage c : String) (xs : List String)
    → mem_str c (of_stage stage xs) ≡ true
    → (mem_str c xs ≡ true) × (str_eq (code_stage c) stage ≡ true)
of_stage-mem stage c [] h = cc
of_stage-mem stage c (x ∷ xs) h = elim (Bool-cases (str_eq (code_stage x) stage)) [
  | inl k ↦ elim (or_cases (str_eq c x) (mem_str c (of_stage stage xs)) (rw k at h)) [
    | inl e ↦ (or_left _ _ e, rw ((eq_iff c x).0 e) k)
    | inr t ↦ let r = of_stage-mem stage c xs t in (or_right (str_eq c x) (mem_str c xs) r.0, r.1)
  ]
  | inr k ↦
      let r = of_stage-mem stage c xs (rw k at h) in (or_right (str_eq c x) (mem_str c xs) r.0, r.1)
]

mem-of_stage :
    (stage c : String) (xs : List String)
    → mem_str c xs ≡ true
    → str_eq (code_stage c) stage ≡ true
    → mem_str c (of_stage stage xs) ≡ true
mem-of_stage stage c [] h k = cc
mem-of_stage stage c (x ∷ xs) h k = elim (or_cases (str_eq c x) (mem_str c xs) h) [
  | inl e ↦ rw (← (eq_iff c x).0 e, k, str_eq_refl c) refl
  | inr t ↦ dropped (str_eq (code_stage x) stage) (mem-of_stage stage c xs t k)
]
  where
    dropped :
        (b : Bool)
        → mem_str c (of_stage stage xs) ≡ true
        → mem_str c (if b then x ∷ of_stage stage xs else of_stage stage xs) ≡ true
    dropped true m = or_right (str_eq c x) (mem_str c (of_stage stage xs)) m
    dropped false m = m

of_stage-IsWithin :
    (stage : String) (xs ys : List String)
    → IsWithin xs ys
    → IsWithin (of_stage stage xs) (of_stage stage ys)
of_stage-IsWithin stage xs ys w c h =
    let (m, k) = of_stage-mem stage c xs h in mem-of_stage stage c ys (w c m) k

bools_agree : (a b : Bool) → (a ≡ true → b ≡ true) → (b ≡ true → a ≡ true) → a ≡ b
bools_agree true true f g = refl
bools_agree true false f g = sym (f refl)
bools_agree false true f g = g refl
bools_agree false false f g = refl

shares_same :
    (xs ys os ps : List String) → IsSame xs ys → IsSame os ps → shares xs os ≡ shares ys ps
shares_same xs ys os ps same observed =
    bools_agree (shares xs os) (shares ys ps) (shares_within xs ys os ps same.0 observed.0)
      (shares_within ys xs ps os same.1 observed.1)

nothing_within : (c : String) (cs : List String) → IsWithin (c ∷ cs) [] → ⊥
nothing_within c cs w = absurd_mem (head_within c cs [] w)
  where
    absurd_mem : mem_str c [] ≡ true → ⊥
    absurd_mem h = cc

stage_status_same :
    (before : Status) (xs ys os ps : List String)
    → IsSame xs ys
    → IsSame os ps
    → stage_status before xs os ≡ stage_status before ys ps
stage_status_same before [] [] os ps same observed = refl
stage_status_same before [] (y ∷ ys) os ps same observed = absurd (nothing_within y ys same.1)
stage_status_same before (x ∷ xs) [] os ps same observed = absurd (nothing_within x xs same.0)
stage_status_same before (x ∷ xs) (y ∷ ys) os ps same observed =
    ap (λ b. if b then pass else fail) (shares_same (x ∷ xs) (y ∷ ys) os ps same observed)

grade_stages_same :
    (xs ys os ps : List String) (g : Gates)
    → IsSame xs ys
    → IsSame os ps
    → grade_stages xs os g ≡ grade_stages ys ps g
unfolding grade_stages
grade_stages_same xs ys os ps g same observed =
    rw (status "gate0" g.gate0, status "gate1" g.gate1, status "recompute" g.recompute) refl
  where
    status :
        (stage : String) (before : Status)
        → stage_status before (of_stage stage xs) os ≡ stage_status before (of_stage stage ys) ps
    status stage before =
        stage_status_same before (of_stage stage xs) (of_stage stage ys) os ps
          (of_stage-IsWithin stage xs ys same.0, of_stage-IsWithin stage ys xs same.1) observed

-- The gate columns and the parity of a reject vector depend on the sets of the expected and the observed
-- codes alone, and not on their order or on repeats.
pub eval_reject_stages_same :
    (xs ys os ps : List String) (s : Score)
    → IsSame xs ys
    → IsSame os ps
    → eval_reject_stages xs os s ≡ eval_reject_stages ys ps s
unfolding eval_reject_stages
eval_reject_stages_same [] [] os ps s same observed = refl
eval_reject_stages_same [] (y ∷ ys) os ps s same observed = absurd (nothing_within y ys same.1)
eval_reject_stages_same (x ∷ xs) [] os ps s same observed = absurd (nothing_within x xs same.0)
eval_reject_stages_same (x ∷ xs) (y ∷ ys) os ps s same observed =
    rw (shares_same (x ∷ xs) (y ∷ ys) os ps same observed) (
      ap
        (λ (g : Gates).
          record (if shares (y ∷ ys) ps
            then s
            else record s { parity = s.parity ++ (no_expected_code ∷ []) }) { gates = g })
        (grade_stages_same (x ∷ xs) (y ∷ ys) os ps _ same observed))
