-- ===== src/Suite/Coherence.antt =====
-- The families of packaging/run_vectors.py that a rail answers coherently.
use mathlib.Core.List.{append-nil, append_assoc}
use aee_conformance.Base.{
  String, Bool, true, false, ◌||◌, List, [], ◌∷◌, ◌++◌, ◌≡◌, refl, sym, ap, ◌∙◌, inl, inr, All, all,
  all→All, keep, is_empty, if◌then◌else◌, str_eq, eq_iff, str_eq_refl, mem_str, Bool-cases, codes,
}
use aee_conformance.Jcs.{lex_lt}
use aee_conformance.Suite.Family.{
  Member, Index, Group, Note, answers, family_of, add_member, group_rows, insert_group, sort_groups,
  declared_readings, has_primary, matched, note_of, judge_groups, family_coherence_failures,
}

-- The group of a family.
abbrev group_at : String → List Group → List Member
group_at f [] = []
group_at f ((g, ms) ∷ gs) = if str_eq g f then ms else group_at f gs

-- The rows of a family, in their order.
abbrev pub rows_of_family : Index → String → List Member → List Member
rows_of_family idx f rows = keep (λ m. str_eq (family_of idx m) f) rows

clash : (f g h : String) → str_eq h f ≡ true → str_eq g f ≡ true → str_eq h g ≡ false → ⊥
clash f g h e k n = apart (rw ((eq_iff h f).0 e, (eq_iff g f).0 k) at n) (str_eq_refl f)
  where
    apart : {b : Bool} → b ≡ false → b ≡ true → ⊥
    apart p q = cc

not_empty : (f g : String) → str_eq f "" ≡ false → str_eq g "" ≡ true → str_eq g f ≡ false
not_empty f g n e = elim (Bool-cases (str_eq g f)) [
  | inl same ↦ absurd (other same)
  | inr differ ↦ differ
]
  where
    other : str_eq g f ≡ true → ⊥
    other same = apart n (rw ((eq_iff g f).0 same) at e)
      where
        apart : {b : Bool} → b ≡ false → b ≡ true → ⊥
        apart p q = cc

add_member-group_at :
    (f g : String) (m : Member) (gs : List Group)
    → group_at f (add_member g m gs)
      ≡ (if str_eq g f then group_at f gs ++ (m ∷ []) else group_at f gs)
unfolding add_member
add_member-group_at f g m [] = refl
add_member-group_at f g m ((h, ms) ∷ gs) = elim (Bool-cases (str_eq h g)) [
  | inl same ↦ rw (same, (eq_iff h g).0 same) (joined (str_eq g f))
  | inr other ↦
      rw other (apart (str_eq h f) (str_eq g f) refl refl other (add_member-group_at f g m gs))
]
  where
    joined :
        (b : Bool)
        → (if b then ms ++ (m ∷ []) else group_at f gs) ≡ (
            if b
            then (if b then ms else group_at f gs) ++ (m ∷ [])
            else (if b then ms else group_at f gs))
    joined true = refl
    joined false = refl

    apart :
        (b c : Bool)
        → str_eq h f ≡ b
        → str_eq g f ≡ c
        → str_eq h g ≡ false
        → group_at f (add_member g m gs)
          ≡ (if str_eq g f then group_at f gs ++ (m ∷ []) else group_at f gs)
        → (if b then ms else group_at f (add_member g m gs)) ≡ (
            if c
            then (if b then ms else group_at f gs) ++ (m ∷ [])
            else (if b then ms else group_at f gs))
    apart true true eb ec other ih = absurd (clash f g h eb ec other)
    apart true false eb ec other ih = refl
    apart false c eb ec other ih = rw ec at ih

group_rows-group_at :
    (idx : Index) (f : String) (gs : List Group) (rows : List Member)
    → str_eq f "" ≡ false
    → group_at f (group_rows idx gs rows) ≡ group_at f gs ++ rows_of_family idx f rows
unfolding group_rows
group_rows-group_at idx f gs [] n = sym (append-nil (group_at f gs))
group_rows-group_at idx f gs (m ∷ rows) n =
    group_rows-group_at idx f
      (if str_eq (family_of idx m) "" then gs else add_member (family_of idx m) m gs) rows n
    ∙ step (str_eq (family_of idx m) "") (str_eq (family_of idx m) f) refl refl
  where
    step :
        (b c : Bool)
        → str_eq (family_of idx m) "" ≡ b
        → str_eq (family_of idx m) f ≡ c
        → group_at f (if b then gs else add_member (family_of idx m) m gs)
            ++ rows_of_family idx f rows
          ≡ group_at f gs
            ++ (if c then m ∷ rows_of_family idx f rows else rows_of_family idx f rows)
    step true true eb ec = absurd (apart (not_empty f (family_of idx m) n eb) ec)
      where
        apart : {b : Bool} → b ≡ false → b ≡ true → ⊥
        apart p q = cc
    step true false eb ec = refl
    step false true eb ec =
        rw (add_member-group_at f (family_of idx m) m gs, ec)
          (append_assoc (group_at f gs) (m ∷ []) (rows_of_family idx f rows))
    step false false eb ec = rw (add_member-group_at f (family_of idx m) m gs, ec) refl

All-at :
    (P : Group → Type 0) (f : String) (gs : List Group) {m : Member} {ms : List Member}
    → group_at f gs ≡ m ∷ ms
    → All P gs
    → P (f, m ∷ ms)
All-at P f [] h k = cc
All-at P f ((g, ns) ∷ gs) h k = elim (Bool-cases (str_eq g f)) [
  | inl same ↦ rw (← (eq_iff g f).0 same, ← found same h) k.0
  | inr other ↦ All-at P f gs (rw other at h) k.1
]
  where
    found :
        {m : Member} {ms : List Member}
        → str_eq g f ≡ true
        → (if str_eq g f then ns else group_at f gs) ≡ m ∷ ms
        → ns ≡ m ∷ ms
    found same e = rw same at e

All-insert :
    (P : Group → Type 0) (g : Group) (gs : List Group) → All P (insert_group g gs) → P g × All P gs
unfolding insert_group
All-insert P g [] h = h
All-insert P g (k ∷ ks) h = placed (lex_lt (codes k.0) (codes g.0)) h (All-insert P g ks)
  where
    placed :
        (b : Bool)
        → All P (if b then k ∷ insert_group g ks else g ∷ k ∷ ks)
        → (All P (insert_group g ks) → P g × All P ks)
        → P g × All P (k ∷ ks)
    placed true q ih = let r = ih q.1 in (r.0, (q.0, r.1))
    placed false q ih = q

All-sort : (P : Group → Type 0) (gs : List Group) → All P (sort_groups gs) → All P gs
unfolding sort_groups
All-sort P [] h = tt
All-sort P (g ∷ gs) h = let r = All-insert P g (sort_groups gs) h in (r.0, All-sort P gs r.1)

judge_groups-matched :
    (idx : Index) (gs : List Group)
    → (judge_groups idx gs).1 ≡ []
    → All (λ g. is_empty (matched idx g.1) ≡ false) gs
unfolding judge_groups
judge_groups-matched idx [] h = tt
judge_groups-matched idx ((f, ms) ∷ gs) h =
    let r = judged (is_empty (matched idx ms)) _ refl h in (r.0, judge_groups-matched idx gs r.1)
  where
    judged :
        (b : Bool) (r : List Note × List String)
        → (if b then ((judge_groups idx gs).0, f ∷ (judge_groups idx gs).1) else (
          note_of (f, ms) (matched idx ms) (all has_primary ms) ∷ (judge_groups idx gs).0,
          (judge_groups idx gs).1,
        ))
          ≡ r
        → r.1 ≡ []
        → (b ≡ false) × ((judge_groups idx gs).1 ≡ [])
    judged true r e h = absurd (some_failure (ap (λ (t : List Note × List String). t.1) e ∙ h))
      where
        some_failure : f ∷ (judge_groups idx gs).1 ≡ [] → ⊥
        some_failure q = cc
    judged false r e h = (refl, ap (λ (t : List Note × List String). t.1) e ∙ h)

-- Some text of the list has the property.
kept_one :
    (p : String → Bool) (xs : List String)
    → is_empty (keep p xs) ≡ false
    → (x : String) × (mem_str x xs ≡ true) × (p x ≡ true)
kept_one p [] h = cc
kept_one p (x ∷ xs) h = elim (Bool-cases (p x)) [
  | inl holds ↦ (x, rw (str_eq_refl x) refl, holds)
  | inr fails ↦
      let (y, m, q) = kept_one p xs (rw fails at h) in (y, later (str_eq y x) (mem_str y xs) m, q)
]
  where
    later : (a b : Bool) → b ≡ true → a || b ≡ true
    later true b h = refl
    later false b h = h

-- Without a coherence failure each family has a reading, declared by its first row in the report, that
-- explains the answer of every row of the family: the primary codes if every row commits to one, and
-- otherwise the reported codes.
pub family_coherence_failures-none :
    (idx : Index) (rows : List Member)
    → (family_coherence_failures idx rows).1 ≡ []
    → (f : String) (m : Member) (ms : List Member) → str_eq f "" ≡ false
    → rows_of_family idx f rows ≡ m ∷ ms
    → (name : String) × (mem_str name (declared_readings idx (m ∷ ms)) ≡ true)
      × All (λ r. answers idx (all has_primary (m ∷ ms)) name r ≡ true) (m ∷ ms)
unfolding family_coherence_failures matched
family_coherence_failures-none idx rows h f m ms n e =
    let each =
      All-sort (λ g. is_empty (matched idx g.1) ≡ false) (group_rows idx [] rows)
        (judge_groups-matched idx (sort_groups (group_rows idx [] rows)) h) in
    let here =
      All-at (λ g. is_empty (matched idx g.1) ≡ false) f (group_rows idx [] rows)
        (group_rows-group_at idx f [] rows n ∙ e) each in
    let (name, d, q) =
      kept_one (λ name. all (answers idx (all has_primary (m ∷ ms)) name) (m ∷ ms))
        (declared_readings idx (m ∷ ms)) here in
    (name, d, all→All (answers idx (all has_primary (m ∷ ms)) name) (m ∷ ms) q)
