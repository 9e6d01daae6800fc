-- ===== src/IJson/Plain.antt =====
-- What the guards of the strict parse of packaging/run_vectors.py mean: no repeated name at any depth, safe
-- integers alone, and names of the basic plane.
use aee_conformance.Base.{
  ℕ, ◌≤◌, ◌<◌, ◌^◌, String, Bool, true, false, ◌||◌, ◌&&◌, List, [], ◌∷◌, ◌≡◌, ◌⊎◌, inl, inr,
}
use aee_conformance.Base.{All, all, codes, leb, ltb→lt, str_eq, str_eq_refl, &&-eq-true, arith}
use aee_conformance.Base.Int.{abs}
use aee_conformance.Py.Value.{
  Value, null, bool, int, float, real, str, arr, obj, Items, nil, cons, Fields, end, field,
}
use aee_conformance.Platform.{
  Json, jnull, jbool, jint, jfloat, constant, jstr, jarr, jobj, Elements, no_elements, element,
  Members, no_members, member,
}
use aee_conformance.Jcs.{member_names_bmp, items_bmp, names_bmp, all_bmp}
use aee_conformance.IJson.{
  walk_check_ints, walk_items, walk_fields, has_duplicates, elements_duplicates, members_duplicates,
  names_member,
}

-- A member of this name.
abbrev pub IsNamed : String → Members → Type 0
IsNamed k no_members = ⊥
IsNamed k (member j v ms) = (k ≡ j) ⊎ IsNamed k ms

-- No object of the value, at any depth, has two members of one name.
unfoldable mutual
  pub IsUnrepeated : Json → Type 0
  IsUnrepeated (jarr xs) = AreUnrepeated xs
  IsUnrepeated (jobj ms) = HasUnrepeated ms
  IsUnrepeated _ = Unit

  pub AreUnrepeated : Elements → Type 0
  AreUnrepeated no_elements = Unit
  AreUnrepeated (element x xs) = IsUnrepeated x × AreUnrepeated xs

  pub HasUnrepeated : Members → Type 0
  HasUnrepeated no_members = Unit
  HasUnrepeated (member k v ms) = (IsNamed k ms → ⊥) × IsUnrepeated v × HasUnrepeated ms

-- Every number of the value is an integer of absolute value below 2 ^ 53.
unfoldable mutual
  pub IsSafe : Value → Type 0
  IsSafe (int n) = abs n < 2 ^ 53
  IsSafe (float n) = ⊥
  IsSafe (real s) = ⊥
  IsSafe (arr xs) = AreSafe xs
  IsSafe (obj fs) = HasSafe fs
  IsSafe _ = Unit

  pub AreSafe : Items → Type 0
  AreSafe nil = Unit
  AreSafe (cons x xs) = IsSafe x × AreSafe xs

  pub HasSafe : Fields → Type 0
  HasSafe end = Unit
  HasSafe (field k v fs) = IsSafe v × HasSafe fs

-- Every name of the value is of code points up to 0xFFFF.
unfoldable mutual
  pub IsBasic : Value → Type 0
  IsBasic (arr xs) = AreBasic xs
  IsBasic (obj fs) = HasBasic fs
  IsBasic _ = Unit

  pub AreBasic : Items → Type 0
  AreBasic nil = Unit
  AreBasic (cons x xs) = IsBasic x × AreBasic xs

  pub HasBasic : Fields → Type 0
  HasBasic end = Unit
  HasBasic (field k v fs) = All (λ c. c ≤ 0xFFFF) (codes k) × IsBasic v × HasBasic fs

or_false : (a b : Bool) → a || b ≡ false → (a ≡ false) × (b ≡ false)
or_false a b h = ground arith

names_member-IsNamed : (k : String) (ms : Members) → names_member k ms ≡ false → IsNamed k ms → ⊥
names_member-IsNamed k no_members h n = n
names_member-IsNamed k (member j v ms) h n =
    let (a, b) = or_false (str_eq k j) (names_member k ms) h in
    elim n [ inl e ↦ other a e | inr m ↦ names_member-IsNamed k ms b m ]
  where
    other : str_eq k j ≡ false → k ≡ j → ⊥
    other a e = bad (rw (e, str_eq_refl j) at a)
      where
        bad : true ≡ false → ⊥
        bad h = cc

mutual
  unfolding has_duplicates elements_duplicates members_duplicates IsUnrepeated AreUnrepeated
      HasUnrepeated

  pub has_duplicates-IsUnrepeated : (j : Json) → has_duplicates j ≡ false → IsUnrepeated j
  has_duplicates-IsUnrepeated (jarr xs) h = elements-AreUnrepeated xs h
  has_duplicates-IsUnrepeated (jobj ms) h = members-HasUnrepeated ms h
  has_duplicates-IsUnrepeated jnull h = tt
  has_duplicates-IsUnrepeated (jbool b) h = tt
  has_duplicates-IsUnrepeated (jint n) h = tt
  has_duplicates-IsUnrepeated (jfloat d) h = tt
  has_duplicates-IsUnrepeated (constant s) h = tt
  has_duplicates-IsUnrepeated (jstr s) h = tt

  elements-AreUnrepeated : (xs : Elements) → elements_duplicates xs ≡ false → AreUnrepeated xs
  elements-AreUnrepeated no_elements h = tt
  elements-AreUnrepeated (element x xs) h =
      let (a, b) = or_false (has_duplicates x) (elements_duplicates xs) h in
      (has_duplicates-IsUnrepeated x a, elements-AreUnrepeated xs b)

  members-HasUnrepeated : (ms : Members) → members_duplicates ms ≡ false → HasUnrepeated ms
  members-HasUnrepeated no_members h = tt
  members-HasUnrepeated (member k v ms) h =
      let (ab, c) = or_false (names_member k ms || has_duplicates v) (members_duplicates ms) h in
      let (a, b) = or_false (names_member k ms) (has_duplicates v) ab in
      (names_member-IsNamed k ms a, has_duplicates-IsUnrepeated v b, members-HasUnrepeated ms c)

mutual
  unfolding walk_check_ints walk_items walk_fields IsSafe AreSafe HasSafe

  pub walk_check_ints-IsSafe : (v : Value) → walk_check_ints v ≡ true → IsSafe v
  walk_check_ints-IsSafe (int n) h = ltb→lt (abs n) (2 ^ 53) h
  walk_check_ints-IsSafe (float n) h = cc
  walk_check_ints-IsSafe (real s) h = cc
  walk_check_ints-IsSafe (arr xs) h = walk_items-AreSafe xs h
  walk_check_ints-IsSafe (obj fs) h = walk_fields-HasSafe fs h
  walk_check_ints-IsSafe null h = tt
  walk_check_ints-IsSafe (bool b) h = tt
  walk_check_ints-IsSafe (str s) h = tt

  walk_items-AreSafe : (xs : Items) → walk_items xs ≡ true → AreSafe xs
  walk_items-AreSafe nil h = tt
  walk_items-AreSafe (cons x xs) h =
      let (a, b) = &&-eq-true (walk_check_ints x) (walk_items xs) h in
      (walk_check_ints-IsSafe x a, walk_items-AreSafe xs b)

  walk_fields-HasSafe : (fs : Fields) → walk_fields fs ≡ true → HasSafe fs
  walk_fields-HasSafe end h = tt
  walk_fields-HasSafe (field k v fs) h =
      let (a, b) = &&-eq-true (walk_check_ints v) (walk_fields fs) h in
      (walk_check_ints-IsSafe v a, walk_fields-HasSafe fs b)

within : (c : ℕ) → leb c 0xFFFF ≡ true → c ≤ 0xFFFF
within c h = ground arith

codes-basic : (cs : List ℕ) → all (λ c. leb c 0xFFFF) cs ≡ true → All (λ c. c ≤ 0xFFFF) cs
codes-basic [] h = tt
codes-basic (c ∷ cs) h =
    let (a, b) = &&-eq-true (leb c 0xFFFF) (all (λ d. leb d 0xFFFF) cs) h in
    (within c a, codes-basic cs b)

mutual
  unfolding member_names_bmp items_bmp names_bmp all_bmp IsBasic AreBasic HasBasic

  pub member_names_bmp-IsBasic : (v : Value) → member_names_bmp v ≡ true → IsBasic v
  member_names_bmp-IsBasic (arr xs) h = items_bmp-AreBasic xs h
  member_names_bmp-IsBasic (obj fs) h = names_bmp-HasBasic fs h
  member_names_bmp-IsBasic (int n) h = tt
  member_names_bmp-IsBasic (float n) h = tt
  member_names_bmp-IsBasic (real s) h = tt
  member_names_bmp-IsBasic null h = tt
  member_names_bmp-IsBasic (bool b) h = tt
  member_names_bmp-IsBasic (str s) h = tt

  items_bmp-AreBasic : (xs : Items) → items_bmp xs ≡ true → AreBasic xs
  items_bmp-AreBasic nil h = tt
  items_bmp-AreBasic (cons x xs) h =
      let (a, b) = &&-eq-true (member_names_bmp x) (items_bmp xs) h in
      (member_names_bmp-IsBasic x a, items_bmp-AreBasic xs b)

  names_bmp-HasBasic : (fs : Fields) → names_bmp fs ≡ true → HasBasic fs
  names_bmp-HasBasic end h = tt
  names_bmp-HasBasic (field k v fs) h =
      let (ab, c) = &&-eq-true (all_bmp (k ∷ []) && member_names_bmp v) (names_bmp fs) h in
      let (a, b) = &&-eq-true (all_bmp (k ∷ [])) (member_names_bmp v) ab in
      let (d, e) = &&-eq-true (all (λ c. leb c 0xFFFF) (codes k)) true a in
      (codes-basic (codes k) d, member_names_bmp-IsBasic v b, names_bmp-HasBasic fs c)
