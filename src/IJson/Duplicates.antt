-- ===== src/IJson/Duplicates.antt =====
-- Repeated member names, as the two strict parses of packaging/run_vectors.py find them.
use aee_conformance.Base.{
  String, Bool, true, false, ◌||◌, Option, none, some, ◌≡◌, refl, sym, ap, ◌∙◌,
}
use aee_conformance.Base.{str_eq, arith, if◌then◌else◌}
use aee_conformance.Py.Value.{Value, obj, arr, Items, Fields, field, has}
use mathlib.Core.Option
use aee_conformance.Platform.{
  Json, jnull, jbool, jint, jfloat, constant, jstr, jarr, jobj, Elements, no_elements, element,
  Members, no_members, member,
}
use aee_conformance.IJson.{
  load_strict, load_elements, load_members, has_duplicates, elements_duplicates, members_duplicates,
  names_member, pair_items, pair_fields,
}

map-eq-some :
    {A : Type 0} {B : Type 0} (f : A → B) (o : Option A) {b : B}
    → Option.map f o ≡ some b
    → (a : A) × (o ≡ some a) × (f a ≡ b)
map-eq-some f none h = cc
map-eq-some f (some a) h = (a, refl, cc)

pair_items-eq-some :
    (o : Option Value) (p : Option Items) {xs : Items}
    → pair_items o p ≡ some xs
    → (x : Value) × (ys : Items) × (o ≡ some x) × (p ≡ some ys)
pair_items-eq-some (some x) (some ys) h = (x, ys, refl, refl)
pair_items-eq-some none p h = cc
pair_items-eq-some (some x) none h = cc

pair_fields-eq-some :
    (k : String) (o : Option Value) (p : Option Fields) {fs : Fields}
    → pair_fields k o p ≡ some fs
    → (v : Value) × (gs : Fields) × (o ≡ some v)
      × (p ≡ some gs)
      × (has k gs ≡ false)
      × (fs ≡ field k v gs)
pair_fields-eq-some k none p h = cc
pair_fields-eq-some k (some v) none h = cc
pair_fields-eq-some k (some v) (some gs) h = new (has k gs) refl h
  where
    new :
        (b : Bool) {fs : Fields}
        → has k gs ≡ b
        → (if b then none else some (field k v gs)) ≡ some fs
        → (u : Value) × (es : Fields) × (some v ≡ some u)
          × (some gs ≡ some es)
          × (has k es ≡ false)
          × (fs ≡ field k u es)
    new true e h = cc
    new false e h = (v, gs, refl, refl, e, cc)

some-injective : {A : Type 0} {a b : A} → some a ≡ some b → a ≡ b
some-injective h = cc

has_step :
    (k j : String) (u : Value) (gs : Fields) (rest : Bool)
    → has k gs ≡ rest
    → has k (field j u gs) ≡ str_eq k j || rest
has_step k j u gs rest h = ground arith

-- The loaded members have the names of the text.
load_members-has :
    (k : String) (ms : Members) {fs : Fields}
    → load_members ms ≡ some fs
    → has k fs ≡ names_member k ms
unfolding load_members
load_members-has k no_members h = rw (← some-injective h) refl
load_members-has k (member j v ms) h =
    let (u, gs, e, el, new, ef) = pair_fields-eq-some j (load_strict v) (load_members ms) h in
    ap (has k) ef ∙ has_step k j u gs (names_member k ms) (load_members-has k ms el)

none_of_three : (a b c : Bool) → a ≡ false → b ≡ false → c ≡ false → a || b || c ≡ false
none_of_three a b c p q r = ground arith

-- Where the parse with `_reject_dup_pairs` succeeds, `_statement_strict_fault` finds no repeated name.
mutual
  unfolding load_strict load_elements load_members has_duplicates elements_duplicates
      members_duplicates

  pub load_strict_unique :
      (j : Json) {v : Value} → load_strict j ≡ some v → has_duplicates j ≡ false
  load_strict_unique jnull h = refl
  load_strict_unique (jbool b) h = refl
  load_strict_unique (jint n) h = refl
  load_strict_unique (jfloat d) h = refl
  load_strict_unique (constant s) h = refl
  load_strict_unique (jstr s) h = refl
  load_strict_unique (jarr xs) h =
      let (ys, e, q) = map-eq-some arr (load_elements xs) h in load_elements_unique xs e
  load_strict_unique (jobj ms) h =
      let (fs, e, q) = map-eq-some obj (load_members ms) h in load_members_unique ms e

  load_elements_unique :
      (xs : Elements) {ys : Items} → load_elements xs ≡ some ys → elements_duplicates xs ≡ false
  load_elements_unique no_elements h = refl
  load_elements_unique (element x xs) h =
      let (y, ys, e, es) = pair_items-eq-some (load_strict x) (load_elements xs) h in
      none_of_three false (has_duplicates x) (elements_duplicates xs) refl (load_strict_unique x e)
        (load_elements_unique xs es)

  load_members_unique :
      (ms : Members) {fs : Fields} → load_members ms ≡ some fs → members_duplicates ms ≡ false
  load_members_unique no_members h = refl
  load_members_unique (member k v ms) h =
      let (u, gs, e, el, new, ef) = pair_fields-eq-some k (load_strict v) (load_members ms) h in
      none_of_three (names_member k ms) (has_duplicates v) (members_duplicates ms)
        (sym (load_members-has k ms el) ∙ new) (load_strict_unique v e) (load_members_unique ms el)
