-- ===== src/Jcs/Members.antt =====
-- `jcs_dumps` of packaging/run_vectors.py and the order of members.
use aee_conformance.Base.{
  ℕ, String, true, ◌||◌, Option, none, some, List, [], ◌∷◌, ◌≡◌, refl, sym, ap, ◌∙◌,
}
use mathlib.Core.Option
use aee_conformance.Py.Value.{Value, arr, obj, Items, nil, cons, Fields, end, field}
use aee_conformance.Base.{◌++◌, map}
use aee_conformance.Py.Bytes.{utf8}
use aee_conformance.Jcs.{
  key_lt, insert_entry, sort_entries, ser, ser_items, ser_fields, jcs_dumps, object_text,
  array_text, join_commas, entry_text, both,
}
use aee_conformance.Jcs.Order.{insert_swap, sort_cons}

-- The same value, but for the order of members whose names the sort tells apart, at any depth.
mutual
  pub data SameValue : Value → Value → Type 0 where
    same : (v : Value) → SameValue v v
    arrays : {xs ys : Items} → SameItems xs ys → SameValue (arr xs) (arr ys)
    objects : {fs gs : Fields} → SameFields fs gs → SameValue (obj fs) (obj gs)

  pub data SameItems : Items → Items → Type 0 where
    no_items : SameItems nil nil
    items :
        {u v : Value} {xs ys : Items}
        → SameValue u v
        → SameItems xs ys
        → SameItems (cons u xs) (cons v ys)

  pub data SameFields : Fields → Fields → Type 0 where
    no_fields : SameFields end end
    under :
        (k : String) {u v : Value} {fs gs : Fields}
        → SameValue u v
        → SameFields fs gs
        → SameFields (field k u fs) (field k v gs)
    swapped :
        (j k : String) (u v : Value) (fs : Fields)
        → key_lt j k || key_lt k j ≡ true
        → SameFields (field j u (field k v fs)) (field k v (field j u fs))
    steps : {fs gs hs : Fields} → SameFields fs gs → SameFields gs hs → SameFields fs hs

abbrev sorted : Option (List (String × List ℕ)) → Option (List (String × List ℕ))
sorted o = Option.map sort_entries o

abbrev named : String → Option (List ℕ) → Option (String × List ℕ)
named k o = Option.map (λ t. (k, t)) o

some-injective : {A : Type 0} {a b : A} → some a ≡ some b → a ≡ b
some-injective h = cc

sorted_under :
    (k : String) (t : Option (List ℕ)) (o p : Option (List (String × List ℕ)))
    → sorted o ≡ sorted p
    → sorted (both (named k t) o) ≡ sorted (both (named k t) p)
sorted_under k none o p h = refl
sorted_under k (some t) none none h = refl
sorted_under k (some t) none (some es) h = cc
sorted_under k (some t) (some es) none h = cc
sorted_under k (some t) (some es) (some fs) h =
    ap some (
      sort_cons (k, t) es ∙ ap (insert_entry (k, t)) (some-injective h) ∙ sym (sort_cons (k, t) fs))

sorted_swapped :
    (j k : String) (t u : Option (List ℕ)) (o : Option (List (String × List ℕ)))
    → key_lt j k || key_lt k j ≡ true
    → sorted (both (named j t) (both (named k u) o))
      ≡ sorted (both (named k u) (both (named j t) o))
sorted_swapped j k none none o h = refl
sorted_swapped j k none (some u) none h = refl
sorted_swapped j k none (some u) (some es) h = refl
sorted_swapped j k (some t) none none h = refl
sorted_swapped j k (some t) none (some es) h = refl
sorted_swapped j k (some t) (some u) none h = refl
sorted_swapped j k (some t) (some u) (some es) h = ap some (
    sort_cons (j, t) ((k, u) ∷ es)
    ∙ ap (insert_entry (j, t)) (sort_cons (k, u) es)
    ∙ insert_swap (j, t) (k, u) (sort_entries es) h
    ∙ sym (sort_cons (k, u) ((j, t) ∷ es) ∙ ap (insert_entry (k, u)) (sort_cons (j, t) es)))

-- The text of an object, of its entries in order.
abbrev members_text : List (String × List ℕ) → List ℕ
members_text es = b'{' ∷ (join_commas (map entry_text es) ++ (b'}' ∷ []))

object_text-sorted :
    (o : Option (List (String × List ℕ)))
    → Option.map object_text o ≡ Option.map members_text (sorted o)
unfolding object_text
object_text-sorted none = refl
object_text-sorted (some es) = refl

ser_objects :
    (fs gs : Fields) → sorted (ser_fields fs) ≡ sorted (ser_fields gs) → ser (obj fs) ≡ ser (obj gs)
unfolding ser ser_fields
ser_objects fs gs h =
    object_text-sorted (ser_fields fs)
    ∙ ap (Option.map members_text) h
    ∙ sym (object_text-sorted (ser_fields gs))

mutual
  unfolding ser ser_items ser_fields

  ser_same : {u v : Value} → SameValue u v → ser u ≡ ser v
  ser_same (same v) = refl
  ser_same (arrays s) = ap (Option.map array_text) (ser_items_same s)
  ser_same (objects {fs = fs} {gs = gs} s) = ser_objects fs gs (ser_fields_same s)

  ser_items_same : {xs ys : Items} → SameItems xs ys → ser_items xs ≡ ser_items ys
  ser_items_same no_items = refl
  ser_items_same (items {u = u} {v = v} {xs = xs} {ys = ys} s ss) =
      ap (λ o. both o (ser_items xs)) (ser_same s) ∙ ap (both (ser v)) (ser_items_same ss)

  ser_fields_same :
      {fs gs : Fields} → SameFields fs gs → sorted (ser_fields fs) ≡ sorted (ser_fields gs)
  ser_fields_same no_fields = refl
  ser_fields_same (under k {u = u} {v = v} {fs = fs} {gs = gs} s ss) =
      ap (λ o. sorted (both (named k o) (ser_fields fs))) (ser_same s)
      ∙ sorted_under k (ser v) (ser_fields fs) (ser_fields gs) (ser_fields_same ss)
  ser_fields_same (swapped j k u v fs h) = sorted_swapped j k (ser u) (ser v) (ser_fields fs) h
  ser_fields_same (steps s t) = ser_fields_same s ∙ ser_fields_same t

-- The canonical bytes of two values that are the same but for the order of members whose names the sort
-- tells apart, at any depth, are equal, or neither value has any.
pub jcs_dumps_same : (u v : Value) → SameValue u v → jcs_dumps u ≡ jcs_dumps v
unfolding jcs_dumps
jcs_dumps_same u v s = ap (Option.map utf8) (ser_same s)
