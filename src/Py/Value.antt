-- ===== src/Py/Value.antt =====
-- A decoded JSON value as Python holds it, and the operators that the verifier applies to one.
use aee_conformance.Base.{ℕ, String, Bool, true, false, not, ◌&&◌, ◌||◌, Option, none, some}
use aee_conformance.Base.{List, [], ◌∷◌, str_eq, if◌then◌else◌, ◌==◌, ◌≡◌}
use aee_conformance.Base.Int.{ℤ, pos, eq_ℤ}

-- `real` is a float that is not integral (or not finite), known by its text; `float` is an integral
-- one. Texts are sequences of Unicode scalar values.
mutual
  pub data Value : Type 0 where
    null : Value
    bool : Bool → Value
    int : ℤ → Value
    float : ℤ → Value
    real : String → Value
    str : String → Value
    arr : Items → Value
    obj : Fields → Value

  pub data Fields : Type 0 where
    end : Fields
    field : String → Value → Fields → Fields

  pub data Items : Type 0 where
    nil : Items
    cons : Value → Items → Items

abbrev pub to_list : Items → List Value
to_list nil = []
to_list (cons x xs) = x ∷ to_list xs

abbrev pub from_list : List Value → Items
from_list [] = nil
from_list (x ∷ xs) = cons x (from_list xs)

-- `d.items()`
abbrev pub pairs : Fields → List (String × Value)
pairs end = []
pairs (field k v fs) = (k, v) ∷ pairs fs

-- `list(d)`, and `d.values()`
abbrev pub keys : Fields → List String
keys end = []
keys (field k v fs) = k ∷ keys fs

abbrev pub values : Fields → List Value
values end = []
values (field k v fs) = v ∷ values fs

-- `k in d`
abbrev pub has : String → Fields → Bool
has k end = false
has k (field j v fs) = if str_eq k j then true else has k fs

-- `d.get(k)`: `None` when the key is missing, which is what a JSON null decodes to as well.
abbrev pub get : String → Fields → Value
get k end = null
get k (field j v fs) = if str_eq k j then v else get k fs

-- `isinstance(v, dict)`, `isinstance(v, list)` and `isinstance(v, str)`, with the value
abbrev pub as_dict : Value → Option Fields
as_dict (obj fs) = some fs
as_dict _ = none

abbrev pub as_list : Value → Option (List Value)
as_list (arr xs) = some (to_list xs)
as_list _ = none

abbrev pub as_str : Value → Option String
as_str (str s) = some s
as_str _ = none

abbrev pub is_str : Value → Bool
is_str (str s) = true
is_str _ = false

-- `isinstance(v, int) and not isinstance(v, bool)`
abbrev pub as_int : Value → Option ℤ
as_int (int n) = some n
as_int _ = none

abbrev pub is_none : Value → Bool
is_none null = true
is_none _ = false

-- `d if isinstance(d, dict) else {}`, and the same of a list.
abbrev pub dict_or_empty : Value → Fields
dict_or_empty (obj fs) = fs
dict_or_empty _ = end

abbrev pub list_or_empty : Value → List Value
list_or_empty (arr xs) = to_list xs
list_or_empty _ = []

-- `bool(v)`
abbrev pub truthy : Value → Bool
truthy null = false
truthy (bool b) = b
truthy (int n) = not (eq_ℤ n (pos 0))
truthy (float n) = not (eq_ℤ n (pos 0))
truthy (real _) = true
truthy (str s) = not (str_eq s "")
truthy (arr nil) = false
truthy (arr (cons _ _)) = true
truthy (obj end) = false
truthy (obj (field _ _ _)) = true

-- A number as an integer: `True == 1 == 1.0`.
abbrev pub number : Value → Option ℤ
number (bool true) = some (pos 1)
number (bool false) = some (pos 0)
number (int n) = some n
number (float n) = some n
number _ = none

abbrev eq_number : Option ℤ → Option ℤ → Bool
eq_number (some m) (some n) = eq_ℤ m n
eq_number _ _ = false

-- `len(d)`
abbrev pub size : Fields → ℕ
size end = 0
size (field k v fs) = ℕ.suc (size fs)

-- `a == b`. Dicts are equal when they have as many keys, and each key of one is in the other with an
-- equal value.
unfoldable mutual
  pub eq : Value → Value → Bool
  eq null null = true
  eq (str s) (str t) = str_eq s t
  eq (real s) (real t) = str_eq s t
  eq (arr xs) (arr ys) = eq_items xs ys
  eq (obj fs) (obj gs) = (size fs == size gs) && eq_fields fs gs
  eq (bool b) v = eq_number (number (bool b)) (number v)
  eq (int n) v = eq_number (some n) (number v)
  eq (float n) v = eq_number (some n) (number v)
  eq _ _ = false

  pub eq_items : Items → Items → Bool
  eq_items nil nil = true
  eq_items (cons x xs) (cons y ys) = eq x y && eq_items xs ys
  eq_items _ _ = false

  pub eq_fields : Fields → Fields → Bool
  eq_fields end gs = true
  eq_fields (field k v fs) gs = has k gs && eq v (get k gs) && eq_fields fs gs

-- `v == "text"`
abbrev pub is_text : String → Value → Bool
is_text s (str t) = str_eq t s
is_text s _ = false

-- `v in vs` for a list or a tuple
unfoldable pub mem : Value → List Value → Bool
mem v [] = false
mem v (x ∷ xs) = eq v x || mem v xs

-- Whether `hash(v)` returns: lists and dicts raise.
abbrev pub hashable : Value → Bool
hashable (arr _) = false
hashable (obj _) = false
hashable _ = true

pub as_dict-eq-some : (v : Value) {fs : Fields} → as_dict v ≡ some fs → v ≡ obj fs
as_dict-eq-some (obj gs) h = cc
as_dict-eq-some null h = cc
as_dict-eq-some (bool b) h = cc
as_dict-eq-some (int n) h = cc
as_dict-eq-some (float n) h = cc
as_dict-eq-some (real s) h = cc
as_dict-eq-some (str s) h = cc
as_dict-eq-some (arr xs) h = cc
