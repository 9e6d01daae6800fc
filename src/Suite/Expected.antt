-- ===== src/Suite/Expected.antt =====
-- The `expected` member of a manifest entry, as packaging/run_vectors.py reads it. The manifest is the
-- repository's own: its members have the types that its generator writes.
use aee_conformance.Base.{String, Option, none, some, List, [], ◌∷◌}
use aee_conformance.Py.Value.{
  Value, str, arr, Fields, end, field, get, dict_or_empty, list_or_empty, to_list,
}

pub record Expected : Type 0 where
  -- "" when the member is missing
  pub verdict : String
  pub result : Value
  pub codes : List String
  pub also_carries : List String
  pub readings : List (String × String)
  pub family : String
  pub tier_with_pinned_key : Option (List String)
  pub tier_without_key : Option (List String)

abbrev pub text_or_empty : Value → String
text_or_empty (str s) = s
text_or_empty _ = ""

abbrev pub texts : List Value → List String
texts [] = []
texts (str s ∷ vs) = s ∷ texts vs
texts (_ ∷ vs) = texts vs

abbrev pub text_column : Value → Option (List String)
text_column (arr xs) = some (texts (to_list xs))
text_column _ = none

-- `{str(k): str(v) for k, v in declared.items()}`
abbrev pub text_pairs : Fields → List (String × String)
text_pairs end = []
text_pairs (field k (str v) fs) = (k, v) ∷ text_pairs fs
text_pairs (field k _ fs) = text_pairs fs

-- `entry or {}`
abbrev pub entry_or_empty : Option Fields → Fields
entry_or_empty none = end
entry_or_empty (some fs) = fs

-- `readings_of`
unfoldable pub readings_of : Option Fields → List (String × String)
readings_of entry =
    text_pairs
      (dict_or_empty (get "readings" (dict_or_empty (get "expected" (entry_or_empty entry)))))

unfoldable pub expected_of : Option Fields → Expected
unfolding readings_of
expected_of entry =
    let e = dict_or_empty (get "expected" (entry_or_empty entry)) in
    record {
      verdict = text_or_empty (get "verdict" e);
      result = get "result" e;
      codes = texts (list_or_empty (get "codes" e));
      also_carries = texts (list_or_empty (get "alsoCarries" e));
      readings = readings_of entry;
      family = text_or_empty (get "family" e);
      tier_with_pinned_key = text_column (get "tierWithPinnedKey" e);
      tier_without_key = text_column (get "tierWithoutKey" e);
    }
