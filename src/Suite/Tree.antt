-- ===== src/Suite/Tree.antt =====
-- The manifest's rows and the tree of the suite, in packaging/run_vectors.py: `manifest_index`,
-- `flat_layout` and `manifest_kinds`.
use mathlib.Core.Option
use aee_conformance.Base.{
  ℕ, String, Bool, Option, none, some, List, [], ◌∷◌, ◌++◌, codes, any, if◌then◌else◌, str_eq,
  list_eq, ◌==◌,
}
use aee_conformance.Py.Value.{
  Value, str, arr, obj, Fields, end, field, Items, nil, cons, get, truthy,
}
use aee_conformance.Suite.Family.{Index, sort_texts}

-- The suite's directory: the names of its directories in order, the identifiers of the .json files that a
-- directory holds, as `vector_files_in` lists them, and whether a file is at a path.
pub record Tree : Type 0 where
  pub directories : List String
  pub vector_files_in : List ℕ → List String
  pub isfile : String → Bool

-- `idx[vid] = entry`
unfoldable pub put : String → Fields → Index → Index
put vid entry [] = (vid, entry) ∷ []
put vid entry ((k, e) ∷ idx) =
    let rest = put vid entry idx in if str_eq k vid then (k, entry) ∷ idx else (k, e) ∷ rest

unfoldable pub index_items : Items → Index → Index
unfolding put
index_items nil idx = idx
index_items (cons (obj entry) rest) idx = elim (get "id" entry) [
  | str vid ↦ index_items rest (put vid entry idx)
  | _ ↦ index_items rest idx
]
index_items (cons _ rest) idx = index_items rest idx

unfoldable pub index_fields : Fields → Index → Index
unfolding put
index_fields end idx = idx
index_fields (field vid (obj entry) rest) idx = index_fields rest (put vid entry idx)
index_fields (field vid _ rest) idx = index_fields rest idx

unfoldable pub rows_of : Value → Index
unfolding index_items index_fields
rows_of (arr xs) = index_items xs []
rows_of (obj fs) = index_fields fs []
rows_of _ = []

-- `manifest_index`, of a manifest that is there
unfoldable pub manifest_index : Fields → Index
unfolding rows_of
manifest_index manifest =
    if truthy (get "vectors" manifest)
    then rows_of (get "vectors" manifest)
    else rows_of (get "index" manifest)

-- `REPLAYED_KINDS` and `SUITE_NON_VECTOR_DIRS`
abbrev pub replayed_kinds : List String
replayed_kinds = "accept" ∷ "indeterminate" ∷ "reject" ∷ []

abbrev pub suite_non_vector_dirs : List String
suite_non_vector_dirs = "__pycache__" ∷ "keys" ∷ ".build" ∷ []

-- `rel.split("/", 1)[0]`, of a text with a slash
unfoldable pub first_part : List ℕ → Option (List ℕ)
first_part [] = none
first_part (c ∷ cs) =
    let rest = first_part cs in if c == b'/' then some [] else Option.map (λ cs. c ∷ cs) rest

unfoldable pub dir_of : Value → Option (List ℕ)
unfolding first_part
dir_of (str rel) = first_part (codes rel)
dir_of _ = none

-- The rows' one directory so far. `none` is the SystemExit: a row without a directory, or two directories.
abbrev pub same_dir : Option (List ℕ) → Option (List ℕ) → Option (List ℕ)
same_dir none _ = none
same_dir (some d) none = none
same_dir (some d) (some e) = if list_eq d e then some d else none

unfoldable pub one_dir : Index → Option (List ℕ)
unfolding dir_of
one_dir [] = none
one_dir ((vid, entry) ∷ []) = dir_of (get "file" entry)
one_dir ((vid, entry) ∷ row ∷ rows) = same_dir (dir_of (get "file" entry)) (one_dir (row ∷ rows))

abbrev pub is_kind : List ℕ → Bool
is_kind dir = any (λ kind. list_eq (codes kind) dir) replayed_kinds

abbrev pub no_verdict : Option (List ℕ) → Option (List ℕ)
no_verdict none = none
no_verdict (some dir) = if is_kind dir then none else some dir

-- `flat_layout`; `none` is the SystemExit.
unfoldable pub flat_layout : Index → Option (List ℕ)
unfolding one_dir
flat_layout idx = no_verdict (one_dir idx)

abbrev pub Listed : Type 0
Listed = List (String × List String)

abbrev pub kind_of : Fields → String
kind_of entry = elim (get "kind" entry) [ str kind ↦ kind | _ ↦ "" ]

-- `listed.setdefault(kind, []).append(vid)`
unfoldable pub add_vid : String → String → Listed → Listed
add_vid kind vid [] = (kind, vid ∷ []) ∷ []
add_vid kind vid ((k, ids) ∷ listed) =
    let rest = add_vid kind vid listed in
    if str_eq k kind then (k, ids ++ (vid ∷ [])) ∷ listed else (k, ids) ∷ rest

unfoldable pub group_vids : Index → Listed → Listed
unfolding add_vid
group_vids [] listed = listed
group_vids ((vid, entry) ∷ idx) listed = group_vids idx (add_vid (kind_of entry) vid listed)

unfoldable pub sort_all : Listed → Listed
unfolding sort_texts
sort_all [] = []
sort_all ((kind, ids) ∷ listed) = (kind, sort_texts ids) ∷ sort_all listed

unfoldable pub manifest_kinds : Index → Listed
unfolding group_vids sort_all
manifest_kinds idx = sort_all (group_vids idx [])

-- `listed.get(kind)`, with no identifiers for a kind that is missing
abbrev pub ids_at : String → Listed → List String
ids_at kind [] = []
ids_at kind ((k, ids) ∷ listed) = if str_eq k kind then ids else ids_at kind listed

abbrev pub kinds_in : Listed → List String
kinds_in [] = []
kinds_in ((k, ids) ∷ listed) = k ∷ kinds_in listed
