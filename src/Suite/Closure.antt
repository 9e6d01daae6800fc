-- ===== src/Suite/Closure.antt =====
-- `manifest_closure` of packaging/run_vectors.py with its checks: the manifest against the suite's tree.
-- A refusal is kept as a constructor with what its message names.
use mathlib.Core.Option
use aee_conformance.Base.{
  ℕ, String, Bool, false, not, ◌||◌, Option, none, some, List, [], ◌∷◌, ◌++◌, ◌+◌, codes, keep,
  is_empty, if◌then◌else◌, str_eq, mem_str, list_eq, ◌==◌, length,
}
use aee_conformance.Base.Int.{pos}
use aee_conformance.Py.Value.{Value, null, int, str, obj, Fields, end, field, get, has, eq}
use aee_conformance.Suite.Family.{Index, entry_at, sort_texts}
use aee_conformance.Suite.Tree.{
  Tree, Listed, replayed_kinds, suite_non_vector_dirs, flat_layout, manifest_kinds, ids_at,
  kinds_in,
}

pub data Refusal : Type 0 where
  unscored_kind empty_kind no_file absent_file unlisted_file stray_directory : String → Refusal
  vectors_beside count_absent count_differs count_extra : String → Refusal
  no_counts counts_not_object total_differs : Refusal

abbrev pub refuse_if : Bool → Refusal → List Refusal
refuse_if b r = if b then r ∷ [] else []

abbrev pub refuse_each : (String → List Refusal) → List String → List Refusal
refuse_each f [] = []
refuse_each f (x ∷ xs) = f x ++ refuse_each f xs

abbrev pub is_replayed : String → Bool
is_replayed kind = mem_str kind replayed_kinds

-- `_closure_kind_coverage`
unfoldable pub closure_kind_coverage : Listed → List Refusal
unfolding sort_texts
closure_kind_coverage listed =
    refuse_each (λ kind. refuse_if (not (is_replayed kind)) (unscored_kind kind))
      (sort_texts (kinds_in listed))
    ++ refuse_each (λ kind. refuse_if (is_empty (ids_at kind listed)) (empty_kind kind))
        replayed_kinds

abbrev pub declared_file : String → Index → Value
declared_file vid idx = elim (entry_at vid idx) [ none ↦ null | some entry ↦ get "file" entry ]

abbrev pub file_refusals : Tree → String → Value → List Refusal
file_refusals tree vid (str file) =
    if str_eq file ""
    then no_file vid ∷ []
    else refuse_if (not (tree.isfile file)) (absent_file vid)
file_refusals tree vid _ = no_file vid ∷ []

-- The identifiers of the kinds that are replayed, in the order of the kinds.
abbrev pub replayed_vids : Listed → List String → List String
replayed_vids listed [] = []
replayed_vids listed (kind ∷ kinds) =
    if is_replayed kind
    then ids_at kind listed ++ replayed_vids listed kinds
    else replayed_vids listed kinds

abbrev pub is_listed : Listed → String → Bool
is_listed [] vid = false
is_listed ((k, ids) ∷ listed) vid = mem_str vid ids || is_listed listed vid

-- `_closure_flat`: the refusals, and the files that no row names.
unfoldable pub closure_flat : Tree → Index → Listed → List ℕ → List Refusal × List String
unfolding sort_texts
closure_flat tree idx listed flat =
    let unlisted = keep (λ vid. not (is_listed listed vid)) (tree.vector_files_in flat) in
    (
      refuse_each (λ vid. file_refusals tree vid (declared_file vid idx))
            (replayed_vids listed (sort_texts (kinds_in listed)))
          ++ refuse_each (λ vid. unlisted_file vid ∷ []) unlisted,
      unlisted,
    )

abbrev pub directory_refusals : Tree → Listed → List ℕ → String → List Refusal
directory_refusals tree listed flat name =
    if mem_str name (kinds_in listed) || list_eq (codes name) flat
    then []
    else if not (mem_str name suite_non_vector_dirs)
    then stray_directory name ∷ []
    else refuse_if (not (is_empty (tree.vector_files_in (codes name)))) (vectors_beside name)

-- `_closure_directories`
unfoldable pub closure_directories : Tree → Listed → List ℕ → List Refusal
closure_directories tree listed flat =
    refuse_each (directory_refusals tree listed flat) tree.directories

abbrev pub count_refusals : Fields → Listed → String → List Refusal
count_refusals counts listed kind =
    if not (is_replayed kind)
    then []
    else if not (has kind counts)
    then count_absent kind ∷ []
    else refuse_if (not (eq (get kind counts) (int (pos (length (ids_at kind listed))))))
        (count_differs kind)

abbrev pub total_rows : Listed → ℕ
total_rows [] = 0
total_rows ((k, ids) ∷ listed) = length ids + total_rows listed

-- `_counts_against_rows`
unfoldable pub counts_against_rows : Tree → Fields → Listed → List ℕ → List Refusal
unfolding sort_texts eq
counts_against_rows tree counts listed flat =
    refuse_each (count_refusals counts listed) (sort_texts (kinds_in listed))
    ++ refuse_if (not (length (tree.vector_files_in flat) == total_rows listed)) total_differs

abbrev pub names_of : Fields → List String
names_of end = []
names_of (field k v fs) = k ∷ names_of fs

-- `_closure_counts`
unfoldable pub closure_counts : Tree → Value → Listed → List ℕ → List Refusal
unfolding counts_against_rows sort_texts
closure_counts tree null listed flat = no_counts ∷ []
closure_counts tree (obj counts) listed flat =
    counts_against_rows tree counts listed flat
    ++ refuse_each (λ kind. refuse_if (not (mem_str kind (kinds_in listed))) (count_extra kind))
        (sort_texts (names_of counts))
closure_counts tree _ listed flat = counts_not_object ∷ []

-- The refusals of a suite whose vectors are under one directory.
unfoldable pub closure_under : Tree → Fields → Index → Listed → List ℕ → List Refusal × List String
unfolding closure_kind_coverage closure_flat closure_directories closure_counts
closure_under tree manifest idx listed flat =
    let both = closure_flat tree idx listed flat in
    (
      closure_kind_coverage listed
          ++ (both.0
              ++ (closure_directories tree listed flat
                  ++ closure_counts tree (get "counts" manifest) listed flat)),
      both.1,
    )

-- `manifest_closure`; `none` is the SystemExit of `flat_layout`.
unfoldable pub manifest_closure : Tree → Fields → Index → Option (List Refusal × List String)
unfolding closure_under manifest_kinds flat_layout
manifest_closure tree manifest idx =
    Option.map (closure_under tree manifest idx (manifest_kinds idx)) (flat_layout idx)
