-- ===== src/Suite/Closed.antt =====
-- The suites in which `manifest_closure` of packaging/run_vectors.py refuses nothing.
use mathlib.Core.Option
use aee_conformance.Base.{
  ℕ, String, true, not, Option, none, some, List, [], ◌∷◌, ◌≡◌, refl, sym, ap, ◌∙◌, All, keep,
  mem_str, length, ==_iff,
}
use aee_conformance.Py.Value.{Value, null, bool, int, float, real, str, arr, obj, Fields, get}
use aee_conformance.Suite.Family.{Index, sort_texts}
use aee_conformance.Suite.Tree.{
  Tree, Listed, kind_of, flat_layout, manifest_kinds, ids_at, kinds_in,
}
use aee_conformance.Suite.Closure.{
  Refusal, total_differs, refuse_each, is_replayed, closure_kind_coverage, declared_file,
  file_refusals, replayed_vids, is_listed, closure_flat, closure_directories, count_refusals,
  total_rows, counts_against_rows, closure_counts, closure_under, manifest_closure,
}
use aee_conformance.Suite.Listing.{all_at, sort-mem, vids_of, total_rows-manifest_kinds}
use aee_conformance.Suite.Members.{
  IsUnder, under-kinds_in, under-ids_at, is_listed-manifest_kinds, manifest_kinds-IsUnder,
}
use aee_conformance.Suite.Refusals.{
  both_silent, each_silent, IsPresent, present, under_replayed, all_kept, each_listed,
  kinds_replayed, flipped, no_refusal,
}

abbrev pub IsScored : Tree → Index → String × Fields → Type 0
IsScored tree idx row =
    (is_replayed (kind_of row.1) ≡ true) × IsPresent tree (declared_file row.0 idx)

-- Each row is of a kind that is scored and its file is there, and the flat directory has as many
-- files as there are rows, each of them named by a row.
abbrev pub IsClosed : Tree → Index → List ℕ → Type 0
IsClosed tree idx flat =
    All (IsScored tree idx) idx
    × All (λ vid. mem_str vid (vids_of idx) ≡ true) (tree.vector_files_in flat)
    × (length (tree.vector_files_in flat) ≡ length idx)

all_files :
    (tree : Tree) (idx : Index) (listed : Listed)
    → refuse_each
        (λ vid. file_refusals tree vid (declared_file vid idx))
        (replayed_vids listed (sort_texts (kinds_in listed)))
      ≡ []
    → (kind vid : String) → is_replayed kind ≡ true
    → IsUnder vid kind listed
    → IsPresent tree (declared_file vid idx)
all_files tree idx listed h kind vid r u =
    let kinds =
      under_replayed (λ v. file_refusals tree v (declared_file v idx) ≡ []) listed
        (sort_texts (kinds_in listed))
        (each_silent (λ v. file_refusals tree v (declared_file v idx))
          (replayed_vids listed (sort_texts (kinds_in listed))) h) in
    let ids =
      all_at
        (λ k.
          is_replayed k ≡ true
          → All (λ v. file_refusals tree v (declared_file v idx) ≡ []) (ids_at k listed))
        kind (sort_texts (kinds_in listed)) kinds
        (sort-mem kind (kinds_in listed) ∙ under-kinds_in vid kind listed u) r in
    present tree vid (declared_file vid idx) (
      all_at (λ v. file_refusals tree v (declared_file v idx) ≡ []) vid (ids_at kind listed) ids
        (under-ids_at vid kind listed u))

total_matches :
    (tree : Tree) (v : Value) (listed : Listed) (flat : List ℕ)
    → closure_counts tree v listed flat ≡ []
    → length (tree.vector_files_in flat) ≡ total_rows listed
unfolding closure_counts counts_against_rows
total_matches tree (obj counts) listed flat h =
    let against = (both_silent (counts_against_rows tree counts listed flat) _ h).0 in
    let total =
      (both_silent (refuse_each (count_refusals counts listed) (sort_texts (kinds_in listed))) _
        against).1 in
    (==_iff _ _).0 (flipped _ (no_refusal _ total_differs total))
total_matches tree null listed flat h = cc
total_matches tree (bool b) listed flat h = cc
total_matches tree (int n) listed flat h = cc
total_matches tree (float n) listed flat h = cc
total_matches tree (real s) listed flat h = cc
total_matches tree (str s) listed flat h = cc
total_matches tree (arr xs) listed flat h = cc

scored :
    (tree : Tree) (idx rows : Index)
    → ((kind : String)
        → mem_str kind (kinds_in (manifest_kinds idx)) ≡ true
        → is_replayed kind ≡ true)
    → ((kind vid : String)
        → is_replayed kind ≡ true
        → IsUnder vid kind (manifest_kinds idx)
        → IsPresent tree (declared_file vid idx))
    → All (λ row. IsUnder row.0 (kind_of row.1) (manifest_kinds idx)) rows
    → All (IsScored tree idx) rows
scored tree idx [] f g h = tt
scored tree idx ((vid, entry) ∷ rows) f g h =
    let replayed =
      f (kind_of entry) (under-kinds_in vid (kind_of entry) (manifest_kinds idx) h.0) in
    ((replayed, g (kind_of entry) vid replayed h.0), scored tree idx rows f g h.1)

named :
    (idx : Index) (vids : List String)
    → All (λ vid. is_listed (manifest_kinds idx) vid ≡ true) vids
    → All (λ vid. mem_str vid (vids_of idx) ≡ true) vids
named idx [] h = tt
named idx (vid ∷ vids) h = (sym (is_listed-manifest_kinds vid idx) ∙ h.0, named idx vids h.1)

closure_under-IsClosed :
    (tree : Tree) (manifest : Fields) (idx : Index) (flat : List ℕ) (unlisted : List String)
    → (refusals : List Refusal)
    → closure_under tree manifest idx (manifest_kinds idx) flat ≡ (refusals, unlisted)
    → refusals ≡ []
    → IsClosed tree idx flat × (unlisted ≡ [])
unfolding closure_under closure_flat
closure_under-IsClosed tree manifest idx flat unlisted refusals h e =
    let listed = manifest_kinds idx in
    let all_silent = ap (λ t. t.0) h ∙ e in
    let (kinds, r1) = both_silent (closure_kind_coverage listed) _ all_silent in
    let (both, r2) = both_silent (closure_flat tree idx listed flat).0 _ r1 in
    let (dirs, counts) = both_silent (closure_directories tree listed flat) _ r2 in
    let (files, extra) =
      both_silent
        (refuse_each (λ vid. file_refusals tree vid (declared_file vid idx))
          (replayed_vids listed (sort_texts (kinds_in listed))))
        _ both in
    let none_unlisted =
      each_listed (keep (λ vid. not (is_listed listed vid)) (tree.vector_files_in flat)) extra in
    (
      (
        scored tree idx idx (λ kind m. kinds_replayed listed kind kinds m)
            (all_files tree idx listed files) (manifest_kinds-IsUnder idx),
        named idx (tree.vector_files_in flat)
            (all_kept (is_listed listed) (tree.vector_files_in flat) none_unlisted),
        total_matches tree (get "counts" manifest) listed flat counts
            ∙ total_rows-manifest_kinds idx,
      ),
      sym (ap (λ t. t.1) h) ∙ none_unlisted,
    )

abbrev pub closure_result : List Refusal → List String → Option (List Refusal × List String)
closure_result refusals unlisted = some (refusals, unlisted)

-- If manifest_closure returns without a refusal, the rows have one directory whose name is no verdict, each
-- row is of a kind that is scored and declares a file that is on disk, the directory has exactly as many
-- vector files as there are rows and each is named by a row, and no file is reported as unlisted.
pub manifest_closure-IsClosed :
    (tree : Tree) (manifest : Fields) (idx : Index) (unlisted : List String)
    → manifest_closure tree manifest idx ≡ closure_result [] unlisted
    → (flat : List ℕ) × (flat_layout idx ≡ some flat) × IsClosed tree idx flat × (unlisted ≡ [])
unfolding manifest_closure
manifest_closure-IsClosed tree manifest idx unlisted h = split (flat_layout idx) refl h
  where
    pair_of :
        (p : List Refusal × List String) → some p ≡ closure_result [] unlisted → p ≡ ([], unlisted)
    pair_of p e = cc

    split :
        (o : Option (List ℕ))
        → flat_layout idx ≡ o
        → Option.map (closure_under tree manifest idx (manifest_kinds idx)) o
          ≡ closure_result [] unlisted
        → (flat : List ℕ) × (flat_layout idx ≡ some flat) × IsClosed tree idx flat × (unlisted ≡ [])
    split none e k = cc
    split (some flat) e k =
        let (closed, last) =
          closure_under-IsClosed tree manifest idx flat unlisted []
            (pair_of (closure_under tree manifest idx (manifest_kinds idx) flat) k) refl in
        (flat, e, closed, last)
