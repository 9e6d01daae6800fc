-- ===== src/Examples/Suites.antt =====
-- A suite of three vectors for `manifest_closure` of packaging/run_vectors.py.
use aee_conformance.Base.{
  ℕ, String, none, some, List, [], ◌∷◌, ◌≡◌, refl, codes, list_eq, mem_str, if◌then◌else◌,
}
use aee_conformance.Base.Int.{pos}
use aee_conformance.Py.Value.{Value, int, str, arr, obj, Fields, end, field, nil, cons}
use aee_conformance.Jcs.{lex_lt}
use aee_conformance.Suite.Family.{Index}
use aee_conformance.Suite.Tree.{Tree, manifest_index, flat_layout}
use aee_conformance.Suite.Closure.{manifest_closure, unlisted_file, total_differs}
use aee_conformance.Suite.Closed.{closure_result, IsClosed, manifest_closure-IsClosed}

abbrev vector : String → String → String → Value
vector id kind file =
    obj (field "id" (str id) (field "kind" (str kind) (field "file" (str file) end)))

abbrev manifest : Fields
manifest =
    field "vectors"
      (arr (
        cons (vector "a" "accept" "statements/a.json") (
          cons (vector "b" "indeterminate" "statements/b.json")
            (cons (vector "c" "reject" "statements/c.json") nil))))
      (field "counts"
        (obj (
          field "accept" (int (pos 1))
            (field "indeterminate" (int (pos 1)) (field "reject" (int (pos 1)) end))))
        end)

abbrev rows : Index
unfolding manifest_index
rows = manifest_index manifest

abbrev files : List String
files = "statements/a.json" ∷ "statements/b.json" ∷ "statements/c.json" ∷ []

abbrev tree_of : List String → Tree
tree_of ids = record {
  directories = "keys" ∷ "statements" ∷ [];
  vector_files_in = λ dir. if list_eq dir (codes "statements") then ids else [];
  isfile = λ path. mem_str path files;
}

abbrev tree : Tree
tree = tree_of ("a" ∷ "b" ∷ "c" ∷ [])

abbrev no_ids : List String
no_ids = []

is_closed : manifest_closure tree manifest rows ≡ closure_result [] []
unfolding manifest_closure rows lex_lt
is_closed = refl

is_open :
    manifest_closure (tree_of ("a" ∷ "b" ∷ "c" ∷ "d" ∷ [])) manifest rows
    ≡ closure_result (unlisted_file "d" ∷ total_differs ∷ []) ("d" ∷ [])
unfolding manifest_closure rows lex_lt
is_open = refl

verdict_directory : flat_layout (("a", field "file" (str "accept/a.json") end) ∷ []) ≡ none
unfolding flat_layout
verdict_directory = refl

manifest_closure-IsClosed_example :
    (flat : List ℕ) × (flat_layout rows ≡ some flat) × IsClosed tree rows flat × (no_ids ≡ [])
manifest_closure-IsClosed_example = manifest_closure-IsClosed tree manifest rows no_ids is_closed
