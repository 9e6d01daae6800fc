-- ===== src/Artifact/Lineage.antt =====
-- tools/artifact-binding/regrade.py: `check_lineage`. The problems of a chain are kept as constructors, with
-- the index that their message names.
use aee_conformance.Base.{
  ℕ, suc, String, Bool, true, false, not, Option, none, some, List, [], ◌∷◌, ◌++◌, if◌then◌else◌,
  length, ◌==◌, mem_str,
}
use aee_conformance.Py.Value.{Fields, get, is_text}
use aee_conformance.Artifact.Tools.{Tools}
use aee_conformance.Artifact.Verify.{as_text}

pub data Problem : Type 0 where
  empty_chain archives_differ first_not_execute : Problem
  source_differs not_regrade : ℕ → Problem

-- The members of a set that is built from the list.
unfoldable pub distinct : List String → List String
distinct [] = []
distinct (x ∷ xs) = let rest = distinct xs in if mem_str x rest then rest else x ∷ rest

abbrev pub problem_if : Bool → Problem → List Problem
problem_if true problem = problem ∷ []
problem_if false problem = []

abbrev pub with_problem : List Problem → Option (List Problem) → Option (List Problem)
with_problem ps none = none
with_problem ps (some qs) = some (ps ++ qs)

-- The first loop, from an index on, with the digests of the records before; `none` is an `IndexError`.
unfoldable pub source_problems : ℕ → List Fields → List String → Option (List Problem)
source_problems index [] digests = some []
source_problems index (r ∷ rs) [] = none
source_problems index (r ∷ rs) (d ∷ ds) =
    with_problem
      (problem_if (not (is_text d (get "source_record_digest" r))) (source_differs index))
      (source_problems (suc index) rs ds)

unfoldable pub regrade_problems : ℕ → List Fields → List Problem
regrade_problems index [] = []
regrade_problems index (r ∷ rs) =
    problem_if (not (is_text "regrade" (get "operation" r))) (not_regrade index)
    ++ regrade_problems (suc index) rs

module _ (T : Tools) where
  abbrev pub archive_text : Fields → String
  archive_text r = as_text T (get "source_archive_digest" r)

  abbrev pub archive_texts : List Fields → List String
  archive_texts [] = []
  archive_texts (r ∷ rs) = archive_text r ∷ archive_texts rs

  abbrev pub with_rest : List Problem → List Problem → Option (List Problem) → Option (List Problem)
  with_rest before behind none = none
  with_rest before behind (some sources) = some (before ++ (sources ++ behind))

  unfoldable pub check_lineage : List Fields → List String → Option (List Problem)
  unfolding distinct source_problems regrade_problems
  check_lineage [] digests = some (empty_chain ∷ [])
  check_lineage (first ∷ rest) digests =
      with_rest
        (problem_if (not (length (distinct (archive_texts (first ∷ rest))) == 1)) archives_differ)
        (problem_if (not (is_text "execute" (get "operation" first))) first_not_execute
          ++ regrade_problems 1 rest)
        (source_problems 1 rest digests)
