-- ===== src/Suite/Family.antt =====
-- `family_coherence_failures` and `_answers` of packaging/run_vectors.py: the half of the indeterminate
-- contract that is a property of several rows at once.
use aee_conformance.Base.{
  ℕ, String, Bool, true, false, not, ◌&&◌, Option, none, some, List, [], ◌∷◌, ◌++◌, codes, all,
  keep, length, is_empty, if◌then◌else◌, str_eq, mem_str, ◌==◌,
}
use aee_conformance.Py.Value.{Fields}
use aee_conformance.Jcs.{lex_lt}
use aee_conformance.Suite.Expected.{expected_of, readings_of}

-- What is read of a finished row.
pub record Member : Type 0 where
  pub id : String
  pub kind : String
  pub primary_code : Option String
  pub codes : List String

-- The manifest's entries by their identifier, and `idx.get(id)`.
abbrev pub Index : Type 0
Index = List (String × Fields)

abbrev pub entry_at : String → Index → Option Fields
entry_at id [] = none
entry_at id ((k, e) ∷ idx) = if str_eq k id then some e else entry_at id idx

-- `readings.get(reading)`
abbrev pub reading_at : String → List (String × String) → Option String
reading_at name [] = none
reading_at name ((k, v) ∷ rs) = if str_eq k name then some v else reading_at name rs

abbrev pub same_code : Option String → Option String → Bool
same_code none none = true
same_code (some a) (some b) = str_eq a b
same_code _ _ = false

abbrev pub reported : Option String → List String → Bool
reported none observed = false
reported (some c) observed = mem_str c observed

-- `_answers`
unfoldable pub answers : Index → Bool → String → Member → Bool
unfolding readings_of
answers idx committed name m =
    let predicted = reading_at name (readings_of (entry_at m.id idx)) in
    if committed then same_code predicted m.primary_code else reported predicted m.codes

-- The family of an indeterminate row; "" of any other.
unfoldable pub family_of : Index → Member → String
unfolding expected_of
family_of idx m =
    if str_eq m.kind "indeterminate" then (expected_of (entry_at m.id idx)).family else ""

abbrev pub Group : Type 0
Group = String × List Member

-- `families.setdefault(family, []).append(row)`
unfoldable pub add_member : String → Member → List Group → List Group
add_member f m [] = (f, m ∷ []) ∷ []
add_member f m ((g, ms) ∷ gs) =
    let rest = add_member f m gs in if str_eq g f then (g, ms ++ (m ∷ [])) ∷ gs else (g, ms) ∷ rest

unfoldable pub group_rows : Index → List Group → List Member → List Group
unfolding family_of add_member
group_rows idx gs [] = gs
group_rows idx gs (m ∷ ms) =
    let f = family_of idx m in group_rows idx (if str_eq f "" then gs else add_member f m gs) ms

-- `sorted`, by the name of the family or of the reading
unfoldable pub insert_group : Group → List Group → List Group
insert_group g [] = g ∷ []
insert_group g (h ∷ hs) =
    let rest = insert_group g hs in if lex_lt (codes h.0) (codes g.0) then h ∷ rest else g ∷ h ∷ hs

unfoldable pub sort_groups : List Group → List Group
unfolding insert_group
sort_groups [] = []
sort_groups (g ∷ gs) = insert_group g (sort_groups gs)

unfoldable pub insert_text : String → List String → List String
insert_text s [] = s ∷ []
insert_text s (t ∷ ts) =
    let rest = insert_text s ts in if lex_lt (codes t) (codes s) then t ∷ rest else s ∷ t ∷ ts

unfoldable pub sort_texts : List String → List String
unfolding insert_text
sort_texts [] = []
sort_texts (s ∷ ss) = insert_text s (sort_texts ss)

abbrev pub reading_names : List (String × String) → List String
reading_names [] = []
reading_names ((k, v) ∷ rs) = k ∷ reading_names rs

-- `sorted(readings_of(idx.get(members[0]["id"])))`
unfoldable pub declared_readings : Index → List Member → List String
unfolding sort_texts readings_of
declared_readings idx [] = []
declared_readings idx (m ∷ ms) = sort_texts (reading_names (readings_of (entry_at m.id idx)))

abbrev pub has_primary : Member → Bool
has_primary m = elim (m.primary_code) [ none ↦ false | some c ↦ not (str_eq c "") ]

unfoldable pub matched : Index → List Member → List String
unfolding answers declared_readings
matched idx ms =
    keep (λ name. all (answers idx (all has_primary ms) name) ms) (declared_readings idx ms)

-- A note: the readings that a family matched, and whether the rail committed to the only one.
pub record Note : Type 0 where
  pub family : String
  pub readings : List String
  pub committed : Bool
  pub size : ℕ

abbrev pub note_of : Group → List String → Bool → Note
note_of (f, ms) readings committed = record {
  family = f;
  readings = readings;
  committed = committed && (length readings == 1);
  size = length ms;
}

-- The notes, and the families that no reading explains.
unfoldable pub judge_groups : Index → List Group → List Note × List String
unfolding matched
judge_groups idx [] = ([], [])
judge_groups idx ((f, ms) ∷ gs) =
    let rest = judge_groups idx gs in
    let readings = matched idx ms in
    if is_empty readings
    then (rest.0, f ∷ rest.1)
    else (note_of (f, ms) readings (all has_primary ms) ∷ rest.0, rest.1)

unfoldable pub family_coherence_failures : Index → List Member → List Note × List String
unfolding judge_groups sort_groups group_rows
family_coherence_failures idx rows = judge_groups idx (sort_groups (group_rows idx [] rows))
