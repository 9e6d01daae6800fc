-- ===== src/Suite/Listing.antt =====
-- The rows of a manifest and the listing of `manifest_kinds` in packaging/run_vectors.py: sorted and
-- grouped by kind, the rows are all there, once each.
use aee_conformance.Base.{
  String, Bool, true, false, ◌||◌, List, [], ◌∷◌, ◌++◌, ◌+◌, ◌≡◌, refl, ap, ◌∙◌, All, codes,
  if◌then◌else◌, str_eq, eq_iff, mem_str, length, length-append, arith,
}
use aee_conformance.Jcs.{lex_lt}
use aee_conformance.Suite.Family.{Index, insert_text, sort_texts}
use aee_conformance.Suite.Tree.{Listed, kind_of, add_vid, group_vids, sort_all, manifest_kinds}
use aee_conformance.Suite.Closure.{total_rows}

pub all_at :
    (P : String → Type 0) (x : String) (xs : List String) → All P xs → mem_str x xs ≡ true → P x
all_at P x [] h m = cc
all_at P x (y ∷ ys) h m = split (str_eq x y) refl (all_at P x ys h.1) m
  where
    moved : x ≡ y → P x
    moved e = rw e h.0

    split :
        (b : Bool) → str_eq x y ≡ b → (mem_str x ys ≡ true → P x) → b || mem_str x ys ≡ true → P x
    split true e ih k = moved ((eq_iff x y).0 e)
    split false e ih k = ih k

insert-mem :
    (v s : String) (ts : List String) → mem_str v (insert_text s ts) ≡ str_eq v s || mem_str v ts
unfolding insert_text
insert-mem v s [] = refl
insert-mem v s (t ∷ ts) = split (lex_lt (codes t) (codes s)) (insert-mem v s ts)
  where
    swap : (a b c : Bool) → b || (a || c) ≡ a || (b || c)
    swap true true c = refl
    swap true false c = refl
    swap false true c = refl
    swap false false c = refl

    split :
        (b : Bool)
        → mem_str v (insert_text s ts) ≡ str_eq v s || mem_str v ts
        → mem_str v (if b then t ∷ insert_text s ts else s ∷ t ∷ ts)
          ≡ str_eq v s || (str_eq v t || mem_str v ts)
    split true ih =
        ap (λ (m : Bool). str_eq v t || m) ih ∙ swap (str_eq v s) (str_eq v t) (mem_str v ts)
    split false ih = refl

pub sort-mem : (v : String) (ts : List String) → mem_str v (sort_texts ts) ≡ mem_str v ts
unfolding sort_texts
sort-mem v [] = refl
sort-mem v (t ∷ ts) =
    insert-mem v t (sort_texts ts) ∙ ap (λ (m : Bool). str_eq v t || m) (sort-mem v ts)

length-insert_text : (s : String) (ts : List String) → length (insert_text s ts) ≡ length ts + 1
unfolding insert_text
length-insert_text s [] = refl
length-insert_text s (t ∷ ts) = split (lex_lt (codes t) (codes s)) (length-insert_text s ts)
  where
    split :
        (b : Bool)
        → length (insert_text s ts) ≡ length ts + 1
        → length (if b then t ∷ insert_text s ts else s ∷ t ∷ ts) ≡ length (t ∷ ts) + 1
    split true ih = omega (arith, ih)
    split false ih = omega arith

length-sort_texts : (ts : List String) → length (sort_texts ts) ≡ length ts
unfolding sort_texts
length-sort_texts [] = refl
length-sort_texts (t ∷ ts) =
    omega (arith, length-insert_text t (sort_texts ts), length-sort_texts ts)

abbrev pub vids_of : Index → List String
vids_of [] = []
vids_of ((vid, entry) ∷ idx) = vid ∷ vids_of idx

-- The size of the listing
total_rows-add_vid :
    (kind vid : String) (listed : Listed)
    → total_rows (add_vid kind vid listed) ≡ total_rows listed + 1
unfolding add_vid
total_rows-add_vid kind vid [] = refl
total_rows-add_vid kind vid ((k, ids) ∷ listed) =
    split (str_eq k kind) (total_rows-add_vid kind vid listed)
  where
    split :
        (b : Bool)
        → total_rows (add_vid kind vid listed) ≡ total_rows listed + 1
        → total_rows
            (if b then (k, ids ++ (vid ∷ [])) ∷ listed else (k, ids) ∷ add_vid kind vid listed)
          ≡ (length ids + total_rows listed) + 1
    split true ih = omega (arith, length-append ids (vid ∷ []))
    split false ih = omega (arith, ih)

total_rows-group_vids :
    (idx : Index) (listed : Listed)
    → total_rows (group_vids idx listed) ≡ total_rows listed + length idx
unfolding group_vids
total_rows-group_vids [] listed = omega arith
total_rows-group_vids ((vid, entry) ∷ idx) listed = omega (
  arith,
  total_rows-group_vids idx (add_vid (kind_of entry) vid listed),
  total_rows-add_vid (kind_of entry) vid listed,
)

total_rows-sort_all : (listed : Listed) → total_rows (sort_all listed) ≡ total_rows listed
unfolding sort_all
total_rows-sort_all [] = refl
total_rows-sort_all ((k, ids) ∷ listed) =
    omega (arith, length-sort_texts ids, total_rows-sort_all listed)

pub total_rows-manifest_kinds : (idx : Index) → total_rows (manifest_kinds idx) ≡ length idx
unfolding manifest_kinds
total_rows-manifest_kinds idx =
    omega (arith, total_rows-sort_all (group_vids idx []), total_rows-group_vids idx [])
