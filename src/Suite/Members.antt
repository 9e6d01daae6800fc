-- ===== src/Suite/Members.antt =====
-- Which rows the listing of `manifest_kinds` in packaging/run_vectors.py has under a kind.
use aee_conformance.Base.{
  String, Bool, true, false, ◌||◌, List, [], ◌∷◌, ◌++◌, ◌≡◌, refl, sym, ap, ◌∙◌, All, ◌⊎◌, inl, inr,
  if◌then◌else◌, str_eq, str_eq_refl, eq_iff, mem_str,
}
use aee_conformance.Py.Value.{Fields}
use aee_conformance.Suite.Family.{Index}
use aee_conformance.Suite.Tree.{
  Listed, kind_of, add_vid, group_vids, sort_all, manifest_kinds, ids_at, kinds_in,
}
use aee_conformance.Suite.Closure.{is_listed}
use aee_conformance.Suite.Listing.{sort-mem, vids_of}

or_assoc : (a b c : Bool) → a || (b || c) ≡ (a || b) || c
or_assoc true b c = refl
or_assoc false b c = refl

or_last : (a : Bool) → a || true ≡ true
or_last true = refl
or_last false = refl

or_none : (a : Bool) → a || false ≡ a
or_none true = refl
or_none false = refl

or_inner : (a b c : Bool) → (a || (b || false)) || c ≡ (a || c) || b
or_inner true b c = refl
or_inner false true true = refl
or_inner false true false = refl
or_inner false false true = refl
or_inner false false false = refl

mem-append :
    (v : String) (xs ys : List String) → mem_str v (xs ++ ys) ≡ mem_str v xs || mem_str v ys
mem-append v [] ys = refl
mem-append v (x ∷ xs) ys =
    ap (λ (b : Bool). str_eq v x || b) (mem-append v xs ys)
    ∙ or_assoc (str_eq v x) (mem_str v xs) (mem_str v ys)

mem_last : (v : String) (xs : List String) → mem_str v (xs ++ (v ∷ [])) ≡ true
mem_last v xs =
    mem-append v xs (v ∷ [])
    ∙ ap (λ (b : Bool). mem_str v xs || (b || false)) (str_eq_refl v)
    ∙ or_last (mem_str v xs)

mem_before : (v : String) (xs ys : List String) → mem_str v xs ≡ true → mem_str v (xs ++ ys) ≡ true
mem_before v xs ys h = mem-append v xs ys ∙ ap (λ (b : Bool). b || mem_str v ys) h

-- The identifier is in the first entry of the kind.
abbrev pub IsUnder : String → String → Listed → Type 0
IsUnder vid kind [] = ⊥
IsUnder vid kind ((k, ids) ∷ listed) =
    ((str_eq k kind ≡ true) × (mem_str vid ids ≡ true))
    ⊎ ((str_eq k kind ≡ false) × IsUnder vid kind listed)

add_vid-IsUnder : (kind vid : String) (listed : Listed) → IsUnder vid kind (add_vid kind vid listed)
unfolding add_vid
add_vid-IsUnder kind vid [] = inl (str_eq_refl kind, mem_last vid [])
add_vid-IsUnder kind vid ((k, ids) ∷ listed) =
    split (str_eq k kind) refl (add_vid-IsUnder kind vid listed)
  where
    split :
        (b : Bool)
        → str_eq k kind ≡ b
        → IsUnder vid kind (add_vid kind vid listed)
        → IsUnder vid kind
            (if b then (k, ids ++ (vid ∷ [])) ∷ listed else (k, ids) ∷ add_vid kind vid listed)
    split true e ih = inl (e, mem_last vid ids)
    split false e ih = inr (e, ih)

add_vid-keeps :
    (kind vid j v : String) (listed : Listed)
    → IsUnder v j listed
    → IsUnder v j (add_vid kind vid listed)
unfolding add_vid
add_vid-keeps kind vid j v [] h = absurd h
add_vid-keeps kind vid j v ((k, ids) ∷ listed) h =
    split (str_eq k kind) h (add_vid-keeps kind vid j v listed)
  where
    split :
        (b : Bool)
        → IsUnder v j ((k, ids) ∷ listed)
        → (IsUnder v j listed → IsUnder v j (add_vid kind vid listed))
        → IsUnder v j
            (if b then (k, ids ++ (vid ∷ [])) ∷ listed else (k, ids) ∷ add_vid kind vid listed)
    split true (inl (e, m)) ih = inl (e, mem_before v ids (vid ∷ []) m)
    split true (inr (e, m)) ih = inr (e, m)
    split false (inl (e, m)) ih = inl (e, m)
    split false (inr (e, m)) ih = inr (e, ih m)

group_vids-keeps :
    (v j : String) (idx : Index) (listed : Listed)
    → IsUnder v j listed
    → IsUnder v j (group_vids idx listed)
unfolding group_vids
group_vids-keeps v j [] listed h = h
group_vids-keeps v j ((vid, entry) ∷ idx) listed h =
    group_vids-keeps v j idx (add_vid (kind_of entry) vid listed)
      (add_vid-keeps (kind_of entry) vid j v listed h)

group_vids-IsUnder :
    (idx : Index) (listed : Listed)
    → All (λ row. IsUnder row.0 (kind_of row.1) (group_vids idx listed)) idx
unfolding group_vids
group_vids-IsUnder [] listed = tt
group_vids-IsUnder ((vid, entry) ∷ idx) listed = (
  group_vids-keeps vid (kind_of entry) idx (add_vid (kind_of entry) vid listed)
      (add_vid-IsUnder (kind_of entry) vid listed),
  group_vids-IsUnder idx (add_vid (kind_of entry) vid listed),
)

pub sort_all-IsUnder :
    (vid kind : String) (listed : Listed)
    → IsUnder vid kind listed
    → IsUnder vid kind (sort_all listed)
unfolding sort_all
sort_all-IsUnder vid kind [] h = absurd h
sort_all-IsUnder vid kind ((k, ids) ∷ listed) (inl (e, m)) = inl (e, sort-mem vid ids ∙ m)
sort_all-IsUnder vid kind ((k, ids) ∷ listed) (inr (e, m)) =
    inr (e, sort_all-IsUnder vid kind listed m)

pub under-kinds_in :
    (vid kind : String) (listed : Listed)
    → IsUnder vid kind listed
    → mem_str kind (kinds_in listed) ≡ true
under-kinds_in vid kind [] h = absurd h
under-kinds_in vid kind ((k, ids) ∷ listed) (inl (e, m)) =
    rw ((eq_iff k kind).0 e, str_eq_refl kind) refl
under-kinds_in vid kind ((k, ids) ∷ listed) (inr (e, m)) =
    ap (λ (b : Bool). str_eq kind k || b) (under-kinds_in vid kind listed m)
    ∙ or_last (str_eq kind k)

pub under-ids_at :
    (vid kind : String) (listed : Listed)
    → IsUnder vid kind listed
    → mem_str vid (ids_at kind listed) ≡ true
under-ids_at vid kind [] h = absurd h
under-ids_at vid kind ((k, ids) ∷ listed) (inl (e, m)) = rw e m
under-ids_at vid kind ((k, ids) ∷ listed) (inr (e, m)) = rw e (under-ids_at vid kind listed m)

is_listed-add_vid :
    (kind vid v : String) (listed : Listed)
    → is_listed (add_vid kind vid listed) v ≡ is_listed listed v || str_eq v vid
unfolding add_vid
is_listed-add_vid kind vid v [] = or_none (str_eq v vid || false) ∙ or_none (str_eq v vid)
is_listed-add_vid kind vid v ((k, ids) ∷ listed) =
    split (str_eq k kind) (is_listed-add_vid kind vid v listed)
  where
    split :
        (b : Bool)
        → is_listed (add_vid kind vid listed) v ≡ is_listed listed v || str_eq v vid
        → is_listed
            (if b then (k, ids ++ (vid ∷ [])) ∷ listed else (k, ids) ∷ add_vid kind vid listed)
            v
          ≡ (mem_str v ids || is_listed listed v) || str_eq v vid
    split true ih =
        ap (λ (b : Bool). b || is_listed listed v) (mem-append v ids (vid ∷ []))
        ∙ or_inner (mem_str v ids) (str_eq v vid) (is_listed listed v)
    split false ih =
        ap (λ (b : Bool). mem_str v ids || b) ih
        ∙ or_assoc (mem_str v ids) (is_listed listed v) (str_eq v vid)

is_listed-group_vids :
    (v : String) (idx : Index) (listed : Listed)
    → is_listed (group_vids idx listed) v ≡ is_listed listed v || mem_str v (vids_of idx)
unfolding group_vids
is_listed-group_vids v [] listed = sym (or_none (is_listed listed v))
is_listed-group_vids v ((vid, entry) ∷ idx) listed =
    is_listed-group_vids v idx (add_vid (kind_of entry) vid listed)
    ∙ ap (λ (b : Bool). b || mem_str v (vids_of idx))
        (is_listed-add_vid (kind_of entry) vid v listed)
    ∙ sym (or_assoc (is_listed listed v) (str_eq v vid) (mem_str v (vids_of idx)))

is_listed-sort_all :
    (v : String) (listed : Listed) → is_listed (sort_all listed) v ≡ is_listed listed v
unfolding sort_all
is_listed-sort_all v [] = refl
is_listed-sort_all v ((k, ids) ∷ listed) =
    ap (λ (b : Bool). b || is_listed (sort_all listed) v) (sort-mem v ids)
    ∙ ap (λ (b : Bool). mem_str v ids || b) (is_listed-sort_all v listed)

-- The identifiers of the listing are those of the rows.
pub is_listed-manifest_kinds :
    (v : String) (idx : Index) → is_listed (manifest_kinds idx) v ≡ mem_str v (vids_of idx)
unfolding manifest_kinds
is_listed-manifest_kinds v idx =
    is_listed-sort_all v (group_vids idx []) ∙ is_listed-group_vids v idx []

-- Each row is in the listing under its kind.
pub manifest_kinds-IsUnder :
    (idx : Index) → All (λ row. IsUnder row.0 (kind_of row.1) (manifest_kinds idx)) idx
unfolding manifest_kinds
manifest_kinds-IsUnder idx =
    sorted (λ row h. sort_all-IsUnder row.0 (kind_of row.1) (group_vids idx []) h) idx
      (group_vids-IsUnder idx [])
  where
    sorted :
        ((row : String × Fields)
          → IsUnder row.0 (kind_of row.1) (group_vids idx [])
          → IsUnder row.0 (kind_of row.1) (sort_all (group_vids idx [])))
        → (rows : Index) → All (λ row. IsUnder row.0 (kind_of row.1) (group_vids idx [])) rows
        → All (λ row. IsUnder row.0 (kind_of row.1) (sort_all (group_vids idx []))) rows
    sorted f [] h = tt
    sorted f (row ∷ rows) h = (f row h.0, sorted f rows h.1)
