-- ===== src/Verifier/Outcomes.antt =====
-- What `verify` of packaging/run_vectors.py can return, and what the pinned keys change of it.
use aee_conformance.Base.{
  ℕ, String, Bool, true, false, Option, none, some, List, [], ◌∷◌, ◌++◌, ◌≡◌, ◌≢◌, refl, sym, ap,
  ◌∙◌, ◌⊎◌, inl, inr,
}
use aee_conformance.Base.{mem_str, str_eq, str_eq_refl, eq_iff, arith, if◌then◌else◌, Bool-cases}
use aee_conformance.Py.Value.{Value}
use aee_conformance.Py.Run.{Run, done, raised, ◌>>=◌, >>=-eq-silent, >>=-pure-eq-silent}
use aee_conformance.Platform.{Platform}
use aee_conformance.Verifier.{
  Outcome, Verification, returned, crashed, rejected, verify, add_codes, gate0, gate1, all_checks,
  finish_all, checks_after, has_strict_fault, check_gate2_tiers,
}
use aee_conformance.Verifier.State.{VerifyState, initial}
use aee_conformance.Verifier.Vocabulary.{no_repeats}
use aee_conformance.Verifier.Statement.{check_statement_type}
use aee_conformance.Verifier.Tiers.{Tier}
use aee_conformance.Verifier.Tiers.Keys.{tiers_without_key}
use aee_conformance.Verifier.Accept.Chain.{
  add_codes-nonempty, returned-injective, statement_type-silent,
}

-- All of an outcome but the tiers with the pinned keys.
abbrev pub without_keys : Verification → Verification
without_keys (crashed e) = crashed e
without_keys (returned o) = returned (record o { tiers_with_key = none })

str_eq_flip : (s t : String) → str_eq s t ≡ false → str_eq t s ≡ false
str_eq_flip s t h = elim (Bool-cases (str_eq t s)) [
  | inl same ↦ absurd (no_flip same)
  | inr differ ↦ differ
]
  where
    no_flip : str_eq t s ≡ true → ⊥
    no_flip same = apart (rw ((eq_iff t s).0 same) at h) (str_eq_refl s)
      where
        apart : {b : Bool} → b ≡ false → b ≡ true → ⊥
        apart p q = cc

mem_str-append :
    (c d : String) (codes : List String)
    → mem_str d codes ≡ false
    → str_eq d c ≡ false
    → mem_str d (codes ++ (c ∷ [])) ≡ false
mem_str-append c d [] m n = ground arith
mem_str-append c d (e ∷ es) m n = ground (arith, mem_str-append c d es)

no_repeats-append :
    (c : String) (codes : List String)
    → mem_str c codes ≡ false
    → no_repeats codes ≡ true
    → no_repeats (codes ++ (c ∷ [])) ≡ true
unfolding no_repeats
no_repeats-append c [] m h = refl
no_repeats-append c (d ∷ ds) m h =
    ground (arith, mem_str-append c d ds, str_eq_flip c d, no_repeats-append c ds)

-- A list of codes never holds one twice.
add_codes-no_repeats :
    (cs codes : List String) → no_repeats codes ≡ true → no_repeats (add_codes codes cs) ≡ true
unfolding add_codes
add_codes-no_repeats [] codes h = h
add_codes-no_repeats (c ∷ cs) codes h = add_codes-no_repeats cs _ (one_more (mem_str c codes) refl)
  where
    one_more :
        (b : Bool)
        → mem_str c codes ≡ b
        → no_repeats (if b then codes else codes ++ (c ∷ [])) ≡ true
    one_more true e = h
    one_more false e = no_repeats-append c codes e h

-- An outcome without a code has a result and both lists of tiers.
abbrev pub IsAcceptance : Outcome → Type 0
IsAcceptance o =
    (o.codes ≡ [])
    × ((result : Value) × (with_key : List Tier) × (without_key : List Tier) × (o.result
          ≡ some result)
        × (o.tiers_with_key ≡ some with_key)
        × (o.tiers_without_key ≡ some without_key))

-- An outcome with codes has none of them twice, and has neither a result nor tiers.
abbrev pub IsRejection : Outcome → Type 0
IsRejection o =
    (o.codes ≢ [])
    × (no_repeats o.codes ≡ true)
    × (o.result ≡ none)
    × (o.tiers_with_key ≡ none)
    × (o.tiers_without_key ≡ none)

abbrev Shape : Outcome → Type 0
Shape o = IsAcceptance o ⊎ IsRejection o

rejected-IsRejection :
    (c : String) (cs : List String) → IsRejection (rejected (add_codes [] (c ∷ cs)))
unfolding add_codes no_repeats
rejected-IsRejection c cs = (
  add_codes-nonempty cs (c ∷ []) (λ q. cc),
  add_codes-no_repeats cs (c ∷ []) refl,
  refl,
  refl,
  refl,
)

module _ (P : Platform) (pinned_pubs : List (List ℕ)) where
  accepted-IsAcceptance : (st : VerifyState) → IsAcceptance (check_gate2_tiers P pinned_pubs st)
  unfolding check_gate2_tiers
  accepted-IsAcceptance st = (refl, (_, _, _, refl, refl, refl))

  finish_all-Shape :
      (m : Run (Option VerifyState)) {o : Outcome}
      → m ≢ done none []
      → finish_all P pinned_pubs m ≡ returned o
      → Shape o
  finish_all-Shape (raised e) n h = cc
  finish_all-Shape (done none []) n h = absurd (n refl)
  finish_all-Shape (done (some st) []) n h =
      rw (← returned-injective h) (inl (accepted-IsAcceptance st))
  finish_all-Shape (done none (c ∷ cs)) n h =
      rw (← returned-injective h) (inr (rejected-IsRejection c cs))
  finish_all-Shape (done (some st) (c ∷ cs)) n h =
      rw (← returned-injective h) (inr (rejected-IsRejection c cs))

  -- A statement without a predicate has a code.
  checks-found :
      (stmt : Value) → (check_statement_type stmt >>= checks_after P pinned_pubs) ≢ done none []
  checks-found stmt silent =
      let (found, typed, rest) =
        >>=-eq-silent (check_statement_type stmt) (checks_after P pinned_pubs) silent in
      let (fields, pred, is_obj, t1, t2, is_pred, e) = statement_type-silent stmt typed in
      let (st, q, f) =
        >>=-pure-eq-silent (all_checks P pinned_pubs (initial fields pred)) some (rw e at rest) in
      apart f
    where
      apart : {st : VerifyState} → some st ≡ none → ⊥
      apart p = cc

  fault_or-Shape :
      (fault : Bool) (m : Run (Option VerifyState)) {o : Outcome}
      → m ≢ done none []
      → (if fault
          then returned (rejected ("statement-malformed" ∷ []))
          else finish_all P pinned_pubs m)
        ≡ returned o
      → Shape o
  unfolding no_repeats
  fault_or-Shape true m n h = rw (← returned-injective h) (inr ((λ q. cc), refl, refl, refl, refl))
  fault_or-Shape false m n h = finish_all-Shape m n h

  -- Whatever `verify` returns is one of two: no code, a result and both lists of tiers, or at least one
  -- code, none of them twice, and neither a result nor tiers.
  pub verify-Shape :
      (stmt : Value) (raw : Option (List ℕ)) (o : Outcome)
      → verify P pinned_pubs stmt raw ≡ returned o
      → IsAcceptance o ⊎ IsRejection o
  unfolding verify
  verify-Shape stmt raw o h =
      fault_or-Shape (has_strict_fault P raw)
        (check_statement_type stmt >>= checks_after P pinned_pubs) (checks-found stmt) h

module _ (P : Platform) (pinned_pubs other_pubs : List (List ℕ)) where
  finish_all-without_keys :
      (m : Run (Option VerifyState))
      → without_keys (finish_all P pinned_pubs m) ≡ without_keys (finish_all P other_pubs m)
  unfolding check_gate2_tiers
  finish_all-without_keys (raised e) = refl
  finish_all-without_keys (done none cs) = refl
  finish_all-without_keys (done (some st) (c ∷ cs)) = refl
  finish_all-without_keys (done (some st) []) =
      ap
        (λ ts. returned (record {
          codes = [];
          result = some st.result;
          tiers_with_key = none;
          tiers_without_key = some ts;
        }))
        (tiers_without_key P pinned_pubs st.row_covering 0 st.rows
          ∙ sym (tiers_without_key P other_pubs st.row_covering 0 st.rows))

  fault_or-without_keys :
      (fault : Bool) (m : Run (Option VerifyState))
      → without_keys (
          if fault
          then returned (rejected ("statement-malformed" ∷ []))
          else finish_all P pinned_pubs m)
        ≡ without_keys (
            if fault
            then returned (rejected ("statement-malformed" ∷ []))
            else finish_all P other_pubs m)
  fault_or-without_keys true m = refl
  fault_or-without_keys false m = finish_all-without_keys m

  -- Two sets of pinned keys give the same exception, or the same codes, the same result and the same
  -- tiers without keys: only the tiers with keys can differ.
  pub verify-without_keys :
      (stmt : Value) (raw : Option (List ℕ))
      → without_keys (verify P pinned_pubs stmt raw) ≡ without_keys (verify P other_pubs stmt raw)
  unfolding verify all_checks gate0 gate1
  verify-without_keys stmt raw =
      fault_or-without_keys (has_strict_fault P raw)
        (check_statement_type stmt >>= checks_after P pinned_pubs)
