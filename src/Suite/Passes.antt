-- ===== src/Suite/Passes.antt =====
-- What a row of packaging/run_vectors.py that passes says of its vector.
use mathlib.Core.Option
use aee_conformance.Base.{
  ℕ, String, Bool, true, false, Option, none, some, List, [], ◌≡◌, refl, sym, ap, ◌∙◌, length, ltb,
  is_empty, if◌then◌else◌,
}
use aee_conformance.Py.Value.{Fields}
use aee_conformance.Py.Run.{Run, raised, done, skip}
use aee_conformance.Platform.{Platform}
use aee_conformance.SecondFault.{second_fault_absence}
use aee_conformance.Suite.Score.{pass, fail, is_ok}
use aee_conformance.Suite.Expected.{expected_of}
use aee_conformance.Suite.Rail.{Shell, Observed}
use aee_conformance.Suite.Evaluate.{shares, evaluate_vector_detailed}
use aee_conformance.Suite.Contract.{IsConformant}
use aee_conformance.Suite.Conform.{evaluate_vector_detailed-IsConformant}
use aee_conformance.Suite.Process.{
  Rail, run_observe, load_statement, max_statement_bytes, Row, pass_if, unreadable, row_of,
  exempt_codes, findings_of, self_check_of, process_vector,
}

bind-some :
    {A B : Type 0} (m : Option A) (f : A → Option B) {b : B}
    → Option.bind m f ≡ some b
    → (a : A) × (m ≡ some a) × (f a ≡ some b)
unfolding Option.bind
bind-some none f h = cc
bind-some (some a) f h = (a, refl, h)

some_row : {r s : Row} → some r ≡ some s → r ≡ s
some_row e = cc

passed : (b : Bool) → pass_if b ≡ pass → b ≡ true
passed true h = refl
passed false h = cc

-- The vector was read, the rail and the self-check ended, and what they gave satisfies the contract.
abbrev pub IsPassed : Platform → Shell → Rail → String → Option Fields → List ℕ → Row → Type 0
IsPassed P sh rail kind entry raw row =
    (o : Observed) × (findings : Option (List String)) × (ltb max_statement_bytes (length raw)
      ≡ false)
    × (run_observe P sh rail (load_statement P sh raw).0 (some raw) ≡ some o)
    × (self_check_of P kind entry (load_statement P sh raw).0 (load_statement P sh raw).1
        ≡ some findings)
    × IsConformant kind (expected_of entry) o findings
    × (row.observed ≡ some o)

module _ (P : Platform) (sh : Shell) (rail : Rail) (kind : String) (entry : Option Fields) where
  scored :
      (o : Observed) (findings : Option (List String)) {row : Row}
      → row_of kind o (evaluate_vector_detailed kind entry o findings) ≡ row
      → row.status ≡ pass
      → IsConformant kind (expected_of entry) o findings × (row.observed ≡ some o)
  unfolding row_of
  scored o findings e s =
      let ok : is_ok (evaluate_vector_detailed kind entry o findings) ≡ true =
        passed _ (ap (λ (r : Row). r.status) e ∙ s) in
      (
        (evaluate_vector_detailed-IsConformant kind entry o findings).0 ok,
        sym (ap (λ (r : Row). r.observed) e),
      )

  -- A row passes only on a vector that was read within the bound, observed and self-checked without an
  -- exception, and whose report satisfies the contract of its kind.
  pub process_vector-IsPassed :
      (raw : List ℕ) (row : Row)
      → process_vector P sh rail kind entry (some raw) ≡ some row
      → row.status ≡ pass
      → IsPassed P sh rail kind entry raw row
  unfolding process_vector
  process_vector-IsPassed raw row h s = within (ltb max_statement_bytes (length raw)) refl h
    where
      within :
          (b : Bool)
          → ltb max_statement_bytes (length raw) ≡ b
          → (if b
              then some unreadable
              else Option.bind (run_observe P sh rail (load_statement P sh raw).0 (some raw)) λ o.
                Option.bind
                  (self_check_of P kind entry
                    (load_statement P sh raw).0
                    (load_statement P sh raw).1)
                  λ findings. some (row_of kind o (evaluate_vector_detailed kind entry o findings)))
            ≡ some row
          → IsPassed P sh rail kind entry raw row
      within true e k = absurd (apart (ap (λ (r : Row). r.status) (some_row k) ∙ s))
        where
          apart : fail ≡ pass → ⊥
          apart q = cc
      within false e k =
          let (o, eo, k1) = bind-some _ _ k in
          let (findings, ef, k2) = bind-some _ _ k1 in
          let (c, r) = scored o findings (some_row k2) s in (o, findings, e, eo, ef, c, r)

found_nothing :
    (m : Run (Unit {0})) {findings : Option (List String)}
    → findings_of m ≡ some findings
    → ((fs : List String) → findings ≡ some fs → fs ≡ [])
    → m ≡ skip
found_nothing (raised e) h n = cc
found_nothing (done u fs) h n = rw (n fs (given h)) refl
  where
    given : {x y : Option (List String)} → some x ≡ some y → y ≡ x
    given e = cc

module _ (P : Platform) (sh : Shell) (rail : Rail) (entry : Option Fields) where
  -- A reject vector whose bytes parse passes only if the rail refuses it, with one of the expected codes if
  -- there are any, and if the self-check on the statement adds nothing: of the four commitments that it
  -- recomputes, those that no expected code excuses.
  pub process_vector_reject :
      (raw : List ℕ) (row : Row)
      → process_vector P sh rail "reject" entry (some raw) ≡ some row
      → row.status ≡ pass
      → (load_statement P sh raw).1 ≡ true
      → (o : Observed) × (run_observe P sh rail (load_statement P sh raw).0 (some raw) ≡ some o)
        × (o.verdict ≡ "invalid")
        × (is_empty (expected_of entry).codes ≡ false
            → shares (expected_of entry).codes o.codes ≡ true)
        × (second_fault_absence P (load_statement P sh raw).0 (exempt_codes entry) ≡ skip)
  unfolding self_check_of
  process_vector_reject raw row h s faithful =
      let (o, findings, e, eo, ef, (answered, (refusal, codes)), r) =
        process_vector-IsPassed P sh rail "reject" entry raw row h s in
      (o, eo, refusal.0, codes, found_nothing _ (rw faithful at ef) refusal.3)
