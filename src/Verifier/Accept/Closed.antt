-- ===== src/Verifier/Accept/Closed.antt =====
-- The rows of an accepted statement: the closed vocabularies, and the records that cover them.
use aee_conformance.Base.{ℕ, true, false, Option, List, [], ◌≡◌, refl, sym, ap, ◌∙◌}
use aee_conformance.Py.Value.{Value, obj, Fields, get}
use aee_conformance.Py.Run.{done}
use aee_conformance.Platform.{Platform}
use aee_conformance.Verifier.{Outcome, check_gate2_tiers}
use aee_conformance.Verifier.State.{VerifyState}
use aee_conformance.Verifier.Rows.{is_substrate, is_fail_closed}
use aee_conformance.Verifier.Gate1.{mem_index}
use aee_conformance.Verifier.Record.{RecordView}
use aee_conformance.Verifier.Tiers.{covering_of}
use aee_conformance.Verifier.Accept.Frames.{pinned, fail_closed_rows-frame, gate1_coverage-frame}
use aee_conformance.Verifier.Accept.Chain.{Accepts, Accepts-Accepted}
use aee_conformance.Verifier.Accept.Fields.{kept, rows_of}
use aee_conformance.Verifier.Accept.Fields.{records_of, environment_of}
use aee_conformance.Verifier.Accept.Covered.{AllFrom, AllFrom-map, AllFrom-zip}
use aee_conformance.Verifier.Accept.Result.{IsVocabulary}
use aee_conformance.Verifier.Accept.Covering.{Context, IsCover}
use aee_conformance.Verifier.Accept.Classes.{context_of}
use aee_conformance.Verifier.Accept.Assigned.{gate1_rows-IsAssigned}
use aee_conformance.Verifier.Accept.Tied.{IsTied, accepted-IsTied}
use aee_conformance.Verifier.Corpus.{CorpusFacts, corpus_facts}
use aee_conformance.Verifier.Record.{record_views}
use aee_conformance.Shapes.{digest_of}
use aee_conformance.Base.{String, some}
use aee_conformance.Py.Value.{as_dict}
use aee_conformance.Verifier.Accept.Open.{Open, fail_closed_loop-Open}

-- What an accepted statement is read by, and of the corpus the attacks that it declares.
abbrev pub context : Platform → Fields → List Value → List String → Context
context P pred caught declared = record {
  views = record_views P 0 (records_of pred);
  caught = caught;
  posture = digest_of (get "networkPosture" (environment_of pred));
  issued_at = get "issuedAt" pred;
  declared = declared;
}

-- A row that is in the closed vocabularies, with a cover of its class.
abbrev pub IsCovered :
    Platform → List Value → Context → List (ℕ × List RecordView) → ℕ → Fields → Type 0
IsCovered P labels x covering j r =
    is_substrate r ≡ true
    → (is_fail_closed (some labels) r ≡ false) × IsCover P x r (covering_of j covering)

context_tied :
    (P : Platform) {fields pred : Fields} {st : VerifyState} (t : IsTied P fields pred st)
    → context_of st.views st t.caught ≡ context P pred t.caught t.facts.declared_attacks
context_tied P t = rw (t.st_views, t.st_posture, t.st_issued_at, t.st_declared) refl

context-same :
    (P : Platform) (r : Fields) (c : List RecordView) {x y : Context}
    → x ≡ y
    → IsCover P x r c
    → IsCover P y r c
context-same P r c e h = rw e at h

IsCovered-rows :
    (P : Platform) (labels : List Value) (x y : Context) (failed failed' : List ℕ)
    {covering covering' : List (ℕ × List RecordView)} {ls : Option (List Value)}
    (rows : List Fields) {rows1 rows2 : List Fields}
    → ls ≡ some labels
    → x ≡ y
    → failed ≡ failed'
    → covering ≡ covering'
    → rows1 ≡ rows
    → rows2 ≡ rows
    → AllFrom (Open ls failed) 0 rows1
    → AllFrom
        (λ j r.
          is_substrate r ≡ true
          → mem_index j failed' ≡ false
          → IsCover P x r (covering_of j covering))
        0
        rows2
    → AllFrom (IsCovered P labels y covering') 0 rows
IsCovered-rows P labels x y failed failed' {covering} {covering'} rows el ex ef ec e1 e2 opened
      covers =
    AllFrom-map
      (λ j r.
        Open (some labels) failed j r
        × (is_substrate r ≡ true
            → mem_index j failed ≡ false
            → IsCover P x r (covering_of j covering')))
      (IsCovered P labels y covering') 0 rows
      (λ j r below k sub.
        ((k.0 sub).0, context-same P r (covering_of j covering') ex (k.1 sub (k.0 sub).1)))
      (AllFrom-zip (Open (some labels) failed)
        (λ j r.
          is_substrate r ≡ true
          → mem_index j failed ≡ false
          → IsCover P x r (covering_of j covering'))
        0 rows (rw (el, e1) at opened) (rw (sym ef, ec, e2) at covers))

module _ (P : Platform) (pinned_pubs : List (List ℕ)) (stmt : Value) (raw : Option (List ℕ))
    {o : Outcome} (accepts : Accepts P pinned_pubs stmt raw o) where
  -- The vocabulary of an accepted statement is canonical, the tiers are computed from a state whose rows are
  -- those of `attackResults`, and every substrate row of them has a label, a basis, a method and an
  -- attribution of the closed vocabularies and a cover that is not empty, of records carried that the
  -- row references: examinations when its method is reconstructed; interceptions with a well-formed
  -- commitment when its label is caught; when it is any other, arming records and seals, at least one of
  -- both, whose members satisfy the constraints of their kind against the posture, the issue time and the
  -- declared attacks of the statement.
  pub accepted-IsCovered :
      (fields : Fields) × (pred : Fields) × (st : VerifyState) × (vocab : Fields) × (labels : List
        Value)
      × (caught : List Value) × (facts : CorpusFacts) × (stmt ≡ obj fields)
      × (get "predicate" fields ≡ obj pred)
      × (o ≡ check_gate2_tiers P pinned_pubs st)
      × (st.rows ≡ rows_of pred)
      × (as_dict (get "observationVocabulary" (environment_of pred)) ≡ some vocab)
      × IsVocabulary vocab labels caught
      × (corpus_facts P (get "corpus" (environment_of pred)) ≡ done facts [])
      × AllFrom
          (IsCovered P labels (context P pred caught facts.declared_attacks) st.row_covering)
          0
          (rows_of pred)
  accepted-IsCovered =
      let a = Accepts-Accepted P pinned_pubs stmt raw accepts in
      let k = kept P a.passed in
      let t = accepted-IsTied P pinned_pubs stmt raw a in
      let (failed, q6, e6) = fail_closed_rows-frame a.passed.s5 a.passed.fail_closed in
      let (covering, q9, e9) = gate1_coverage-frame P a.passed.s8 a.passed.gate1_coverage in
      let caught8 = ap (λ (u : VerifyState). u.caught) (sym e9) ∙ t.st_caught in
      (
        a.fields,
        a.pred,
        a.st,
        t.vocab,
        t.labels,
        t.caught,
        t.facts,
        a.is_obj,
        a.is_pred,
        a.outcome,
        k.rows,
        t.is_vocab,
        t.is_vocabulary,
        t.is_corpus,
        IsCovered-rows P t.labels (context_of a.passed.s8.views (pinned P a.passed.s8) t.caught)
            (context P a.pred t.caught t.facts.declared_attacks) failed a.passed.s8.fail_closed_rows
            (rows_of a.pred) (sym k.labels5 ∙ t.st_labels)
            (ap (λ (u : VerifyState). context_of u.views u t.caught) (sym e9) ∙ context_tied P t)
            (sym (ap (λ (u : VerifyState). u.fail_closed_rows) e6)
              ∙ sym k.fail_closed
              ∙ ap (λ (u : VerifyState). u.fail_closed_rows) e9)
            (sym (ap (λ (u : VerifyState). u.row_covering) e9)) k.rows5 k.rows8
            (fail_closed_loop-Open a.passed.s5.labels 0 a.passed.s5.rows q6).0
            (gate1_rows-IsAssigned P _ t.caught caught8 0 a.passed.s8.rows q9),
      )
