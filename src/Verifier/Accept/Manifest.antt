-- ===== src/Verifier/Accept/Manifest.antt =====
-- The corpus manifest of an accepted statement.
use aee_conformance.Base.{
  ℕ, true, false, not, Option, none, some, List, [], ◌∷◌, ◌≡◌, refl, sym, ap, ◌⊎◌, inl, inr,
}
use aee_conformance.Base.{All, All-map, arith, ◌==◌}
use aee_conformance.Py.Value.{Value, null, obj, Fields, get, eq, mem, is_none, is_text, as_dict}
use aee_conformance.Py.Bytes.{hex}
use aee_conformance.Py.Run.{
  done, skip, add, add_if, hash, >>=-pure-eq-silent, >>-eq-silent, add_if-eq-skip,
}
use aee_conformance.Platform.{Platform}
use aee_conformance.Jcs.{jcs_dumps}
use aee_conformance.Shapes.{digest_of}
use aee_conformance.Verifier.Corpus.{
  CorpusFacts, all_ids, declared_of, declared_count, corpus_declares_attack, dupes_loop,
  corpus_dupes, corpus_digest, expectations, classes_facts, manifest_facts, corpus_facts,
}
use aee_conformance.Verifier.Accept.Frames.{not-eq-false}

-- No value of the list equals one that follows it.
abbrev pub IsUnrepeated : List Value → Type 0
IsUnrepeated [] = Unit
IsUnrepeated (a ∷ rest) = All (λ b. eq b a ≡ false) rest × IsUnrepeated rest

pub unseen :
    (a b : Value) (seen : List Value)
    → mem b (a ∷ seen) ≡ false
    → (eq b a ≡ false) × (mem b seen ≡ false)
unfolding mem
unseen a b seen h = (ground arith, ground arith)

dupes_loop-IsUnrepeated :
    (seen ids : List Value)
    → dupes_loop seen ids ≡ skip
    → All (λ b. mem b seen ≡ false) ids × IsUnrepeated ids
unfolding dupes_loop
dupes_loop-IsUnrepeated seen [] h = (tt, tt)
dupes_loop-IsUnrepeated seen (a ∷ ids) h =
    let (hashed, h1) = >>-eq-silent (hash a) _ h in
    let (new, h2) = >>-eq-silent (add_if (mem a seen) "manifest-duplicate-attack") _ h1 in
    let ih = dupes_loop-IsUnrepeated (a ∷ seen) ids h2 in
    (
      (
        add_if-eq-skip _ "manifest-duplicate-attack" new,
        All-map _ (λ b. mem b seen ≡ false) ids (λ b m. (unseen a b seen m).1) ih.0,
      ),
      (All-map _ (λ b. eq b a ≡ false) ids (λ b m. (unseen a b seen m).0) ih.0, ih.1),
    )

declared_in : (v : Value) → (declared_count v == 0) ≡ false → (classes : Fields) × (v ≡ obj classes)
unfolding declared_count
declared_in (obj classes) h = (classes, refl)
declared_in _ h = cc

module _ (P : Platform) where
  -- The manifest declares at least one attack, no attack twice, and its canonical digest is the corpus's.
  abbrev pub IsManifest : Fields → Fields → Fields → Type 0
  IsManifest corpus manifest classes =
      (get "classes" manifest ≡ obj classes)
      × ((declared_count (obj classes) == 0) ≡ false)
      × IsUnrepeated (all_ids classes)
      × ((bytes : List ℕ) × (jcs_dumps (obj manifest) ≡ some bytes)
          × (is_text (hex (P.sha256 bytes)) (digest_of (obj corpus)) ≡ true))

  digest-matches :
      (corpus : Fields) (o : Option (List ℕ))
      → (elim o [
        | none ↦ add "corpus-digest-mismatch"
        | some bytes ↦
            add_if
              (not (is_text (hex (P.sha256 bytes)) (digest_of (obj corpus))))
              "corpus-digest-mismatch"
      ])
        ≡ skip
      → (bytes : List ℕ) × (o ≡ some bytes)
        × (is_text (hex (P.sha256 bytes)) (digest_of (obj corpus)) ≡ true)
  digest-matches corpus none h = cc
  digest-matches corpus (some bytes) h =
      (bytes, refl, not-eq-false _ (add_if-eq-skip _ "corpus-digest-mismatch" h))

  classes_facts-classes :
      (manifest classes : Fields) {facts : CorpusFacts}
      → classes_facts P manifest (some classes) ≡ done facts []
      → IsUnrepeated (all_ids classes) × (facts.manifest_classes ≡ some classes)
  unfolding corpus_dupes
  classes_facts-classes manifest classes h =
      let (a, h1) = >>-eq-silent (corpus_dupes classes) _ h in
      let (expected, q, e) =
        >>=-pure-eq-silent (expectations P manifest (declared_of classes)) _ h1 in
      (
        (dupes_loop-IsUnrepeated [] (all_ids classes) a).1,
        ap (λ (t : CorpusFacts). t.manifest_classes) (sym e),
      )

  -- A corpus that the code has no manifest of, and adds no code for.
  abbrev pub IsUnchecked : Value → Type 0
  IsUnchecked corpus =
      (as_dict corpus ≡ none)
      ⊎ ((fs : Fields) × (corpus ≡ obj fs)
          × (is_none (get "manifest" fs) ≡ false)
          × (as_dict (get "manifest" fs) ≡ none))

  abbrev pub IsChecked : Value → Option Fields → Type 0
  IsChecked corpus kept =
      (fs : Fields) × (manifest : Fields) × (classes : Fields) × (corpus ≡ obj fs)
      × (get "manifest" fs ≡ obj manifest)
      × IsManifest fs manifest classes
      × (kept ≡ some classes)

  manifest_facts-IsChecked :
      (fs : Fields) (m : Value) {facts : CorpusFacts}
      → get "manifest" fs ≡ m
      → manifest_facts P fs m ≡ done facts []
      → IsUnchecked (obj fs) ⊎ IsChecked (obj fs) facts.manifest_classes
  unfolding corpus_digest corpus_declares_attack
  manifest_facts-IsChecked fs (obj manifest) em h =
      let (a, h1) = >>-eq-silent (corpus_digest P fs manifest) _ h in
      let (b, h2) = >>-eq-silent (corpus_declares_attack (get "classes" manifest)) _ h1 in
      let some_attack = add_if-eq-skip _ "corpus-manifest-no-attacks" b in
      let (classes, ec) = declared_in (get "classes" manifest) some_attack in
      let (distinct, kept) = classes_facts-classes manifest classes (rw ec at h2) in
      inr (
        fs,
        manifest,
        classes,
        refl,
        em,
        (ec, rw ec at some_attack, distinct, digest-matches fs (jcs_dumps (obj manifest)) a),
        kept,
      )
  manifest_facts-IsChecked fs null em h = cc
  manifest_facts-IsChecked fs _ em h = inl (inr (fs, refl, ap is_none em, ap as_dict em))

  pub corpus_facts-IsChecked :
      (corpus : Value) {facts : CorpusFacts}
      → corpus_facts P corpus ≡ done facts []
      → IsUnchecked corpus ⊎ IsChecked corpus facts.manifest_classes
  corpus_facts-IsChecked (obj fs) h = manifest_facts-IsChecked fs (get "manifest" fs) refl h
  corpus_facts-IsChecked _ h = inl (inl refl)
