-- ===== src/Suite/Reflects.antt =====
-- The tests of the evaluation in packaging/run_vectors.py, and the parts of the contracts that they decide.
use mathlib.Core.Logic.{◌↔◌}
use aee_conformance.Base.{
  String, Bool, true, false, not, ◌&&◌, ◌||◌, Option, none, some, List, [], ◌∷◌, ◌≡◌, refl, sym,
  ◌∙◌, is_empty, if◌then◌else◌, str_eq, eq_iff, mem_str, &&-eq-true,
}
use aee_conformance.Py.Value.{eq, is_none}
use aee_conformance.Verifier.Vocabulary.{texts_eq}
use aee_conformance.Suite.Expected.{Expected}
use aee_conformance.Suite.Rail.{Observed}
use aee_conformance.Suite.Evaluate.{
  is_verdict, differs, is_reported, shares, has_tiers, predicted, expected_verdict,
}
use aee_conformance.Suite.Contract.{IsAnswered, IsColumn, IsInvariant, IsAcceptContract, IsRefusal}
use aee_conformance.Suite.Verdicts.{
  column_ok, invariant_ok, result_ok, accept_ok, codes_ok, findings_ok, refusal_ok, readings_ok,
  verdict_ok,
}

-- A test that implies what a predicate says, and is implied by it.
abbrev pub Reflects : Bool → Type 0 → Type 0
Reflects b A = (b ≡ true) ↔ A

and_reflects : {a b : Bool} {A B : Type 0} → Reflects a A → Reflects b B → Reflects (a && b) (A × B)
and_reflects {a = true} f g = (λ h. (f.0 refl, g.0 h), λ k. g.1 k.1)
and_reflects {a = false} f g = (λ h. cc, λ k. f.1 k.0)

empty_reflects : {A : Type 0} (xs : List A) → Reflects (is_empty xs) (xs ≡ [])
empty_reflects [] = (λ h. refl, λ h. refl)
empty_reflects (x ∷ xs) = (λ h. cc, λ h. cc)

text_reflects : (s t : String) → Reflects (str_eq s t) (s ≡ t)
text_reflects s t = eq_iff s t

not_reflects : (b : Bool) → Reflects (not b) (b ≡ false)
not_reflects true = (λ h. cc, λ h. cc)
not_reflects false = (λ h. refl, λ h. refl)

IsColumn-reflects :
    (key : String) (expected reported : Option (List String)) (o : Observed)
    → Reflects (column_ok key expected reported o) (IsColumn key expected reported o)
IsColumn-reflects key none reported o = (λ h ts e. cc, λ k. refl)
IsColumn-reflects key (some us) reported o =
    let r = and_reflects (not_reflects (mem_str key o.absent)) (same us) in
    (λ h ts e. rw (← injective e) (r.0 h), λ k. r.1 (k us refl))
  where
    same :
        (ts : List String)
        → Reflects
            (texts_eq ts (elim reported [ none ↦ [] | some vs ↦ vs ]))
            (texts_eq ts (elim reported [ none ↦ [] | some vs ↦ vs ]) ≡ true)
    same ts = (λ h. h, λ h. h)

    injective : {xs ys : List String} → some xs ≡ some ys → xs ≡ ys
    injective e = cc

IsInvariant-reflects : (o : Observed) → Reflects (invariant_ok o) (IsInvariant o)
IsInvariant-reflects o =
    reflects (is_reported o.tiers_with_key) (is_none o.result)
      (mem_str "result_without_key" o.absent) (eq o.result_without_key o.result)
  where
    reflects :
        (reported silent absent same : Bool)
        → Reflects
            (if not reported || silent then true else not absent && same)
            (reported ≡ true → silent ≡ false → (absent ≡ false) × (same ≡ true))
    reflects false silent absent same = (λ h r s. cc, λ k. refl)
    reflects true true absent same = (λ h r s. cc, λ k. refl)
    reflects true false absent same =
        let r = and_reflects (not_reflects absent) (λ h. h, λ h. h) in
        (λ h _ _. r.0 h, λ k. r.1 (k refl refl))

some_list-injective : {xs ys : List String} → some xs ≡ some ys → xs ≡ ys
some_list-injective e = cc

not-not : (b : Bool) → not (not b) ≡ true → b ≡ true
not-not true h = refl
not-not false h = cc

some_text-injective : {s t : String} → some s ≡ some t → s ≡ t
some_text-injective e = cc

without_reflects :
    (o : Observed)
    → Reflects
        (not (differs o.verdict_without_key o.verdict))
        ((w : String) → o.verdict_without_key ≡ some w → w ≡ o.verdict)
without_reflects o = reflects o.verdict_without_key
  where
    reflects :
        (v : Option String)
        → Reflects (not (differs v o.verdict)) ((w : String) → v ≡ some w → w ≡ o.verdict)
    reflects none = (λ h w e. cc, λ k. refl)
    reflects (some u) =
        let r = text_reflects u o.verdict in
        (
          λ h w e. sym (some_text-injective e) ∙ r.0 (not-not (str_eq u o.verdict) h),
          λ k. rw (r.1 (k u refl)) refl,
        )

-- What the four tests on the verdict say together.
pub IsAnswered-reflects :
    (kind : String) (e : Expected) (o : Observed)
    → Reflects (verdict_ok kind e o) (IsAnswered kind e o)
IsAnswered-reflects kind e o =
    reflects (is_verdict o.verdict) (str_eq o.verdict (expected_verdict kind e))
      (differs o.verdict_without_key o.verdict) (is_empty o.errors) (empty_reflects o.errors)
      (text_reflects o.verdict (expected_verdict kind e)) (without_reflects o)
  where
    reflects :
        (v s d n : Bool) {A B C : Type 0}
        → Reflects n A
        → Reflects s B
        → Reflects (not d) C
        → Reflects
            (not (v && not s) && (not (v && d) && (not (not v) && (n && true))))
            (A × (v ≡ true) × B × C)
    reflects false s d n f g k = (λ h. cc, λ q. cc)
    reflects true false d n f g k = (λ h. cc, λ q. g.1 q.2)
    reflects true true true n f g k = (λ h. cc, λ q. k.1 q.3)
    reflects true true false false f g k = (λ h. cc, λ q. f.1 q.0)
    reflects true true false true f g k = (λ h. (f.0 refl, refl, g.0 refl, k.0 refl), λ q. refl)

implied :
    (absent same : Bool) → Reflects (not (not absent && not same)) (absent ≡ false → same ≡ true)
implied true same = (λ h k. cc, λ k. refl)
implied false true = (λ h k. refl, λ k. refl)
implied false false = (λ h k. cc, λ k. k refl)

result_reflects :
    (e : Expected) (o : Observed)
    → o.verdict ≡ "valid"
    → Reflects (result_ok e o) (is_none e.result ≡ false → eq o.result e.result ≡ true)
result_reflects e o v = rw v (implied (is_none e.result) (eq o.result e.result))

dependent_reflects :
    (r t : Bool) {R T : Type 0} → Reflects t T → (T → Reflects r R) → Reflects (r && t) (R × T)
dependent_reflects r t f k = (
  λ h. let (a, b) = &&-eq-true r t h in ((k (f.0 b)).0 a, f.0 b),
  λ q. rw ((k q.1).1 q.0, f.1 q.1) refl,
)

pub accept_reflects :
    (e : Expected) (o : Observed) (b : Bool) {A : Type 0}
    → Reflects b A
    → Reflects (accept_ok e o b) (A × IsAcceptContract e o)
accept_reflects e o b f =
    let r = and_reflects (IsInvariant-reflects o) (
      and_reflects (IsColumn-reflects "tiers_without_key" e.tier_without_key o.tiers_without_key o)
        (and_reflects (IsColumn-reflects "tiers_with_key" e.tier_with_pinned_key o.tiers_with_key o)
          (dependent_reflects (result_ok e o) (str_eq o.verdict "valid" && b)
            (and_reflects (text_reflects o.verdict "valid") f) (λ q. result_reflects e o q.0)))) in
    (
      λ h. let (z, (y, (x, (s, (v, a))))) = r.0 h in (a, (v, s, x, y, z)),
      λ k. let (a, (v, s, x, y, z)) = k in r.1 (z, (y, (x, (s, (v, a))))),
    )

IsRefusal-reflects :
    (o : Observed) (findings : Option (List String)) (b : Bool) {A : Type 0}
    → Reflects b A
    → Reflects (refusal_ok o findings b) (A × IsRefusal o findings)
IsRefusal-reflects o findings b f =
    let r = and_reflects (found findings) (
      and_reflects (text_reflects o.verdict "invalid")
        (and_reflects (silent (is_none o.result) (has_tiers o.tiers_with_key)) f)) in
    (
      λ h. let (s, (v, (m, a))) = r.0 h in (a, (v, m.0, m.1, s)),
      λ k. let (a, (v, m, t, s)) = k in r.1 (s, (v, ((m, t), a))),
    )
  where
    silent :
        (absent tiers : Bool)
        → Reflects (not (not absent || tiers)) ((absent ≡ true) × (tiers ≡ false))
    silent true tiers = and_reflects {a = true} (λ h. h, λ h. h) (not_reflects tiers)
    silent false tiers = (λ h. cc, λ q. cc)

    found :
        (fs : Option (List String))
        → Reflects (findings_ok fs) ((xs : List String) → fs ≡ some xs → xs ≡ [])
    found none = (λ h xs e. cc, λ k. refl)
    found (some ys) =
        let r = empty_reflects ys in
        (λ h xs e. sym (some_list-injective e) ∙ r.0 h, λ k. r.1 (k ys refl))

pub codes_reflects :
    (expected observed : List String)
    → Reflects
        (codes_ok expected observed)
        (is_empty expected ≡ false → shares expected observed ≡ true)
codes_reflects [] observed = (λ h k. cc, λ k. refl)
codes_reflects (c ∷ cs) observed = (λ h k. h, λ k. k refl)

pub readings_reflects :
    (e : Expected) (o : Observed)
    → Reflects
        (readings_ok e o)
        (is_empty e.readings ≡ false → shares (predicted e.readings) o.codes ≡ true)
readings_reflects e o = implied (is_empty e.readings) (shares (predicted e.readings) o.codes)

-- The contract of refusal with one more test.
pub refused_with :
    (o : Observed) (findings : Option (List String)) (t b : Bool) {T A : Type 0}
    → Reflects t T
    → Reflects b A
    → Reflects (refusal_ok o findings (t && b)) (A × (IsRefusal o findings × T))
refused_with o findings t b f g =
    let r = IsRefusal-reflects o findings (t && b) (and_reflects f g) in
    (λ h. let ((x, a), q) = r.0 h in (a, (q, x)), λ k. let (a, (q, x)) = k in r.1 ((x, a), q))
