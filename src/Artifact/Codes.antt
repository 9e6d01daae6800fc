-- ===== src/Artifact/Codes.antt =====
-- The codes that the checks of tools/artifact-binding/verify.py add, hard and inconclusive.
use aee_conformance.Base.{
  String, Bool, true, false, ◌||◌, List, [], ◌∷◌, ◌++◌, ◌≡◌, ◌≢◌, refl, sym, ◌∙◌, any,
}
use aee_conformance.Py.Run.{Run, Exception, done, raised, after, ◌>>=◌, ◌>>◌, pure, add, add_if}
use aee_conformance.Artifact.Verify.{is_hard}

pub after-eq {ℓ} :
    {A : Type ℓ} (cs : List String) (m : Run A) {b : A} {ds : List String}
    → after cs m ≡ done b ds
    → (es : List String) × (m ≡ done b es) × (cs ++ es ≡ ds)
after-eq cs (raised e) h = cc
after-eq cs (done a es) h = (es, cc, cc)

-- What a run of two steps was made of.
pub >>=-eq {ℓ κ} :
    {A : Type ℓ} {B : Type κ} (m : Run A) (f : A → Run B) {b : B} {ds : List String}
    → (m >>= f) ≡ done b ds
    → (a : A) × (cs : List String) × (es : List String) × (m ≡ done a cs)
      × (f a ≡ done b es)
      × (cs ++ es ≡ ds)
>>=-eq (raised e) f h = cc
>>=-eq (done a cs) f h = let (es, q, e) = after-eq cs (f a) h in (a, cs, es, refl, q, e)

pub any-append :
    (p : String → Bool) (xs ys : List String)
    → any p (xs ++ ys) ≡ false
    → (any p xs ≡ false) × (any p ys ≡ false)
any-append p [] ys h = (refl, h)
any-append p (x ∷ xs) ys h = split (p x) (any-append p xs ys) h
  where
    split :
        (b : Bool)
        → (any p (xs ++ ys) ≡ false → (any p xs ≡ false) × (any p ys ≡ false))
        → b || any p (xs ++ ys) ≡ false
        → (b || any p xs ≡ false) × (any p ys ≡ false)
    split true ih h = cc
    split false ih h = ih h

-- Without a hard code, no code at all.
abbrev pub IsHard {ℓ} : {A : Type ℓ} → Run A → Type ℓ
IsHard {A = A} m = (a : A) (cs : List String) → m ≡ done a cs → any is_hard cs ≡ false → cs ≡ []

pub append_nil : (xs ys : List String) → xs ≡ [] → ys ≡ [] → xs ++ ys ≡ []
append_nil xs ys e f = rw (e, f) refl

pub pure-IsHard {ℓ} : {A : Type ℓ} (a : A) → IsHard (pure a)
pure-IsHard a b cs h n = cc

no_hard :
    (c : String) (cs : List String) → is_hard c ≡ true → c ∷ [] ≡ cs → any is_hard cs ≡ false → ⊥
no_hard c cs k e n = apart (rw (← e, k) at n)
  where
    apart : true ≡ false → ⊥
    apart q = cc

pub codes_same {ℓ} : {A : Type ℓ} {a b : A} {cs ds : List String} → done a cs ≡ done b ds → cs ≡ ds
codes_same h = cc

pub flag_same {ℓ} : {A : Type ℓ} {a b : A} {cs ds : List String} → done a cs ≡ done b ds → a ≡ b
flag_same h = cc

pub add-IsHard : (c : String) → is_hard c ≡ true → IsHard (add c)
add-IsHard c k u cs h n = absurd (no_hard c cs k (codes_same h) n)

pub add_if-IsHard : (b : Bool) (c : String) → is_hard c ≡ true → IsHard (add_if b c)
add_if-IsHard true c k = add-IsHard c k
add_if-IsHard false c k = pure-IsHard tt

pub raised-IsHard {ℓ} :
    {A : Type ℓ} (e : Exception) (a : A) (cs : List String)
    → raised e ≡ done a cs
    → any is_hard cs ≡ false
    → cs ≡ []
raised-IsHard e a cs h n = cc

pub >>=-IsHard {ℓ κ} :
    {A : Type ℓ} {B : Type κ} (m : Run A) (f : A → Run B)
    → IsHard m
    → ((a : A) → IsHard (f a))
    → IsHard (m >>= f)
>>=-IsHard m f p q b ds h n =
    let (a, cs, es, em, ef, e) = >>=-eq m f h in
    let (n1, n2) = any-append is_hard cs es (rw (← e) at n) in
    sym e ∙ append_nil cs es (p a cs em n1) (q a _ es ef n2)

-- A run whose flag is set exactly when it adds codes, if it adds no hard one.
abbrev pub IsFlagged : Run Bool → Type 0
IsFlagged m =
    (b : Bool) (cs : List String)
    → m ≡ done b cs
    → any is_hard cs ≡ false
    → (b ≡ false → cs ≡ []) × (b ≡ true → cs ≢ [])

pub false-IsFlagged : IsFlagged (pure false)
false-IsFlagged b cs h n = ((λ e. sym (codes_same h)), (λ t. absurd (apart (flag_same h ∙ t))))
  where
    apart : false ≡ true → ⊥
    apart q = cc

-- One code and the flag.
pub add-IsFlagged : (c : String) → IsFlagged (add c >> pure true)
add-IsFlagged c b cs h n =
    ((λ e. absurd (apart (flag_same h ∙ e))), (λ t e. absurd (listed (codes_same h ∙ e))))
  where
    apart : true ≡ false → ⊥
    apart q = cc

    listed : c ∷ [] ≡ [] → ⊥
    listed q = cc

pub add_if-IsFlagged : (b : Bool) (c : String) → IsFlagged (add_if b c >> pure b)
add_if-IsFlagged true c = add-IsFlagged c
add_if-IsFlagged false c = false-IsFlagged

pub left_nonempty : (xs ys : List String) → xs ≢ [] → xs ++ ys ≢ []
left_nonempty [] ys n = absurd (n refl)
left_nonempty (x ∷ xs) ys n = λ e. cc

pub right_nonempty : (xs ys : List String) → ys ≢ [] → xs ++ ys ≢ []
right_nonempty [] ys n = n
right_nonempty (x ∷ xs) ys n = λ e. cc

pub >>-IsFlagged : (m : Run (Unit {0})) (k : Run Bool) → IsHard m → IsFlagged k → IsFlagged (m >> k)
>>-IsFlagged m k p q b ds h n =
    let (u, cs, es, em, ek, e) = >>=-eq m (λ _. k) h in
    let (n1, n2) = any-append is_hard cs es (rw (← e) at n) in
    let r = q b es ek n2 in
    rw (← e) ((λ f. append_nil cs es (p u cs em n1) (r.0 f)), (λ t. right_nonempty cs es (r.1 t)))

pub >>=-IsFlagged :
    (m : Run Bool) (f : Bool → Run Bool)
    → IsHard m
    → ((b : Bool) → IsFlagged (f b))
    → IsFlagged (m >>= f)
>>=-IsFlagged m f p q b ds h n =
    let (u, cs, es, em, ek, e) = >>=-eq m f h in
    let (n1, n2) = any-append is_hard cs es (rw (← e) at n) in
    let r = q u b es ek n2 in
    rw (← e) ((λ z. append_nil cs es (p u cs em n1) (r.0 z)), (λ t. right_nonempty cs es (r.1 t)))

or_false : (x y : Bool) → x || y ≡ false → (x ≡ false) × (y ≡ false)
or_false true y h = cc
or_false false y h = (refl, h)

either :
    (x y : Bool) (xs ys : List String)
    → (x ≡ true → xs ≢ [])
    → (y ≡ true → ys ≢ [])
    → x || y ≡ true
    → xs ++ ys ≢ []
either true y xs ys f g h = left_nonempty xs ys (f refl)
either false y xs ys f g h = right_nonempty xs ys (g h)

pub or-IsFlagged :
    (m k : Run Bool) → IsFlagged m → IsFlagged k → IsFlagged (m >>= λ x. k >>= λ y. pure (x || y))
or-IsFlagged m k p q b ds h n =
    let (x, cs, es, em, ek, e) = >>=-eq m (λ x. k >>= λ y. pure (x || y)) h in
    let (y, es1, es2, ek1, ep, e1) = >>=-eq k (λ y. pure (x || y)) ek in
    let (n1, n2) = any-append is_hard cs es (rw (← e) at n) in
    let (n3, n4) = any-append is_hard es1 es2 (rw (← e1) at n2) in
    let last = sym (codes_same ep) in
    let f = p x cs em n1 in
    let g = q y es1 ek1 n3 in
    rw (← e, ← e1, ← flag_same ep)
      (
        (λ z.
            let (zx, zy) = or_false x y z in
            append_nil cs (es1 ++ es2) (f.0 zx) (append_nil es1 es2 (g.0 zy) last)),
        (λ t. either x y cs (es1 ++ es2) f.1 (λ ty. left_nonempty es1 es2 (g.1 ty)) t),
      )

-- Three flags, and two runs behind them that add hard codes alone.
module _ (m k l : Run Bool) (v w : Run (Unit {0})) where
  abbrev pub three : Run Bool
  three = m >>= λ x. k >>= λ y. l >>= λ z. v >> (w >> pure (x || (y || z)))

  pub three-IsFlagged :
      IsFlagged m → IsFlagged k → IsFlagged l → IsHard v → IsHard w → IsFlagged three
  three-IsFlagged p q r hv hw b ds h n =
      let (x, c1, r1, e1, h1, s1) = >>=-eq m _ h in
      let (y, c2, r2, e2, h2, s2) = >>=-eq k _ h1 in
      let (z, c3, r3, e3, h3, s3) = >>=-eq l _ h2 in
      let (u4, c4, r4, e4, h4, s4) = >>=-eq v (λ _. w >> pure (x || (y || z))) h3 in
      let (u5, c5, r5, e5, h5, s5) = >>=-eq w (λ _. pure (x || (y || z))) h4 in
      let (n1, m1) = any-append is_hard c1 r1 (rw (← s1) at n) in
      let (n2, m2) = any-append is_hard c2 r2 (rw (← s2) at m1) in
      let (n3, m3) = any-append is_hard c3 r3 (rw (← s3) at m2) in
      let (n4, m4) = any-append is_hard c4 r4 (rw (← s4) at m3) in
      let (n5, m5) = any-append is_hard c5 r5 (rw (← s5) at m4) in
      let f = p x c1 e1 n1 in
      let g = q y c2 e2 n2 in
      let i = r z c3 e3 n3 in
      let tail : r3 ≡ [] =
        sym s4
        ∙ append_nil c4 r4 (hv u4 c4 e4 n4)
            (sym s5 ∙ append_nil c5 r5 (hw u5 c5 e5 n5) (sym (codes_same h5))) in
      rw (← flag_same h5) (
        (λ none_set.
            let (fx, yz) = or_false x (y || z) none_set in
            let (fy, fz) = or_false y z yz in
            sym s1
            ∙ append_nil c1 r1 (f.0 fx)
                (sym s2 ∙ append_nil c2 r2 (g.0 fy) (sym s3 ∙ append_nil c3 r3 (i.0 fz) tail))),
        (λ set.
            rw (← s1, ← s2, ← s3)
              (either x (y || z) c1 (c2 ++ (c3 ++ r3)) f.1
                (either y z c2 (c3 ++ r3) g.1 (λ t. left_nonempty c3 r3 (i.1 t))) set)),
      )
