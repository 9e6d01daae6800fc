-- ===== src/Py/Run.antt =====
-- A check of the verifier: it adds failure codes to the `Outcome` and returns, or an exception
-- leaves it.
use aee_conformance.Base.{String, Bool, true, false, List, [], ◌∷◌, ◌++◌, ◌≡◌, refl, ap}
use aee_conformance.Base.{All, if◌then◌else◌}
use aee_conformance.Py.Value.{Value, hashable}

-- `type_error`: a list or a dict is hashed. `jcs_error`: a value has no canonical form. `value_error`: a
-- text cannot be read, or a number has no JSON text.
pub data Exception : Type 0 where
  type_error jcs_error value_error : Exception

-- The value returned, with the arguments of the `out.add` calls made on the way, in order.
pub data Run {ℓ} (A : Type ℓ) : Type ℓ where
  raised : Exception → Run A
  done : A → List String → Run A

-- Codes that were added before the rest ran.
abbrev pub after {ℓ} : {A : Type ℓ} → List String → Run A → Run A
after cs (raised e) = raised e
after cs (done a ds) = done a (cs ++ ds)

infixl 5 ◌>>=◌ ◌>>◌
abbrev pub ◌>>=◌ {ℓ κ} : {A : Type ℓ} {B : Type κ} → Run A → (A → Run B) → Run B
raised e >>= f = raised e
done a cs >>= f = after cs (f a)

abbrev pub ◌>>◌ {ℓ} : {B : Type ℓ} → Run (Unit {0}) → Run B → Run B
m >> k = m >>= λ _. k

abbrev pub pure {ℓ} : {A : Type ℓ} → A → Run A
pure a = done a []

abbrev pub skip : Run (Unit {0})
skip = done tt []

-- `out.add(code)`
abbrev pub add : String → Run (Unit {0})
add code = done tt (code ∷ [])

-- `if b: out.add(code)`
abbrev pub add_if : Bool → String → Run (Unit {0})
add_if b code = if b then add code else skip

-- `hash(v)`, on the way into a set or a dict
abbrev pub hash : Value → Run (Unit {0})
hash v = if hashable v then skip else raised type_error

-- `for x in xs: body(x)`
unfoldable pub for_each {ℓ} : {A : Type ℓ} → List A → (A → Run (Unit {0})) → Run (Unit {0})
for_each [] body = skip
for_each (x ∷ xs) body = body x >> for_each xs body

-- A run that adds no code is made of runs that add none.
pub after-eq-silent {ℓ} :
    {A : Type ℓ} (cs : List String) (m : Run A) {a : A}
    → after cs m ≡ done a []
    → (cs ≡ []) × (m ≡ done a [])
after-eq-silent [] (raised e) h = cc
after-eq-silent [] (done a ds) h = (refl, h)
after-eq-silent (c ∷ cs) (raised e) h = cc
after-eq-silent (c ∷ cs) (done a ds) h = absurd (cons_not_nil h)
  where
    cons_not_nil : {a' : _} → done a (c ∷ (cs ++ ds)) ≡ done a' [] → ⊥
    cons_not_nil e = cc

pub >>=-eq-silent {ℓ κ} :
    {A : Type ℓ} {B : Type κ} (m : Run A) (f : A → Run B) {b : B}
    → (m >>= f) ≡ done b []
    → (a : A) × (m ≡ done a []) × (f a ≡ done b [])
>>=-eq-silent (raised e) f h = cc
>>=-eq-silent (done a cs) f h = let k = after-eq-silent cs (f a) h in (a, ap (done a) k.0, k.1)

pub >>-eq-silent {ℓ} :
    {B : Type ℓ} (m : Run (Unit {0})) (k : Run B) {b : B}
    → (m >> k) ≡ done b []
    → (m ≡ skip) × (k ≡ done b [])
>>-eq-silent m k h = let r = >>=-eq-silent m (λ _. k) h in (r.1, r.2)

pub add_if-eq-skip : (b : Bool) (code : String) → add_if b code ≡ skip → b ≡ false
add_if-eq-skip true code h = cc
add_if-eq-skip false code h = refl

unfoldable pub for_each-eq-skip {ℓ} :
    {A : Type ℓ} (xs : List A) (body : A → Run (Unit {0}))
    → for_each xs body ≡ skip
    → All (λ x. body x ≡ skip) xs
unfolding for_each
for_each-eq-skip [] body h = tt
for_each-eq-skip (x ∷ xs) body h =
    let k = >>-eq-silent (body x) (for_each xs body) h in (k.0, for_each-eq-skip xs body k.1)

-- The last step of a check returns its new state.
pub done-injective {ℓ} :
    {A : Type ℓ} {a b : A} {cs ds : List String} → done a cs ≡ done b ds → a ≡ b
done-injective h = cc

pub >>=-pure-eq-silent {ℓ κ} :
    {A : Type ℓ} {B : Type κ} (m : Run A) (f : A → B) {b : B}
    → (m >>= λ a. pure (f a)) ≡ done b []
    → (a : A) × (m ≡ done a []) × (f a ≡ b)
>>=-pure-eq-silent m f h =
    let (a, p, q) = >>=-eq-silent m (λ a. pure (f a)) h in (a, p, done-injective q)
