-- ===== src/Shapes.antt =====
-- The field shapes that packaging/run_vectors.py checks in several places: `HEX64_RE`, `RFC3339_RE`,
-- `_timestamp_ok`, `_rfc3339_key`, `_attack_id_array_ok`, `_commitment_array_ok`,
-- `_expected_payloads_ok` and `_digest_of`.
pub mod Hex
use Prim.Native.String.{◌++◌ as ◌<>◌}
use aee_conformance.Base.{ℕ, zero, suc, String, Bool, true, false, ◌&&◌, ◌||◌, Option, none, some}
use aee_conformance.Base.{List, [], ◌∷◌, all, mem_str, leb, ◌==◌, if◌then◌else◌, codes}
use aee_conformance.Base.{ends_with}
use aee_conformance.Base.Int.{pos, eq_ℤ}
use aee_conformance.Py.Value.{Value, null, str, arr, obj, Fields, end, field, get, to_list}
use aee_conformance.Platform.{Platform, Datetime}
use aee_conformance.Jcs.{sorted_no_dupes}

-- `$` also matches before a newline that ends the text.
abbrev pub at_end : List ℕ → Bool
at_end [] = true
at_end (c ∷ []) = c == 0x0A
at_end (c ∷ d ∷ cs) = false

abbrev pub is_hex_lower : ℕ → Bool
is_hex_lower c = (leb b'0' c && leb c b'9') || (leb b'a' c && leb c b'f')

-- `[0-9a-f]{n}$`
unfoldable pub hex_then_end : ℕ → List ℕ → Bool
hex_then_end zero cs = at_end cs
hex_then_end (suc n) [] = false
hex_then_end (suc n) (c ∷ cs) = is_hex_lower c && hex_then_end n cs

-- `HEX64_RE.match(s)`
unfoldable pub matches_hex64 : String → Bool
unfolding hex_then_end
matches_hex64 s = hex_then_end 64 (codes s)

unfoldable pub is_hex64_lower : Value → Bool
unfolding matches_hex64
is_hex64_lower (str s) = matches_hex64 s
is_hex64_lower _ = false

-- `_digest_of`: None where anything on the way is missing.
abbrev digest_member : Value → Value
digest_member (obj d) = get "sha256" d
digest_member _ = null

unfoldable pub digest_of : Value → Value
digest_of (obj fs) = digest_member (get "digest" fs)
digest_of _ = null

-- The texts of a list of nothing but texts.
abbrev push : String → Option (List String) → Option (List String)
push s none = none
push s (some ss) = some (s ∷ ss)

unfoldable pub all_texts : List Value → Option (List String)
all_texts [] = some []
all_texts (str s ∷ vs) = push s (all_texts vs)
all_texts (_ ∷ vs) = none

unfoldable pub text_array : Value → Option (List String)
unfolding all_texts
text_array (arr xs) = all_texts (to_list xs)
text_array _ = none

unfoldable pub attack_id_array_ok : Value → List String → Bool
unfolding text_array sorted_no_dupes
attack_id_array_ok v declared = elim (text_array v) [
  | none ↦ false
  | some ids ↦ sorted_no_dupes ids && all (λ a. mem_str a declared) ids
]

abbrev is_nonempty {ℓ} : {A : Type ℓ} → List A → Bool
is_nonempty [] = false
is_nonempty (_ ∷ _) = true

unfoldable pub commitment_array_ok : Value → Bool
unfolding text_array sorted_no_dupes matches_hex64
commitment_array_ok v = elim (text_array v) [
  | none ↦ false
  | some ds ↦ is_nonempty ds && all matches_hex64 ds && sorted_no_dupes ds
]

unfoldable pub payloads_ok : Fields → List String → Bool
unfolding commitment_array_ok
payloads_ok end declared = true
payloads_ok (field attack v fs) declared =
    mem_str attack declared && commitment_array_ok v && payloads_ok fs declared

unfoldable pub expected_payloads_ok : Value → List String → Bool
unfolding payloads_ok
expected_payloads_ok (obj fs) declared = payloads_ok fs declared
expected_payloads_ok _ declared = false

-- `(\d){n}` and a literal character: the rest of the text after a match.
unfoldable pub skip_digits : (ℕ → Bool) → ℕ → List ℕ → Option (List ℕ)
skip_digits digit zero cs = some cs
skip_digits digit (suc n) [] = none
skip_digits digit (suc n) (c ∷ cs) = if digit c then skip_digits digit n cs else none

abbrev skip_char : ℕ → List ℕ → Option (List ℕ)
skip_char c [] = none
skip_char c (d ∷ ds) = if c == d then some ds else none

infixl 5 ◌>>=◌
abbrev ◌>>=◌ {ℓ κ} : {A : Type ℓ} {B : Type κ} → Option A → (A → Option B) → Option B
none >>= f = none
some a >>= f = f a

skip_more_digits : (ℕ → Bool) → List ℕ → List ℕ
skip_more_digits digit [] = []
skip_more_digits digit (c ∷ cs) = if digit c then skip_more_digits digit cs else c ∷ cs

-- `(\.\d+)?`
skip_fraction : (ℕ → Bool) → List ℕ → List ℕ
unfolding skip_more_digits
skip_fraction digit (c ∷ d ∷ cs) =
    if (c == b'.') && digit d then skip_more_digits digit cs else c ∷ d ∷ cs
skip_fraction digit cs = cs

-- `(Z|[+-]\d{2}:\d{2})$`
zone_at_end : (ℕ → Bool) → List ℕ → Bool
unfolding skip_digits
zone_at_end digit [] = false
zone_at_end digit (c ∷ cs) =
    if c == b'Z'
    then at_end cs
    else if (c == b'+') || (c == b'-')
    then (elim (skip_digits digit 2 cs >>= λ r. skip_char b':' r >>= λ s. skip_digits digit 2 s) [
      | none ↦ false
      | some r ↦ at_end r
    ])
    else false

-- `RFC3339_RE.match(s)`
unfoldable pub matches_rfc3339 : (ℕ → Bool) → String → Bool
unfolding skip_digits skip_fraction zone_at_end
matches_rfc3339 digit s =
    elim (do
      year ← skip_digits digit 4 (codes s)
      month ← skip_char b'-' year >>= skip_digits digit 2
      day ← skip_char b'-' month >>= skip_digits digit 2
      hour ← skip_char b'T' day >>= skip_digits digit 2
      minute ← skip_char b':' hour >>= skip_digits digit 2
      skip_char b':' minute >>= skip_digits digit 2) [
        | none ↦ false
        | some rest ↦ zone_at_end digit (skip_fraction digit rest)
      ]

-- `s[:-1]`
abbrev drop_last : String → String
drop_last String.[] = String.[]
drop_last (String.◌∷◌ c String.[]) = String.[]
drop_last (String.◌∷◌ c (String.◌∷◌ d s)) = String.◌∷◌ c (drop_last (String.◌∷◌ d s))

abbrev utc_suffix : String → String
utc_suffix s = if ends_with s "Z" then drop_last s <> "+00:00" else s

module _ (P : Platform) where
  unfoldable pub rfc3339_key : String → Option Datetime
  rfc3339_key v = P.fromisoformat (utc_suffix (P.strip v))

  -- `key is not None and key.utcoffset() == timedelta(0)`
  abbrev is_utc : Option Datetime → Bool
  is_utc none = false
  is_utc (some d) = elim (d.utcoffset) [ none ↦ false | some o ↦ eq_ℤ o (pos 0) ]

  unfoldable pub timestamp_ok : Value → Bool
  unfolding matches_rfc3339 rfc3339_key
  timestamp_ok (str s) = matches_rfc3339 P.is_decimal_digit s && is_utc (rfc3339_key s)
  timestamp_ok _ = false
