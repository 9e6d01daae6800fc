-- ===== src/Verifier/Accept/Statement.antt =====
-- What an accepted statement carries at GATE 0: its header, its rows and its result.
use aee_conformance.Base.{String, true, not, ◌≡◌}
use aee_conformance.Base.{All}
use aee_conformance.Py.Value.{Value, Fields, get, has, is_str}
use aee_conformance.Py.Run.{Run, add_if, for_each}
use aee_conformance.Platform.{Platform}
use aee_conformance.Verifier.Rows.{mistyped, row_members}

-- A row with an `actualLayer`, whose five typed members are texts where they are present.
abbrev pub IsTyped : Fields → Type 0
IsTyped r =
    (has "actualLayer" r ≡ true) × All (λ m. (has m r ≡ true) → is_str (get m r) ≡ true) row_members

abbrev row_member : Fields → String → Run (Unit {0})
row_member r m = add_if (mistyped r m) "statement-malformed"

abbrev row_typed : Fields → Run (Unit {0})
row_typed r = for_each row_members (row_member r)

abbrev row_layer : Fields → Run (Unit {0})
row_layer r = add_if (not (has "actualLayer" r)) "malformed-missing-actual-layer"
