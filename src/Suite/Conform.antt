-- ===== src/Suite/Conform.antt =====
-- The evaluation of packaging/run_vectors.py and the contract of each kind.
use mathlib.Core.Logic.{◌↔◌}
use aee_conformance.Base.{
  String, Bool, true, false, ◌&&◌, Option, List, ◌≡◌, ap, ◌∙◌, if◌then◌else◌, str_eq,
}
use aee_conformance.Py.Value.{Fields}
use aee_conformance.Suite.Score.{Score, is_ok}
use aee_conformance.Suite.Expected.{Expected, expected_of}
use aee_conformance.Suite.Rail.{Observed}
use aee_conformance.Suite.Evaluate.{
  eval_accept, eval_reject, eval_indeterminate, eval_kind, eval_verdict, evaluate_vector_detailed,
}
use aee_conformance.Suite.Contract.{
  IsAnswered, IsAcceptContract, IsRejectContract, IsIndeterminateContract, IsConformant,
}
use aee_conformance.Suite.Verdicts.{
  accept_ok, codes_ok, refusal_ok, readings_ok, verdict_ok, eval_accept-is_ok, eval_reject-is_ok,
  eval_indeterminate-is_ok, eval_verdict-is_ok,
}
use aee_conformance.Suite.Reflects.{
  Reflects, IsAnswered-reflects, accept_reflects, codes_reflects, readings_reflects, refused_with,
}

reflects_same : {a b : Bool} {A : Type 0} → a ≡ b → Reflects b A → Reflects a A
reflects_same e f = rw e f

module _ (kind : String) (e : Expected) (o : Observed) (findings : Option (List String)) where
  abbrev s : Score
  s = eval_verdict kind e o

  ok : is_ok s ≡ verdict_ok kind e o
  ok = eval_verdict-is_ok kind e o

  answered : Reflects (verdict_ok kind e o) (IsAnswered kind e o)
  answered = IsAnswered-reflects kind e o

  kinds :
      (accept indeterminate : Bool)
      → Reflects
          (is_ok (
            if accept
            then eval_accept e o s
            else (if indeterminate
                then eval_indeterminate e o findings s
                else eval_reject e o findings s)))
          (IsAnswered kind e o
            × (if accept
                then IsAcceptContract e o
                else (if indeterminate
                    then IsIndeterminateContract e o findings
                    else IsRejectContract e o findings)))
  kinds true b =
      reflects_same (eval_accept-is_ok e o s ∙ ap (accept_ok e o) ok)
        (accept_reflects e o (verdict_ok kind e o) answered)
  kinds false true =
      reflects_same
        (eval_indeterminate-is_ok e o findings s
          ∙ ap (λ t. refusal_ok o findings (readings_ok e o && t)) ok)
        (refused_with o findings (readings_ok e o) (verdict_ok kind e o) (readings_reflects e o)
          answered)
  kinds false false =
      reflects_same
        (eval_reject-is_ok e o findings s
          ∙ ap (λ t. refusal_ok o findings (codes_ok e.codes o.codes && t)) ok)
        (refused_with o findings (codes_ok e.codes o.codes) (verdict_ok kind e o)
          (codes_reflects e.codes o.codes) answered)

kind_reflects :
    (kind : String) (e : Expected) (o : Observed) (findings : Option (List String))
    → Reflects
        (is_ok (eval_kind kind e o findings (eval_verdict kind e o)))
        (IsConformant kind e o findings)
unfolding eval_kind
kind_reflects kind e o findings =
    kinds kind e o findings (str_eq kind "accept") (str_eq kind "indeterminate")

-- A vector passes exactly when the rail answered, with the verdict that the manifest declares and the same
-- under both key policies, and what it reports satisfies the contract of the vector's kind.
pub evaluate_vector_detailed-IsConformant :
    (kind : String) (entry : Option Fields) (o : Observed) (findings : Option (List String))
    → (is_ok (evaluate_vector_detailed kind entry o findings) ≡ true)
      ↔ IsConformant kind (expected_of entry) o findings
unfolding evaluate_vector_detailed
evaluate_vector_detailed-IsConformant kind entry o findings =
    kind_reflects kind (expected_of entry) o findings
