-- ===== src/Tests/Predicate.antt =====
-- ast/src/predicate.rs at concrete inputs: the refinement `old(total) <= total + paid` of a deposit.
use merak.Prelude.{String, true, false, ◌≡◌, refl, [], ◌∷◌, string_eq, if◌then◌else◌}
use mathlib.Core.Bool.{not as bnot}
use merak.Prelude.Int.{ℤ, pos}
use merak.Prelude.Map.{Map}
use merak.Ast.Node.{unknown}
use merak.Ast.Predicate.{
  leq, lt, gt, ArithOp, RefinementExpr, int_lit, bool_lit, bin_op, old, Predicate, bin_rel, and,
  implies,
}
use merak.Ast.Predicate.Operations.{negate, contains_old, free_variables}
use merak.Ast.Predicate.Substitute.{substitute_vars, substitute_exprs}
use merak.Ast.Predicate.Meaning.{Interp, State, holds, eval}
use merak.Ast.Predicate.Negation.{holds-negate}
use merak.Ast.Predicate.Substitution.{
  renamed, substituted, holds-substitute_vars, holds-substitute_exprs,
}
use merak.Ast.Predicate.OldState
use merak.Ast.Predicate.FreeVariables.{holds-free_variables}

-- Every operator answers its left operand.
abbrev pub first_operand : Interp
first_operand = record {
  arith_op = λ op a b. a;
  unary = λ op a. a;
  function = λ f xs. pos 0;
  relation = λ f xs. true;
  address = λ a. pos 1;
}

abbrev pub constant_state : ℤ → State
constant_state v = record {
  value = λ x. v;
  flag = λ x. true;
  sender = pos 7;
  amount = pos 8;
  timestamp = pos 9;
}

abbrev pub total : RefinementExpr
total = RefinementExpr.var "total" 1 unknown

abbrev pub paid : RefinementExpr
paid = RefinementExpr.var "paid" 2 unknown

abbrev pub grows : Predicate
grows = bin_rel leq (old total 3 unknown) (bin_op ArithOp.add total paid 4 unknown) 5 unknown

abbrev pub guarded : Predicate
guarded =
    implies (Predicate.var "open" 6 unknown) (and grows (bin_rel lt paid total 7 unknown) 8 unknown)
      9 unknown

negated_order : negate (bin_rel leq total paid 5 unknown) ≡ bin_rel gt total paid 5 unknown
unfolding negate
negated_order = refl

growth_now : holds first_operand (constant_state (pos 3)) (constant_state (pos 4)) grows ≡ true
unfolding holds eval
growth_now = refl

grows_names : free_variables guarded ≡ "open" ∷ "total" ∷ "total" ∷ "paid" ∷ "paid" ∷ "total" ∷ []
unfolding free_variables
grows_names = refl

holds-negate_example :
    holds first_operand (constant_state (pos 3)) (constant_state (pos 4)) (negate guarded)
    ≡ bnot (holds first_operand (constant_state (pos 3)) (constant_state (pos 4)) guarded)
holds-negate_example =
    holds-negate first_operand (constant_state (pos 3)) (constant_state (pos 4)) guarded

abbrev versions : Map String String
versions = ("total", "total_1") ∷ []

holds-substitute_vars_example :
    holds first_operand
      (constant_state (pos 3))
      (constant_state (pos 4))
      (substitute_vars versions guarded)
    ≡ holds first_operand
        (renamed versions (constant_state (pos 3)))
        (renamed versions (constant_state (pos 4)))
        guarded
holds-substitute_vars_example =
    holds-substitute_vars first_operand versions (constant_state (pos 3)) (constant_state (pos 4))
      guarded

-- The name `open`, which stands as a predicate, is mapped to a literal.
abbrev arguments : Map String RefinementExpr
arguments = ("total", int_lit (pos 5) 1 unknown) ∷ ("open", bool_lit false 2 unknown) ∷ []

holds-substitute_exprs_example :
    holds first_operand
      (constant_state (pos 3))
      (constant_state (pos 4))
      (substitute_exprs arguments guarded)
    ≡ holds first_operand
        (substituted first_operand arguments (constant_state (pos 3)) (constant_state (pos 3)))
        (substituted first_operand arguments (constant_state (pos 3)) (constant_state (pos 4)))
        guarded
holds-substitute_exprs_example =
    holds-substitute_exprs first_operand arguments (constant_state (pos 3)) (constant_state (pos 4))
      guarded

-- A state that differs from the constant one at the name `fee`, which is not free in `grows`.
abbrev with_fee : State
with_fee = record {
  value = λ x. if string_eq.same x "fee" then pos 0 else pos 4;
  flag = λ x. true;
  sender = pos 7;
  amount = pos 8;
  timestamp = pos 9;
}

holds-free_variables_example :
    holds first_operand (constant_state (pos 4)) (constant_state (pos 4)) grows
    ≡ holds first_operand with_fee with_fee grows
unfolding free_variables
holds-free_variables_example =
    holds-free_variables first_operand grows (constant_state (pos 4)) with_fee
      (constant_state (pos 4)) with_fee
      (((refl, refl), ((refl, refl), ((refl, refl), tt))), (refl, refl, refl))
      (((refl, refl), ((refl, refl), ((refl, refl), tt))), (refl, refl, refl))

contains_old-false_example : contains_old grows ≡ false
contains_old-false_example = OldState.contains_old-false grows
