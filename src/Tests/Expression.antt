-- ===== src/Tests/Expression.antt =====
-- ast/src/expression.rs at concrete inputs: the condition `total + 1 > paid and open`.
use mathlib.Core.Option
use merak.Prelude.{String, true, ◌≡◌, refl, [], ◌∷◌, none, some, string_eq}
use merak.Prelude.Int.{pos}
use merak.Prelude.Map.{Map, get}
use merak.Ast.Node.{unknown}
use merak.Ast.Operator.{logical_and, greater, equal, BinaryOperator}
use merak.Ast.Predicate.{gt, ArithOp, RefinementExpr, int_lit, bin_op, Predicate, bin_rel, and}
use merak.Ast.Predicate.Substitute.{substitute_vars}
use merak.Ast.Predicate.Meaning.{holds}
use merak.Ast.Expression
use merak.Ast.Expression.{
  H256, integer, boolean, Expression, literal, identifier, binary_op, substitute_identifiers,
  get_used_vars,
}
use merak.Ast.Expression.Conversion.{to_predicate}
use merak.Ast.Expression.Renaming.{to_predicate-substitute_identifiers}
use merak.Ast.Expression.UsedVars.{substitute_vars-get_used_vars}
use merak.Ast.Expression.Truth.{is_true, holds-to_predicate}
use merak.Tests.Predicate.{first_operand, constant_state}

abbrev no_addresses : H256 → String
no_addresses a = "0x"

abbrev sum : Expression
sum =
    binary_op (identifier "total" 1 unknown) BinaryOperator.add
      (literal (integer (pos 1)) 2 unknown) 3 unknown

abbrev condition : Expression
condition =
    binary_op (binary_op sum greater (identifier "paid" 4 unknown) 5 unknown) logical_and
      (identifier "open" 6 unknown) 7 unknown

abbrev refinement : Predicate
refinement =
    and
      (bin_rel gt
        (bin_op ArithOp.add (RefinementExpr.var "total" 1 unknown) (int_lit (pos 1) 2 unknown) 3
          unknown)
        (RefinementExpr.var "paid" 4 unknown) 5 unknown)
      (Predicate.var "open" 6 unknown) 7 unknown

condition_converts : to_predicate no_addresses condition ≡ some refinement
unfolding to_predicate
condition_converts = refl

-- A comparison of comparisons, `(sum > 1) == true`, panics.
comparison_panics :
    to_predicate no_addresses (
      binary_op
        (binary_op sum greater sum 5 unknown)
        equal
        (literal (boolean true) 6 unknown)
        7
        unknown)
    ≡ none
unfolding to_predicate
comparison_panics = refl

holds-to_predicate_example :
    holds first_operand (constant_state (pos 3)) (constant_state (pos 4)) refinement
    ≡ is_true no_addresses first_operand (constant_state (pos 4)) condition
holds-to_predicate_example =
    holds-to_predicate no_addresses first_operand (constant_state (pos 3)) (constant_state (pos 4))
      condition refinement condition_converts

abbrev versions : Map String String
versions = ("total", "total_1") ∷ ("paid", "paid_2") ∷ ("open", "open_0") ∷ []

to_predicate-substitute_identifiers_example :
    to_predicate no_addresses (substitute_identifiers versions condition)
    ≡ Option.map (substitute_vars versions) (to_predicate no_addresses condition)
to_predicate-substitute_identifiers_example =
    to_predicate-substitute_identifiers no_addresses versions condition

substitute_vars-get_used_vars_example :
    Expression.substitute_vars versions condition ≡ some (substitute_identifiers versions condition)
unfolding get_used_vars get
substitute_vars-get_used_vars_example =
    substitute_vars-get_used_vars versions condition
      (("total_1", refl), (("paid_2", refl), (("open_0", refl), tt)))
