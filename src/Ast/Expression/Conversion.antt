-- ===== src/Ast/Expression/Conversion.antt =====
-- ast/src/expression.rs: from an expression of a condition to a predicate. `none` is a panic. How an
-- address is printed (`{:?}` of `H256`) is an argument.
use merak.Prelude.{String, true, false, Option, none, some}
use merak.Prelude.Partial.{◌>>=◌}
use merak.Ast.Operator.{
  BinaryOperator, logical_or, logical_and, equal, not_equal, less_equal, less, greater_equal,
  greater, subtract, multiply, divide, UnaryOperator, negate,
}
use merak.Ast.Predicate.{
  RelOp, eq, neq, lt, leq, gt, geq, ArithOp, negate_op, RefinementExpr, int_lit, address_lit,
  bool_lit, bin_op, uninterp_fn, Exprs, Predicate, truth, falsity, uninterp_fn_call, bin_rel, and,
  or,
}
use merak.Ast.Expression.{
  H256, integer, address, boolean, string, Expression, literal, identifier, binary_op, unary_op,
  grouped, function_call, member_call, Arguments, nil, cons,
}

unfoldable pub arith_op_of : BinaryOperator → Option ArithOp
arith_op_of BinaryOperator.add = some ArithOp.add
arith_op_of subtract = some ArithOp.sub
arith_op_of multiply = some ArithOp.mul
arith_op_of divide = some ArithOp.div
arith_op_of BinaryOperator.modulo = some ArithOp.modulo
arith_op_of _ = none

unfoldable pub rel_op_of : BinaryOperator → Option RelOp
rel_op_of equal = some eq
rel_op_of not_equal = some neq
rel_op_of less = some lt
rel_op_of less_equal = some leq
rel_op_of greater = some gt
rel_op_of greater_equal = some geq
rel_op_of _ = none

-- `Expression::to_refinement_expr`
unfoldable mutual
  unfolding arith_op_of

  pub to_refinement_expr : (H256 → String) → Expression → Option RefinementExpr
  to_refinement_expr show (literal (integer n) i sr) = some (int_lit n i sr)
  to_refinement_expr show (literal (boolean b) i sr) = some (bool_lit b i sr)
  to_refinement_expr show (literal (address a) i sr) = some (address_lit (show a) i sr)
  to_refinement_expr show (literal (string s) i sr) = none
  to_refinement_expr show (identifier x i sr) = some (RefinementExpr.var x i sr)
  to_refinement_expr show (binary_op l op r i sr) = do
    arith_op ← arith_op_of op
    lhs ← to_refinement_expr show l
    rhs ← to_refinement_expr show r
    some (bin_op arith_op lhs rhs i sr)
  to_refinement_expr show (unary_op negate e i sr) = do
    expr ← to_refinement_expr show e
    some (RefinementExpr.unary_op negate_op expr i sr)
  to_refinement_expr show (unary_op UnaryOperator.not e i sr) = none
  to_refinement_expr show (grouped e i sr) = to_refinement_expr show e
  to_refinement_expr show (function_call f args i sr) = do
    args' ← map_refinement_expr show args
    some (uninterp_fn f args' i sr)
  to_refinement_expr show (member_call e f args i sr) = none

  pub map_refinement_expr : (H256 → String) → Arguments → Option Exprs
  map_refinement_expr show nil = some Exprs.nil
  map_refinement_expr show (cons e es) = do
    first ← to_refinement_expr show e
    rest ← map_refinement_expr show es
    some (Exprs.cons first rest)

-- `Expression::to_predicate`
unfoldable pub to_predicate : (H256 → String) → Expression → Option Predicate
unfolding to_refinement_expr map_refinement_expr rel_op_of
to_predicate show (literal (boolean true) i sr) = some (truth i sr)
to_predicate show (literal (boolean false) i sr) = some (falsity i sr)
to_predicate show (literal lit i sr) = none
to_predicate show (identifier x i sr) = some (Predicate.var x i sr)
to_predicate show (binary_op l logical_and r i sr) = do
  left ← to_predicate show l
  right ← to_predicate show r
  some (and left right i sr)
to_predicate show (binary_op l logical_or r i sr) = do
  left ← to_predicate show l
  right ← to_predicate show r
  some (or left right i sr)
to_predicate show (binary_op l op r i sr) = do
  rel_op ← rel_op_of op
  lhs ← to_refinement_expr show l
  rhs ← to_refinement_expr show r
  some (bin_rel rel_op lhs rhs i sr)
to_predicate show (unary_op UnaryOperator.not e i sr) = do
  pred ← to_predicate show e
  some (Predicate.not pred i sr)
to_predicate show (unary_op negate e i sr) = none
to_predicate show (grouped e i sr) = to_predicate show e
to_predicate show (function_call f args i sr) = do
  args' ← map_refinement_expr show args
  some (uninterp_fn_call f args' i sr)
to_predicate show (member_call e f args i sr) = none
