-- ===== src/Ast/Expression/Renaming.antt =====
-- ast/src/expression.rs: the two renamings, and the conversion to a predicate after one of them.
use mathlib.Core.Option
use merak.Prelude.{String, true, false, ◌≡◌, refl, some, arith, string_eq}
use merak.Prelude.Partial.{>>=-eq-some}
use merak.Prelude.Map.{Map, get}
use merak.Ast.Operator.{logical_or, logical_and, UnaryOperator, negate}
use merak.Ast.Predicate.Substitute.{rename, expr_substitute_vars, substitute_vars}
use merak.Ast.Predicate.Substitute.{map_substitute_vars as exprs_substitute_vars}
use merak.Ast.Expression
use merak.Ast.Expression.{
  H256, Literal, integer, address, boolean, string, Expression, literal, identifier, binary_op,
  unary_op, grouped, function_call, member_call, Arguments, nil, cons, substitute_identifiers,
  map_identifiers,
}
use merak.Ast.Expression.Conversion.{to_refinement_expr, map_refinement_expr, to_predicate}

module _ (show : H256 → String) (m : Map String String) where
  mutual
    unfolding to_refinement_expr substitute_identifiers expr_substitute_vars

    to_refinement_expr-rename :
        (e : Expression)
        → to_refinement_expr show (substitute_identifiers m e)
          ≡ Option.map (expr_substitute_vars m) (to_refinement_expr show e)
    to_refinement_expr-rename (literal (integer n) i sr) = refl
    to_refinement_expr-rename (literal (boolean b) i sr) = refl
    to_refinement_expr-rename (literal (address a) i sr) = refl
    to_refinement_expr-rename (literal (string s) i sr) = refl
    to_refinement_expr-rename (identifier x i sr) = refl
    to_refinement_expr-rename (binary_op l op r i sr) =
        ground (arith, to_refinement_expr-rename l, to_refinement_expr-rename r)
    to_refinement_expr-rename (unary_op negate e i sr) = ground (arith, to_refinement_expr-rename e)
    to_refinement_expr-rename (unary_op UnaryOperator.not e i sr) = refl
    to_refinement_expr-rename (grouped e i sr) = to_refinement_expr-rename e
    to_refinement_expr-rename (function_call f args i sr) =
        ground (arith, map_refinement_expr-rename args)
    to_refinement_expr-rename (member_call e f args i sr) = refl

    map_refinement_expr-rename :
        (es : Arguments)
        → map_refinement_expr show (map_identifiers m es)
          ≡ Option.map (exprs_substitute_vars m) (map_refinement_expr show es)
    map_refinement_expr-rename nil = refl
    map_refinement_expr-rename (cons e es) =
        ground (arith, to_refinement_expr-rename e, map_refinement_expr-rename es)

-- Renaming the identifiers of an expression and converting it to a predicate gives what renaming the
-- names of its predicate gives, and panics for the same expressions.
pub to_predicate-substitute_identifiers :
    (show : H256 → String) (m : Map String String) (e : Expression)
    → to_predicate show (substitute_identifiers m e)
      ≡ Option.map (substitute_vars m) (to_predicate show e)
unfolding to_predicate substitute_identifiers substitute_vars
to_predicate-substitute_identifiers show m (literal (boolean true) i sr) = refl
to_predicate-substitute_identifiers show m (literal (boolean false) i sr) = refl
to_predicate-substitute_identifiers show m (literal lit i sr) = refl
to_predicate-substitute_identifiers show m (identifier x i sr) = refl
to_predicate-substitute_identifiers show m (binary_op l logical_and r i sr) = ground (
  arith,
  to_predicate-substitute_identifiers show m l,
  to_predicate-substitute_identifiers show m r,
)
to_predicate-substitute_identifiers show m (binary_op l logical_or r i sr) = ground (
  arith,
  to_predicate-substitute_identifiers show m l,
  to_predicate-substitute_identifiers show m r,
)
to_predicate-substitute_identifiers show m (binary_op l op r i sr) =
    ground (arith, to_refinement_expr-rename show m l, to_refinement_expr-rename show m r)
to_predicate-substitute_identifiers show m (unary_op UnaryOperator.not e i sr) =
    ground (arith, to_predicate-substitute_identifiers show m e)
to_predicate-substitute_identifiers show m (unary_op negate e i sr) = refl
to_predicate-substitute_identifiers show m (grouped e i sr) =
    to_predicate-substitute_identifiers show m e
to_predicate-substitute_identifiers show m (function_call f args i sr) =
    ground (arith, map_refinement_expr-rename show m args)
to_predicate-substitute_identifiers show m (member_call e f args i sr) = refl

pub rename-get : (m : Map String String) (x y : String) → get x m ≡ some y → y ≡ rename m x
unfolding rename
rename-get m x y h = rw (h, rename)

module _ (m : Map String String) where
  mutual
    unfolding Expression.substitute_vars substitute_identifiers

    substitute_vars-eq :
        (e e' : Expression)
        → Expression.substitute_vars m e ≡ some e'
        → e' ≡ substitute_identifiers m e
    substitute_vars-eq (literal lit i sr) e' h = cc
    substitute_vars-eq (identifier x i sr) e' h =
        let (y, found, done) = >>=-eq-some (get x m) _ h in cc (rename-get m x y found)
    substitute_vars-eq (binary_op l op r i sr) e' h =
        let (l', hl, next) = >>=-eq-some (Expression.substitute_vars m l) _ h in
        let (r', hr, done) = >>=-eq-some (Expression.substitute_vars m r) _ next in
        cc (substitute_vars-eq l l' hl, substitute_vars-eq r r' hr)
    substitute_vars-eq (unary_op op e i sr) e' h =
        let (x, hx, done) = >>=-eq-some (Expression.substitute_vars m e) _ h in
        cc (substitute_vars-eq e x hx)
    substitute_vars-eq (grouped e i sr) e' h =
        let (x, hx, done) = >>=-eq-some (Expression.substitute_vars m e) _ h in
        cc (substitute_vars-eq e x hx)
    substitute_vars-eq (function_call f args i sr) e' h =
        let (x, hx, done) = >>=-eq-some (Expression.map_substitute_vars m args) _ h in
        cc (map_substitute_vars-eq args x hx)
    substitute_vars-eq (member_call e f args i sr) e' h =
        let (x, hx, done) = >>=-eq-some (Expression.map_substitute_vars m args) _ h in
        cc (map_substitute_vars-eq args x hx)

    map_substitute_vars-eq :
        (es es' : Arguments)
        → Expression.map_substitute_vars m es ≡ some es'
        → es' ≡ map_identifiers m es
    map_substitute_vars-eq nil es' h = cc
    map_substitute_vars-eq (cons e es) es' h =
        let (x, hx, next) = >>=-eq-some (Expression.substitute_vars m e) _ h in
        let (xs, hxs, done) = >>=-eq-some (Expression.map_substitute_vars m es) _ next in
        cc (substitute_vars-eq e x hx, map_substitute_vars-eq es xs hxs)

-- Where the renaming that panics on an unmapped name succeeds, its result is that of the renaming
-- that leaves such a name alone.
pub substitute_vars-substitute_identifiers :
    (m : Map String String) (e e' : Expression)
    → Expression.substitute_vars m e ≡ some e'
    → e' ≡ substitute_identifiers m e
substitute_vars-substitute_identifiers m e e' h = substitute_vars-eq m e e' h
