-- ===== src/Ast/Expression/Truth.antt =====
-- ast/src/expression.rs: what a condition of the source language means, beside its predicate. A condition
-- reads the present state only; an expression with no value of its kind counts as 0 or false.
use mathlib.Core.Option.{some-injective}
use merak.Ast.Node.{NodeId, SourceRef}
use merak.Prelude.{
  String, Bool, true, false, ◌≡◌, ap, sym, ◌∙◌, some, List, [], ◌∷◌, ◌&&◌, ◌||◌, arith,
  if◌then◌else◌,
}
use mathlib.Core.Bool.{not as bnot}
use merak.Prelude.Int.{ℤ, pos, ltb_ℤ, leb_ℤ}
use merak.Prelude.Partial.{◌>>=◌, >>=-eq-some}
use merak.Ast.Operator.{
  BinaryOperator, logical_or, logical_and, equal, not_equal, less_equal, less, greater_equal,
  greater, subtract, multiply, divide, UnaryOperator, negate,
}
use merak.Ast.Predicate.{RelOp, ArithOp, negate_op, RefinementExpr, Exprs, Predicate}
use merak.Ast.Predicate.Meaning.{Interp, State, rel_holds, eval, eval_all, holds}
use merak.Ast.Expression.{
  H256, integer, address, boolean, string, Expression, literal, identifier, binary_op, unary_op,
  grouped, function_call, member_call, Arguments, nil, cons,
}
use merak.Ast.Expression.Conversion.{
  arith_op_of, rel_op_of, to_refinement_expr, map_refinement_expr, to_predicate,
}

-- The value of an operator on two integers, and whether a comparison of them holds.
abbrev value_of_op : Interp → BinaryOperator → ℤ → ℤ → ℤ
value_of_op I BinaryOperator.add a b = I.arith_op ArithOp.add a b
value_of_op I subtract a b = I.arith_op ArithOp.sub a b
value_of_op I multiply a b = I.arith_op ArithOp.mul a b
value_of_op I divide a b = I.arith_op ArithOp.div a b
value_of_op I BinaryOperator.modulo a b = I.arith_op ArithOp.modulo a b
value_of_op I _ a b = pos 0

abbrev truth_of_op : BinaryOperator → ℤ → ℤ → Bool
truth_of_op equal a b = leb_ℤ a b && leb_ℤ b a
truth_of_op not_equal a b = bnot (leb_ℤ a b && leb_ℤ b a)
truth_of_op less a b = ltb_ℤ a b
truth_of_op less_equal a b = leb_ℤ a b
truth_of_op greater a b = ltb_ℤ b a
truth_of_op greater_equal a b = leb_ℤ b a
truth_of_op _ a b = false

unfoldable mutual
  pub value : (H256 → String) → Interp → State → Expression → ℤ
  value show I n (literal (integer k) i sr) = k
  value show I n (literal (boolean b) i sr) = pos (if b then 1 else 0)
  value show I n (literal (address a) i sr) = I.address (show a)
  value show I n (literal (string s) i sr) = pos 0
  value show I n (identifier x i sr) = n.value x
  value show I n (binary_op l op r i sr) = value_of_op I op (value show I n l) (value show I n r)
  value show I n (unary_op negate e i sr) = I.unary negate_op (value show I n e)
  value show I n (unary_op UnaryOperator.not e i sr) = pos 0
  value show I n (grouped e i sr) = value show I n e
  value show I n (function_call f args i sr) = I.function f (values show I n args)
  value show I n (member_call e f args i sr) = pos 0

  pub values : (H256 → String) → Interp → State → Arguments → List ℤ
  values show I n nil = []
  values show I n (cons e es) = value show I n e ∷ values show I n es

unfoldable pub is_true : (H256 → String) → Interp → State → Expression → Bool
unfolding value values
is_true show I n (literal (boolean b) i sr) = b
is_true show I n (literal lit i sr) = false
is_true show I n (identifier x i sr) = n.flag x
is_true show I n (binary_op l logical_and r i sr) = is_true show I n l && is_true show I n r
is_true show I n (binary_op l logical_or r i sr) = is_true show I n l || is_true show I n r
is_true show I n (binary_op l op r i sr) = truth_of_op op (value show I n l) (value show I n r)
is_true show I n (unary_op UnaryOperator.not e i sr) = bnot (is_true show I n e)
is_true show I n (unary_op negate e i sr) = false
is_true show I n (grouped e i sr) = is_true show I n e
is_true show I n (function_call f args i sr) = I.relation f (values show I n args)
is_true show I n (member_call e f args i sr) = false

arith_op-value :
    (I : Interp) (op : BinaryOperator) (a : ArithOp) (x y : ℤ)
    → arith_op_of op ≡ some a
    → I.arith_op a x y ≡ value_of_op I op x y
unfolding arith_op_of
arith_op-value I BinaryOperator.add a x y h = cc
arith_op-value I _ a x y h = cc

rel_op-truth :
    (op : BinaryOperator) (o : RelOp) (x y : ℤ)
    → rel_op_of op ≡ some o
    → rel_holds o x y ≡ truth_of_op op x y
unfolding rel_op_of
rel_op-truth equal o x y h = ground arith
rel_op-truth _ o x y h = ground arith

module _ (show : H256 → String) (I : Interp) (o n : State) where
  mutual
    unfolding to_refinement_expr eval value

    eval-to_refinement_expr :
        (e : Expression) (r : RefinementExpr)
        → to_refinement_expr show e ≡ some r
        → eval I o n r ≡ value show I n e
    eval-to_refinement_expr (literal (integer k) i sr) r h = ground arith
    eval-to_refinement_expr (literal (boolean b) i sr) r h = ground arith
    eval-to_refinement_expr (literal (address a) i sr) r h = ground arith
    eval-to_refinement_expr (literal (string s) i sr) r h = absurd (cc)
    eval-to_refinement_expr (identifier x i sr) r h = ground arith
    eval-to_refinement_expr (binary_op l op x i sr) r h =
        let (a, ha, h₁) = >>=-eq-some (arith_op_of op) _ h in
        let (l', hl, h₂) = >>=-eq-some (to_refinement_expr show l) _ h₁ in
        let (x', hx, h₃) = >>=-eq-some (to_refinement_expr show x) _ h₂ in
        ground (
          arith,
          arith_op-value I op a (value show I n l) (value show I n x) ha,
          eval-to_refinement_expr l l' hl,
          eval-to_refinement_expr x x' hx,
        )
    eval-to_refinement_expr (unary_op negate e i sr) r h =
        let (x, hx, done) = >>=-eq-some (to_refinement_expr show e) _ h in
        ground (arith, eval-to_refinement_expr e x hx)
    eval-to_refinement_expr (unary_op UnaryOperator.not e i sr) r h = absurd (cc)
    eval-to_refinement_expr (grouped e i sr) r h = eval-to_refinement_expr e r h
    eval-to_refinement_expr (function_call f args i sr) r h =
        let (xs, hx, done) = >>=-eq-some (map_refinement_expr show args) _ h in
        ground (arith, eval_all-map_refinement_expr args xs hx)
    eval-to_refinement_expr (member_call e f args i sr) r h = absurd (cc)

    eval_all-map_refinement_expr :
        (es : Arguments) (rs : Exprs)
        → map_refinement_expr show es ≡ some rs
        → eval_all I o n rs ≡ values show I n es
    eval_all-map_refinement_expr nil rs h = ground arith
    eval_all-map_refinement_expr (cons e es) rs h =
        let (x, hx, next) = >>=-eq-some (to_refinement_expr show e) _ h in
        let (xs, hxs, done) = >>=-eq-some (map_refinement_expr show es) _ next in
        ground (arith, eval-to_refinement_expr e x hx, eval_all-map_refinement_expr es xs hxs)

holds-bin_rel :
    (show : H256 → String) (I : Interp) (o n : State) (op : BinaryOperator) (c : RelOp)
    (a b : RefinementExpr) (l r : Expression) (i : NodeId) (sr : SourceRef) (p : Predicate)
    → some (Predicate.bin_rel c a b i sr) ≡ some p
    → rel_op_of op ≡ some c
    → eval I o n a ≡ value show I n l
    → eval I o n b ≡ value show I n r
    → holds I o n p ≡ truth_of_op op (value show I n l) (value show I n r)
unfolding holds
holds-bin_rel show I o n op c a b l r i sr p hp hc ha hb =
    ap (λ q. holds I o n q) (sym (some-injective (Predicate.bin_rel c a b i sr) p hp))
    ∙ rw (ha, hb) (rel_op-truth op c (value show I n l) (value show I n r) hc)

holds-relation :
    (show : H256 → String) (I : Interp) (o n : State) (op : BinaryOperator) (l r : Expression)
    (i : NodeId) (sr : SourceRef) (p : Predicate)
    → (rel_op_of op >>= λ c. to_refinement_expr show l >>= λ a.
        to_refinement_expr show r >>= λ b. some (Predicate.bin_rel c a b i sr))
      ≡ some p
    → holds I o n p ≡ truth_of_op op (value show I n l) (value show I n r)
holds-relation show I o n op l r i sr p h =
    let (c, hc, h₁) = >>=-eq-some (rel_op_of op) _ h in
    let (a, ha, h₂) = >>=-eq-some (to_refinement_expr show l) _ h₁ in
    let (b, hb, h₃) = >>=-eq-some (to_refinement_expr show r) _ h₂ in
    holds-bin_rel show I o n op c a b l r i sr p h₃ hc (eval-to_refinement_expr show I o n l a ha)
      (eval-to_refinement_expr show I o n r b hb)

-- The predicate that a condition is converted to holds in a state exactly when the condition is true
-- there, whatever the state at entry: the conversion keeps the meaning wherever it does not panic.
pub holds-to_predicate :
    (show : H256 → String) (I : Interp) (o n : State) (e : Expression) (p : Predicate)
    → to_predicate show e ≡ some p
    → holds I o n p ≡ is_true show I n e
unfolding to_predicate holds is_true
holds-to_predicate show I o n (literal (boolean true) i sr) p h = ground arith
holds-to_predicate show I o n (literal (boolean false) i sr) p h = ground arith
holds-to_predicate show I o n (literal lit i sr) p h = absurd (cc)
holds-to_predicate show I o n (identifier x i sr) p h = ground arith
holds-to_predicate show I o n (binary_op l logical_and r i sr) p h =
    let (a, ha, next) = >>=-eq-some (to_predicate show l) _ h in
    let (b, hb, done) = >>=-eq-some (to_predicate show r) _ next in
    ground (arith, holds-to_predicate show I o n l a ha, holds-to_predicate show I o n r b hb)
holds-to_predicate show I o n (binary_op l logical_or r i sr) p h =
    let (a, ha, next) = >>=-eq-some (to_predicate show l) _ h in
    let (b, hb, done) = >>=-eq-some (to_predicate show r) _ next in
    ground (arith, holds-to_predicate show I o n l a ha, holds-to_predicate show I o n r b hb)
holds-to_predicate show I o n (binary_op l op r i sr) p h =
    holds-relation show I o n op l r i sr p h
holds-to_predicate show I o n (unary_op UnaryOperator.not e i sr) p h =
    let (a, ha, done) = >>=-eq-some (to_predicate show e) _ h in
    ground (arith, holds-to_predicate show I o n e a ha)
holds-to_predicate show I o n (unary_op negate e i sr) p h = absurd (cc)
holds-to_predicate show I o n (grouped e i sr) p h = holds-to_predicate show I o n e p h
holds-to_predicate show I o n (function_call f args i sr) p h =
    let (xs, hx, done) = >>=-eq-some (map_refinement_expr show args) _ h in
    ground (arith, eval_all-map_refinement_expr show I o n args xs hx)
holds-to_predicate show I o n (member_call e f args i sr) p h = absurd (cc)
