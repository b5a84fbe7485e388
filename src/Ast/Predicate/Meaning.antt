-- ===== src/Ast/Predicate/Meaning.antt =====
-- What a refinement means: its truth in a state, given the state at the function's entry. Values are
-- integers; what the solver leaves open (arithmetic, uninterpreted functions) is an interpretation.
use merak.Prelude.{String, Bool, true, false, ◌&&◌, ◌||◌, List, [], ◌∷◌, if◌then◌else◌}
use mathlib.Core.Bool.{not as bnot}
use merak.Prelude.Int.{ℤ, pos, ltb_ℤ, leb_ℤ}
use merak.Ast.Predicate.{
  RelOp, eq, neq, lt, leq, gt, geq, ArithOp, UnaryOp, RefinementExpr, int_lit, address_lit,
  bool_lit, msg_sender, msg_value, block_timestamp, bin_op, unary_op, uninterp_fn, old, Exprs, nil,
  cons, Predicate, truth, falsity, uninterp_fn_call, bin_rel, and, or, implies, not,
}

pub record Interp : Type 0 where
  pub arith_op : ArithOp → ℤ → ℤ → ℤ
  pub unary : UnaryOp → ℤ → ℤ
  pub function : String → List ℤ → ℤ
  pub relation : String → List ℤ → Bool
  pub address : String → ℤ

-- A variable has a value where an expression reads it, and a truth where a predicate is one.
pub record State : Type 0 where
  pub value : String → ℤ
  pub flag : String → Bool
  pub sender : ℤ
  pub amount : ℤ
  pub timestamp : ℤ

abbrev pub rel_holds : RelOp → ℤ → ℤ → Bool
rel_holds eq a b = leb_ℤ a b && leb_ℤ b a
rel_holds neq a b = bnot (leb_ℤ a b && leb_ℤ b a)
rel_holds lt a b = ltb_ℤ a b
rel_holds leq a b = leb_ℤ a b
rel_holds gt a b = ltb_ℤ b a
rel_holds geq a b = leb_ℤ b a

-- `old e` reads the state at entry.
unfoldable mutual
  pub eval : Interp → State → State → RefinementExpr → ℤ
  eval I o n (RefinementExpr.var x i sr) = n.value x
  eval I o n (int_lit k i sr) = k
  eval I o n (address_lit a i sr) = I.address a
  eval I o n (bool_lit b i sr) = pos (if b then 1 else 0)
  eval I o n (msg_sender i sr) = n.sender
  eval I o n (msg_value i sr) = n.amount
  eval I o n (block_timestamp i sr) = n.timestamp
  eval I o n (bin_op op l r i sr) = I.arith_op op (eval I o n l) (eval I o n r)
  eval I o n (unary_op op e i sr) = I.unary op (eval I o n e)
  eval I o n (uninterp_fn f args i sr) = I.function f (eval_all I o n args)
  eval I o n (old e i sr) = eval I o o e

  pub eval_all : Interp → State → State → Exprs → List ℤ
  eval_all I o n nil = []
  eval_all I o n (cons e es) = eval I o n e ∷ eval_all I o n es

unfoldable pub holds : Interp → State → State → Predicate → Bool
holds I o n (truth i sr) = true
holds I o n (falsity i sr) = false
holds I o n (Predicate.var x i sr) = n.flag x
holds I o n (uninterp_fn_call f args i sr) = I.relation f (eval_all I o n args)
holds I o n (bin_rel op l r i sr) = rel_holds op (eval I o n l) (eval I o n r)
holds I o n (and p q i sr) = holds I o n p && holds I o n q
holds I o n (or p q i sr) = holds I o n p || holds I o n q
holds I o n (implies p q i sr) = bnot (holds I o n p) || holds I o n q
holds I o n (not p i sr) = bnot (holds I o n p)
