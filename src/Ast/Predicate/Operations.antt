-- ===== src/Ast/Predicate/Operations.antt =====
-- ast/src/predicate.rs: the methods of `Predicate` and `RefinementExpr`. A `HashSet` of names is a
-- list of names, and `extend` appends.
use merak.Prelude.{String, Bool, false, ◌||◌, List, [], ◌∷◌, ◌++◌, string_eq}
use merak.Ast.Node.{NodeId, SourceRef}
use merak.Ast.Predicate.{
  RelOp, eq, neq, lt, leq, gt, geq, RefinementExpr, int_lit, address_lit, bool_lit, msg_sender,
  msg_value, block_timestamp, bin_op, unary_op, uninterp_fn, old, Exprs, nil, cons, Predicate,
  truth, falsity, uninterp_fn_call, bin_rel, and, or, implies, not,
}

-- `Predicate::id`
unfoldable pub id : Predicate → NodeId
id (truth i sr) = i
id (falsity i sr) = i
id (Predicate.var x i sr) = i
id (uninterp_fn_call f args i sr) = i
id (bin_rel op l r i sr) = i
id (and p q i sr) = i
id (or p q i sr) = i
id (implies p q i sr) = i
id (not p i sr) = i

-- `Predicate::source_ref`
unfoldable pub source_ref : Predicate → SourceRef
source_ref (truth i sr) = sr
source_ref (falsity i sr) = sr
source_ref (Predicate.var x i sr) = sr
source_ref (uninterp_fn_call f args i sr) = sr
source_ref (bin_rel op l r i sr) = sr
source_ref (and p q i sr) = sr
source_ref (or p q i sr) = sr
source_ref (implies p q i sr) = sr
source_ref (not p i sr) = sr

-- `RefinementExpr::contains_old`, and its `any` over arguments
unfoldable mutual
  pub expr_contains_old : RefinementExpr → Bool
  expr_contains_old (RefinementExpr.var x i sr) = false
  expr_contains_old (int_lit n i sr) = false
  expr_contains_old (address_lit a i sr) = false
  expr_contains_old (bool_lit b i sr) = false
  expr_contains_old (msg_sender i sr) = false
  expr_contains_old (msg_value i sr) = false
  expr_contains_old (block_timestamp i sr) = false
  expr_contains_old (bin_op op l r i sr) = expr_contains_old l || expr_contains_old r
  expr_contains_old (unary_op op e i sr) = expr_contains_old e
  expr_contains_old (uninterp_fn f args i sr) = any_contains_old args
  expr_contains_old (old e i sr) = expr_contains_old e

  pub any_contains_old : Exprs → Bool
  any_contains_old nil = false
  any_contains_old (cons e es) = expr_contains_old e || any_contains_old es

-- `Predicate::contains_old`
unfoldable pub contains_old : Predicate → Bool
unfolding expr_contains_old any_contains_old
contains_old (truth i sr) = false
contains_old (falsity i sr) = false
contains_old (Predicate.var x i sr) = false
contains_old (bin_rel op l r i sr) = expr_contains_old l || expr_contains_old r
contains_old (and p q i sr) = contains_old p || contains_old q
contains_old (or p q i sr) = contains_old p || contains_old q
contains_old (not p i sr) = contains_old p
contains_old (uninterp_fn_call f args i sr) = any_contains_old args
contains_old (implies p q i sr) = contains_old p || contains_old q

unfoldable pub negate_rel : RelOp → RelOp
negate_rel eq = neq
negate_rel neq = eq
negate_rel lt = geq
negate_rel leq = gt
negate_rel gt = leq
negate_rel geq = lt

-- `Predicate::negate`
unfoldable pub negate : Predicate → Predicate
unfolding negate_rel
negate (truth i sr) = falsity i sr
negate (falsity i sr) = truth i sr
negate (Predicate.var x i sr) = not (Predicate.var x i sr) i sr
negate (uninterp_fn_call f args i sr) = not (uninterp_fn_call f args i sr) i sr
negate (bin_rel op l r i sr) = bin_rel (negate_rel op) l r i sr
negate (and p q i sr) = or (negate p) (negate q) i sr
negate (or p q i sr) = and (negate p) (negate q) i sr
negate (not p i sr) = p
negate (implies p q i sr) = and p (negate q) i sr

-- `RefinementExpr::free_variables`
unfoldable mutual
  pub expr_free_variables : RefinementExpr → List String
  expr_free_variables (RefinementExpr.var x i sr) = x ∷ []
  expr_free_variables (int_lit n i sr) = []
  expr_free_variables (address_lit a i sr) = []
  expr_free_variables (bool_lit b i sr) = []
  expr_free_variables (msg_sender i sr) = []
  expr_free_variables (msg_value i sr) = []
  expr_free_variables (block_timestamp i sr) = []
  expr_free_variables (bin_op op l r i sr) = expr_free_variables l ++ expr_free_variables r
  expr_free_variables (unary_op op e i sr) = expr_free_variables e
  expr_free_variables (uninterp_fn f args i sr) = all_free_variables args
  expr_free_variables (old e i sr) = expr_free_variables e

  pub all_free_variables : Exprs → List String
  all_free_variables nil = []
  all_free_variables (cons e es) = expr_free_variables e ++ all_free_variables es

-- `Predicate::free_variables`
unfoldable pub free_variables : Predicate → List String
unfolding expr_free_variables all_free_variables
free_variables (truth i sr) = []
free_variables (falsity i sr) = []
free_variables (Predicate.var x i sr) = x ∷ []
free_variables (bin_rel op l r i sr) = expr_free_variables l ++ expr_free_variables r
free_variables (and p q i sr) = free_variables p ++ free_variables q
free_variables (or p q i sr) = free_variables p ++ free_variables q
free_variables (implies p q i sr) = free_variables p ++ free_variables q
free_variables (not p i sr) = free_variables p
free_variables (uninterp_fn_call f args i sr) = all_free_variables args
