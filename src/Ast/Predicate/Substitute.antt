-- ===== src/Ast/Predicate/Substitute.antt =====
-- ast/src/predicate.rs: the two substitutions, of names for names and of expressions for names.
use mathlib.Core.Option.{get_or}
use merak.Prelude.{String, true, false, Option, none, some, string_eq}
use merak.Prelude.Map.{Map, get}
use merak.Ast.Node.{NodeId, SourceRef}
use merak.Ast.Predicate.{
  RefinementExpr, int_lit, address_lit, bool_lit, msg_sender, msg_value, block_timestamp, bin_op,
  unary_op, uninterp_fn, old, Exprs, nil, cons, Predicate, truth, falsity, uninterp_fn_call,
  bin_rel, and, or, implies, not,
}

-- The name that a mapping gives, or the name itself.
unfoldable pub rename : Map String String → String → String
rename stacks x = elim (get x stacks) [ some new_name ↦ new_name | none ↦ x ]

-- `RefinementExpr::substitute_vars`
unfoldable mutual
  unfolding rename

  pub expr_substitute_vars : Map String String → RefinementExpr → RefinementExpr
  expr_substitute_vars s (RefinementExpr.var x i sr) = RefinementExpr.var (rename s x) i sr
  expr_substitute_vars s (int_lit n i sr) = int_lit n i sr
  expr_substitute_vars s (address_lit a i sr) = address_lit a i sr
  expr_substitute_vars s (bool_lit b i sr) = bool_lit b i sr
  expr_substitute_vars s (msg_sender i sr) = msg_sender i sr
  expr_substitute_vars s (msg_value i sr) = msg_value i sr
  expr_substitute_vars s (block_timestamp i sr) = block_timestamp i sr
  expr_substitute_vars s (bin_op op l r i sr) =
      bin_op op (expr_substitute_vars s l) (expr_substitute_vars s r) i sr
  expr_substitute_vars s (unary_op op e i sr) = unary_op op (expr_substitute_vars s e) i sr
  expr_substitute_vars s (uninterp_fn f args i sr) = uninterp_fn f (map_substitute_vars s args) i sr
  expr_substitute_vars s (old e i sr) = old (expr_substitute_vars s e) i sr

  pub map_substitute_vars : Map String String → Exprs → Exprs
  map_substitute_vars s nil = nil
  map_substitute_vars s (cons e es) = cons (expr_substitute_vars s e) (map_substitute_vars s es)

-- `Predicate::substitute_vars`
unfoldable pub substitute_vars : Map String String → Predicate → Predicate
unfolding rename expr_substitute_vars map_substitute_vars
substitute_vars s (truth i sr) = truth i sr
substitute_vars s (falsity i sr) = falsity i sr
substitute_vars s (Predicate.var x i sr) = Predicate.var (rename s x) i sr
substitute_vars s (uninterp_fn_call f args i sr) =
    uninterp_fn_call f (map_substitute_vars s args) i sr
substitute_vars s (bin_rel op l r i sr) =
    bin_rel op (expr_substitute_vars s l) (expr_substitute_vars s r) i sr
substitute_vars s (and p q i sr) = and (substitute_vars s p) (substitute_vars s q) i sr
substitute_vars s (or p q i sr) = or (substitute_vars s p) (substitute_vars s q) i sr
substitute_vars s (not p i sr) = not (substitute_vars s p) i sr
substitute_vars s (implies p q i sr) = implies (substitute_vars s p) (substitute_vars s q) i sr

-- `RefinementExpr::substitute_exprs`
unfoldable mutual
  pub expr_substitute_exprs : Map String RefinementExpr → RefinementExpr → RefinementExpr
  expr_substitute_exprs m (RefinementExpr.var x i sr) = get_or (get x m) (RefinementExpr.var x i sr)
  expr_substitute_exprs m (int_lit n i sr) = int_lit n i sr
  expr_substitute_exprs m (address_lit a i sr) = address_lit a i sr
  expr_substitute_exprs m (bool_lit b i sr) = bool_lit b i sr
  expr_substitute_exprs m (msg_sender i sr) = msg_sender i sr
  expr_substitute_exprs m (msg_value i sr) = msg_value i sr
  expr_substitute_exprs m (block_timestamp i sr) = block_timestamp i sr
  expr_substitute_exprs m (bin_op op l r i sr) =
      bin_op op (expr_substitute_exprs m l) (expr_substitute_exprs m r) i sr
  expr_substitute_exprs m (unary_op op e i sr) = unary_op op (expr_substitute_exprs m e) i sr
  expr_substitute_exprs m (uninterp_fn f args i sr) =
      uninterp_fn f (map_substitute_exprs m args) i sr
  expr_substitute_exprs m (old e i sr) = old (expr_substitute_exprs m e) i sr

  pub map_substitute_exprs : Map String RefinementExpr → Exprs → Exprs
  map_substitute_exprs m nil = nil
  map_substitute_exprs m (cons e es) = cons (expr_substitute_exprs m e) (map_substitute_exprs m es)

-- A predicate variable whose mapping is a Boolean literal becomes that literal, else it stays.
unfoldable pub var_as_predicate : Option RefinementExpr → String → NodeId → SourceRef → Predicate
var_as_predicate (some (bool_lit true j s)) x i sr = truth i sr
var_as_predicate (some (bool_lit false j s)) x i sr = falsity i sr
var_as_predicate (some e) x i sr = Predicate.var x i sr
var_as_predicate none x i sr = Predicate.var x i sr

-- `Predicate::substitute_exprs`
unfoldable pub substitute_exprs : Map String RefinementExpr → Predicate → Predicate
unfolding expr_substitute_exprs map_substitute_exprs var_as_predicate
substitute_exprs m (truth i sr) = truth i sr
substitute_exprs m (falsity i sr) = falsity i sr
substitute_exprs m (Predicate.var x i sr) = var_as_predicate (get x m) x i sr
substitute_exprs m (uninterp_fn_call f args i sr) =
    uninterp_fn_call f (map_substitute_exprs m args) i sr
substitute_exprs m (bin_rel op l r i sr) =
    bin_rel op (expr_substitute_exprs m l) (expr_substitute_exprs m r) i sr
substitute_exprs m (and p q i sr) = and (substitute_exprs m p) (substitute_exprs m q) i sr
substitute_exprs m (or p q i sr) = or (substitute_exprs m p) (substitute_exprs m q) i sr
substitute_exprs m (not p i sr) = not (substitute_exprs m p) i sr
substitute_exprs m (implies p q i sr) = implies (substitute_exprs m p) (substitute_exprs m q) i sr
