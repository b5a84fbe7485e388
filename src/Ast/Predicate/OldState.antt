-- ===== src/Ast/Predicate/OldState.antt =====
-- ast/src/predicate.rs: what `contains_old` looks for.
use merak.Prelude.{false, ◌≡◌, refl}
use merak.Ast.Predicate.{
  RefinementExpr, int_lit, address_lit, bool_lit, msg_sender, msg_value, block_timestamp, bin_op,
  unary_op, uninterp_fn, old, Exprs, nil, cons, Predicate, truth, falsity, uninterp_fn_call,
  bin_rel, and, or, implies, not,
}
use merak.Ast.Predicate.Operations.{expr_contains_old, any_contains_old, contains_old}

mutual
  unfolding expr_contains_old

  expr_contains_old-false : (e : RefinementExpr) → expr_contains_old e ≡ false
  expr_contains_old-false (RefinementExpr.var x i sr) = refl
  expr_contains_old-false (int_lit v i sr) = refl
  expr_contains_old-false (address_lit a i sr) = refl
  expr_contains_old-false (bool_lit b i sr) = refl
  expr_contains_old-false (msg_sender i sr) = refl
  expr_contains_old-false (msg_value i sr) = refl
  expr_contains_old-false (block_timestamp i sr) = refl
  expr_contains_old-false (bin_op op l r i sr) =
      rw (expr_contains_old-false l) (expr_contains_old-false r)
  expr_contains_old-false (unary_op op e i sr) = expr_contains_old-false e
  expr_contains_old-false (uninterp_fn f args i sr) = any_contains_old-false args
  expr_contains_old-false (old e i sr) = expr_contains_old-false e

  any_contains_old-false : (es : Exprs) → any_contains_old es ≡ false
  any_contains_old-false nil = refl
  any_contains_old-false (cons e es) = rw (expr_contains_old-false e) (any_contains_old-false es)

-- `contains_old` answers false for every predicate, whether or not `old` stands in it.
pub contains_old-false : (p : Predicate) → contains_old p ≡ false
unfolding contains_old
contains_old-false (truth i sr) = refl
contains_old-false (falsity i sr) = refl
contains_old-false (Predicate.var x i sr) = refl
contains_old-false (bin_rel op l r i sr) =
    rw (expr_contains_old-false l) (expr_contains_old-false r)
contains_old-false (and p q i sr) = rw (contains_old-false p) (contains_old-false q)
contains_old-false (or p q i sr) = rw (contains_old-false p) (contains_old-false q)
contains_old-false (not p i sr) = contains_old-false p
contains_old-false (uninterp_fn_call f args i sr) = any_contains_old-false args
contains_old-false (implies p q i sr) = rw (contains_old-false p) (contains_old-false q)
