-- ===== src/Ast/Predicate/Negation.antt =====
-- ast/src/predicate.rs: `negate` and the truth of a predicate.
use merak.Prelude.{◌≡◌, refl, arith}
use mathlib.Core.Bool.{not as bnot}
use merak.Prelude.Int.{ℤ}
use merak.Ast.Predicate.{
  RelOp, eq, neq, lt, leq, gt, geq, Predicate, truth, falsity, uninterp_fn_call, bin_rel, and, or,
  implies, not,
}
use merak.Ast.Predicate.Operations.{negate, negate_rel}
use merak.Ast.Predicate.Meaning.{Interp, State, rel_holds, eval, holds}

rel_holds-negate_rel :
    (op : RelOp) (a b : ℤ) → rel_holds (negate_rel op) a b ≡ bnot (rel_holds op a b)
unfolding negate_rel
rel_holds-negate_rel eq a b = refl
rel_holds-negate_rel neq a b = ground arith
rel_holds-negate_rel lt a b = ground arith
rel_holds-negate_rel leq a b = ground arith
rel_holds-negate_rel gt a b = ground arith
rel_holds-negate_rel geq a b = ground arith

-- In every state the negated predicate holds exactly when the predicate does not.
pub holds-negate :
    (I : Interp) (o n : State) (p : Predicate) → holds I o n (negate p) ≡ bnot (holds I o n p)
unfolding negate holds
holds-negate I o n (truth i sr) = refl
holds-negate I o n (falsity i sr) = refl
holds-negate I o n (Predicate.var x i sr) = refl
holds-negate I o n (uninterp_fn_call f args i sr) = refl
holds-negate I o n (bin_rel op l r i sr) = rel_holds-negate_rel op (eval I o n l) (eval I o n r)
holds-negate I o n (and p q i sr) = ground (arith, holds-negate I o n p, holds-negate I o n q)
holds-negate I o n (or p q i sr) = ground (arith, holds-negate I o n p, holds-negate I o n q)
holds-negate I o n (implies p q i sr) = ground (arith, holds-negate I o n q)
holds-negate I o n (not p i sr) = ground arith
