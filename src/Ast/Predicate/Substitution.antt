-- ===== src/Ast/Predicate/Substitution.antt =====
-- ast/src/predicate.rs: the substitutions and the states that a predicate is read in.
use mathlib.Core.Option.{get_or}
use merak.Prelude.{String, Bool, true, false, ◌≡◌, refl, Option, none, some, string_eq}
use merak.Prelude.Int.{ℤ}
use merak.Prelude.Map.{Map, get}
use merak.Ast.Node.{NodeId, SourceRef}
use merak.Ast.Predicate.{
  RefinementExpr, int_lit, address_lit, bool_lit, msg_sender, msg_value, block_timestamp, bin_op,
  unary_op, uninterp_fn, old, Exprs, nil, cons, Predicate, truth, falsity, uninterp_fn_call,
  bin_rel, and, or, implies, not,
}
use merak.Ast.Predicate.Substitute.{
  rename, expr_substitute_vars, map_substitute_vars, substitute_vars, expr_substitute_exprs,
  map_substitute_exprs, var_as_predicate, substitute_exprs,
}
use merak.Ast.Predicate.Meaning.{Interp, State, eval, eval_all, holds}

-- The state in which a name has what its new name has in `n`.
abbrev pub renamed : Map String String → State → State
renamed s n = record n { value = λ x. n.value (rename s x); flag = λ x. n.flag (rename s x) }

module _ (I : Interp) (s : Map String String) where
  mutual
    unfolding expr_substitute_vars eval

    eval-expr_substitute_vars :
        (e : RefinementExpr) (o n : State)
        → eval I o n (expr_substitute_vars s e) ≡ eval I (renamed s o) (renamed s n) e
    eval-expr_substitute_vars (RefinementExpr.var x i sr) o n = refl
    eval-expr_substitute_vars (int_lit k i sr) o n = refl
    eval-expr_substitute_vars (address_lit a i sr) o n = refl
    eval-expr_substitute_vars (bool_lit b i sr) o n = refl
    eval-expr_substitute_vars (msg_sender i sr) o n = refl
    eval-expr_substitute_vars (msg_value i sr) o n = refl
    eval-expr_substitute_vars (block_timestamp i sr) o n = refl
    eval-expr_substitute_vars (bin_op op l r i sr) o n =
        cc (eval-expr_substitute_vars l o n, eval-expr_substitute_vars r o n)
    eval-expr_substitute_vars (unary_op op e i sr) o n = cc (eval-expr_substitute_vars e o n)
    eval-expr_substitute_vars (uninterp_fn f args i sr) o n = cc (eval-map_substitute_vars args o n)
    eval-expr_substitute_vars (old e i sr) o n = eval-expr_substitute_vars e o o

    eval-map_substitute_vars :
        (es : Exprs) (o n : State)
        → eval_all I o n (map_substitute_vars s es) ≡ eval_all I (renamed s o) (renamed s n) es
    eval-map_substitute_vars nil o n = refl
    eval-map_substitute_vars (cons e es) o n =
        cc (eval-expr_substitute_vars e o n, eval-map_substitute_vars es o n)

-- A predicate with its names substituted holds in a state exactly when the predicate itself holds in
-- the state that gives each name what its new name has; inside `old` too.
pub holds-substitute_vars :
    (I : Interp) (s : Map String String) (o n : State) (p : Predicate)
    → holds I o n (substitute_vars s p) ≡ holds I (renamed s o) (renamed s n) p
unfolding substitute_vars holds
holds-substitute_vars I s o n (truth i sr) = refl
holds-substitute_vars I s o n (falsity i sr) = refl
holds-substitute_vars I s o n (Predicate.var x i sr) = refl
holds-substitute_vars I s o n (uninterp_fn_call f args i sr) =
    cc (eval-map_substitute_vars I s args o n)
holds-substitute_vars I s o n (bin_rel op l r i sr) =
    rw (eval-expr_substitute_vars I s l o n, eval-expr_substitute_vars I s r o n)
holds-substitute_vars I s o n (and p q i sr) =
    cc (holds-substitute_vars I s o n p, holds-substitute_vars I s o n q)
holds-substitute_vars I s o n (or p q i sr) =
    cc (holds-substitute_vars I s o n p, holds-substitute_vars I s o n q)
holds-substitute_vars I s o n (implies p q i sr) =
    cc (holds-substitute_vars I s o n p, holds-substitute_vars I s o n q)
holds-substitute_vars I s o n (not p i sr) = cc (holds-substitute_vars I s o n p)

abbrev value_of : Interp → State → State → Option RefinementExpr → ℤ → ℤ
value_of I o n none k = k
value_of I o n (some e) k = eval I o n e

abbrev flag_of : Option RefinementExpr → Bool → Bool
flag_of (some (bool_lit b i sr)) kept = b
flag_of (some e) kept = kept
flag_of none kept = kept

-- The state in which a mapped name has the value of its expression in `n`, and the truth of it where
-- the expression is a Boolean literal.
abbrev pub substituted : Interp → Map String RefinementExpr → State → State → State
substituted I m o n = record n {
  value = λ x. value_of I o n (get x m) (n.value x);
  flag = λ x. flag_of (get x m) (n.flag x);
}

eval-get_or :
    (I : Interp) (o n : State) (found : Option RefinementExpr) (e : RefinementExpr)
    → eval I o n (get_or found e) ≡ value_of I o n found (eval I o n e)
eval-get_or I o n none e = refl
eval-get_or I o n (some r) e = refl

module _ (I : Interp) (m : Map String RefinementExpr) where
  mutual
    unfolding expr_substitute_exprs eval

    eval-expr_substitute_exprs :
        (e : RefinementExpr) (o n : State)
        → eval I o n (expr_substitute_exprs m e)
          ≡ eval I (substituted I m o o) (substituted I m o n) e
    eval-expr_substitute_exprs (RefinementExpr.var x i sr) o n =
        eval-get_or I o n (get x m) (RefinementExpr.var x i sr)
    eval-expr_substitute_exprs (int_lit k i sr) o n = refl
    eval-expr_substitute_exprs (address_lit a i sr) o n = refl
    eval-expr_substitute_exprs (bool_lit b i sr) o n = refl
    eval-expr_substitute_exprs (msg_sender i sr) o n = refl
    eval-expr_substitute_exprs (msg_value i sr) o n = refl
    eval-expr_substitute_exprs (block_timestamp i sr) o n = refl
    eval-expr_substitute_exprs (bin_op op l r i sr) o n =
        cc (eval-expr_substitute_exprs l o n, eval-expr_substitute_exprs r o n)
    eval-expr_substitute_exprs (unary_op op e i sr) o n = cc (eval-expr_substitute_exprs e o n)
    eval-expr_substitute_exprs (uninterp_fn f args i sr) o n =
        cc (eval-map_substitute_exprs args o n)
    eval-expr_substitute_exprs (old e i sr) o n = eval-expr_substitute_exprs e o o

    eval-map_substitute_exprs :
        (es : Exprs) (o n : State)
        → eval_all I o n (map_substitute_exprs m es)
          ≡ eval_all I (substituted I m o o) (substituted I m o n) es
    eval-map_substitute_exprs nil o n = refl
    eval-map_substitute_exprs (cons e es) o n =
        cc (eval-expr_substitute_exprs e o n, eval-map_substitute_exprs es o n)

holds-var_as_predicate :
    (I : Interp) (o n : State) (found : Option RefinementExpr) (x : String) (i : NodeId)
    (sr : SourceRef)
    → holds I o n (var_as_predicate found x i sr) ≡ flag_of found (n.flag x)
unfolding var_as_predicate holds
holds-var_as_predicate I o n (some (bool_lit true j s)) x i sr = refl
holds-var_as_predicate I o n (some (bool_lit false j s)) x i sr = refl
holds-var_as_predicate I o n (some e) x i sr = refl
holds-var_as_predicate I o n none x i sr = refl

-- A predicate with expressions substituted for its names holds in a state exactly when the predicate
-- itself holds in the state that gives each mapped name its expression's value; a name that
-- stands as a predicate changes its truth only where its expression is a Boolean literal.
pub holds-substitute_exprs :
    (I : Interp) (m : Map String RefinementExpr) (o n : State) (p : Predicate)
    → holds I o n (substitute_exprs m p) ≡ holds I (substituted I m o o) (substituted I m o n) p
unfolding substitute_exprs holds
holds-substitute_exprs I m o n (truth i sr) = refl
holds-substitute_exprs I m o n (falsity i sr) = refl
holds-substitute_exprs I m o n (Predicate.var x i sr) =
    holds-var_as_predicate I o n (get x m) x i sr
holds-substitute_exprs I m o n (uninterp_fn_call f args i sr) =
    cc (eval-map_substitute_exprs I m args o n)
holds-substitute_exprs I m o n (bin_rel op l r i sr) =
    rw (eval-expr_substitute_exprs I m l o n, eval-expr_substitute_exprs I m r o n)
holds-substitute_exprs I m o n (and p q i sr) =
    cc (holds-substitute_exprs I m o n p, holds-substitute_exprs I m o n q)
holds-substitute_exprs I m o n (or p q i sr) =
    cc (holds-substitute_exprs I m o n p, holds-substitute_exprs I m o n q)
holds-substitute_exprs I m o n (implies p q i sr) =
    cc (holds-substitute_exprs I m o n p, holds-substitute_exprs I m o n q)
holds-substitute_exprs I m o n (not p i sr) = cc (holds-substitute_exprs I m o n p)
