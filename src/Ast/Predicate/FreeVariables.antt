-- ===== src/Ast/Predicate/FreeVariables.antt =====
-- ast/src/predicate.rs: `free_variables` and the states that a predicate reads.
use merak.Prelude.{String, ◌≡◌, refl, List, ◌++◌, All, All-left, All-right}
use merak.Ast.Predicate.{
  RefinementExpr, int_lit, address_lit, bool_lit, msg_sender, msg_value, block_timestamp, bin_op,
  unary_op, uninterp_fn, old, Exprs, nil, cons, Predicate, truth, falsity, uninterp_fn_call,
  bin_rel, and, or, implies, not,
}
use merak.Ast.Predicate.Operations.{expr_free_variables, all_free_variables, free_variables}
use merak.Ast.Predicate.Meaning.{Interp, State, eval, eval_all, holds}

abbrev pub SameAt : State → State → String → Type 0
SameAt s t x = (s.value x ≡ t.value x) × (s.flag x ≡ t.flag x)

-- The message and the block are the same.
abbrev pub SameContext : State → State → Type 0
SameContext s t = (s.sender ≡ t.sender) × (s.amount ≡ t.amount) × (s.timestamp ≡ t.timestamp)

-- Two states agree on the names `xs` and on the message and block.
abbrev pub Agree : List String → State → State → Type 0
Agree xs s t = All (SameAt s t) xs × SameContext s t

Agree-left : (xs ys : List String) (s t : State) → Agree (xs ++ ys) s t → Agree xs s t
Agree-left xs ys s t (h, k) = (All-left (SameAt s t) xs ys h, k)

Agree-right : (xs ys : List String) (s t : State) → Agree (xs ++ ys) s t → Agree ys s t
Agree-right xs ys s t (h, k) = (All-right (SameAt s t) xs ys h, k)

module _ (I : Interp) where
  mutual
    unfolding expr_free_variables eval

    eval-Agree :
        (e : RefinementExpr) (o o' n n' : State)
        → Agree (expr_free_variables e) o o'
        → Agree (expr_free_variables e) n n'
        → eval I o n e ≡ eval I o' n' e
    eval-Agree (RefinementExpr.var x i sr) o o' n n' h k = k.0.0.0
    eval-Agree (int_lit v i sr) o o' n n' h k = refl
    eval-Agree (address_lit a i sr) o o' n n' h k = refl
    eval-Agree (bool_lit b i sr) o o' n n' h k = refl
    eval-Agree (msg_sender i sr) o o' n n' h k = k.1.0
    eval-Agree (msg_value i sr) o o' n n' h k = k.1.1
    eval-Agree (block_timestamp i sr) o o' n n' h k = k.1.2
    eval-Agree (bin_op op l r i sr) o o' n n' h k =
        let xs = expr_free_variables l in
        let ys = expr_free_variables r in
        cc (
          eval-Agree l o o' n n' (Agree-left xs ys o o' h) (Agree-left xs ys n n' k),
          eval-Agree r o o' n n' (Agree-right xs ys o o' h) (Agree-right xs ys n n' k),
        )
    eval-Agree (unary_op op e i sr) o o' n n' h k = cc (eval-Agree e o o' n n' h k)
    eval-Agree (uninterp_fn f args i sr) o o' n n' h k = cc (eval_all-Agree args o o' n n' h k)
    eval-Agree (old e i sr) o o' n n' h k = eval-Agree e o o' o o' h h

    eval_all-Agree :
        (es : Exprs) (o o' n n' : State)
        → Agree (all_free_variables es) o o'
        → Agree (all_free_variables es) n n'
        → eval_all I o n es ≡ eval_all I o' n' es
    eval_all-Agree nil o o' n n' h k = refl
    eval_all-Agree (cons e es) o o' n n' h k =
        let xs = expr_free_variables e in
        let ys = all_free_variables es in
        cc (
          eval-Agree e o o' n n' (Agree-left xs ys o o' h) (Agree-left xs ys n n' k),
          eval_all-Agree es o o' n n' (Agree-right xs ys o o' h) (Agree-right xs ys n n' k),
        )

-- Where the states at entry agree on the free variables of a predicate, and the present states do,
-- with the same message and block, the predicate has the same truth.
pub holds-free_variables :
    (I : Interp) (p : Predicate) (o o' n n' : State)
    → Agree (free_variables p) o o'
    → Agree (free_variables p) n n'
    → holds I o n p ≡ holds I o' n' p
unfolding free_variables holds
holds-free_variables I (truth i sr) o o' n n' h k = refl
holds-free_variables I (falsity i sr) o o' n n' h k = refl
holds-free_variables I (Predicate.var x i sr) o o' n n' h k = k.0.0.1
holds-free_variables I (uninterp_fn_call f args i sr) o o' n n' h k =
    cc (eval_all-Agree I args o o' n n' h k)
holds-free_variables I (bin_rel op l r i sr) o o' n n' h k =
    let xs = expr_free_variables l in
    let ys = expr_free_variables r in
    rw (
      eval-Agree I l o o' n n' (Agree-left xs ys o o' h) (Agree-left xs ys n n' k),
      eval-Agree I r o o' n n' (Agree-right xs ys o o' h) (Agree-right xs ys n n' k),
    )
holds-free_variables I (and p q i sr) o o' n n' h k =
    let xs = free_variables p in
    let ys = free_variables q in
    cc (
      holds-free_variables I p o o' n n' (Agree-left xs ys o o' h) (Agree-left xs ys n n' k),
      holds-free_variables I q o o' n n' (Agree-right xs ys o o' h) (Agree-right xs ys n n' k),
    )
holds-free_variables I (or p q i sr) o o' n n' h k =
    let xs = free_variables p in
    let ys = free_variables q in
    cc (
      holds-free_variables I p o o' n n' (Agree-left xs ys o o' h) (Agree-left xs ys n n' k),
      holds-free_variables I q o o' n n' (Agree-right xs ys o o' h) (Agree-right xs ys n n' k),
    )
holds-free_variables I (implies p q i sr) o o' n n' h k =
    let xs = free_variables p in
    let ys = free_variables q in
    cc (
      holds-free_variables I p o o' n n' (Agree-left xs ys o o' h) (Agree-left xs ys n n' k),
      holds-free_variables I q o o' n n' (Agree-right xs ys o o' h) (Agree-right xs ys n n' k),
    )
holds-free_variables I (not p i sr) o o' n n' h k = cc (holds-free_variables I p o o' n n' h k)
