-- ===== src/Ast/Predicate.antt =====
-- ast/src/predicate.rs: refinement expressions and predicates. A `Vec` of arguments is the list type
-- of the block. `truth` and `falsity` are the source's `True` and `False`.
pub mod Operations
pub mod Substitute
pub mod Meaning
pub mod Negation
pub mod Substitution
pub mod FreeVariables
pub mod OldState
use merak.Prelude.{String, Bool}
use merak.Prelude.Int.{ℤ}
use merak.Ast.Node.{NodeId, SourceRef}

pub data RelOp : Type 0 where
  eq neq lt leq gt geq : RelOp

pub data ArithOp : Type 0 where
  add sub mul div modulo : ArithOp

pub data UnaryOp : Type 0 where
  negate_op : UnaryOp

mutual
  pub data RefinementExpr : Type 0 where
    var : String → NodeId → SourceRef → RefinementExpr
    int_lit : ℤ → NodeId → SourceRef → RefinementExpr
    address_lit : String → NodeId → SourceRef → RefinementExpr
    bool_lit : Bool → NodeId → SourceRef → RefinementExpr
    msg_sender msg_value block_timestamp : NodeId → SourceRef → RefinementExpr
    bin_op : ArithOp → RefinementExpr → RefinementExpr → NodeId → SourceRef → RefinementExpr
    unary_op : UnaryOp → RefinementExpr → NodeId → SourceRef → RefinementExpr
    uninterp_fn : String → Exprs → NodeId → SourceRef → RefinementExpr
    old : RefinementExpr → NodeId → SourceRef → RefinementExpr

  pub data Exprs : Type 0 where
    nil : Exprs
    cons : RefinementExpr → Exprs → Exprs

pub data Predicate : Type 0 where
  truth falsity : NodeId → SourceRef → Predicate
  var : String → NodeId → SourceRef → Predicate
  uninterp_fn_call : String → Exprs → NodeId → SourceRef → Predicate
  bin_rel : RelOp → RefinementExpr → RefinementExpr → NodeId → SourceRef → Predicate
  and or implies : Predicate → Predicate → NodeId → SourceRef → Predicate
  not : Predicate → NodeId → SourceRef → Predicate
