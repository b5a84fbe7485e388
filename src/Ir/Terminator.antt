-- ===== src/Ir/Terminator.antt =====
-- ir/src/ssa_ir.rs: terminators and basic blocks. A terminator is over its operands; the metadata of
-- the SSA form, gone after lowering, has no field.
use merak.Prelude.{ℕ, Option, List}
use merak.Ast.Predicate.{Predicate, RefinementExpr}

abbrev pub BlockId : Type 0
BlockId = ℕ

pub data Terminator (O : Type 0) : Type 0 where
  jump : BlockId → Terminator O
  branch : O → BlockId → BlockId → Terminator O
  return : Option O → Terminator O
  unreachable : Terminator O

pub record BasicBlock (I O : Type 0) : Type 0 where
  pub id : BlockId
  pub instructions : List I
  pub terminator : Terminator O
  pub predecessors : List BlockId
  pub successors : List BlockId
  pub loop_invariants : Option (List Predicate)
  pub loop_variants : Option (List RefinementExpr)
