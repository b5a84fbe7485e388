-- ===== src/Ir/Operand.antt =====
-- ir/src/ssa_ir.rs: operands, registers, constants and call targets.
use merak.Prelude.{ℕ, String, Bool}
use merak.Prelude.Int.{ℤ}
use merak.Ast.Expression.{H256}
use merak.Symbols.Id.{SymbolId}

pub record Register : Type 0 where
  pub symbol : SymbolId
  pub version : ℕ

pub data Constant : Type 0 where
  int : ℤ → Constant
  bool : Bool → Constant
  address : H256 → Constant
  string : String → Constant

pub data Operand (Loc : Type 0) : Type 0 where
  location : Loc → Operand Loc
  constant : Constant → Operand Loc

pub data CallTarget : Type 0 where
  internal : SymbolId → CallTarget
  external : Operand Register → SymbolId → CallTarget
