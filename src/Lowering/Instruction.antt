-- ===== src/Lowering/Instruction.antt =====
-- codegen/src/lowering/mod.rs: the lowered instructions and the control flow graph of a function.
use merak.Prelude.{ℕ, String, Bool, true, false, Option, none, some, List, [], ◌∷◌}
use merak.Prelude.Map.{Map}
use merak.Ast.Operator.{BinaryOperator, UnaryOperator}
use merak.Symbols.Id.{SymbolId}
use merak.Ir.Operand.{Register, Constant, Operand, CallTarget}
use merak.Ir.Terminator.{BlockId, BasicBlock}
use merak.Layout.Storage.{EvmType, StorageLayout}
use merak.Lowering.Slot.{StackSlot}

abbrev pub LoweredOperand : Type 0
LoweredOperand = Operand StackSlot

pub data LoweredInstruction : Type 0 where
  binary_op : StackSlot → BinaryOperator → LoweredOperand → LoweredOperand → LoweredInstruction
  unary_op : StackSlot → UnaryOperator → LoweredOperand → LoweredInstruction
  storage_load : StackSlot → ℕ → LoweredInstruction
  storage_store : ℕ → LoweredOperand → LoweredInstruction
  call : Option StackSlot → CallTarget → List LoweredOperand → LoweredInstruction
  load_constant : StackSlot → Constant → LoweredInstruction
  copy : StackSlot → LoweredOperand → LoweredInstruction

abbrev pub LoweredBlock : Type 0
LoweredBlock = BasicBlock LoweredInstruction LoweredOperand

pub record LoweredCfg : Type 0 where
  pub name : String
  pub function_id : SymbolId
  pub blocks : Map BlockId LoweredBlock
  pub entry : BlockId
  pub register_map : Map Register StackSlot
  pub storage_layout : StorageLayout
  pub register_types : Map Register EvmType
  pub parameters : List (SymbolId × StackSlot)
  pub frame_base : ℕ
  pub is_external : Bool

abbrev pub destination : LoweredInstruction → Option StackSlot
destination (copy dest source) = some dest
destination (binary_op dest op left right) = some dest
destination (unary_op dest op operand) = some dest
destination (storage_load dest slot) = some dest
destination (load_constant dest value) = some dest
destination (call dest target args) = dest
destination (storage_store slot value) = none

abbrev pub operands : LoweredInstruction → List LoweredOperand
operands (copy dest source) = source ∷ []
operands (binary_op dest op left right) = left ∷ right ∷ []
operands (unary_op dest op operand) = operand ∷ []
operands (storage_store slot value) = value ∷ []
operands (call dest target args) = args
operands (storage_load dest slot) = []
operands (load_constant dest value) = []

abbrev pub has_side_effects : LoweredInstruction → Bool
has_side_effects (storage_store slot value) = true
has_side_effects (call dest target args) = true
has_side_effects inst = false
