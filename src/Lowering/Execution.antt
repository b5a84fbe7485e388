-- ===== src/Lowering/Execution.antt =====
-- What a lowered function does: it runs block after block over a register file of slots and a world of
-- storage and other contracts. Operators, constants and calls are what a machine says they are.
use merak.Prelude.{
  ℕ, zero, suc, Bool, Option, none, some, List, [], ◌∷◌, map, ◌==◌, if◌then◌else◌, nat_eq,
}
use merak.Prelude.Map.{Map, get}
use merak.Ast.Operator.{BinaryOperator, UnaryOperator}
use merak.Ir.Operand.{Constant, location, constant, CallTarget}
use merak.Ir.Terminator.{BlockId, Terminator, jump, branch, return, unreachable}
use merak.Lowering.Slot.{StackSlot}
use merak.Lowering.Instruction.{
  LoweredOperand, LoweredInstruction, binary_op, unary_op, storage_load, storage_store, call,
  load_constant, copy, LoweredBlock,
}

pub record Machine (V W : Type 0) : Type 0 where
  pub binary : BinaryOperator → V → V → V
  pub unary : UnaryOperator → V → V
  pub value_of : Constant → V
  pub is_nonzero : V → Bool
  pub load : ℕ → W → V
  pub store : ℕ → V → W → W
  pub invoke : CallTarget → List V → W → V × W

-- How a run ends: it returns, it goes where there is no code, or the bound on blocks is reached.
pub data Ending (V W : Type 0) : Type 0 where
  returned : Option V → W → Ending V W
  stuck out_of_fuel : Ending V W

pub data Step (V W : Type 0) : Type 0 where
  ends : Ending V W → Step V W
  goto : BlockId → (StackSlot → V) → W → Step V W

abbrev pub write : {V : Type 0} → StackSlot → V → (StackSlot → V) → StackSlot → V
write s v file t = if s == t then v else file t

abbrev pub write_result : {V : Type 0} → Option StackSlot → V → (StackSlot → V) → StackSlot → V
write_result none v file = file
write_result (some s) v file = write s v file

module _ {V W : Type 0} (m : Machine V W) where
  abbrev pub read : (StackSlot → V) → LoweredOperand → V
  read file (location s) = file s
  read file (constant c) = m.value_of c

  abbrev pub execute : LoweredInstruction → (StackSlot → V) → W → (StackSlot → V) × W
  execute (binary_op dest op l r) file w =
      (write dest (m.binary op (read file l) (read file r)) file, w)
  execute (unary_op dest op x) file w = (write dest (m.unary op (read file x)) file, w)
  execute (storage_load dest slot) file w = (write dest (m.load slot w) file, w)
  execute (storage_store slot x) file w = (file, m.store slot (read file x) w)
  execute (call dest target args) file w =
      let out = m.invoke target (map (read file) args) w in (write_result dest (out.0) file, out.1)
  execute (load_constant dest c) file w = (write dest (m.value_of c) file, w)
  execute (copy dest x) file w = (write dest (read file x) file, w)

  abbrev pub execute_all : List LoweredInstruction → (StackSlot → V) → W → (StackSlot → V) × W
  execute_all [] file w = (file, w)
  execute_all (inst ∷ insts) file w =
      let out = execute inst file w in execute_all insts (out.0) (out.1)

  abbrev pub read_option : (StackSlot → V) → Option LoweredOperand → Option V
  read_option file none = none
  read_option file (some x) = some (read file x)

  abbrev pub leave : Terminator LoweredOperand → (StackSlot → V) → W → Step V W
  leave (jump target) file w = goto target file w
  leave (branch condition then_block else_block) file w =
      goto (if m.is_nonzero (read file condition) then then_block else else_block) file w
  leave (return value) file w = ends (returned (read_option file value) w)
  leave unreachable file w = ends stuck

  abbrev pub run_block : Option LoweredBlock → (StackSlot → V) → W → Step V W
  run_block none file w = ends stuck
  run_block (some b) file w =
      let out = execute_all b.instructions file w in leave b.terminator (out.0) (out.1)

  -- The run from a block, of at most `fuel` blocks.
  unfoldable pub run_from :
      Map BlockId LoweredBlock → ℕ → BlockId → (StackSlot → V) → W → Ending V W
  run_from blocks zero id file w = out_of_fuel
  run_from blocks (suc fuel) id file w = elim (run_block (get id blocks) file w) [
    | ends e ↦ e
    | goto target file' w' ↦ run_from blocks fuel target file' w'
  ]
