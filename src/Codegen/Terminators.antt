-- ===== src/Codegen/Terminators.antt =====
-- codegen/src/codegen/terminators.rs: the jumps at the end of a block.
pub mod Supported
use merak.Prelude.{ℕ, Option, none, some, List, [], ◌∷◌, ◌++◌, map, nat_eq}
use mathlib.Core.Option.{get_or}
use merak.Prelude.Map.{Map, get}
use merak.Prelude.Outcome.{ok, err, ◌>>=◌}
use merak.Ir.Operand.{location, constant}
use merak.Ir.Terminator.{BlockId, Terminator}
use merak.Evm.Opcode.{Opcode}
use merak.Evm.Builder.{Label, BytecodeBuilder, CodegenError, emit, jump_to, jumpi_to}
use merak.Lowering.Slot.{StackSlot}
use merak.Lowering.Instruction.{LoweredOperand}
use merak.Codegen.Shuffler.{plan_shuffle, emit_shuffle}
use merak.Codegen.Instructions.{Emitting, Frame, push_constant}

abbrev pub label_or_error : Option Label → Emitting Label
label_or_error none = err (CodegenError.other "Label not found for block")
label_or_error (some label) = ok label

unfoldable pub get_label : Map BlockId Label → BlockId → Emitting Label
get_label block_labels id = label_or_error (get id block_labels)

-- The layout at the entry of a successor.
unfoldable pub layout_of : BlockId → Frame → List StackSlot
layout_of id frame = get_or (get id frame.allocation.entry_layout) []

abbrev pub slots_to_current : List StackSlot → List (Option StackSlot)
slots_to_current slots = map some slots

abbrev pub build_current : List StackSlot → List StackSlot → List (Option StackSlot)
build_current block_stack entry_layout = map some (block_stack ++ entry_layout)

-- A plan without warm slots, and its code.
unfoldable pub reshape :
    List (Option StackSlot) → List StackSlot → Frame → BytecodeBuilder → Emitting BytecodeBuilder
reshape current target frame builder =
    emit_shuffle frame.stack_state (plan_shuffle current target []) builder

-- The two jumps of a branch whose condition is on top of the stack.
unfoldable pub emit_branch :
    Label
    → Label
    → List StackSlot
    → List StackSlot
    → Frame
    → BytecodeBuilder
    → Emitting BytecodeBuilder
unfolding reshape
emit_branch then_label else_label then_layout else_layout frame builder = do
  reshaped ← reshape (slots_to_current then_layout) else_layout frame (jumpi_to then_label builder)
  ok (jump_to else_label reshaped)

unfoldable pub translate_branch :
    LoweredOperand
    → Label
    → Label
    → List StackSlot
    → List StackSlot
    → List (Option StackSlot)
    → Frame
    → BytecodeBuilder
    → Emitting BytecodeBuilder
unfolding reshape emit_branch
translate_branch (location slot) then_label else_label then_layout else_layout current frame
      builder =
    do
      shaped ← reshape current (slot ∷ then_layout) frame builder
      emit_branch then_label else_label then_layout else_layout frame shaped
translate_branch (constant c) then_label else_label then_layout else_layout current frame builder =
    do
      shaped ← reshape current then_layout frame builder
      pushed ← push_constant c shaped
      emit_branch then_label else_label then_layout else_layout frame pushed

unfoldable pub translate_return :
    Option LoweredOperand
    → List (Option StackSlot)
    → Frame
    → BytecodeBuilder
    → Emitting BytecodeBuilder
unfolding reshape
translate_return (some (location slot)) current frame builder = do
  shaped ← reshape current (slot ∷ []) frame builder
  ok (emit Opcode.jump (emit Opcode.swap1 shaped))
translate_return (some (constant c)) current frame builder = do
  drained ← reshape current [] frame builder
  pushed ← push_constant c drained
  ok (emit Opcode.jump (emit Opcode.swap1 pushed))
translate_return none current frame builder = do
  drained ← reshape current [] frame builder
  ok (emit Opcode.jump drained)

unfoldable pub translate_terminator :
    Terminator LoweredOperand
    → Map BlockId Label
    → Frame
    → List StackSlot
    → BytecodeBuilder
    → Emitting BytecodeBuilder
unfolding get_label layout_of reshape translate_branch translate_return
translate_terminator (Terminator.jump target) block_labels frame block_stack builder = do
  label ← get_label block_labels target
  shaped ←
      reshape (build_current block_stack frame.entry_layout) (layout_of target frame) frame builder
  ok (jump_to label shaped)
translate_terminator (Terminator.branch condition then_block else_block) block_labels frame
      block_stack builder =
    do
      then_label ← get_label block_labels then_block
      else_label ← get_label block_labels else_block
      translate_branch condition then_label else_label (layout_of then_block frame)
          (layout_of else_block frame) (build_current block_stack frame.entry_layout) frame builder
translate_terminator (Terminator.return value) block_labels frame block_stack builder =
    translate_return value (build_current block_stack frame.entry_layout) frame builder
translate_terminator Terminator.unreachable block_labels frame block_stack builder = do
  shaped ← reshape (build_current block_stack frame.entry_layout) [] frame builder
  ok (emit Opcode.invalid shaped)
