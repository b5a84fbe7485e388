-- ===== src/Tests/Emission.antt =====
-- codegen/src/codegen/ at concrete inputs: an addition of a slot in memory and a slot on the stack, and a jump.
use merak.Prelude.{◌≡◌, refl, arith, [], ◌∷◌, nat_eq}
use merak.Prelude.Map.{get}
use merak.Prelude.Outcome.{ok}
use merak.Ast.Operator.{BinaryOperator}
use merak.Ir.Operand.{location}
use merak.Ir.Terminator.{Terminator}
use merak.Evm.Opcode.{encode}
use merak.Evm.Opcode.Select.{dup_for_position, push_for_size}
use merak.Evm.Builder.{
  BytecodeBuilder, empty, emit, new_label, push_u64, push, to_be_bytes, trim_leading_zeros,
}
use merak.Evm.Builder.WellFormed.{new, label_made}
use merak.Lowering.Instruction.{LoweredInstruction}
use merak.Codegen.Analysis.Allocator.{stack_pos}
use merak.Codegen.Instructions.{Frame, translate_instruction}
use merak.Codegen.Instructions.Safe.{IsBuilt, IsProgress}
use merak.Codegen.Instructions.Supported.{translate_instruction-IsProgress}
use merak.Codegen.Terminators.{translate_terminator}
use merak.Codegen.Terminators.Supported.{translate_terminator-IsBuilt}

-- Slot 1 stands on the stack at the entry of the block, slot 2 is given a place on the stack.
abbrev block_frame : Frame
block_frame = record {
  stack_state = record { frame_base = 0x80 };
  entry_layout = 1 ∷ [];
  allocation = record {
    assignment = (2, stack_pos 0) ∷ [];
    entry_layout = (7, 2 ∷ []) ∷ [];
    exit_layout = [];
  };
}

abbrev sum : LoweredInstruction
sum = LoweredInstruction.binary_op 2 BinaryOperator.add (location 0) (location 1)

-- DUP1, PUSH1 0x80, MLOAD, ADD
sum_code :
    translate_instruction sum [] block_frame [] empty
    ≡ ok (2 ∷ [], record empty { code = 0x80 ∷ 0x60 ∷ 0x80 ∷ 0x51 ∷ 0x01 ∷ [] })
unfolding translate_instruction merak.Codegen.Instructions.emit_dup emit encode dup_for_position
    push_for_size push_u64 to_be_bytes push trim_leading_zeros get
    merak.Lowering.Slot.memory_offset_for_slot
sum_code = refl

translate_instruction-IsProgress_example :
    IsProgress 0 [] (translate_instruction sum [] block_frame [] empty)
translate_instruction-IsProgress_example =
    translate_instruction-IsProgress sum [] block_frame [] empty new (tt, tt) (omega arith)

abbrev one_label : BytecodeBuilder
one_label = (new_label empty).1

translate_terminator-IsBuilt_example :
    IsBuilt 1
      (translate_terminator (Terminator.jump 7) ((7, 0) ∷ []) block_frame (2 ∷ []) one_label)
unfolding new_label get merak.Codegen.Terminators.layout_of
translate_terminator-IsBuilt_example =
    translate_terminator-IsBuilt (Terminator.jump 7) ((7, 0) ∷ []) block_frame (2 ∷ []) one_label
      (label_made new) ((0, refl, omega arith), omega arith)
