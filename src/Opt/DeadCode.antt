-- ===== src/Opt/DeadCode.antt =====
-- codegen/src/opt/lowered/dead_code.rs: instructions whose slot no instruction or terminator of the
-- function reads are dropped. A set of slots is a list.
pub mod Slots
pub mod Meaning
pub mod FixedPoint
use merak.Prelude.{
  ℕ, Bool, true, false, ◌||◌, Option, none, some, List, [], ◌∷◌, ◌++◌, ◌==◌, if◌then◌else◌, length,
  not,
}
use merak.Prelude.Map.{Map}
use merak.Ir.Operand.{Operand, location, constant}
use merak.Ir.Terminator.{BlockId, BasicBlock, Terminator, jump, branch, return, unreachable}
use merak.Lowering.Slot.{StackSlot}
use merak.Lowering.Instruction.{
  LoweredOperand, LoweredInstruction, LoweredBlock, LoweredCfg, destination, operands,
  has_side_effects,
}
use merak.Codegen.Shuffler.{contains}
use merak.Opt.Pipeline.{Pass}

-- The slot that an operand reads.
abbrev pub slots_of : LoweredOperand → List StackSlot
slots_of (location slot) = slot ∷ []
slots_of (constant c) = []

abbrev pub operand_slots : List LoweredOperand → List StackSlot
operand_slots [] = []
operand_slots (x ∷ xs) = slots_of x ++ operand_slots xs

abbrev pub instruction_slots : List LoweredInstruction → List StackSlot
instruction_slots [] = []
instruction_slots (inst ∷ insts) = operand_slots (operands inst) ++ instruction_slots insts

abbrev pub terminator_slots : Terminator LoweredOperand → List StackSlot
terminator_slots (jump target) = []
terminator_slots (branch condition then_block else_block) = slots_of condition
terminator_slots (return none) = []
terminator_slots (return (some value)) = slots_of value
terminator_slots unreachable = []

abbrev pub block_slots : LoweredBlock → List StackSlot
block_slots block = instruction_slots block.instructions ++ terminator_slots block.terminator

abbrev pub collect_used_slots : Map BlockId LoweredBlock → List StackSlot
collect_used_slots [] = []
collect_used_slots ((id, block) ∷ blocks) = block_slots block ++ collect_used_slots blocks

-- The test of `retain`.
abbrev pub is_kept : List StackSlot → LoweredInstruction → Bool
is_kept used inst =
    if has_side_effects inst
    then true
    else elim (destination inst) [ none ↦ true | some slot ↦ contains used slot ]

abbrev pub retain : List StackSlot → List LoweredInstruction → List LoweredInstruction
retain used [] = []
retain used (inst ∷ insts) =
    let rest = retain used insts in if is_kept used inst then inst ∷ rest else rest

abbrev pub clean_block : List StackSlot → LoweredBlock → LoweredBlock
clean_block used block = record block { instructions = retain used block.instructions }

-- The loop over the blocks, with the flag `changed` that starts from the one given.
abbrev pub clean_blocks :
    List StackSlot → Map BlockId LoweredBlock → Bool → Map BlockId LoweredBlock × Bool
clean_blocks used [] changed = ([], changed)
clean_blocks used ((id, block) ∷ blocks) changed =
    let block' = clean_block used block in
    let differs = not (length block'.instructions == length block.instructions) in
    let (rest, flag) = clean_blocks used blocks (if differs then true else changed) in
    ((id, block') ∷ rest, flag)

-- `DeadInstructionElimination::run`
abbrev pub run : LoweredCfg → LoweredCfg × Bool
run cfg =
    let (blocks', changed) = clean_blocks (collect_used_slots cfg.blocks) cfg.blocks false in
    (record cfg { blocks = blocks' }, changed)

abbrev pub dead_instruction_elimination : Pass LoweredCfg
dead_instruction_elimination = record { name = "dead-instruction-elimination"; run = run }
