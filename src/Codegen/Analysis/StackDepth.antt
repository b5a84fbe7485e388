-- ===== src/Codegen/Analysis/StackDepth.antt =====
-- codegen/src/analysis/stack_depth.rs. Of the message of the error its fixed start is kept.
use merak.Prelude.{
  ℕ, ◌+◌, ltb, leb, if◌then◌else◌, Option, none, some, List, [], ◌∷◌, length, nat_eq,
}
use merak.Prelude.Map.{Map, get, insert}
use merak.Prelude.Outcome.{Outcome, ok, err}
use merak.Evm.Builder.{CodegenError, other}
use merak.Ir.Terminator.{BlockId, Terminator, jump, branch, return, unreachable}
use merak.Lowering.Slot.{StackSlot}
use merak.Lowering.Instruction.{
  LoweredOperand, LoweredInstruction, binary_op, unary_op, storage_load, storage_store, call,
  load_constant, copy, LoweredBlock, LoweredCfg,
}

-- `MAX_STACK_DEPTH`
abbrev pub max_stack_depth : ℕ
max_stack_depth = 1024

-- `CONTINUATION_DEPTH`
abbrev pub continuation_depth : ℕ
continuation_depth = 1

pub record StackDepthInfo : Type 0 where
  pub block_entry_depth : Map BlockId ℕ
  pub max_depth : ℕ

abbrev pub instruction_peak_transient : LoweredInstruction → ℕ
instruction_peak_transient (binary_op dest op l r) = 3
instruction_peak_transient (unary_op dest op e) = 3
instruction_peak_transient (load_constant dest value) = 3
instruction_peak_transient (copy dest source) = 3
instruction_peak_transient (storage_load dest slot) = 2
instruction_peak_transient (storage_store slot value) = 2
instruction_peak_transient (call dest target args) = 2

abbrev pub terminator_peak_above_continuation : Terminator LoweredOperand → ℕ
terminator_peak_above_continuation (branch condition then_block else_block) = 2
terminator_peak_above_continuation (jump target) = 1
terminator_peak_above_continuation (return (some v)) = 1
terminator_peak_above_continuation (return none) = 0
terminator_peak_above_continuation unreachable = 0

-- `Ord::max`
abbrev pub max : ℕ → ℕ → ℕ
max a b = if leb a b then b else a

-- The maximum of the peaks, or the depth at the entry where there is no instruction.
unfoldable pub instructions_peak : ℕ → List LoweredInstruction → ℕ
instructions_peak entry_depth [] = entry_depth
instructions_peak entry_depth (inst ∷ []) = entry_depth + instruction_peak_transient inst
instructions_peak entry_depth (inst ∷ next ∷ insts) =
    max (entry_depth + instruction_peak_transient inst)
      (instructions_peak entry_depth (next ∷ insts))

unfoldable pub compute_block_peak_depth : LoweredBlock → ℕ → ℕ
unfolding instructions_peak
compute_block_peak_depth block entry_depth =
    max (instructions_peak entry_depth block.instructions)
      (continuation_depth + terminator_peak_above_continuation block.terminator)

abbrev pub layout_length : Option (List StackSlot) → ℕ
layout_length none = 0
layout_length (some layout) = length layout

unfoldable pub entry_depth : Map BlockId (List StackSlot) → BlockId → ℕ
entry_depth entry_layout block_id = continuation_depth + layout_length (get block_id entry_layout)

-- The loop over the blocks, from the information gathered so far.
unfoldable pub analyze_blocks :
    Map BlockId (List StackSlot)
    → List (BlockId × LoweredBlock)
    → StackDepthInfo
    → Outcome CodegenError StackDepthInfo
unfolding entry_depth compute_block_peak_depth
analyze_blocks entry_layout [] info = ok info
analyze_blocks entry_layout ((block_id, block) ∷ blocks) info =
    let depth = entry_depth entry_layout block_id in
    let peak = compute_block_peak_depth block depth in
    let rest = analyze_blocks entry_layout blocks (record {
      block_entry_depth = insert block_id depth info.block_entry_depth;
      max_depth = max info.max_depth peak;
    }) in
    if ltb max_stack_depth peak then err (other "EVM stack overflow") else rest

unfoldable pub analyze_stack_depth :
    LoweredCfg → Map BlockId (List StackSlot) → Outcome CodegenError StackDepthInfo
unfolding analyze_blocks
analyze_stack_depth cfg entry_layout =
    analyze_blocks entry_layout cfg.blocks
      (record { block_entry_depth = []; max_depth = continuation_depth })
