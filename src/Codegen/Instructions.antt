-- ===== src/Codegen/Instructions.antt =====
-- codegen/src/codegen/instructions.rs, functions.rs and storage_ops.rs: the bytecode of an instruction. The
-- slots that a block leaves on the stack, which the source keeps in a vector, are answered with the builder.
-- The text of an error leaves out the values that it prints.
pub mod Safe
pub mod Calls
pub mod Supported
use merak.Prelude.{
  ℕ, ◌+◌, ◌-◌, ◌%◌, ◌^◌, Bool, true, false, Option, none, some, List, [], ◌∷◌, ◌++◌, length,
  replicate, nat_eq, ◌==◌, if◌then◌else◌,
}
use merak.Prelude.Int.{ℤ, pos, negsuc}
use merak.Prelude.Map.{Map, get}
use merak.Prelude.Outcome.{Outcome, ok, err, panic, ◌>>=◌}
use merak.Ast.Operator.{BinaryOperator, UnaryOperator}
use merak.Symbols.Id.{SymbolId, symbol_eq}
use merak.Ir.Operand.{Constant, Operand, location, constant, CallTarget, internal, external}
use merak.Evm.Opcode.{Opcode}
use merak.Evm.Opcode.Select.{dup_for_position, swap_for_position}
use merak.Evm.Builder.{
  Label, BytecodeBuilder, CodegenError, emit, to_be_bytes, push, push_u64, push_u256, new_label,
  push_label, mark_label, jump_to,
}
use merak.Lowering.Slot.{StackSlot, StackState, memory_offset_for_slot}
use merak.Lowering.Instruction.{LoweredOperand, LoweredInstruction}
use merak.Codegen.Analysis.Allocator.{SlotLocation, stack_pos, StackAllocation}

abbrev pub Emitting : Type 0 → Type 0
Emitting A = Outcome CodegenError A

-- `codegen/src/codegen/mod.rs`
pub record FunctionCallInfo : Type 0 where
  pub entry_label : Label
  pub frame_base : ℕ
  pub param_slots : List StackSlot

abbrev pub FunctionCallMap : Type 0
FunctionCallMap = Map SymbolId FunctionCallInfo

-- What the methods of a block read: its frame, the slots on the stack at its entry and the allocation.
pub record Frame : Type 0 where
  pub stack_state : StackState
  pub entry_layout : List StackSlot
  pub allocation : StackAllocation

-- The stack slots of the block and the builder after an instruction.
abbrev pub Progress : Type 0
Progress = List StackSlot × BytecodeBuilder

-- `iter().position(|s| *s == slot)`
abbrev pub index_of : StackSlot → List StackSlot → Option ℕ
index_of slot [] = none
index_of slot (s ∷ slots) =
    if s == slot
    then some 0
    else (elim (index_of slot slots) [ none ↦ none | some i ↦ some (i + 1) ])

abbrev pub emit_expected : Option Opcode → BytecodeBuilder → Emitting BytecodeBuilder
emit_expected none builder = panic
emit_expected (some opcode) builder = ok (emit opcode builder)

unfoldable pub emit_dup : ℕ → BytecodeBuilder → Emitting BytecodeBuilder
emit_dup n builder = emit_expected (dup_for_position n) builder

-- A SWAP, and the POP of the value that was overwritten.
unfoldable pub emit_overwrite : ℕ → BytecodeBuilder → Emitting BytecodeBuilder
emit_overwrite n builder = do
  swapped ← emit_expected (swap_for_position n) builder
  ok (emit Opcode.pop swapped)

-- The 64 bits of an `i64`.
abbrev pub i64_bits : ℤ → ℕ
i64_bits (pos n) = n % 2 ^ 64
i64_bits (negsuc n) = 2 ^ 64 - 1 - n % 2 ^ 64

unfoldable pub push_constant : Constant → BytecodeBuilder → Emitting BytecodeBuilder
push_constant (Constant.int value) builder =
    push_u256 (replicate 24 0 ++ to_be_bytes 8 (i64_bits value)) builder
push_constant (Constant.bool value) builder = push ((if value then 1 else 0) ∷ []) builder
push_constant (Constant.address addr) builder = push_u256 addr.bytes builder
push_constant (Constant.string text) builder =
    err (CodegenError.other "String constants not yet supported")

abbrev pub push_from :
    Option ℕ
    → Option ℕ
    → ℕ
    → ℕ
    → StackSlot
    → StackState
    → BytecodeBuilder
    → Emitting BytecodeBuilder
push_from (some i) in_entry depth extra_depth slot state builder =
    emit_dup (i + 1 + extra_depth) builder
push_from none (some i) depth extra_depth slot state builder =
    emit_dup (depth + i + 1 + extra_depth) builder
push_from none none depth extra_depth slot state builder = do
  pushed ← push_u64 (memory_offset_for_slot state slot) builder
  ok (emit Opcode.mload pushed)

unfoldable pub push_operand :
    LoweredOperand → Frame → List StackSlot → ℕ → BytecodeBuilder → Emitting BytecodeBuilder
unfolding push_constant
push_operand (constant c) frame block_stack extra_depth builder = push_constant c builder
push_operand (location slot) frame block_stack extra_depth builder =
    push_from (index_of slot block_stack) (index_of slot frame.entry_layout) (length block_stack)
      extra_depth slot frame.stack_state builder

abbrev pub store_on_stack :
    Option ℕ → Option ℕ → StackSlot → List StackSlot → BytecodeBuilder → Emitting Progress
store_on_stack (some d) in_entry dest block_stack builder = do
  done ← emit_overwrite (d + 1) builder
  ok (block_stack, done)
store_on_stack none (some e) dest block_stack builder = do
  done ← emit_overwrite (length block_stack + e + 1) builder
  ok (block_stack, done)
store_on_stack none none dest block_stack builder = ok (dest ∷ block_stack, builder)

unfoldable pub store_in_memory :
    StackSlot → StackState → List StackSlot → BytecodeBuilder → Emitting Progress
store_in_memory dest state block_stack builder = do
  pushed ← push_u64 (memory_offset_for_slot state dest) builder
  ok (block_stack, emit Opcode.mstore pushed)

abbrev pub store_by :
    Option SlotLocation → StackSlot → Frame → List StackSlot → BytecodeBuilder → Emitting Progress
store_by (some (stack_pos p)) dest frame block_stack builder =
    store_on_stack (index_of dest block_stack) (index_of dest frame.entry_layout) dest block_stack
      builder
store_by place dest frame block_stack builder =
    store_in_memory dest frame.stack_state block_stack builder

unfoldable pub store_to_slot :
    StackSlot → Frame → List StackSlot → BytecodeBuilder → Emitting Progress
store_to_slot dest frame block_stack builder =
    store_by (get dest frame.allocation.assignment) dest frame block_stack builder

abbrev pub binary_op_to_opcode : BinaryOperator → Opcode
binary_op_to_opcode BinaryOperator.add = Opcode.add
binary_op_to_opcode BinaryOperator.subtract = Opcode.sub
binary_op_to_opcode BinaryOperator.multiply = Opcode.mul
binary_op_to_opcode BinaryOperator.divide = Opcode.div
binary_op_to_opcode BinaryOperator.modulo = Opcode.modulo
binary_op_to_opcode BinaryOperator.less = Opcode.lt
binary_op_to_opcode BinaryOperator.greater = Opcode.gt
binary_op_to_opcode BinaryOperator.equal = Opcode.eq
binary_op_to_opcode BinaryOperator.less_equal = Opcode.gt
binary_op_to_opcode BinaryOperator.greater_equal = Opcode.lt
binary_op_to_opcode BinaryOperator.not_equal = Opcode.eq
binary_op_to_opcode BinaryOperator.logical_and = Opcode.and
binary_op_to_opcode BinaryOperator.logical_or = Opcode.or

-- The `match op` of a binary instruction.
abbrev pub emit_binary : BinaryOperator → BytecodeBuilder → BytecodeBuilder
emit_binary BinaryOperator.less_equal builder = emit Opcode.iszero (emit Opcode.gt builder)
emit_binary BinaryOperator.greater_equal builder = emit Opcode.iszero (emit Opcode.lt builder)
emit_binary BinaryOperator.not_equal builder = emit Opcode.iszero (emit Opcode.eq builder)
emit_binary op builder = emit (binary_op_to_opcode op) builder

unfoldable pub push_unary :
    UnaryOperator
    → LoweredOperand
    → Frame
    → List StackSlot
    → BytecodeBuilder
    → Emitting BytecodeBuilder
unfolding push_operand
push_unary UnaryOperator.negate operand frame block_stack builder = do
  zeroed ← push (0 ∷ []) builder
  pushed ← push_operand operand frame block_stack 1 zeroed
  ok (emit Opcode.sub pushed)
push_unary UnaryOperator.not operand frame block_stack builder = do
  pushed ← push_operand operand frame block_stack 0 builder
  ok (emit Opcode.iszero pushed)

unfoldable pub translate_storage_load :
    StackSlot → ℕ → Frame → List StackSlot → BytecodeBuilder → Emitting Progress
unfolding store_to_slot
translate_storage_load dest storage_slot frame block_stack builder = do
  pushed ← push_u64 storage_slot builder
  store_to_slot dest frame block_stack (emit Opcode.sload pushed)

unfoldable pub translate_storage_store :
    ℕ → LoweredOperand → Frame → List StackSlot → BytecodeBuilder → Emitting BytecodeBuilder
unfolding push_operand
translate_storage_store storage_slot value frame block_stack builder = do
  valued ← push_operand value frame block_stack 0 builder
  pushed ← push_u64 storage_slot valued
  ok (emit Opcode.sstore pushed)

-- The loop over the arguments, from the index `i` on.
unfoldable pub push_arguments :
    ℕ → List LoweredOperand → Frame → List StackSlot → BytecodeBuilder → Emitting BytecodeBuilder
unfolding push_operand
push_arguments i [] frame block_stack builder = ok builder
push_arguments i (arg ∷ args) frame block_stack builder = do
  pushed ← push_operand arg frame block_stack i builder
  push_arguments (i + 1) args frame block_stack pushed

-- The continuation, the jump and the place that the callee comes back to.
unfoldable pub jump_to_callee : Label → BytecodeBuilder → BytecodeBuilder
jump_to_callee entry_label builder =
    let (call_continuation, labelled) = new_label builder in
    emit Opcode.jumpdest
      (mark_label call_continuation (jump_to entry_label (push_label call_continuation labelled)))

abbrev pub store_result :
    Option StackSlot → Frame → List StackSlot → BytecodeBuilder → Emitting Progress
store_result none frame block_stack builder = ok (block_stack, builder)
store_result (some dest) frame block_stack builder = store_to_slot dest frame block_stack builder

unfoldable pub call_internal :
    Option FunctionCallInfo
    → Option StackSlot
    → List LoweredOperand
    → Frame
    → List StackSlot
    → BytecodeBuilder
    → Emitting Progress
unfolding push_arguments jump_to_callee store_to_slot
call_internal none dest args frame block_stack builder =
    err (CodegenError.other "No call info for internal function")
call_internal (some meta) dest args frame block_stack builder =
    let emitted = push_arguments 0 args frame block_stack builder >>= λ pushed.
    store_result dest frame block_stack (jump_to_callee meta.entry_label pushed) in
    if length args == length meta.param_slots
    then emitted
    else err (CodegenError.other "Argument count mismatch")

unfoldable pub translate_call :
    Option StackSlot
    → CallTarget
    → List LoweredOperand
    → FunctionCallMap
    → Frame
    → List StackSlot
    → BytecodeBuilder
    → Emitting Progress
unfolding call_internal
translate_call dest (internal function_id) args function_metas frame block_stack builder =
    call_internal (get function_id function_metas) dest args frame block_stack builder
translate_call dest (external object method) args function_metas frame block_stack builder =
    err (CodegenError.other "External function calls not yet implemented")

unfoldable pub translate_instruction :
    LoweredInstruction
    → FunctionCallMap
    → Frame
    → List StackSlot
    → BytecodeBuilder
    → Emitting Progress
unfolding push_operand push_unary store_to_slot translate_storage_load translate_storage_store
    translate_call
translate_instruction (LoweredInstruction.binary_op dest op left right) metas frame block_stack
      builder =
    do
      second ← push_operand right frame block_stack 0 builder
      first ← push_operand left frame block_stack 1 second
      store_to_slot dest frame block_stack (emit_binary op first)
translate_instruction (LoweredInstruction.unary_op dest op operand) metas frame block_stack
      builder =
    do
      pushed ← push_unary op operand frame block_stack builder
      store_to_slot dest frame block_stack pushed
translate_instruction (LoweredInstruction.load_constant dest value) metas frame block_stack
      builder =
    do pushed ← push_constant value builder; store_to_slot dest frame block_stack pushed
translate_instruction (LoweredInstruction.copy dest source) metas frame block_stack builder = do
  pushed ← push_operand source frame block_stack 0 builder
  store_to_slot dest frame block_stack pushed
translate_instruction (LoweredInstruction.storage_load dest slot) metas frame block_stack builder =
    translate_storage_load dest slot frame block_stack builder
translate_instruction (LoweredInstruction.storage_store slot value) metas frame block_stack
      builder =
    do
      stored ← translate_storage_store slot value frame block_stack builder
      ok (block_stack, stored)
translate_instruction (LoweredInstruction.call dest target args) metas frame block_stack builder =
    translate_call dest target args metas frame block_stack builder
