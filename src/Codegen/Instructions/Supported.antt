-- ===== src/Codegen/Instructions/Supported.antt =====
-- codegen/src/codegen/instructions.rs, functions.rs and storage_ops.rs: the instructions that have code.
use merak.Prelude.{ℕ, ◌+◌, ◌≤◌, ◌<◌, ◌≡◌, sym, arith, Option, some, List, length, All, nat_eq}
use mathlib.Core.Path.{subst}
use merak.Prelude.Map.{get}
use merak.Prelude.Outcome.{ok, ◌>>=◌}
use merak.Symbols.Id.{symbol_eq}
use merak.Ir.Operand.{CallTarget, internal, external}
use merak.Evm.Opcode.{Opcode}
use merak.Evm.Builder.{BytecodeBuilder, emit, push_u64}
use merak.Evm.Builder.WellFormed.{Built, emitted}
use merak.Lowering.Slot.{StackSlot}
use merak.Lowering.Instruction.{LoweredOperand, LoweredInstruction}
use merak.Codegen.Instructions.{
  FunctionCallInfo, FunctionCallMap, Frame, push_constant, push_operand, store_to_slot, emit_binary,
  push_unary, translate_storage_load, translate_storage_store, call_internal, translate_call,
  translate_instruction,
}
use merak.Codegen.Instructions.Calls.{
  call_internal-IsProgress, emit_binary-Built, push_unary-IsBuilt,
}
use merak.Codegen.Instructions.Safe.{
  IsProgress, HasCode, CanPush, >>=-IsBuilt, >>=-IsProgress, push_u64-IsBuilt, emit-IsBuilt,
  push_constant-IsBuilt, push_operand-IsBuilt, keep_stack, store_to_slot-IsProgress,
}

-- A call of a function whose label was handed out, with as many arguments as it has parameters.
abbrev pub HasCallee : FunctionCallMap → ℕ → CallTarget → List LoweredOperand → Type 0
HasCallee metas next (internal function_id) args =
    (meta : FunctionCallInfo) × (get function_id metas ≡ some meta)
    × (length args ≡ length meta.param_slots)
    × (meta.entry_label < next)
HasCallee metas next (external object method) args = ⊥

-- The instructions that have code: no operand is a string, and calls have callees.
abbrev pub IsSupported : FunctionCallMap → ℕ → LoweredInstruction → Type 0
IsSupported metas next (LoweredInstruction.binary_op dest op left right) =
    CanPush left × CanPush right
IsSupported metas next (LoweredInstruction.unary_op dest op operand) = CanPush operand
IsSupported metas next (LoweredInstruction.storage_load dest slot) = Unit
IsSupported metas next (LoweredInstruction.storage_store slot value) = CanPush value
IsSupported metas next (LoweredInstruction.call dest target args) =
    HasCallee metas next target args × All CanPush args
IsSupported metas next (LoweredInstruction.load_constant dest value) = HasCode value
IsSupported metas next (LoweredInstruction.copy dest source) = CanPush source

-- How many words it pushes above the slots of the block.
abbrev pub pushed_words : LoweredInstruction → ℕ
pushed_words (LoweredInstruction.call dest target args) = length args
pushed_words inst = 1

call-IsProgress :
    (dest : Option StackSlot) (target : CallTarget) (args : List LoweredOperand)
    (metas : FunctionCallMap) (frame : Frame) (block_stack : List StackSlot) (b : BytecodeBuilder)
    → Built b
    → HasCallee metas b.next_label_id target args
    → All CanPush args
    → length block_stack + length frame.entry_layout + length args ≤ 16
    → IsProgress b.next_label_id block_stack
        (translate_call dest target args metas frame block_stack b)
unfolding translate_call
call-IsProgress dest (internal f) args metas frame block_stack b h (meta, at, count, below) code
      room =
    subst
      (λ o. IsProgress b.next_label_id block_stack (call_internal o dest args frame block_stack b))
      (sym at)
      (call_internal-IsProgress b.next_label_id frame block_stack meta dest args b count below code
        room h (omega arith))
call-IsProgress dest (external object method) args metas frame block_stack b h callee code room =
    absurd callee

-- With room for its operands among 16 words of the stack, an instruction whose operands are not strings,
-- and whose callee, where it is a call, is a function of the contract with as many parameters, is translated
-- without a panic or an error; the builder is one that the methods make, with the labels from before, and at
-- most one slot is added to those that the block leaves on the stack.
pub translate_instruction-IsProgress :
    (inst : LoweredInstruction) (metas : FunctionCallMap) (frame : Frame)
    (block_stack : List StackSlot) (b : BytecodeBuilder)
    → Built b
    → IsSupported metas b.next_label_id inst
    → length block_stack + length frame.entry_layout + pushed_words inst ≤ 16
    → IsProgress b.next_label_id block_stack (translate_instruction inst metas frame block_stack b)
unfolding translate_instruction translate_storage_load translate_storage_store emit
translate_instruction-IsProgress (LoweredInstruction.binary_op dest op left right) metas frame
      block_stack b h (cl, cr) room =
    let next : ℕ = b.next_label_id in
    >>=-IsProgress next block_stack (push_operand right frame block_stack 0 b)
      (λ second. push_operand left frame block_stack 1 second >>= λ first.
        store_to_slot dest frame block_stack (emit_binary op first))
      (push_operand-IsBuilt next frame block_stack right 0 b cr (omega (arith, room)) h
        (omega arith))
      (λ c hc lc.
        >>=-IsProgress next block_stack (push_operand left frame block_stack 1 c)
          (λ first. store_to_slot dest frame block_stack (emit_binary op first))
          (push_operand-IsBuilt next frame block_stack left 1 c cl room hc lc)
          (λ d hd ld.
            let (he, le) = emit_binary-Built next frame block_stack op d hd ld in
            store_to_slot-IsProgress next frame block_stack dest (emit_binary op d)
              (omega (arith, room)) he le))
translate_instruction-IsProgress (LoweredInstruction.unary_op dest op operand) metas frame
      block_stack b h code room =
    let next : ℕ = b.next_label_id in
    >>=-IsProgress next block_stack (push_unary op operand frame block_stack b)
      (store_to_slot dest frame block_stack)
      (push_unary-IsBuilt next frame block_stack op operand b code room h (omega arith))
      (λ c hc lc.
        store_to_slot-IsProgress next frame block_stack dest c (omega (arith, room)) hc lc)
translate_instruction-IsProgress (LoweredInstruction.load_constant dest value) metas frame
      block_stack b h code room =
    let next : ℕ = b.next_label_id in
    >>=-IsProgress next block_stack (push_constant value b) (store_to_slot dest frame block_stack)
      (push_constant-IsBuilt next value b code h (omega arith))
      (λ c hc lc.
        store_to_slot-IsProgress next frame block_stack dest c (omega (arith, room)) hc lc)
translate_instruction-IsProgress (LoweredInstruction.copy dest source) metas frame block_stack b h
      code room =
    let next : ℕ = b.next_label_id in
    >>=-IsProgress next block_stack (push_operand source frame block_stack 0 b)
      (store_to_slot dest frame block_stack)
      (push_operand-IsBuilt next frame block_stack source 0 b code (omega (arith, room)) h
        (omega arith))
      (λ c hc lc.
        store_to_slot-IsProgress next frame block_stack dest c (omega (arith, room)) hc lc)
translate_instruction-IsProgress (LoweredInstruction.storage_load dest slot) metas frame block_stack
      b h code room =
    let next : ℕ = b.next_label_id in
    >>=-IsProgress next block_stack (push_u64 slot b)
      (λ pushed. store_to_slot dest frame block_stack (emit Opcode.sload pushed))
      (push_u64-IsBuilt next slot b h (omega arith))
      (λ c hc lc.
        store_to_slot-IsProgress next frame block_stack dest (emit Opcode.sload c)
          (omega (arith, room)) (emitted Opcode.sload hc) lc)
translate_instruction-IsProgress (LoweredInstruction.storage_store slot value) metas frame
      block_stack b h code room =
    let next : ℕ = b.next_label_id in
    keep_stack next frame block_stack (translate_storage_store slot value frame block_stack b) (
      >>=-IsBuilt next (push_operand value frame block_stack 0 b)
        (λ valued. push_u64 slot valued >>= λ pushed. ok (emit Opcode.sstore pushed))
        (push_operand-IsBuilt next frame block_stack value 0 b code (omega (arith, room)) h
          (omega arith))
        (λ c hc lc.
          >>=-IsBuilt next (push_u64 slot c) (λ pushed. ok (emit Opcode.sstore pushed))
            (push_u64-IsBuilt next slot c hc lc) (emit-IsBuilt next Opcode.sstore)))
translate_instruction-IsProgress (LoweredInstruction.call dest target args) metas frame block_stack
      b h (callee, code) room =
    call-IsProgress dest target args metas frame block_stack b h callee code room
