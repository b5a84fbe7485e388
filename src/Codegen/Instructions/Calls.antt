-- ===== src/Codegen/Instructions/Calls.antt =====
-- codegen/src/codegen/instructions.rs and functions.rs: the arguments of a call, its jump, and operators.
use merak.Prelude.{
  ℕ, ◌+◌, ◌≤◌, ◌<◌, ◌≡◌, refl, arith, Option, none, some, List, [], ◌∷◌, length, All, nat_eq,
  ==_iff,
}
use merak.Prelude.Outcome.{ok, ◌>>=◌}
use merak.Ast.Operator.{BinaryOperator, UnaryOperator}
use merak.Symbols.Id.{symbol_eq}
use merak.Evm.Opcode.{Opcode}
use merak.Evm.Builder.{BytecodeBuilder, emit, push, new_label, push_label, mark_label, jump_to}
use merak.Evm.Builder.WellFormed.{Built, emitted, label_made, label_pushed, label_marked, jumped}
use merak.Lowering.Slot.{StackSlot}
use merak.Lowering.Instruction.{LoweredOperand}
use merak.Codegen.Instructions.{
  FunctionCallInfo, Frame, push_operand, emit_binary, push_unary, push_arguments, jump_to_callee,
  store_result, call_internal,
}
use merak.Codegen.Instructions.Safe.{
  IsBuilt, IsProgress, CanPush, >>=-IsBuilt, >>=-IsProgress, push-IsBuilt, emit-IsBuilt,
  push_operand-IsBuilt, store_to_slot-IsProgress,
}

module _ (next : ℕ) (frame : Frame) (block_stack : List StackSlot) where
  push_arguments-IsBuilt :
      (i : ℕ) (args : List LoweredOperand) (b : BytecodeBuilder)
      → All CanPush args
      → length block_stack + length frame.entry_layout + i + length args ≤ 16
      → Built b
      → next ≤ b.next_label_id
      → IsBuilt next (push_arguments i args frame block_stack b)
  unfolding push_arguments
  push_arguments-IsBuilt i [] b code room h l = (b, refl, h, l)
  push_arguments-IsBuilt i (arg ∷ args) b (c, code) room h l =
      >>=-IsBuilt next (push_operand arg frame block_stack i b)
        (push_arguments (i + 1) args frame block_stack)
        (push_operand-IsBuilt next frame block_stack arg i b c (omega (arith, room)) h l)
        (λ b h l. push_arguments-IsBuilt (i + 1) args b code (omega (arith, room)) h l)

  jump_to_callee-Built :
      (label : ℕ) (b : BytecodeBuilder)
      → label < next
      → Built b
      → next ≤ b.next_label_id
      → Built (jump_to_callee label b) × (next ≤ (jump_to_callee label b).next_label_id)
  unfolding jump_to_callee new_label push_label jump_to mark_label emit
  jump_to_callee-Built label b below h l =
      let made = label_made h in
      let continued = label_pushed b.next_label_id (omega arith) made in
      let left = jumped label (omega (arith, below, l)) continued in
      (emitted Opcode.jumpdest (label_marked b.next_label_id (omega arith) left), omega (arith, l))

  store_result-IsProgress :
      (dest : Option StackSlot) (b : BytecodeBuilder)
      → length block_stack + length frame.entry_layout ≤ 16
      → Built b
      → next ≤ b.next_label_id
      → IsProgress next block_stack (store_result dest frame block_stack b)
  store_result-IsProgress none b room h l = ((block_stack, b), refl, h, l, omega arith)
  store_result-IsProgress (some dest) b room h l =
      store_to_slot-IsProgress next frame block_stack dest b room h l

  pub call_internal-IsProgress :
      (meta : FunctionCallInfo) (dest : Option StackSlot) (args : List LoweredOperand)
      (b : BytecodeBuilder)
      → length args ≡ length meta.param_slots
      → meta.entry_label < next
      → All CanPush args
      → length block_stack + length frame.entry_layout + length args ≤ 16
      → Built b
      → next ≤ b.next_label_id
      → IsProgress next block_stack (call_internal (some meta) dest args frame block_stack b)
  unfolding call_internal
  call_internal-IsProgress meta dest args b count below code room h l =
      let jumps : BytecodeBuilder → BytecodeBuilder = jump_to_callee meta.entry_label in
      rw ((==_iff (length args) (length meta.param_slots)).1 count) (
        >>=-IsProgress next block_stack (push_arguments 0 args frame block_stack b)
          (λ pushed. store_result dest frame block_stack (jumps pushed))
          (push_arguments-IsBuilt 0 args b code (omega (arith, room)) h l)
          (λ c built more.
            let (left, enough) = jump_to_callee-Built meta.entry_label c below built more in
            store_result-IsProgress dest (jumps c) (omega (arith, room)) left enough))

  pub emit_binary-Built :
      (op : BinaryOperator) (b : BytecodeBuilder)
      → Built b
      → next ≤ b.next_label_id
      → Built (emit_binary op b) × (next ≤ (emit_binary op b).next_label_id)
  unfolding emit
  emit_binary-Built BinaryOperator.less_equal b h l =
      (emitted Opcode.iszero (emitted Opcode.gt h), l)
  emit_binary-Built BinaryOperator.greater_equal b h l =
      (emitted Opcode.iszero (emitted Opcode.lt h), l)
  emit_binary-Built BinaryOperator.not_equal b h l =
      (emitted Opcode.iszero (emitted Opcode.eq h), l)
  emit_binary-Built BinaryOperator.logical_or b h l = (emitted Opcode.or h, l)
  emit_binary-Built BinaryOperator.logical_and b h l = (emitted Opcode.and h, l)
  emit_binary-Built BinaryOperator.equal b h l = (emitted Opcode.eq h, l)
  emit_binary-Built BinaryOperator.less b h l = (emitted Opcode.lt h, l)
  emit_binary-Built BinaryOperator.greater b h l = (emitted Opcode.gt h, l)
  emit_binary-Built BinaryOperator.add b h l = (emitted Opcode.add h, l)
  emit_binary-Built BinaryOperator.subtract b h l = (emitted Opcode.sub h, l)
  emit_binary-Built BinaryOperator.multiply b h l = (emitted Opcode.mul h, l)
  emit_binary-Built BinaryOperator.divide b h l = (emitted Opcode.div h, l)
  emit_binary-Built BinaryOperator.modulo b h l = (emitted Opcode.modulo h, l)

  pub push_unary-IsBuilt :
      (op : UnaryOperator) (operand : LoweredOperand) (b : BytecodeBuilder)
      → CanPush operand
      → length block_stack + length frame.entry_layout + 1 ≤ 16
      → Built b
      → next ≤ b.next_label_id
      → IsBuilt next (push_unary op operand frame block_stack b)
  unfolding push_unary
  push_unary-IsBuilt UnaryOperator.negate operand b code room h l =
      >>=-IsBuilt next (push (0 ∷ []) b)
        (λ zeroed.
          push_operand operand frame block_stack 1 zeroed >>= λ pushed. ok (emit Opcode.sub pushed))
        (push-IsBuilt next (0 ∷ []) b (omega arith) h l)
        (λ c built more.
          >>=-IsBuilt next (push_operand operand frame block_stack 1 c)
            (λ pushed. ok (emit Opcode.sub pushed))
            (push_operand-IsBuilt next frame block_stack operand 1 c code room built more)
            (emit-IsBuilt next Opcode.sub))
  push_unary-IsBuilt UnaryOperator.not operand b code room h l =
      >>=-IsBuilt next (push_operand operand frame block_stack 0 b)
        (λ pushed. ok (emit Opcode.iszero pushed))
        (push_operand-IsBuilt next frame block_stack operand 0 b code (omega (arith, room)) h l)
        (emit-IsBuilt next Opcode.iszero)
