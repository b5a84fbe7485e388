-- ===== src/Codegen/Terminators/Supported.antt =====
-- codegen/src/codegen/terminators.rs: the terminators that have code.
use merak.Prelude.{
  ℕ, ◌+◌, ◌≤◌, ◌<◌, ◌≡◌, refl, ◌∙◌, arith, Option, none, some, List, [], ◌∷◌, ◌++◌, length,
  length-append, nat_eq,
}
use merak.Prelude.Map.{Map, get}
use merak.Prelude.Outcome.{ok, ◌>>=◌}
use merak.Ir.Operand.{location, constant}
use merak.Ir.Terminator.{BlockId, Terminator}
use merak.Evm.Opcode.{Opcode}
use merak.Evm.Builder.{Label, BytecodeBuilder, emit, emit_bytes, jump_to, jumpi_to, push_label}
use merak.Evm.Builder.WellFormed.{Built, emitted, bytes_emitted, jumped, branched}
use merak.Lowering.Slot.{StackSlot}
use merak.Lowering.Instruction.{LoweredOperand}
use merak.Codegen.Shuffler.Emission.{extended, emit_shuffle-plan_shuffle}
use merak.Codegen.Instructions.{Frame, push_constant}
use merak.Codegen.Instructions.Safe.{
  IsBuilt, CanPush, >>=-IsBuilt, emit-IsBuilt, push_constant-IsBuilt,
}
use merak.Codegen.Terminators.{
  get_label, layout_of, slots_to_current, build_current, reshape, emit_branch, translate_branch,
  translate_return, translate_terminator,
}

length-map_some : (slots : List StackSlot) → length (slots_to_current slots) ≡ length slots
length-map_some [] = refl
length-map_some (s ∷ slots) = omega (arith, length-map_some slots)

length-build_current :
    (block_stack entry_layout : List StackSlot)
    → length (build_current block_stack entry_layout) ≡ length block_stack + length entry_layout
length-build_current block_stack entry_layout =
    length-map_some (block_stack ++ entry_layout) ∙ length-append block_stack entry_layout

module _ (next : ℕ) (frame : Frame) where
  reshape-IsBuilt :
      (current : List (Option StackSlot)) (target : List StackSlot) (b : BytecodeBuilder)
      → length current + length target ≤ 16
      → Built b
      → next ≤ b.next_label_id
      → IsBuilt next (reshape current target frame b)
  unfolding reshape emit_bytes
  reshape-IsBuilt current target b room h l =
      let (encodable, bytes, runs) =
        emit_shuffle-plan_shuffle frame.stack_state current target [] b room in
      (extended b bytes, runs, bytes_emitted bytes h, l)

  leave :
      (label : Label) (b : BytecodeBuilder)
      → label < next
      → Built b
      → next ≤ b.next_label_id
      → IsBuilt next (ok (jump_to label b))
  unfolding jump_to push_label emit emit_bytes
  leave label b below h l = (jump_to label b, refl, jumped label (omega (arith, below, l)) h, l)

  emit_branch-IsBuilt :
      (then_label else_label : Label) (then_layout else_layout : List StackSlot)
      (b : BytecodeBuilder)
      → then_label < next
      → else_label < next
      → length then_layout + length else_layout ≤ 16
      → Built b
      → next ≤ b.next_label_id
      → IsBuilt next (emit_branch then_label else_label then_layout else_layout frame b)
  unfolding emit_branch jumpi_to push_label emit emit_bytes
  emit_branch-IsBuilt then_label else_label then_layout else_layout b p q room h l =
      >>=-IsBuilt next
        (reshape (slots_to_current then_layout) else_layout frame (jumpi_to then_label b))
        (λ c. ok (jump_to else_label c))
        (reshape-IsBuilt (slots_to_current then_layout) else_layout (jumpi_to then_label b)
          (omega (arith, room, length-map_some then_layout))
          (branched then_label (omega (arith, p, l)) h) l)
        (λ c hc lc. leave else_label c q hc lc)

  return_jump :
      (b : BytecodeBuilder)
      → Built b
      → next ≤ b.next_label_id
      → IsBuilt next (ok (emit Opcode.jump (emit Opcode.swap1 b)))
  unfolding emit emit_bytes
  return_jump b h l = (
    emit Opcode.jump (emit Opcode.swap1 b),
    refl,
    emitted Opcode.jump (emitted Opcode.swap1 h),
    l,
  )

-- The block has a label that was handed out.
abbrev pub HasLabel : Map BlockId Label → ℕ → BlockId → Type 0
HasLabel labels next id = (label : Label) × (get id labels ≡ some label) × (label < next)

-- A returned operand has code.
abbrev pub CanReturn : Option LoweredOperand → Type 0
CanReturn none = Unit
CanReturn (some value) = CanPush value

-- The blocks it names have labels, its operand has code, and the layouts of the stack fit 16 words.
abbrev pub IsSupportedEnd :
    Map BlockId Label → ℕ → Frame → List StackSlot → Terminator LoweredOperand → Type 0
IsSupportedEnd labels next frame block_stack (Terminator.jump target) =
    HasLabel labels next target
    × (length block_stack + length frame.entry_layout + length (layout_of target frame) ≤ 16)
IsSupportedEnd labels next frame block_stack (Terminator.branch condition then_block else_block) =
    CanPush condition
    × HasLabel labels next then_block
    × HasLabel labels next else_block
    × (length block_stack + length frame.entry_layout + length (layout_of then_block frame) + 1
        ≤ 16)
    × (length (layout_of then_block frame) + length (layout_of else_block frame) ≤ 16)
IsSupportedEnd labels next frame block_stack (Terminator.return value) =
    CanReturn value × (length block_stack + length frame.entry_layout + 1 ≤ 16)
IsSupportedEnd labels next frame block_stack Terminator.unreachable =
    length block_stack + length frame.entry_layout ≤ 16

module _ (next : ℕ) (frame : Frame) (block_stack : List StackSlot) where
  current : List (Option StackSlot)
  current = build_current block_stack frame.entry_layout

  translate_branch-IsBuilt :
      (condition : LoweredOperand) (then_label else_label : Label)
      (then_layout else_layout : List StackSlot) (b : BytecodeBuilder)
      → CanPush condition
      → then_label < next
      → else_label < next
      → length block_stack + length frame.entry_layout + length then_layout + 1 ≤ 16
      → length then_layout + length else_layout ≤ 16
      → Built b
      → next ≤ b.next_label_id
      → IsBuilt next
          (translate_branch condition then_label else_label then_layout else_layout current frame b)
  unfolding translate_branch current
  translate_branch-IsBuilt (location slot) then_label else_label then_layout else_layout b code p q
        room fits h l =
      >>=-IsBuilt next (reshape current (slot ∷ then_layout) frame b)
        (emit_branch then_label else_label then_layout else_layout frame)
        (reshape-IsBuilt next frame current (slot ∷ then_layout) b
          (omega (arith, room, length-build_current block_stack frame.entry_layout)) h l)
        (λ c hc lc.
          emit_branch-IsBuilt next frame then_label else_label then_layout else_layout c p q fits hc
            lc)
  translate_branch-IsBuilt (constant k) then_label else_label then_layout else_layout b code p q
        room fits h l =
      >>=-IsBuilt next (reshape current then_layout frame b)
        (λ shaped. push_constant k shaped >>= λ pushed.
          emit_branch then_label else_label then_layout else_layout frame pushed)
        (reshape-IsBuilt next frame current then_layout b
          (omega (arith, room, length-build_current block_stack frame.entry_layout)) h l)
        (λ c hc lc.
          >>=-IsBuilt next (push_constant k c)
            (emit_branch then_label else_label then_layout else_layout frame)
            (push_constant-IsBuilt next k c code hc lc)
            (λ d hd ld.
              emit_branch-IsBuilt next frame then_label else_label then_layout else_layout d p q
                fits hd ld))

  translate_return-IsBuilt :
      (value : Option LoweredOperand) (b : BytecodeBuilder)
      → CanReturn value
      → length block_stack + length frame.entry_layout + 1 ≤ 16
      → Built b
      → next ≤ b.next_label_id
      → IsBuilt next (translate_return value current frame b)
  unfolding translate_return current
  translate_return-IsBuilt (some (location slot)) b code room h l =
      >>=-IsBuilt next (reshape current (slot ∷ []) frame b)
        (λ shaped. ok (emit Opcode.jump (emit Opcode.swap1 shaped)))
        (reshape-IsBuilt next frame current (slot ∷ []) b
          (omega (arith, room, length-build_current block_stack frame.entry_layout)) h l)
        (return_jump next frame)
  translate_return-IsBuilt (some (constant k)) b code room h l =
      >>=-IsBuilt next (reshape current [] frame b)
        (λ drained.
          push_constant k drained >>= λ pushed. ok (emit Opcode.jump (emit Opcode.swap1 pushed)))
        (reshape-IsBuilt next frame current [] b
          (omega (arith, room, length-build_current block_stack frame.entry_layout)) h l)
        (λ c hc lc.
          >>=-IsBuilt next (push_constant k c)
            (λ pushed. ok (emit Opcode.jump (emit Opcode.swap1 pushed)))
            (push_constant-IsBuilt next k c code hc lc) (return_jump next frame))
  translate_return-IsBuilt none b code room h l =
      >>=-IsBuilt next (reshape current [] frame b) (λ drained. ok (emit Opcode.jump drained))
        (reshape-IsBuilt next frame current [] b
          (omega (arith, room, length-build_current block_stack frame.entry_layout)) h l)
        (emit-IsBuilt next Opcode.jump)

-- A terminator whose blocks have labels that were handed out, whose operand is not a string, and with which
-- the layouts of the stack before and after it fit 16 words together, is translated without a panic or an
-- error, and the builder is one that the methods make, with the labels from before.
pub translate_terminator-IsBuilt :
    (terminator : Terminator LoweredOperand) (labels : Map BlockId Label) (frame : Frame)
    (block_stack : List StackSlot) (b : BytecodeBuilder)
    → Built b
    → IsSupportedEnd labels b.next_label_id frame block_stack terminator
    → IsBuilt b.next_label_id (translate_terminator terminator labels frame block_stack b)
unfolding translate_terminator get_label current
translate_terminator-IsBuilt (Terminator.jump target) labels frame block_stack b h
      ((label, at, below), room) =
    rw at (
      >>=-IsBuilt b.next_label_id
        (reshape (build_current block_stack frame.entry_layout) (layout_of target frame) frame b)
        (λ shaped. ok (jump_to label shaped))
        (reshape-IsBuilt b.next_label_id frame (build_current block_stack frame.entry_layout)
          (layout_of target frame) b
          (omega (arith, room, length-build_current block_stack frame.entry_layout)) h
          (omega arith))
        (λ c hc lc. leave b.next_label_id frame label c below hc lc))
translate_terminator-IsBuilt (Terminator.branch condition then_block else_block) labels frame
      block_stack b h (code, (then_label, at, p), (else_label, there, q), room, fits) =
    rw (at, there)
      (translate_branch-IsBuilt b.next_label_id frame block_stack condition then_label else_label
        (layout_of then_block frame) (layout_of else_block frame) b code p q room fits h
        (omega arith))
translate_terminator-IsBuilt (Terminator.return value) labels frame block_stack b h (code, room) =
    translate_return-IsBuilt b.next_label_id frame block_stack value b code room h (omega arith)
translate_terminator-IsBuilt Terminator.unreachable labels frame block_stack b h room =
    >>=-IsBuilt b.next_label_id (reshape (build_current block_stack frame.entry_layout) [] frame b)
      (λ shaped. ok (emit Opcode.invalid shaped))
      (reshape-IsBuilt b.next_label_id frame (build_current block_stack frame.entry_layout) [] b
        (omega (arith, room, length-build_current block_stack frame.entry_layout)) h (omega arith))
      (emit-IsBuilt b.next_label_id Opcode.invalid)
