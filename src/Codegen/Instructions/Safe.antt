-- ===== src/Codegen/Instructions/Safe.antt =====
-- codegen/src/codegen/instructions.rs: operands, constants and stores, which builders they answer.
use merak.Prelude.{
  ℕ, ◌+◌, ◌≤◌, ◌<◌, Bool-cases, ◌≡◌, refl, sym, inl, inr, arith, Option, none, some, Option-cases,
  List, [], ◌∷◌, ◌++◌, length, length-append, replicate, nat_eq, ◌==◌, if◌then◌else◌,
}
use mathlib.Core.Path.{subst}
use merak.Prelude.Map.{get}
use merak.Prelude.Outcome.{ok, ◌>>=◌}
use merak.Symbols.Id.{symbol_eq}
use merak.Ir.Operand.{Constant, location, constant}
use merak.Evm.Opcode.{Opcode}
use merak.Evm.Opcode.Select.{dup_for_position, swap_for_position}
use merak.Evm.Opcode.Ranges.{dup_for_position-byte, swap_for_position-byte, in_range-opcode}
use merak.Evm.Builder.{BytecodeBuilder, emit, to_be_bytes, push, push_u64, push_u256}
use merak.Evm.Builder.Push.{appended, push-appended, length-to_be_bytes}
use merak.Evm.Builder.WellFormed.{Built, emitted, pushed}
use merak.Lowering.Slot.{StackSlot, memory_offset_for_slot}
use merak.Lowering.Instruction.{LoweredOperand}
use merak.Codegen.Analysis.Allocator.{SlotLocation, stack_pos, memory}
use merak.Codegen.Instructions.{
  Emitting, Frame, Progress, index_of, emit_expected, emit_dup, emit_overwrite, i64_bits,
  push_constant, push_operand, store_in_memory, store_by, store_to_slot,
}

-- A builder comes out that the methods made, and which has at least `next` labels.
abbrev pub IsBuilt : ℕ → Emitting BytecodeBuilder → Type 0
IsBuilt next o = (b : BytecodeBuilder) × (o ≡ ok b) × Built b × (next ≤ b.next_label_id)

-- The same beside the stack slots of the block, to which at most one is added.
abbrev pub IsProgress : ℕ → List StackSlot → Emitting Progress → Type 0
IsProgress next block_stack o =
    (after : Progress) × (o ≡ ok after)
    × Built after.1
    × (next ≤ after.1.next_label_id)
    × (length after.0 ≤ length block_stack + 1)

module _ (next : ℕ) where
  pub >>=-IsBuilt :
      (first : Emitting BytecodeBuilder) (step : BytecodeBuilder → Emitting BytecodeBuilder)
      → IsBuilt next first
      → ((b : BytecodeBuilder) → Built b → next ≤ b.next_label_id → IsBuilt next (step b))
      → IsBuilt next (first >>= step)
  >>=-IsBuilt first step (b, e, h, l) k = subst (λ o. IsBuilt next (o >>= step)) (sym e) (k b h l)

  pub >>=-IsProgress :
      (block_stack : List StackSlot) (first : Emitting BytecodeBuilder)
      (step : BytecodeBuilder → Emitting Progress)
      → IsBuilt next first
      → ((b : BytecodeBuilder)
          → Built b
          → next ≤ b.next_label_id
          → IsProgress next block_stack (step b))
      → IsProgress next block_stack (first >>= step)
  >>=-IsProgress block_stack first step (b, e, h, l) k =
      subst (λ o. IsProgress next block_stack (o >>= step)) (sym e) (k b h l)

  pub emit-IsBuilt :
      (op : Opcode) (b : BytecodeBuilder)
      → Built b
      → next ≤ b.next_label_id
      → IsBuilt next (ok (emit op b))
  unfolding emit
  emit-IsBuilt op b h l = (emit op b, refl, emitted op h, l)

  pub push-IsBuilt :
      (value : List ℕ) (b : BytecodeBuilder)
      → length value ≤ 32
      → Built b
      → next ≤ b.next_label_id
      → IsBuilt next (push value b)
  push-IsBuilt value b short h l =
      let (operand, runs, _) = push-appended value b short in
      (appended b (0x5f + length operand) operand, runs, pushed value short runs h, l)

  pub push_u64-IsBuilt :
      (value : ℕ) (b : BytecodeBuilder)
      → Built b
      → next ≤ b.next_label_id
      → IsBuilt next (push_u64 value b)
  unfolding push_u64
  push_u64-IsBuilt value b h l =
      push-IsBuilt (to_be_bytes 8 value) b (omega (arith, length-to_be_bytes 8 value)) h l

  push_u64-emit :
      (value : ℕ) (op : Opcode) (b : BytecodeBuilder)
      → Built b
      → next ≤ b.next_label_id
      → IsBuilt next (push_u64 value b >>= λ pushed. ok (emit op pushed))
  push_u64-emit value op b h l =
      >>=-IsBuilt (push_u64 value b) (λ pushed. ok (emit op pushed)) (push_u64-IsBuilt value b h l)
        (emit-IsBuilt op)

  emit_dup-IsBuilt :
      (n : ℕ) (b : BytecodeBuilder)
      → 1 ≤ n
      → n ≤ 16
      → Built b
      → next ≤ b.next_label_id
      → IsBuilt next (emit_dup n b)
  unfolding emit_dup
  emit_dup-IsBuilt n b p q h l =
      let (op, found, at) =
        in_range-opcode (dup_for_position n) 0x7f 1 17 n (dup_for_position-byte n) p
          (omega (arith, q)) in
      subst (λ o. IsBuilt next (emit_expected o b)) (sym found) (emit-IsBuilt op b h l)

  emit_overwrite-IsBuilt :
      (n : ℕ) (b : BytecodeBuilder)
      → 1 ≤ n
      → n ≤ 16
      → Built b
      → next ≤ b.next_label_id
      → IsBuilt next (emit_overwrite n b)
  unfolding emit_overwrite
  emit_overwrite-IsBuilt n b p q h l =
      let (op, found, at) =
        in_range-opcode (swap_for_position n) 0x8f 1 17 n (swap_for_position-byte n) p
          (omega (arith, q)) in
      >>=-IsBuilt (emit_expected (swap_for_position n) b) (λ swapped. ok (emit Opcode.pop swapped))
        (subst (λ o. IsBuilt next (emit_expected o b)) (sym found) (emit-IsBuilt op b h l))
        (emit-IsBuilt Opcode.pop)

-- The constants and operands that have code.
abbrev pub HasCode : Constant → Type 0
HasCode (Constant.string text) = ⊥
HasCode (Constant.address addr) = length addr.bytes ≤ 32
HasCode c = Unit

abbrev pub CanPush : LoweredOperand → Type 0
CanPush (constant c) = HasCode c
CanPush (location slot) = Unit

index_of-lt :
    (slot : StackSlot) (slots : List StackSlot) (i : ℕ)
    → index_of slot slots ≡ some i
    → i < length slots
index_of-lt slot [] i e = absurd (cc)
index_of-lt slot (s ∷ slots) i e = elim (Bool-cases (s == slot)) [
  | inl here ↦ let first : 0 ≡ i = cc (rw here at e) in omega (arith, first)
  | inr there ↦ elim (Option-cases (index_of slot slots)) [
    | inl gone ↦ absurd (cc (rw (there, gone) at e))
    | inr (j, at) ↦
        let next : j + 1 ≡ i = cc (rw (there, at) at e) in
        omega (arith, next, index_of-lt slot slots j at)
  ]
]

module _ (next : ℕ) where
  pub push_constant-IsBuilt :
      (c : Constant) (b : BytecodeBuilder)
      → HasCode c
      → Built b
      → next ≤ b.next_label_id
      → IsBuilt next (push_constant c b)
  unfolding push_constant push_u256
  push_constant-IsBuilt (Constant.int value) b code h l =
      push-IsBuilt next (replicate 24 0 ++ to_be_bytes 8 (i64_bits value)) b
        (omega (
          arith,
          length-append (replicate 24 0) (to_be_bytes 8 (i64_bits value)),
          length-to_be_bytes 8 (i64_bits value),
        ))
        h l
  push_constant-IsBuilt (Constant.bool value) b code h l =
      push-IsBuilt next ((if value then 1 else 0) ∷ []) b (omega arith) h l
  push_constant-IsBuilt (Constant.address addr) b code h l = push-IsBuilt next addr.bytes b code h l
  push_constant-IsBuilt (Constant.string text) b code h l = absurd code

  module _ (frame : Frame) (block_stack : List StackSlot) where
    pub push_operand-IsBuilt :
        (operand : LoweredOperand) (extra : ℕ) (b : BytecodeBuilder)
        → CanPush operand
        → length block_stack + length frame.entry_layout + extra ≤ 16
        → Built b
        → next ≤ b.next_label_id
        → IsBuilt next (push_operand operand frame block_stack extra b)
    unfolding push_operand
    push_operand-IsBuilt (constant c) extra b code room h l = push_constant-IsBuilt c b code h l
    push_operand-IsBuilt (location slot) extra b code room h l =
        elim (Option-cases (index_of slot block_stack)) [
          | inr (i, at) ↦ rw at (
              emit_dup-IsBuilt next (i + 1 + extra) b (omega arith)
                (omega (arith, room, index_of-lt slot block_stack i at)) h l)
          | inl gone ↦ elim (Option-cases (index_of slot frame.entry_layout)) [
            | inr (i, at) ↦
                rw (gone, at)
                  (emit_dup-IsBuilt next (length block_stack + i + 1 + extra) b (omega arith)
                    (omega (arith, room, index_of-lt slot frame.entry_layout i at)) h l)
            | inl away ↦
                rw (gone, away)
                  (push_u64-emit next (memory_offset_for_slot frame.stack_state slot) Opcode.mload b
                    h l)
          ]
        ]

    pub keep_stack :
        (o : Emitting BytecodeBuilder)
        → IsBuilt next o
        → IsProgress next block_stack (o >>= λ done. ok (block_stack, done))
    keep_stack o built =
        >>=-IsProgress next block_stack o (λ done. ok (block_stack, done)) built
          (λ b h l. ((block_stack, b), refl, h, l, omega arith))

    pub store_to_slot-IsProgress :
        (dest : StackSlot) (b : BytecodeBuilder)
        → length block_stack + length frame.entry_layout ≤ 16
        → Built b
        → next ≤ b.next_label_id
        → IsProgress next block_stack (store_to_slot dest frame block_stack b)
    unfolding store_to_slot store_in_memory emit
    store_to_slot-IsProgress dest b room h l = by_place (get dest frame.allocation.assignment)
      where
        in_memory :
            IsProgress next block_stack (store_in_memory dest frame.stack_state block_stack b)
        in_memory =
            >>=-IsProgress next block_stack
              (push_u64 (memory_offset_for_slot frame.stack_state dest) b)
              (λ pushed. ok (block_stack, emit Opcode.mstore pushed))
              (push_u64-IsBuilt next (memory_offset_for_slot frame.stack_state dest) b h l)
              (λ c built more. (
                (block_stack, emit Opcode.mstore c),
                refl,
                emitted Opcode.mstore built,
                more,
                omega arith,
              ))

        by_place :
            (place : Option SlotLocation)
            → IsProgress next block_stack (store_by place dest frame block_stack b)
        by_place none = in_memory
        by_place (some memory) = in_memory
        by_place (some (stack_pos p)) = elim (Option-cases (index_of dest block_stack)) [
          | inr (d, at) ↦ rw at (
              keep_stack (emit_overwrite (d + 1) b) (
                emit_overwrite-IsBuilt next (d + 1) b (omega arith)
                  (omega (arith, room, index_of-lt dest block_stack d at)) h l))
          | inl gone ↦ elim (Option-cases (index_of dest frame.entry_layout)) [
            | inr (e, at) ↦
                rw (gone, at)
                  (keep_stack (emit_overwrite (length block_stack + e + 1) b) (
                    emit_overwrite-IsBuilt next (length block_stack + e + 1) b (omega arith)
                      (omega (arith, room, index_of-lt dest frame.entry_layout e at)) h l))
            | inl away ↦ rw (gone, away) ((dest ∷ block_stack, b), refl, h, l, omega arith)
          ]
        ]
