-- ===== src/Evm/Builder.antt =====
-- codegen/src/evm/bytecode.rs: the bytecode under construction, its labels and pending jumps.
-- A method that changes the builder returns the new one. A `Label` is its number, a byte a number.
pub mod Push
pub mod WellFormed
pub mod Finalize
use mathlib.Core.Option.{get_or}
use merak.Prelude.{
  ℕ, zero, suc, ◌+◌, ◌-◌, ◌/◌, ◌%◌, ◌^◌, String, Bool, ◌&&◌, Option, none, some, List, [], ◌∷◌,
  ◌++◌, map, length, set, ltb, leb, ◌==◌, if◌then◌else◌, nat_eq,
}
use merak.Prelude.Map.{Map, get, insert}
use merak.Prelude.Outcome.{Outcome, ok, err, panic, ◌>>=◌}
use merak.Evm.Opcode.{Opcode, encode, push1, push2, jump, jumpi}
use merak.Evm.Opcode.Select.{push_for_size}

abbrev pub Label : Type 0
Label = ℕ

pub record PendingJump : Type 0 where
  pub position : ℕ
  pub target : Label
  pub size : ℕ

pub record BytecodeBuilder : Type 0 where
  pub code : List ℕ
  pub labels : Map Label ℕ
  pub pending_jumps : List PendingJump
  pub next_label_id : ℕ
  pub stack_depth : ℕ
  pub runtime_start : Option ℕ

pub data CodegenError : Type 0 where
  verification_only : CodegenError
  unresolved_label : Label → CodegenError
  unsupported_jump_size : ℕ → CodegenError
  stack_overflow stack_underflow : CodegenError
  invalid_instruction other : String → CodegenError

abbrev pub empty : BytecodeBuilder
empty = record {
  code = [];
  labels = [];
  pending_jumps = [];
  next_label_id = 0;
  stack_depth = 0;
  runtime_start = none;
}

unfoldable pub mark_runtime_start : BytecodeBuilder → BytecodeBuilder
mark_runtime_start b = record b { runtime_start = some (length b.code) }

unfoldable pub position : BytecodeBuilder → ℕ
position b = length b.code

unfoldable pub new_label : BytecodeBuilder → Label × BytecodeBuilder
new_label b = (b.next_label_id, record b { next_label_id = b.next_label_id + 1 })

unfoldable pub mark_label : Label → BytecodeBuilder → BytecodeBuilder
mark_label label b = record b { labels = insert label (length b.code) b.labels }

-- `emit_bytes`, and `code.push` and `code.extend_from_slice` elsewhere
unfoldable pub emit_bytes : List ℕ → BytecodeBuilder → BytecodeBuilder
emit_bytes bytes b = record b { code = b.code ++ bytes }

unfoldable pub emit : Opcode → BytecodeBuilder → BytecodeBuilder
unfolding emit_bytes
emit opcode b = emit_bytes (encode opcode ∷ []) b

-- The first index that does not hold a zero byte is where the slice starts.
unfoldable pub trim_leading_zeros : List ℕ → List ℕ
trim_leading_zeros [] = []
trim_leading_zeros (byte ∷ bytes) = if byte == 0 then trim_leading_zeros bytes else byte ∷ bytes

push_trimmed : List ℕ → BytecodeBuilder → Outcome CodegenError BytecodeBuilder
push_trimmed [] b = ok (emit_bytes (0 ∷ []) (emit push1 b))
push_trimmed (byte ∷ bytes) b = elim (push_for_size (length (byte ∷ bytes))) [
  | some push_op ↦ ok (emit_bytes (byte ∷ bytes) (emit push_op b))
  | none ↦ panic
]

unfoldable pub push : List ℕ → BytecodeBuilder → Outcome CodegenError BytecodeBuilder
unfolding push_trimmed
push value b = push_trimmed (trim_leading_zeros value) b

-- The `n` low bytes of a number, the highest first.
unfoldable pub to_be_bytes : ℕ → ℕ → List ℕ
to_be_bytes zero value = []
to_be_bytes (suc n) value = value / 256 ^ n % 256 ∷ to_be_bytes n value

unfoldable pub push_u64 : ℕ → BytecodeBuilder → Outcome CodegenError BytecodeBuilder
push_u64 value b = push (to_be_bytes 8 value) b

unfoldable pub push_u256 : List ℕ → BytecodeBuilder → Outcome CodegenError BytecodeBuilder
push_u256 bytes b = push bytes b

unfoldable pub push_label : Label → BytecodeBuilder → BytecodeBuilder
unfolding emit emit_bytes
push_label label b =
    let placed = emit_bytes (0xff ∷ []) (emit_bytes (0xff ∷ []) (emit push2 b)) in
    record placed {
      pending_jumps =
          placed.pending_jumps
          ++ record { position = length b.code + 1; target = label; size = 2 } ∷ [];
    }

unfoldable pub jump_to : Label → BytecodeBuilder → BytecodeBuilder
unfolding push_label
jump_to label b = emit jump (push_label label b)

unfoldable pub jumpi_to : Label → BytecodeBuilder → BytecodeBuilder
unfolding push_label
jumpi_to label b = emit jumpi (push_label label b)

-- The address that is written: relative to the runtime section if both ends lie in it.
unfoldable pub effective_target : Option ℕ → ℕ → ℕ → ℕ
effective_target none position target_pos = target_pos
effective_target (some rs) position target_pos =
    if leb rs position && leb rs target_pos then target_pos - rs else target_pos

-- `(target as u16).to_be_bytes()`
abbrev pub high_byte : ℕ → ℕ
high_byte target = target % 65536 / 256

abbrev pub low_byte : ℕ → ℕ
low_byte target = target % 65536 % 256

-- The two writes at `position`; an index out of range panics.
write_address : ℕ → ℕ → List ℕ → Outcome CodegenError (List ℕ)
write_address position target code =
    if ltb (position + 1) (length code)
    then ok (set (set code position (high_byte target)) (position + 1) (low_byte target))
    else panic

-- One round of the loop of `finalize`.
patch_jump : BytecodeBuilder → PendingJump → List ℕ → Outcome CodegenError (List ℕ)
patch_jump b pending code = elim (get pending.target b.labels) [
  | none ↦ err (unresolved_label pending.target)
  | some target_pos ↦
      if pending.size == 2
      then write_address pending.position
          (effective_target b.runtime_start pending.position target_pos) code
      else err (unsupported_jump_size pending.size)
]

patch_jumps : BytecodeBuilder → List PendingJump → List ℕ → Outcome CodegenError (List ℕ)
patch_jumps b [] code = ok code
patch_jumps b (pending ∷ rest) code = do code' ← patch_jump b pending code; patch_jumps b rest code'

unfoldable pub finalize : BytecodeBuilder → Outcome CodegenError (List ℕ)
unfolding patch_jumps patch_jump write_address
finalize b = patch_jumps b b.pending_jumps b.code
