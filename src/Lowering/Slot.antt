-- ===== src/Lowering/Slot.antt =====
-- codegen/src/lowering/mod.rs and codegen/src/codegen/instructions.rs: stack slots, and where a
-- function's slots lie in memory. A `StackSlot` is its number.
use merak.Prelude.{ℕ, ◌+◌, ◌*◌, ◌%◌, ◌^◌}

abbrev pub StackSlot : Type 0
StackSlot = ℕ

pub record StackState : Type 0 where
  pub frame_base : ℕ

-- `u64` arithmetic, as a release build wraps it.
unfoldable pub memory_offset_for_slot : StackState → StackSlot → ℕ
memory_offset_for_slot state slot = (state.frame_base + slot * 32 % 2 ^ 64) % 2 ^ 64
