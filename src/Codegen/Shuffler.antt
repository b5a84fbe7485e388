-- ===== src/Codegen/Shuffler.antt =====
-- codegen/src/codegen/stack_shuffler.rs: plans of DUP, SWAP, POP, MLOAD and MSTORE that turn one
-- stack layout into another, and their bytecode. A layout is a list, the top of the stack first.
pub mod Machine
pub mod Rotation
pub mod Fetch
pub mod Correct
pub mod Emission
use merak.Prelude.{
  ℕ, zero, suc, ◌+◌, ◌-◌, ◌*◌, ◌%◌, ◌^◌, Bool, true, false, ◌&&◌, Option, none, some, List, [], ◌∷◌,
  ◌++◌, length, get_or, ◌==◌, if◌then◌else◌,
}
use merak.Prelude.Outcome.{Outcome, ok, panic, ◌>>=◌}
use merak.Evm.Opcode.{swap1, mload, mstore}
use merak.Evm.Opcode.{pop as pop_op}
use merak.Evm.Opcode.Select.{dup_for_position, swap_for_position}
use merak.Evm.Builder.{BytecodeBuilder, CodegenError, emit, push_u64}
use merak.Lowering.Slot.{StackSlot, StackState, memory_offset_for_slot}

pub data ShuffleOp : Type 0 where
  dup swap : ℕ → ShuffleOp
  pop : ShuffleOp
  mload_slot mstore_slot : StackSlot → ShuffleOp

abbrev pub contains : List StackSlot → StackSlot → Bool
contains [] slot = false
contains (s ∷ slots) slot = if s == slot then true else contains slots slot

-- `ShuffleOp::gas_cost`; the set of warm slots is a list.
unfoldable pub gas_cost : List StackSlot → ShuffleOp → ℕ
gas_cost warm (dup n) = 3
gas_cost warm (swap n) = 3
gas_cost warm pop = 2
gas_cost warm (mload_slot slot) = if contains warm slot then 6 else 21
gas_cost warm (mstore_slot slot) = if contains warm slot then 6 else 21

unfoldable pub shuffle_cost : List ShuffleOp → List StackSlot → ℕ
unfolding gas_cost
shuffle_cost [] warm = 0
shuffle_cost (op ∷ ops) warm = gas_cost warm op + shuffle_cost ops warm

unfoldable pub emit_drain : ℕ → BytecodeBuilder → BytecodeBuilder
emit_drain zero builder = builder
emit_drain (suc n) builder = emit_drain n (emit pop_op builder)

unfoldable pub emit_drain_except_tos : ℕ → BytecodeBuilder → BytecodeBuilder
emit_drain_except_tos zero builder = builder
emit_drain_except_tos (suc n) builder = emit_drain_except_tos n (emit pop_op (emit swap1 builder))

-- `*c == Some(*t)`
abbrev pub holds_slot : Option StackSlot → StackSlot → Bool
holds_slot none t = false
holds_slot (some s) t = s == t

-- The test of the fast path: equal lengths and equal slots.
unfoldable pub already_correct : List (Option StackSlot) → List StackSlot → Bool
already_correct [] [] = true
already_correct [] (t ∷ target) = false
already_correct (c ∷ current) [] = false
already_correct (c ∷ current) (t ∷ target) = holds_slot c t && already_correct current target

-- `sim.iter().position(|s| *s == Some(t))`, counted from `at`
unfoldable pub position_from : ℕ → List (Option StackSlot) → StackSlot → Option ℕ
position_from at [] t = none
position_from at (s ∷ sim) t = if holds_slot s t then some at else position_from (at + 1) sim t

unfoldable pub fetch : List (Option StackSlot) → StackSlot → ShuffleOp
fetch sim t = elim (position_from 0 sim t) [ some pos ↦ dup (pos + 1) | none ↦ mload_slot t ]

-- `target[(j + n - rotation) % n]`; the index is below `n`, so the default is never read.
unfoldable pub rotated_target : List StackSlot → ℕ → ℕ → StackSlot
rotated_target target rotation j = let n = length target in get_or target ((j + n - rotation) % n) 0

-- The loop over `j` from `count - 1` down to 0, with the simulated stack.
unfoldable pub fetch_all : List StackSlot → ℕ → ℕ → List (Option StackSlot) → List ShuffleOp
fetch_all target rotation zero sim = []
fetch_all target rotation (suc j) sim =
    let t = rotated_target target rotation j in
    fetch sim t ∷ fetch_all target rotation j (some t ∷ sim)

unfoldable pub swap_pops : ℕ → ℕ → List ShuffleOp
swap_pops n zero = []
swap_pops n (suc m) = swap n ∷ pop ∷ swap_pops n m

unfoldable pub pops : ℕ → List ShuffleOp
pops zero = []
pops (suc m) = pop ∷ pops m

unfoldable pub plan_shuffle :
    List (Option StackSlot) → List StackSlot → List StackSlot → List ShuffleOp
unfolding already_correct fetch_all fetch position_from rotated_target swap_pops pops
plan_shuffle current target warm =
    let m = length current in
    let n = length target in
    if already_correct current target
    then []
    else if n == 0
    then pops m
    else fetch_all target (m % n) n current ++ swap_pops n m

-- One arm of `emit_shuffle`: a DUP with no opcode is passed over, a SWAP with none panics.
unfoldable pub emit_op :
    StackState → ShuffleOp → BytecodeBuilder → Outcome CodegenError BytecodeBuilder
emit_op state (dup n) builder = elim (dup_for_position n) [
  | some opcode ↦ ok (emit opcode builder)
  | none ↦ ok builder
]
emit_op state (swap n) builder = elim (swap_for_position n) [
  | some opcode ↦ ok (emit opcode builder)
  | none ↦ panic
]
emit_op state pop builder = ok (emit pop_op builder)
emit_op state (mload_slot slot) builder = do
  pushed ← push_u64 (memory_offset_for_slot state slot) builder
  ok (emit mload pushed)
emit_op state (mstore_slot slot) builder = do
  pushed ← push_u64 (memory_offset_for_slot state slot) builder
  ok (emit mstore pushed)

unfoldable pub emit_shuffle :
    StackState → List ShuffleOp → BytecodeBuilder → Outcome CodegenError BytecodeBuilder
emit_shuffle state [] builder = ok builder
emit_shuffle state (op ∷ ops) builder = do
  emitted ← emit_op state op builder
  emit_shuffle state ops emitted
