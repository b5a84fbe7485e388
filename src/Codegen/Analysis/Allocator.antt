-- ===== src/Codegen/Analysis/Allocator.antt =====
-- codegen/src/analysis/stack_allocator.rs: the greedy coloring and the layouts. A slot goes with its
-- interval, which the source looks up again by the slot. A `HashMap` is an association list, a `HashSet`
-- a list; `none` is that a search ran out of fuel, an index out of range or a missing key.
pub mod Coloring
use merak.Prelude.{
  ℕ, suc, zero, ◌+◌, ltb, ◌==◌, ◌&&◌, ◌||◌, if◌then◌else◌, Bool, true, false, Option, none, some,
  List, [], ◌∷◌, length, nat_eq,
}
use merak.Prelude.Map.{Map, get, insert}
use merak.Prelude.Partial.{◌>>=◌}
use merak.Ir.Terminator.{BlockId}
use merak.Lowering.Slot.{StackSlot}
use merak.Lowering.Instruction.{LoweredBlock, LoweredCfg}
use merak.Codegen.Analysis.Liveness.{LiveInterval, LivenessInfo, overlaps, contains_slot}

-- `MAX_STACK_REGS`
abbrev pub max_stack_regs : ℕ
max_stack_regs = 15

pub data SlotLocation : Type 0 where
  stack_pos : ℕ → SlotLocation
  memory : SlotLocation

pub record StackAllocation : Type 0 where
  pub assignment : Map StackSlot SlotLocation
  pub entry_layout : Map BlockId (List StackSlot)
  pub exit_layout : Map BlockId (List StackSlot)

-- The order of the keys `(start, slot)`.
abbrev pub comes_before : StackSlot × LiveInterval → StackSlot × LiveInterval → Bool
comes_before (s, i) (r, j) = ltb i.start j.start || i.start == j.start && ltb s r

unfoldable pub insert_by_start :
    StackSlot × LiveInterval → List (StackSlot × LiveInterval) → List (StackSlot × LiveInterval)
insert_by_start slot [] = slot ∷ []
insert_by_start slot (next ∷ slots) =
    let rest = insert_by_start slot slots in
    if comes_before next slot then next ∷ rest else slot ∷ next ∷ slots

-- `sort_by_key`
unfoldable pub sort_by_start : List (StackSlot × LiveInterval) → List (StackSlot × LiveInterval)
unfolding insert_by_start
sort_by_start [] = []
sort_by_start (slot ∷ slots) = insert_by_start slot (sort_by_start slots)

-- A slot with its interval and its color.
pub record Colored : Type 0 where
  pub slot : StackSlot
  pub interval : LiveInterval
  pub color : ℕ

-- The colors of the slots whose interval overlaps `iv`.
unfoldable pub used_colors : LiveInterval → List Colored → List ℕ
used_colors iv [] = []
used_colors iv (c ∷ colored) =
    let rest = used_colors iv colored in if overlaps c.interval iv then c.color ∷ rest else rest

-- `(0..).find(..)` from a number on
unfoldable pub lowest_free : ℕ → List ℕ → ℕ → Option ℕ
lowest_free zero used c = none
lowest_free (suc fuel) used c =
    let rest = lowest_free fuel used (suc c) in if contains_slot c used then rest else some c

-- The loop over the sorted slots.
unfoldable pub color_all : List (StackSlot × LiveInterval) → List Colored → Option (List Colored)
unfolding used_colors lowest_free
color_all [] colored = some colored
color_all ((slot, iv) ∷ slots) colored = do
  let used = used_colors iv colored
  c ← lowest_free (suc (length used)) used 0
  color_all slots (record { slot = slot; interval = iv; color = c } ∷ colored)

abbrev pub location_of : ℕ → SlotLocation
location_of c = if ltb c max_stack_regs then stack_pos (suc c) else memory

abbrev pub locations : List Colored → Map StackSlot SlotLocation
locations [] = []
locations (c ∷ colored) = (c.slot, location_of c.color) ∷ locations colored

unfoldable pub color_slots : Map StackSlot LiveInterval → Option (Map StackSlot SlotLocation)
unfolding sort_by_start color_all
color_slots intervals = do
  colored ← color_all (sort_by_start intervals) []
  some (locations colored)

unfoldable pub insert_by_position : ℕ × StackSlot → List (ℕ × StackSlot) → List (ℕ × StackSlot)
insert_by_position (pos, slot) [] = (pos, slot) ∷ []
insert_by_position (pos, slot) ((p, s) ∷ positioned) =
    let rest = insert_by_position (pos, slot) positioned in
    if ltb p pos then (p, s) ∷ rest else (pos, slot) ∷ (p, s) ∷ positioned

-- A slot that has a stack position, put in its place.
abbrev pub place : StackSlot → Option SlotLocation → List (ℕ × StackSlot) → List (ℕ × StackSlot)
place slot (some (stack_pos pos)) positioned = insert_by_position (pos, slot) positioned
place slot (some memory) positioned = positioned
place slot none positioned = positioned

unfoldable pub positioned_slots : List StackSlot → Map StackSlot SlotLocation → List (ℕ × StackSlot)
unfolding insert_by_position
positioned_slots [] assignment = []
positioned_slots (slot ∷ set) assignment =
    place slot (get slot assignment) (positioned_slots set assignment)

abbrev pub slots_of_positions : List (ℕ × StackSlot) → List StackSlot
slots_of_positions [] = []
slots_of_positions ((pos, slot) ∷ positioned) = slot ∷ slots_of_positions positioned

unfoldable pub stack_positioned_slots : List StackSlot → Map StackSlot SlotLocation → List StackSlot
unfolding positioned_slots
stack_positioned_slots set assignment = slots_of_positions (positioned_slots set assignment)

unfoldable pub derive_layouts_of :
    List (BlockId × LoweredBlock)
    → Map BlockId (List StackSlot)
    → Map StackSlot SlotLocation
    → Option (Map BlockId (List StackSlot))
unfolding stack_positioned_slots
derive_layouts_of [] live assignment = some []
derive_layouts_of ((block_id, block) ∷ blocks) live assignment = do
  set ← get block_id live
  rest ← derive_layouts_of blocks live assignment
  some ((block_id, stack_positioned_slots set assignment) ∷ rest)

-- `derive_layouts`, over the blocks of the function
unfoldable pub derive_layouts :
    LoweredCfg
    → Map BlockId (List StackSlot)
    → Map StackSlot SlotLocation
    → Option (Map BlockId (List StackSlot))
unfolding derive_layouts_of
derive_layouts cfg live assignment = derive_layouts_of cfg.blocks live assignment

unfoldable pub allocate : LoweredCfg → LivenessInfo → Option StackAllocation
unfolding color_slots derive_layouts
allocate cfg liveness = do
  assignment ← color_slots liveness.intervals
  entry_layout ← derive_layouts cfg liveness.live_in assignment
  exit_layout ← derive_layouts cfg liveness.live_out assignment
  some (record { assignment = assignment; entry_layout = entry_layout; exit_layout = exit_layout })
