-- ===== src/Tests/Analysis.antt =====
-- codegen/src/analysis/ at concrete inputs: the three slots of the source's tests, and a small function.
use merak.Prelude.{ℕ, ◌≡◌, refl, true, some, none, List, [], ◌∷◌, All}
use merak.Prelude.Int.{pos}
use merak.Prelude.Outcome.{ok}
use merak.Prelude.Map.{Map, get, insert}
use merak.Symbols.Id.{named}
use merak.Ir.Operand.{int, location}
use merak.Ir.Terminator.{return}
use merak.Lowering.Slot.{StackSlot}
use merak.Lowering.Instruction.{load_constant, copy, LoweredBlock, LoweredCfg}
use merak.Codegen.Analysis.StackDepth.{
  StackDepthInfo, analyze_stack_depth, analyze_blocks, entry_depth, compute_block_peak_depth,
  instructions_peak,
}
use merak.Codegen.Analysis.Liveness.{
  LiveInterval, contains_slot, compute_gen_kill, gen_kill_instructions, read_operands, read_slots,
}
use merak.Codegen.Analysis.Liveness.Exposed.{is_exposed, compute_gen_kill-is_exposed}
use merak.Codegen.Analysis.Allocator.{
  stack_pos, Colored, locations, color_slots, sort_by_start, insert_by_start, color_all,
  used_colors, lowest_free, stack_positioned_slots, positioned_slots, insert_by_position,
}
use merak.Codegen.Analysis.Allocator.Coloring.{HasColor, Allocated, color_slots-Allocated}

abbrev block : LoweredBlock
block = record {
  id = 0;
  instructions = load_constant 0 (int (pos 1)) ∷ copy 1 (location 2) ∷ [];
  terminator = return (some (location 0));
  predecessors = [];
  successors = [];
  loop_invariants = none;
  loop_variants = none;
}

abbrev cfg : LoweredCfg
cfg = record {
  name = "test";
  function_id = named "test" 0;
  blocks = (0, block) ∷ [];
  entry = 0;
  register_map = [];
  storage_layout = record { slots = []; next_slot = 0 };
  register_types = [];
  parameters = [];
  frame_base = 0x80;
  is_external = true;
}

-- Slot 2 is read and not written before; slots 0 and 1 are written.
block_gen_kill : compute_gen_kill block ≡ (2 ∷ [], 1 ∷ 0 ∷ [])
unfolding compute_gen_kill gen_kill_instructions read_operands read_slots
block_gen_kill = refl

abbrev layouts : Map ℕ (List StackSlot)
layouts = (0, 2 ∷ []) ∷ []

abbrev info : StackDepthInfo
info = record { block_entry_depth = (0, 2) ∷ []; max_depth = 5 }

cfg_depth : analyze_stack_depth cfg layouts ≡ ok info
unfolding analyze_stack_depth analyze_blocks entry_depth compute_block_peak_depth instructions_peak
    get insert
cfg_depth = refl

-- A and B do not overlap, and both overlap with C.
abbrev three_slots : Map StackSlot LiveInterval
three_slots =
    (0, record { start = 0; end = 5 })
    ∷ (1, record { start = 6; end = 10 })
    ∷ (2, record { start = 0; end = 10 })
    ∷ []

three_slots_two_colors :
    color_slots three_slots ≡ some ((1, stack_pos 1) ∷ (2, stack_pos 2) ∷ (0, stack_pos 1) ∷ [])
unfolding color_slots sort_by_start insert_by_start color_all used_colors lowest_free
three_slots_two_colors = refl

color_slots-Allocated_example :
    (colored : List Colored) × (color_slots three_slots ≡ some (locations colored))
    × All (HasColor colored) three_slots
    × Allocated colored
color_slots-Allocated_example = color_slots-Allocated three_slots

layout_sorted :
    stack_positioned_slots
      (0 ∷ 1 ∷ 2 ∷ [])
      ((0, stack_pos 3) ∷ (1, stack_pos 1) ∷ (2, stack_pos 2) ∷ [])
    ≡ 1 ∷ 2 ∷ 0 ∷ []
unfolding stack_positioned_slots positioned_slots insert_by_position get
layout_sorted = refl

compute_gen_kill-is_exposed_example :
    contains_slot 2 ((compute_gen_kill block).0) ≡ is_exposed 2 block.instructions (0 ∷ [])
compute_gen_kill-is_exposed_example = compute_gen_kill-is_exposed 2 block
