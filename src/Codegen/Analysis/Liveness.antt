-- ===== src/Codegen/Analysis/Liveness.antt =====
-- codegen/src/analysis/liveness.rs. A `HashMap` is an association list; a `HashSet` is a list, in which
-- a slot may stand more than once.
pub mod Exposed
use merak.Prelude.{
  ℕ, ◌+◌, ◌==◌, ◌&&◌, leb, ltb, if◌then◌else◌, Bool, true, false, not, Option, none, some, List, [],
  ◌∷◌, ◌++◌, length, nat_eq,
}
use merak.Prelude.Map.{Map, get, insert}
use merak.Ir.Operand.{Operand, location, constant}
use merak.Ir.Terminator.{BlockId, Terminator, jump, branch, return, unreachable}
use merak.Lowering.Slot.{StackSlot}
use merak.Lowering.Instruction.{
  LoweredOperand, LoweredInstruction, LoweredBlock, destination, operands,
}

pub record LiveInterval : Type 0 where
  pub start : ℕ
  pub end : ℕ

pub record LivenessInfo : Type 0 where
  pub live_in : Map BlockId (List StackSlot)
  pub live_out : Map BlockId (List StackSlot)
  pub intervals : Map StackSlot LiveInterval

abbrev pub overlaps : LiveInterval → LiveInterval → Bool
overlaps a b = leb a.start b.end && leb b.start a.end

-- `slot_of_operand`
abbrev pub slot_of_operand : LoweredOperand → Option StackSlot
slot_of_operand (location slot) = some slot
slot_of_operand (constant c) = none

abbrev pub optional_slot : Option StackSlot → List StackSlot
optional_slot none = []
optional_slot (some slot) = slot ∷ []

abbrev pub terminator_uses : Terminator LoweredOperand → List StackSlot
terminator_uses (branch condition then_block else_block) = optional_slot (slot_of_operand condition)
terminator_uses (return (some v)) = optional_slot (slot_of_operand v)
terminator_uses (return none) = []
terminator_uses (jump target) = []
terminator_uses unreachable = []

abbrev pub contains_slot : StackSlot → List StackSlot → Bool
contains_slot slot [] = false
contains_slot slot (s ∷ set) = if s == slot then true else contains_slot slot set

abbrev pub GenKill : Type 0
GenKill = List StackSlot × List StackSlot

-- A slot that is read, and was not written before.
abbrev pub read_slot : StackSlot → GenKill → GenKill
read_slot slot (gen, kill) = if contains_slot slot kill then (gen, kill) else (slot ∷ gen, kill)

abbrev pub read_operand : LoweredOperand → GenKill → GenKill
read_operand (location slot) sets = read_slot slot sets
read_operand (constant c) sets = sets

unfoldable pub read_operands : List LoweredOperand → GenKill → GenKill
read_operands [] sets = sets
read_operands (op ∷ ops) sets = read_operands ops (read_operand op sets)

abbrev pub write_slot : Option StackSlot → GenKill → GenKill
write_slot none sets = sets
write_slot (some dest) (gen, kill) = (gen, dest ∷ kill)

unfoldable pub gen_kill_instructions : List LoweredInstruction → GenKill → GenKill
unfolding read_operands
gen_kill_instructions [] sets = sets
gen_kill_instructions (inst ∷ insts) sets =
    gen_kill_instructions insts (write_slot (destination inst) (read_operands (operands inst) sets))

unfoldable pub read_slots : List StackSlot → GenKill → GenKill
read_slots [] sets = sets
read_slots (slot ∷ slots) sets = read_slots slots (read_slot slot sets)

unfoldable pub compute_gen_kill : LoweredBlock → GenKill
unfolding gen_kill_instructions read_slots
compute_gen_kill block =
    read_slots (terminator_uses block.terminator)
      (gen_kill_instructions block.instructions ([], []))

-- An interval, or none yet, with one more index.
abbrev pub extended : ℕ → Option LiveInterval → LiveInterval
extended idx none = record { start = idx; end = idx }
extended idx (some iv) = record {
  start = if ltb idx iv.start then idx else iv.start;
  end = if ltb iv.end idx then idx else iv.end;
}

unfoldable pub extend_interval :
    StackSlot → ℕ → Map StackSlot LiveInterval → Map StackSlot LiveInterval
extend_interval slot idx intervals = insert slot (extended idx (get slot intervals)) intervals

unfoldable pub extend_all :
    List StackSlot → ℕ → Map StackSlot LiveInterval → Map StackSlot LiveInterval
unfolding extend_interval
extend_all [] idx intervals = intervals
extend_all (slot ∷ slots) idx intervals = extend_all slots idx (extend_interval slot idx intervals)
