-- ===== src/Codegen/Analysis/Liveness/Exposed.antt =====
-- codegen/src/analysis/liveness.rs: what a block reads before it writes.
use merak.Prelude.{
  ◌==◌, ==_iff, ◌&&◌, ◌||◌, not, if◌then◌else◌, Bool, true, false, Bool-cases, ◌≡◌, refl, sym, ap,
  ◌∙◌, inl, inr, arith, Option, none, some, List, [], ◌∷◌,
}
use mathlib.Core.Bool.{false≢true}
use merak.Ir.Operand.{location, constant}
use merak.Lowering.Slot.{StackSlot}
use merak.Lowering.Instruction.{
  LoweredOperand, LoweredInstruction, LoweredBlock, destination, operands,
}
use merak.Codegen.Analysis.Liveness.{
  GenKill, contains_slot, read_slot, read_operands, write_slot, gen_kill_instructions, read_slots,
  terminator_uses, compute_gen_kill,
}

abbrev pub reads : StackSlot → List LoweredOperand → Bool
reads slot [] = false
reads slot (location s ∷ ops) = s == slot || reads slot ops
reads slot (constant c ∷ ops) = reads slot ops

abbrev pub writes : StackSlot → Option StackSlot → Bool
writes slot none = false
writes slot (some dest) = dest == slot

-- The slot is read by some instruction or by the end, and by no earlier instruction written.
abbrev pub is_exposed : StackSlot → List LoweredInstruction → List StackSlot → Bool
is_exposed slot [] uses = contains_slot slot uses
is_exposed slot (inst ∷ insts) uses =
    reads slot (operands inst) || not (writes slot (destination inst)) && is_exposed slot insts uses

-- What a walk over reads does to the two sets.
abbrev Gathers : StackSlot → Bool → GenKill → GenKill → Type 0
Gathers slot read before after =
    (contains_slot slot (after.1) ≡ contains_slot slot (before.1))
    × (contains_slot slot (after.0)
        ≡ (contains_slot slot (before.0) || not (contains_slot slot (before.1)) && read))

or_none : (g k : Bool) → g ≡ (g || not k && false)
or_none true k = refl
or_none false true = refl
or_none false false = refl

or_join : (g k r q : Bool) → ((g || not k && r) || not k && q) ≡ (g || not k && (r || q))
or_join true k r q = refl
or_join false true r q = refl
or_join false false r q = refl

-- Reads, and then what is exposed later.
Reads-then :
    (slot : StackSlot) (r q : Bool) (a b : GenKill)
    → Gathers slot r a b
    → (contains_slot slot (b.0) || not (contains_slot slot (b.1)) && q)
      ≡ (contains_slot slot (a.0) || not (contains_slot slot (a.1)) && (r || q))
Reads-then slot r q a b (kill, gen) =
    ap (λ x. x || not (contains_slot slot (b.1)) && q) gen
    ∙ (ap (λ k. (contains_slot slot (a.0) || not (contains_slot slot (a.1)) && r) || not k && q)
          kill
        ∙ or_join (contains_slot slot (a.0)) (contains_slot slot (a.1)) r q)

Gathers-then :
    (slot : StackSlot) (r q : Bool) (a b c : GenKill)
    → Gathers slot r a b
    → Gathers slot q b c
    → Gathers slot (r || q) a c
Gathers-then slot r q a b c (kill₁, gen₁) (kill₂, gen₂) =
    (kill₂ ∙ kill₁, gen₂ ∙ Reads-then slot r q a b (kill₁, gen₁))

-- A read of what is written is skipped, and another is added.
skip_read : (g k r : Bool) → (r ≡ true → k ≡ true) → g ≡ (g || not k && r)
skip_read true k r h = refl
skip_read false true r h = refl
skip_read false false false h = refl
skip_read false false true h = absurd (false≢true (h refl))

add_read : (g k r : Bool) → (r ≡ true → k ≡ false) → (if r then true else g) ≡ (g || not k && r)
add_read true k true h = refl
add_read true k false h = refl
add_read false k false h = or_none false k
add_read false false true h = refl
add_read false true true h = absurd (false≢true (sym (h refl)))

read_slot-Gathers :
    (slot s : StackSlot) (gen kill : List StackSlot)
    → Gathers slot (s == slot) (gen, kill) (read_slot s (gen, kill))
read_slot-Gathers slot s gen kill =
    let same : s == slot ≡ true → contains_slot slot kill ≡ contains_slot s kill =
      λ h. ap (λ x. contains_slot x kill) (sym ((==_iff s slot).0 h)) in
    elim (Bool-cases (contains_slot s kill)) [
      | inl taken ↦ rw taken (
        refl,
        skip_read (contains_slot slot gen) (contains_slot slot kill) (s == slot)
            (λ h. same h ∙ taken),
      )
      | inr free ↦ rw free (
        refl,
        add_read (contains_slot slot gen) (contains_slot slot kill) (s == slot)
            (λ h. same h ∙ free),
      )
    ]

read_operands-Gathers :
    (slot : StackSlot) (ops : List LoweredOperand) (sets : GenKill)
    → Gathers slot (reads slot ops) sets (read_operands ops sets)
unfolding read_operands
read_operands-Gathers slot [] sets =
    (refl, or_none (contains_slot slot (sets.0)) (contains_slot slot (sets.1)))
read_operands-Gathers slot (location s ∷ ops) (gen, kill) =
    Gathers-then slot (s == slot) (reads slot ops) (gen, kill) (read_slot s (gen, kill))
      (read_operands ops (read_slot s (gen, kill))) (read_slot-Gathers slot s gen kill)
      (read_operands-Gathers slot ops (read_slot s (gen, kill)))
read_operands-Gathers slot (constant c ∷ ops) sets = read_operands-Gathers slot ops sets

or_contains :
    (slot s : StackSlot) (slots : List StackSlot)
    → contains_slot slot (s ∷ slots) ≡ (s == slot || contains_slot slot slots)
or_contains slot s slots = ground arith

read_slots-Gathers :
    (slot : StackSlot) (slots : List StackSlot) (sets : GenKill)
    → Gathers slot (contains_slot slot slots) sets (read_slots slots sets)
unfolding read_slots
read_slots-Gathers slot [] sets =
    (refl, or_none (contains_slot slot (sets.0)) (contains_slot slot (sets.1)))
read_slots-Gathers slot (s ∷ slots) (gen, kill) = rw (or_contains slot s slots) (
    Gathers-then slot (s == slot) (contains_slot slot slots) (gen, kill) (read_slot s (gen, kill))
      (read_slots slots (read_slot s (gen, kill))) (read_slot-Gathers slot s gen kill)
      (read_slots-Gathers slot slots (read_slot s (gen, kill))))

or_write : (g k w q : Bool) → (g || not (if w then true else k) && q) ≡ (g || not k && (not w && q))
or_write true k w q = refl
or_write false true true q = refl
or_write false true false q = refl
or_write false false true q = refl
or_write false false false q = refl

-- A write, and then reads that count only where the slot was not written.
write-Gathers :
    (slot : StackSlot) (dest : Option StackSlot) (gen kill : List StackSlot) (read : Bool)
    → (contains_slot slot ((write_slot dest (gen, kill)).0)
        || not (contains_slot slot ((write_slot dest (gen, kill)).1)) && read)
      ≡ (contains_slot slot gen
          || not (contains_slot slot kill) && (not (writes slot dest) && read))
write-Gathers slot none gen kill read = refl
write-Gathers slot (some dest) gen kill read =
    or_write (contains_slot slot gen) (contains_slot slot kill) (dest == slot) read

instructions-Exposed :
    (slot : StackSlot) (insts : List LoweredInstruction) (uses : List StackSlot) (sets : GenKill)
    → contains_slot slot ((read_slots uses (gen_kill_instructions insts sets)).0) ≡ (
        contains_slot slot (sets.0)
        || not (contains_slot slot (sets.1)) && is_exposed slot insts uses)
unfolding gen_kill_instructions
instructions-Exposed slot [] uses sets = (read_slots-Gathers slot uses sets).1
instructions-Exposed slot (inst ∷ insts) uses sets =
    let mid = read_operands (operands inst) sets in
    let after = write_slot (destination inst) mid in
    let later = is_exposed slot insts uses in
    let (kill, gen) = read_operands-Gathers slot (operands inst) sets in
    instructions-Exposed slot insts uses after
    ∙ (write-Gathers slot (destination inst) (mid.0) (mid.1) later
        ∙ Reads-then slot (reads slot (operands inst))
            (not (writes slot (destination inst)) && later) sets mid (kill, gen))

-- A slot stands in the gen set of a block where and only where it is exposed: some instruction or the end
-- of the block reads it, and no instruction before that one writes it.
pub compute_gen_kill-is_exposed :
    (slot : StackSlot) (block : LoweredBlock)
    → contains_slot slot ((compute_gen_kill block).0)
      ≡ is_exposed slot block.instructions (terminator_uses block.terminator)
unfolding compute_gen_kill
compute_gen_kill-is_exposed slot block =
    instructions-Exposed slot block.instructions (terminator_uses block.terminator) ([], [])
