-- ===== src/Opt/DeadCode/FixedPoint.antt =====
-- codegen/src/opt/lowered/dead_code.rs in the pipeline of codegen/src/lib.rs: its rounds and its result.
use merak.Prelude.{
  ℕ, zero, suc, ◌+◌, ◌≤◌, ◌<◌, Bool, true, false, ◌≡◌, refl, ap, ◌∙◌, some, List, [], ◌∷◌, ◌==◌,
  if◌then◌else◌, length, not, arith, All, Bool-cases, ==_iff, inl, inr,
}
use merak.Prelude.Map.{Map}
use merak.Ir.Terminator.{BlockId}
use merak.Lowering.Slot.{StackSlot}
use merak.Lowering.Instruction.{LoweredInstruction, LoweredBlock, LoweredCfg}
use merak.Lowering.Execution.{Machine, run_from}
use merak.Opt.Pipeline.{run_to_fixed_point}
use merak.Opt.DeadCode.{
  collect_used_slots, is_kept, retain, clean_blocks, run, dead_instruction_elimination,
}
use merak.Opt.DeadCode.Meaning.{clean_all, clean_blocks-clean_all, run_from-run}

abbrev pub IsKept : List StackSlot → LoweredInstruction → Type 0
IsKept used inst = is_kept used inst ≡ true

-- Every instruction of every block has side effects, or no destination, or one in `used`.
abbrev pub AllKept : List StackSlot → Map BlockId LoweredBlock → Type 0
AllKept used [] = Unit
AllKept used ((id, b) ∷ blocks) = All (IsKept used) b.instructions × AllKept used blocks

-- The number of instructions of all blocks.
abbrev pub count : Map BlockId LoweredBlock → ℕ
count [] = 0
count ((id, b) ∷ blocks) = length b.instructions + count blocks

module _ (used : List StackSlot) where
  length-retain : (insts : List LoweredInstruction) → length (retain used insts) ≤ length insts
  length-retain [] = omega arith
  length-retain (inst ∷ insts) = ground (arith, length-retain insts)

  retain-length :
      (insts : List LoweredInstruction)
      → length (retain used insts) ≡ length insts
      → All (IsKept used) insts × (retain used insts ≡ insts)
  retain-length [] h = (tt, refl)
  retain-length (inst ∷ insts) h = elim (Bool-cases (is_kept used inst)) [
    | inl kept ↦
        let (all, same) = retain-length insts (ground arith) in
        ((kept, all), rw kept (ap (λ xs. inst ∷ xs) same))
    | inr dropped ↦ absurd (ground (arith, length-retain insts))
  ]

  count-clean_all :
      (blocks : Map BlockId LoweredBlock) → count (clean_all used blocks) ≤ count blocks
  count-clean_all [] = omega arith
  count-clean_all ((id, b) ∷ blocks) =
      omega (arith, count-clean_all blocks, length-retain b.instructions)

  -- The test of the flag, as the loop computes it.
  abbrev flag_after : LoweredBlock → Bool → Bool
  flag_after b flag =
      if not (length (retain used b.instructions) == length b.instructions) then true else flag

  clean_blocks-flagged :
      (blocks : Map BlockId LoweredBlock) (flag : Bool)
      → flag ≡ true
      → (clean_blocks used blocks flag).1 ≡ true
  clean_blocks-flagged [] flag h = h
  clean_blocks-flagged ((id, b) ∷ blocks) flag h =
      clean_blocks-flagged blocks (flag_after b flag) (ground arith)

  clean_blocks-changed :
      (blocks : Map BlockId LoweredBlock) (flag : Bool)
      → (clean_blocks used blocks flag).1 ≡ true
      → flag ≡ false
      → count (clean_all used blocks) < count blocks
  clean_blocks-changed [] flag h q = absurd (cc)
  clean_blocks-changed ((id, b) ∷ blocks) flag h q =
      elim (Bool-cases (length (retain used b.instructions) == length b.instructions)) [
        | inl e ↦ omega (
          arith,
          clean_blocks-changed blocks (flag_after b flag) h (ground arith),
          length-retain b.instructions,
        )
        | inr e ↦
            let differ : length (retain used b.instructions) < length b.instructions =
              ground (arith, length-retain b.instructions) in
            omega (arith, count-clean_all blocks, differ)
      ]

  clean_blocks-unchanged :
      (blocks : Map BlockId LoweredBlock) (flag : Bool)
      → (clean_blocks used blocks flag).1 ≡ false
      → AllKept used blocks × (clean_all used blocks ≡ blocks)
  clean_blocks-unchanged [] flag h = (tt, refl)
  clean_blocks-unchanged ((id, b) ∷ blocks) flag h =
      elim (Bool-cases (length (retain used b.instructions) == length b.instructions)) [
        | inl e ↦
            let (kept, same) =
              retain-length b.instructions
                ((==_iff (length (retain used b.instructions)) (length b.instructions)).0 e) in
            let (all, rest) = clean_blocks-unchanged blocks (flag_after b flag) h in
            ((kept, all), cc)
        | inr e ↦ absurd (cc (clean_blocks-flagged blocks (flag_after b flag) (ground arith)))
      ]

-- What the pipeline promises of its result.
abbrev pub IsCleaned : LoweredCfg → LoweredCfg → Type 1
IsCleaned cfg out =
    AllKept (collect_used_slots out.blocks) out.blocks
    × ((V W : Type 0) (m : Machine V W) (fuel : ℕ) (file : StackSlot → V) (w : W)
        → run_from m out.blocks fuel out.entry file w ≡ run_from m cfg.blocks fuel cfg.entry file w)

run-unchanged : (cfg : LoweredCfg) → (run cfg).1 ≡ false → IsCleaned cfg ((run cfg).0)
run-unchanged cfg h =
    let used = collect_used_slots cfg.blocks in
    let (kept, same) = clean_blocks-unchanged used cfg.blocks false h in
    let blocks_eq = clean_blocks-clean_all used cfg.blocks false ∙ same in
    (rw blocks_eq kept, λ V W m fuel file w. run_from-run m cfg fuel file w)

run_to_fixed_point-below :
    (fuel : ℕ) (cfg : LoweredCfg)
    → count cfg.blocks < fuel
    → (out : LoweredCfg) × (run_to_fixed_point fuel (dead_instruction_elimination ∷ []) cfg
        ≡ some out)
      × IsCleaned cfg out
unfolding run_to_fixed_point
run_to_fixed_point-below zero cfg h = absurd (omega arith)
run_to_fixed_point-below (suc fuel) cfg h = elim (Bool-cases ((run cfg).1)) [
  | inl changed ↦
      let used = collect_used_slots cfg.blocks in
      let fewer : count ((run cfg).0.blocks) < count cfg.blocks =
        rw (clean_blocks-clean_all used cfg.blocks false)
          (clean_blocks-changed used cfg.blocks false changed refl) in
      let (out, runs, (kept, same)) =
        run_to_fixed_point-below fuel ((run cfg).0) (omega (arith, fewer, h)) in
      (
        out,
        rw changed runs,
        (kept, λ V W m n file w. same V W m n file w ∙ run_from-run m cfg n file w),
      )
  | inr unchanged ↦ ((run cfg).0, rw unchanged refl, run-unchanged cfg unchanged)
]

-- With a bound of one round more than the function has instructions the pipeline of dead instruction
-- elimination reaches its fixed point. In the function that it leaves every instruction has side
-- effects, no destination, or a destination that the function reads, and every run of it, for every
-- bound on the blocks, ends as the run of the function given.
pub run_to_fixed_point-dead_instruction_elimination :
    (cfg : LoweredCfg)
    → (out : LoweredCfg) × (run_to_fixed_point
          (suc (count cfg.blocks))
          (dead_instruction_elimination ∷ [])
          cfg
        ≡ some out)
      × IsCleaned cfg out
run_to_fixed_point-dead_instruction_elimination cfg =
    run_to_fixed_point-below (suc (count cfg.blocks)) cfg (omega arith)
