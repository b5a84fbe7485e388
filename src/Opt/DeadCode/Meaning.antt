-- ===== src/Opt/DeadCode/Meaning.antt =====
-- codegen/src/opt/lowered/dead_code.rs: a function before and after one round of the pass.
use mathlib.Core.Option
use mathlib.Core.Option.{some-injective}
use merak.Prelude.{
  ℕ, zero, suc, Bool, true, false, ◌≡◌, refl, ap, sym, Option, none, some, List, [], ◌∷◌, ◌++◌, map,
  ◌==◌, nat_eq, arith, All-left, All-right, Bool-cases, inl, inr,
}
use merak.Prelude.{==_iff}
use merak.Prelude.Map.{Map, get}
use merak.Ir.Operand.{location, constant}
use merak.Ir.Terminator.{BlockId, Terminator, jump, branch, return, unreachable}
use merak.Lowering.Slot.{StackSlot}
use merak.Lowering.Instruction.{
  LoweredOperand, LoweredInstruction, binary_op, unary_op, storage_load, storage_store, call,
  load_constant, copy, LoweredBlock, LoweredCfg, operands,
}
use merak.Lowering.Execution.{
  Machine, Ending, Step, ends, goto, write, read, execute, execute_all, run_from, run_block, leave,
}
use merak.Codegen.Shuffler.{contains}
use merak.Opt.DeadCode.{
  slots_of, operand_slots, instruction_slots, terminator_slots, block_slots, collect_used_slots,
  is_kept, retain, clean_block, clean_blocks, run,
}
use merak.Opt.DeadCode.Slots.{Within, Within-collect_used_slots}

-- `retain` in every block.
abbrev pub clean_all : List StackSlot → Map BlockId LoweredBlock → Map BlockId LoweredBlock
clean_all used [] = []
clean_all used ((id, b) ∷ blocks) = (id, clean_block used b) ∷ clean_all used blocks

pub clean_blocks-clean_all :
    (used : List StackSlot) (blocks : Map BlockId LoweredBlock) (flag : Bool)
    → (clean_blocks used blocks flag).0 ≡ clean_all used blocks
clean_blocks-clean_all used [] flag = refl
clean_blocks-clean_all used ((id, b) ∷ blocks) flag =
    ap (λ rest. (id, clean_block used b) ∷ rest) (clean_blocks-clean_all used blocks _)

get-clean_all :
    (used : List StackSlot) (blocks : Map BlockId LoweredBlock) (id : BlockId)
    → get id (clean_all used blocks) ≡ Option.map (clean_block used) (get id blocks)
unfolding get
get-clean_all used [] id = refl
get-clean_all used ((j, b) ∷ blocks) id = ground (arith, get-clean_all used blocks id)

-- Two register files hold the same in the slots of `used`.
abbrev pub Agree : {V : Type 0} → List StackSlot → (StackSlot → V) → (StackSlot → V) → Type 0
Agree used f g = (s : StackSlot) → contains used s ≡ true → f s ≡ g s

module _ {V W : Type 0} (m : Machine V W) (used : List StackSlot) where
  abbrev IsUsed : StackSlot → Type 0
  IsUsed s = contains used s ≡ true

  read-Agree :
      (x : LoweredOperand) (f g : StackSlot → V)
      → Within used (slots_of x)
      → Agree used f g
      → read m f x ≡ read m g x
  read-Agree (location s) f g (p, h) same = same s p
  read-Agree (constant c) f g h same = refl

  map-read-Agree :
      (xs : List LoweredOperand) (f g : StackSlot → V)
      → Within used (operand_slots xs)
      → Agree used f g
      → map (read m f) xs ≡ map (read m g) xs
  map-read-Agree [] f g h same = refl
  map-read-Agree (x ∷ xs) f g h same = cc (
    read-Agree x f g (All-left IsUsed (slots_of x) (operand_slots xs) h) same,
    map-read-Agree xs f g (All-right IsUsed (slots_of x) (operand_slots xs) h) same,
  )

  write-Agree :
      (t : StackSlot) (v u : V) (f g : StackSlot → V)
      → v ≡ u
      → Agree used f g
      → Agree used (write t v f) (write t u g)
  write-Agree t v u f g e same s h = ground (arith, same s h)

  unused-Agree :
      (t : StackSlot) (v : V) (f g : StackSlot → V)
      → contains used t ≡ false
      → Agree used f g
      → Agree used (write t v f) g
  unused-Agree t v f g h same s p = elim (Bool-cases (t == s)) [
    | inl e ↦ absurd (cc ((==_iff t s).0 e))
    | inr e ↦ rw e (same s p)
  ]

  -- Files that agree and the same world.
  abbrev SameState : (StackSlot → V) × W → (StackSlot → V) × W → Type 0
  SameState a b = Agree used (a.0) (b.0) × (a.1 ≡ b.1)

  execute-SameState :
      (inst : LoweredInstruction) (f g : StackSlot → V) (w : W)
      → Within used (operand_slots (operands inst))
      → Agree used f g
      → SameState (execute m inst f w) (execute m inst g w)
  execute-SameState (binary_op dest op l r) f g w h same =
      let left = read-Agree l f g (All-left IsUsed (slots_of l) (slots_of r ++ []) h) same in
      let right =
        map-read-Agree (r ∷ []) f g (All-right IsUsed (slots_of l) (slots_of r ++ []) h) same in
      (
        write-Agree dest (m.binary op (read m f l) (read m f r))
            (m.binary op (read m g l) (read m g r)) f g (cc) same,
        refl,
      )
  execute-SameState (unary_op dest op x) f g w h same =
      let values = map-read-Agree (x ∷ []) f g h same in
      (write-Agree dest (m.unary op (read m f x)) (m.unary op (read m g x)) f g (cc) same, refl)
  execute-SameState (storage_load dest slot) f g w h same =
      (write-Agree dest (m.load slot w) (m.load slot w) f g refl same, refl)
  execute-SameState (storage_store slot x) f g w h same =
      let values = map-read-Agree (x ∷ []) f g h same in (same, cc)
  execute-SameState (call none target args) f g w h same =
      (same, ap (λ vs. (m.invoke target vs w).1) (map-read-Agree args f g h same))
  execute-SameState (call (some dest) target args) f g w h same =
      let values = map-read-Agree args f g h same in
      (
        write-Agree dest ((m.invoke target (map (read m f) args) w).0)
            ((m.invoke target (map (read m g) args) w).0) f g (cc) same,
        ap (λ vs. (m.invoke target vs w).1) values,
      )
  execute-SameState (load_constant dest c) f g w h same =
      (write-Agree dest (m.value_of c) (m.value_of c) f g refl same, refl)
  execute-SameState (copy dest x) f g w h same =
      let values = map-read-Agree (x ∷ []) f g h same in
      (write-Agree dest (read m f x) (read m g x) f g (cc) same, refl)

  -- A dropped instruction writes a slot outside `used` and leaves the world alone.
  execute-dropped :
      (inst : LoweredInstruction) (f g : StackSlot → V) (w : W)
      → is_kept used inst ≡ false
      → Agree used f g
      → SameState (execute m inst f w) (g, w)
  execute-dropped (binary_op dest op l r) f g w h same =
      (unused-Agree dest (m.binary op (read m f l) (read m f r)) f g h same, refl)
  execute-dropped (unary_op dest op x) f g w h same =
      (unused-Agree dest (m.unary op (read m f x)) f g h same, refl)
  execute-dropped (storage_load dest slot) f g w h same =
      (unused-Agree dest (m.load slot w) f g h same, refl)
  execute-dropped (storage_store slot x) f g w h same = absurd cc
  execute-dropped (call dest target args) f g w h same = absurd cc
  execute-dropped (load_constant dest c) f g w h same =
      (unused-Agree dest (m.value_of c) f g h same, refl)
  execute-dropped (copy dest x) f g w h same = (unused-Agree dest (read m f x) f g h same, refl)

  execute_all-retain :
      (insts : List LoweredInstruction) (f g : StackSlot → V) (w u : W)
      → Within used (instruction_slots insts)
      → Agree used f g
      → w ≡ u
      → SameState (execute_all m insts f w) (execute_all m (retain used insts) g u)
  execute_all-retain [] f g w u h same e = (same, e)
  execute_all-retain (inst ∷ insts) f g w u h same e =
      let first = All-left IsUsed (operand_slots (operands inst)) (instruction_slots insts) h in
      let rest = All-right IsUsed (operand_slots (operands inst)) (instruction_slots insts) h in
      rw (sym e) (elim (Bool-cases (is_kept used inst)) [
        | inl kept ↦
            let (files, worlds) = execute-SameState inst f g w first same in
            rw kept (
              execute_all-retain insts ((execute m inst f w).0) ((execute m inst g w).0)
                ((execute m inst f w).1) ((execute m inst g w).1) rest files worlds)
        | inr dropped ↦
            let (files, worlds) = execute-dropped inst f g w dropped same in
            rw dropped (
              execute_all-retain insts ((execute m inst f w).0) g ((execute m inst f w).1) w rest
                files worlds)
      ])

  -- The same ending, or the same next block from files that agree and the same world.
  abbrev SameStep : Step V W → Step V W → Type 0
  SameStep (ends a) (ends b) = a ≡ b
  SameStep (goto i f w) (goto j g u) = (i ≡ j) × (Agree used f g × (w ≡ u))
  SameStep a b = ⊥

  leave-SameStep :
      (t : Terminator LoweredOperand) (f g : StackSlot → V) (w u : W)
      → Within used (terminator_slots t)
      → Agree used f g
      → w ≡ u
      → SameStep (leave m t f w) (leave m t g u)
  leave-SameStep (jump target) f g w u h same e = (refl, (same, e))
  leave-SameStep (branch condition then_block else_block) f g w u h same e =
      (rw (read-Agree condition f g h same) refl, (same, e))
  leave-SameStep (return none) f g w u h same e = cc
  leave-SameStep (return (some x)) f g w u h same e = cc (read-Agree x f g h same)
  leave-SameStep unreachable f g w u h same e = refl

  run_block-SameStep :
      (b : Option LoweredBlock) (f g : StackSlot → V) (w : W)
      → ((c : LoweredBlock) → b ≡ some c → Within used (block_slots c))
      → Agree used f g
      → SameStep (run_block m b f w) (run_block m (Option.map (clean_block used) b) g w)
  run_block-SameStep none f g w h same = refl
  run_block-SameStep (some b) f g w h same =
      let slots = h b refl in
      let insts = b.instructions in
      let (files, worlds) =
        execute_all-retain insts f g w w
          (All-left IsUsed (instruction_slots insts) (terminator_slots b.terminator) slots) same
          refl in
      leave-SameStep b.terminator ((execute_all m insts f w).0)
        ((execute_all m (retain used insts) g w).0) ((execute_all m insts f w).1)
        ((execute_all m (retain used insts) g w).1)
        (All-right IsUsed (instruction_slots insts) (terminator_slots b.terminator) slots) files
        worlds

module _ {V W : Type 0} (m : Machine V W) (used : List StackSlot) where
  -- The two runs go on alike after steps that are the same.
  continue-SameStep :
      (go after : BlockId → (StackSlot → V) → W → Ending V W)
      → ((i : BlockId) (f g : StackSlot → V) (w : W) → Agree used f g → after i g w ≡ go i f w)
      → (a b : Step V W) → SameStep m used a b
      → elim b [ ends e ↦ e | goto i file w ↦ after i file w ]
        ≡ elim a [ ends e ↦ e | goto i file w ↦ go i file w ]
  continue-SameStep go after same (ends a) (ends b) h = sym h
  continue-SameStep go after same (ends a) (goto j g u) h = elim h [ ]
  continue-SameStep go after same (goto i f w) (ends b) h = elim h [ ]
  continue-SameStep go after same (goto i f w) (goto j g u) (e, (files, worlds)) =
      rw (e, worlds) (same j f g u files)

run_from-clean_all :
    {V W : Type 0} (m : Machine V W) (blocks : Map BlockId LoweredBlock) (fuel : ℕ) (id : BlockId)
    (f g : StackSlot → V) (w : W)
    → Agree (collect_used_slots blocks) f g
    → run_from m (clean_all (collect_used_slots blocks) blocks) fuel id g w
      ≡ run_from m blocks fuel id f w
unfolding run_from
run_from-clean_all m blocks zero id f g w same = refl
run_from-clean_all m blocks (suc fuel) id f g w same =
    let used = collect_used_slots blocks in
    rw (get-clean_all used blocks id, run_from)
      (continue-SameStep m used (run_from m blocks fuel) (run_from m (clean_all used blocks) fuel)
        (λ i f' g' w' h. run_from-clean_all m blocks fuel i f' g' w' h)
        (run_block m (get id blocks) f w)
        (run_block m (Option.map (clean_block used) (get id blocks)) g w)
        (run_block-SameStep m used (get id blocks) f g w (Within-collect_used_slots blocks id)
          same))

-- A function does the same after dead instructions are dropped: from every register file and world, and
-- for every bound on the blocks it runs, it returns the same value and leaves the same world, is
-- stuck, or reaches the bound, as before.
pub run_from-run :
    {V W : Type 0} (m : Machine V W) (cfg : LoweredCfg) (fuel : ℕ) (file : StackSlot → V) (w : W)
    → run_from m (run cfg).0.blocks fuel (run cfg).0.entry file w
      ≡ run_from m cfg.blocks fuel cfg.entry file w
run_from-run m cfg fuel file w =
    rw (clean_blocks-clean_all (collect_used_slots cfg.blocks) cfg.blocks false)
      (run_from-clean_all m cfg.blocks fuel cfg.entry file file w (λ s h. refl))
