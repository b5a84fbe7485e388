-- ===== src/Analyzer/Storage/Insertion/Balance.antt =====
-- analyzer/src/storage.rs: what `insert_fold_unfold_instructions` makes of a block, for the locations of a
-- contract.
use merak.Prelude.{
  Bool, true, false, not, Bool-cases, ◌≡◌, refl, sym, ap, ◌∙◌, inl, inr, arith, if◌then◌else◌, some,
  List, [], ◌∷◌, ◌++◌, append-nil, All, nat_eq,
}
use mathlib.Core.Path.{subst}
use mathlib.Core.Option.{some-injective}
use merak.Prelude.Map.{get}
use merak.Prelude.Partial.{◌>>=◌, >>=-eq-some}
use merak.Ast.Node.{SourceRef}
use merak.Symbols.Id.{SymbolId, same_id, same_id_refl, symbol_eq}
use merak.Symbols.Table.{SymbolTable}
use merak.Ir.Terminator.{BlockId}
use merak.Ir.Ssa.{
  SsaInstruction, copy, phi, binary_op, unary_op, storage_load, storage_store, call, unfold_var,
  fold_var, assert, SsaBlock, SsaCfg, SsaContract,
}
use merak.Analyzer.Storage.{
  StorageLocation, StorageLocationSet, from_contract, StorageState, StorageStateMap, entry_state,
  is_unfolded, is_folded, unfold_loc,
}
use merak.Analyzer.Storage.CallGraph.{CallGraphAnalysis}
use merak.Analyzer.Storage.Insertion.{
  insert_all, cleanup, insert_in_block, insert_in_blocks, insert_fold_unfold_instructions,
}
use merak.Analyzer.Storage.Insertion.Discipline.{
  monitor_step, monitor, erase_folds, IsPlain, Disciplined, IsRun-join, contains_id-fold_loc,
  contains_id-unfold_loc,
}
use merak.Analyzer.Storage.Insertion.Blocks.{insert_all-Emits, erase_folds-join}
use merak.Analyzer.Storage.Insertion.Cleanup.{
  HasDistinctKeys, AgreeOn, AllFoldedAt, cleanup-Disciplined, cleanup-AllFoldedAt,
  erase_folds-cleanup, from_contract-HasDistinctKeys,
}

monitor-append :
    (xs ys : List SsaInstruction) (s : StorageState)
    → monitor (xs ++ ys) s ≡ monitor ys (monitor xs s)
monitor-append [] ys s = refl
monitor-append (x ∷ xs) ys s = monitor-append xs ys (monitor_step x s)

-- The instructions that a block gets: in the discipline from the entry of the block on, the old ones when
-- the folds are left out, and with every location folded at the end.
abbrev pub IsBalanced :
    StorageLocationSet
    → SymbolTable
    → CallGraphAnalysis
    → StorageState
    → List SsaInstruction
    → List SsaInstruction
    → Type 0
IsBalanced set t graph entry insts new =
    Disciplined set t graph new entry
    × (erase_folds new ≡ insts)
    × AllFoldedAt set.locations (monitor new entry)

abbrev pub with_instructions : List SsaInstruction → SsaBlock → SsaBlock
with_instructions insts block = record block { instructions = insts }

module _ (set : StorageLocationSet) (t : SymbolTable) (graph : CallGraphAnalysis)
    (distinct : HasDistinctKeys set.locations) where
  insert_in_block-IsBalanced :
      (entry : StorageState) (insts new : List SsaInstruction)
      → All IsPlain insts
      → insert_in_block set t graph entry insts ≡ some new
      → IsBalanced set t graph entry insts new
  unfolding insert_in_block
  insert_in_block-IsBalanced entry insts new plain done =
      let ((first, out), all, last) =
        >>=-eq-some (insert_all set t graph insts entry)
          (λ (first, out). some (first ++ cleanup set.locations out)) done in
      let ((d, e), erased) = insert_all-Emits set t graph insts entry (first, out) plain all in
      let agree : AgreeOn set.locations out out = λ w x at. refl in
      let folds : List SsaInstruction = cleanup set.locations out in
      let (run, ends) =
        IsRun-join set t graph entry out (monitor folds out) first folds (d, e)
          (cleanup-Disciplined set t graph set.locations out out distinct agree, refl) in
      let same : erase_folds (first ++ folds) ≡ insts =
        erase_folds-join first folds insts [] erased (erase_folds-cleanup set.locations out)
        ∙ append-nil insts in
      let folded : AllFoldedAt set.locations (monitor (first ++ folds) entry) =
        subst (AllFoldedAt set.locations) (sym ends)
          (cleanup-AllFoldedAt set.locations out out distinct agree) in
      subst (IsBalanced set t graph entry insts) (some-injective (first ++ folds) new last)
        (run, same, folded)

  insert_in_blocks-IsBalanced :
      (states : StorageStateMap) (blocks out : List (BlockId × SsaBlock)) (id : BlockId)
      (block : SsaBlock)
      → get id blocks ≡ some block
      → All IsPlain block.instructions
      → insert_in_blocks set t graph states blocks ≡ some out
      → (new : List SsaInstruction) × (get id out ≡ some (with_instructions new block))
        × IsBalanced set t graph (entry_state id states) block.instructions new
  unfolding insert_in_blocks get
  insert_in_blocks-IsBalanced states [] out id block there plain done = absurd (cc)
  insert_in_blocks-IsBalanced states ((j, b) ∷ blocks) out id block there plain done =
      let (insts, first, more) =
        >>=-eq-some (insert_in_block set t graph (entry_state j states) b.instructions)
          (λ insts. insert_in_blocks set t graph states blocks >>= λ rest.
            some ((j, record b { instructions = insts }) ∷ rest))
          done in
      let (rest, others, last) =
        >>=-eq-some (insert_in_blocks set t graph states blocks)
          (λ rest. some ((j, record b { instructions = insts }) ∷ rest)) more in
      let all : List (BlockId × SsaBlock) = (j, record b { instructions = insts }) ∷ rest in
      let is_out : all ≡ out = some-injective all out last in
      elim (Bool-cases (nat_eq.same j id)) [
        | inl here ↦
            let eb : b ≡ block = some-injective b block (ground (arith, there, here)) in
            let ej : j ≡ id = (nat_eq.same_iff j id).0 here in
            (
              insts,
              ap (get id) (sym is_out) ∙ rw here (ap (λ c. some (with_instructions insts c)) eb),
              insert_in_block-IsBalanced (entry_state id states) block.instructions insts plain (
                  ap (λ k. insert_in_block set t graph (entry_state k states) block.instructions)
                    (sym ej)
                  ∙ ap (λ c. insert_in_block set t graph (entry_state j states) c.instructions)
                      (sym eb)
                  ∙ first),
            )
        | inr away ↦
            let (new, at, balanced) =
              insert_in_blocks-IsBalanced states blocks rest id block (ground (arith, there, away))
                plain others in
            (new, ap (get id) (sym is_out) ∙ rw away at, balanced)
      ]

insert_in_block_of :
    (contract : SsaContract) (t : SymbolTable) (set : StorageLocationSet)
    (graph : CallGraphAnalysis) (states : StorageStateMap) (cfg out : SsaCfg) (id : BlockId)
    (block : SsaBlock)
    → from_contract contract t ≡ some set
    → get id cfg.blocks ≡ some block
    → All IsPlain block.instructions
    → insert_fold_unfold_instructions cfg states set t graph ≡ some out
    → (new : List SsaInstruction) × (get id out.blocks ≡ some (with_instructions new block))
      × IsBalanced set t graph (entry_state id states) block.instructions new
unfolding insert_fold_unfold_instructions
insert_in_block_of contract t set graph states cfg out id block locations there plain done =
    let (blocks, inner, last) =
      >>=-eq-some (insert_in_blocks set t graph states cfg.blocks)
        (λ blocks. some (record cfg { blocks = blocks })) done in
    let (new, at, balanced) =
      insert_in_blocks-IsBalanced set t graph
        (from_contract-HasDistinctKeys contract t set locations) states cfg.blocks blocks id block
        there plain inner in
    (
      new,
      ap (λ c. get id c.blocks) (sym (some-injective (record cfg { blocks = blocks }) out last))
          ∙ at,
      balanced,
    )

-- For the locations of a contract, where the blocks have no folds and unfolds yet and the instructions are
-- inserted without a panic: each block keeps everything but its instructions; when folds and unfolds are left
-- out, the new instructions are the old ones in their order; from the state at the entry of the block, they
-- unfold a variable only where it is folded and fold it only where it is unfolded, load and store it only
-- where it is unfolded, and call what is external, declared reentrant or calls externally only where every
-- mutable variable is unfolded; and at the end of the block a variable of the contract is folded.
pub insert_fold_unfold_instructions-Disciplined :
    (contract : SsaContract) (t : SymbolTable) (set : StorageLocationSet)
    (graph : CallGraphAnalysis) (states : StorageStateMap) (cfg out : SsaCfg) (id : BlockId)
    (block : SsaBlock) (v : SymbolId) (x : StorageLocation)
    → from_contract contract t ≡ some set
    → get id cfg.blocks ≡ some block
    → All IsPlain block.instructions
    → insert_fold_unfold_instructions cfg states set t graph ≡ some out
    → get v set.locations ≡ some x
    → (new : List SsaInstruction) × (get id out.blocks ≡ some (with_instructions new block))
      × (erase_folds new ≡ block.instructions)
      × Disciplined set t graph new (entry_state id states)
      × (is_folded v (monitor new (entry_state id states)) ≡ true)
insert_fold_unfold_instructions-Disciplined contract t set graph states cfg out id block v x
      locations there plain done is_location =
    let (new, at, (run, same, folded)) =
      insert_in_block_of contract t set graph states cfg out id block locations there plain done in
    (new, at, same, run, ap not (folded v x is_location))

abbrev pub is_fold_of : SymbolId → SsaInstruction → Bool
is_fold_of v (fold_var w sr) = same_id w v
is_fold_of v inst = false

-- Whether a list folds a variable.
abbrev pub folds : SymbolId → List SsaInstruction → Bool
folds v [] = false
folds v (inst ∷ insts) = let rest = folds v insts in if is_fold_of v inst then true else rest

monitor_step-keeps :
    (v : SymbolId) (inst : SsaInstruction) (s : StorageState)
    → is_fold_of v inst ≡ false
    → is_unfolded v s ≡ true
    → is_unfolded v (monitor_step inst s) ≡ true
monitor_step-keeps v (copy d a r) s other h = h
monitor_step-keeps v (phi d vs) s other h = h
monitor_step-keeps v (binary_op d o a b r) s other h = h
monitor_step-keeps v (unary_op d o a r) s other h = h
monitor_step-keeps v (storage_load d w r) s other h = h
monitor_step-keeps v (storage_store w a r) s other h = h
monitor_step-keeps v (call d target args r) s other h = h
monitor_step-keeps v (unfold_var w r) s other h = contains_id-unfold_loc v w s ∙ ground (arith, h)
monitor_step-keeps v (fold_var w r) s other h = contains_id-fold_loc v w s ∙ rw (other, h) refl
monitor_step-keeps v (assert c k r) s other h = h

folds-from :
    (v : SymbolId) (insts : List SsaInstruction) (s : StorageState)
    → is_unfolded v s ≡ true
    → is_unfolded v (monitor insts s) ≡ false
    → folds v insts ≡ true
folds-from v [] s there gone = absurd (cc)
folds-from v (inst ∷ insts) s there gone = elim (Bool-cases (is_fold_of v inst)) [
  | inl here ↦ rw here refl
  | inr other ↦
      rw other
        (folds-from v insts (monitor_step inst s) (monitor_step-keeps v inst s other there) gone)
]

-- For the locations of a contract, where the blocks have no folds and unfolds yet and the instructions are
-- inserted without a panic: a variable of the contract that a block unfolds is folded later in the same block.
pub insert_fold_unfold_instructions-folds :
    (contract : SsaContract) (t : SymbolTable) (set : StorageLocationSet)
    (graph : CallGraphAnalysis) (states : StorageStateMap) (cfg out : SsaCfg) (id : BlockId)
    (block after : SsaBlock) (v : SymbolId) (x : StorageLocation) (sr : SourceRef)
    (before later : List SsaInstruction)
    → from_contract contract t ≡ some set
    → get id cfg.blocks ≡ some block
    → All IsPlain block.instructions
    → insert_fold_unfold_instructions cfg states set t graph ≡ some out
    → get id out.blocks ≡ some after
    → after.instructions ≡ before ++ unfold_var v sr ∷ later
    → get v set.locations ≡ some x
    → folds v later ≡ true
insert_fold_unfold_instructions-folds contract t set graph states cfg out id block after v x sr
      before later locations there plain done found split is_location =
    let (new, at, (run, same, folded)) =
      insert_in_block_of contract t set graph states cfg out id block locations there plain done in
    let e : with_instructions new block ≡ after =
      some-injective (with_instructions new block) after (sym at ∙ found) in
    let is_new : new ≡ before ++ unfold_var v sr ∷ later = ap (λ b. b.instructions) e ∙ split in
    let s : StorageState = monitor before (entry_state id states) in
    let ends : is_unfolded v (monitor later (unfold_loc v s)) ≡ false =
      ap (is_unfolded v) (
        sym (
          ap (λ is. monitor is (entry_state id states)) is_new
          ∙ monitor-append before (unfold_var v sr ∷ later) (entry_state id states)))
      ∙ folded v x is_location in
    folds-from v later (unfold_loc v s)
      (contains_id-unfold_loc v v s
        ∙ ap (λ b. if b then true else is_unfolded v s) (same_id_refl v))
      ends
