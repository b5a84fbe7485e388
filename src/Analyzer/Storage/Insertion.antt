-- ===== src/Analyzer/Storage/Insertion.antt =====
-- analyzer/src/storage.rs: `insert_fold_unfold_instructions`. The vector of new instructions is the list
-- that each step answers; `none` is a panic.
pub mod Discipline
pub mod Blocks
pub mod Cleanup
pub mod Balance
use merak.Prelude.{
  Bool, true, false, ◌&&◌, ◌||◌, Option, none, some, List, [], ◌∷◌, ◌++◌, if◌then◌else◌, nat_eq,
}
use merak.Prelude.Map.{Map}
use merak.Prelude.Partial.{◌>>=◌}
use merak.Ast.Node.{SourceRef, unknown}
use merak.Ast.Contract.{Modifier, reentrant}
use merak.Symbols.Id.{SymbolId}
use merak.Symbols.Table.{SymbolTable}
use merak.Ir.Operand.{CallTarget, internal, external}
use merak.Ir.Terminator.{BlockId}
use merak.Ir.Ssa.{
  SsaInstruction, storage_load, storage_store, call, unfold_var, fold_var, SsaBlock, SsaCfg,
}
use merak.Analyzer.Resolve.Declare.{same_modifier}
use merak.Analyzer.Storage.{
  StorageLocation, StorageLocationSet, is_mutable, StorageState, StorageStateMap, is_unfolded,
  is_folded, unfold_loc, fold_loc, entry_state, get_reentrancy_modifier,
}
use merak.Analyzer.Storage.CallGraph.{CallGraphAnalysis, contains_external_calls}

abbrev pub Emitted : Type 0
Emitted = List SsaInstruction × StorageState

-- An unfold or a fold where a test says so.
abbrev pub unfold_when : Bool → SymbolId → SourceRef → StorageState → Emitted
unfold_when true var sr s = (unfold_var var sr ∷ [], unfold_loc var s)
unfold_when false var sr s = ([], s)

abbrev pub fold_when : Bool → SymbolId → SourceRef → StorageState → Emitted
fold_when true var sr s = (fold_var var sr ∷ [], fold_loc var s)
fold_when false var sr s = ([], s)

-- The loops around a call, over the mutable locations.
unfoldable pub unfold_mutable : Map SymbolId StorageLocation → SourceRef → StorageState → Emitted
unfold_mutable [] sr s = ([], s)
unfold_mutable ((var, location) ∷ locations) sr s =
    let (first, mid) = unfold_when (is_mutable location.mutability && is_folded var s) var sr s in
    let (rest, out) = unfold_mutable locations sr mid in (first ++ rest, out)

unfoldable pub fold_mutable : Map SymbolId StorageLocation → SourceRef → StorageState → Emitted
fold_mutable [] sr s = ([], s)
fold_mutable ((var, location) ∷ locations) sr s =
    let (first, mid) = fold_when (is_mutable location.mutability && is_unfolded var s) var sr s in
    let (rest, out) = fold_mutable locations sr mid in (first ++ rest, out)

unfoldable pub around_call :
    Map SymbolId StorageLocation → SsaInstruction → SourceRef → StorageState → Emitted
unfolding unfold_mutable fold_mutable
around_call locations inst sr s =
    let (before, mid) = unfold_mutable locations sr s in
    let (after, out) = fold_mutable locations sr mid in (before ++ inst ∷ after, out)

unfoldable pub needs_fold_unfold : CallTarget → SymbolTable → CallGraphAnalysis → Option Bool
needs_fold_unfold (external object method) t graph = some true
needs_fold_unfold (internal fn_id) t graph = do
  modifier ← get_reentrancy_modifier fn_id t
  some (same_modifier modifier reentrant || contains_external_calls fn_id graph)

unfoldable pub insert_at :
    StorageLocationSet
    → SymbolTable
    → CallGraphAnalysis
    → SsaInstruction
    → StorageState
    → Option Emitted
unfolding around_call needs_fold_unfold
insert_at set t graph (storage_load dest var sr) s =
    let (before, out) = unfold_when (is_folded var s) var sr s in
    some (before ++ storage_load dest var sr ∷ [], out)
insert_at set t graph (storage_store var value sr) s =
    let (before, mid) = unfold_when (is_folded var s) var sr s in
    some (before ++ storage_store var value sr ∷ fold_var var sr ∷ [], fold_loc var mid)
insert_at set t graph (call dest target args sr) s = do
  needed ← needs_fold_unfold target t graph
  some (
      if needed
      then around_call set.locations (call dest target args sr) sr s
      else (call dest target args sr ∷ [], s))
insert_at set t graph inst s = some (inst ∷ [], s)

unfoldable pub insert_all :
    StorageLocationSet
    → SymbolTable
    → CallGraphAnalysis
    → List SsaInstruction
    → StorageState
    → Option Emitted
unfolding insert_at
insert_all set t graph [] s = some ([], s)
insert_all set t graph (inst ∷ insts) s = do
  (first, mid) ← insert_at set t graph inst s
  (rest, out) ← insert_all set t graph insts mid
  some (first ++ rest, out)

-- The folds at the end of a block; the state is read and not written.
unfoldable pub cleanup : Map SymbolId StorageLocation → StorageState → List SsaInstruction
cleanup [] s = []
cleanup ((var, location) ∷ locations) s =
    let rest = cleanup locations s in
    if is_unfolded var s then fold_var var unknown ∷ rest else rest

unfoldable pub insert_in_block :
    StorageLocationSet
    → SymbolTable
    → CallGraphAnalysis
    → StorageState
    → List SsaInstruction
    → Option (List SsaInstruction)
unfolding insert_all cleanup
insert_in_block set t graph entry insts = do
  (new, out) ← insert_all set t graph insts entry
  some (new ++ cleanup set.locations out)

unfoldable pub insert_in_blocks :
    StorageLocationSet
    → SymbolTable
    → CallGraphAnalysis
    → StorageStateMap
    → List (BlockId × SsaBlock)
    → Option (List (BlockId × SsaBlock))
unfolding insert_in_block
insert_in_blocks set t graph states [] = some []
insert_in_blocks set t graph states ((id, block) ∷ blocks) = do
  insts ← insert_in_block set t graph (entry_state id states) block.instructions
  rest ← insert_in_blocks set t graph states blocks
  some ((id, record block { instructions = insts }) ∷ rest)

unfoldable pub insert_fold_unfold_instructions :
    SsaCfg → StorageStateMap → StorageLocationSet → SymbolTable → CallGraphAnalysis → Option SsaCfg
unfolding insert_in_blocks
insert_fold_unfold_instructions cfg states set t graph = do
  blocks ← insert_in_blocks set t graph states cfg.blocks
  some (record cfg { blocks = blocks })
