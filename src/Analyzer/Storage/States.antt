-- ===== src/Analyzer/Storage/States.antt =====
-- analyzer/src/storage.rs: `compute_storage_states`, the worklist over the blocks. The stack of blocks is a
-- list with its top first; the loop is on fuel, and `none` is that the fuel ran out or a block is missing.
pub mod Folded
use merak.Prelude.{
  ℕ, zero, suc, ◌+◌, Bool, true, false, Option, none, some, List, [], ◌∷◌, length, if◌then◌else◌,
  nat_eq,
}
use merak.Prelude.Map.{Map, get}
use merak.Prelude.Partial.{◌>>=◌}
use merak.Symbols.Id.{SymbolId}
use merak.Ir.Operand.{CallTarget, internal, external}
use merak.Ir.Terminator.{BlockId}
use merak.Ir.Ssa.{SsaInstruction, storage_load, storage_store, call, SsaBlock, SsaCfg}
use merak.Analyzer.Storage.{
  StorageState, StorageStateMap, folded_state, unfold_loc, fold_loc, fold_all, merge, new_state_map,
  exit_state, set_entry_state, update_exit_state,
}
use merak.Analyzer.Storage.Work.{edge_count}
use merak.Analyzer.Storage.CallGraph.{CallGraphAnalysis, contains_external_calls}

-- The arm of `apply_transfer_function` for a call.
abbrev pub transfer_call : CallTarget → CallGraphAnalysis → StorageState → StorageState
transfer_call (external object method) graph s = fold_all s
transfer_call (internal fn_id) graph s =
    if contains_external_calls fn_id graph then fold_all s else s

abbrev pub transfer_instruction : SsaInstruction → CallGraphAnalysis → StorageState → StorageState
transfer_instruction (storage_load dest var sr) graph s = unfold_loc var s
transfer_instruction (storage_store var value sr) graph s = fold_loc var s
transfer_instruction (call dest target args sr) graph s = transfer_call target graph s
transfer_instruction inst graph s = s

unfoldable pub apply_transfer_function :
    List SsaInstruction → CallGraphAnalysis → StorageState → StorageState
apply_transfer_function [] graph s = s
apply_transfer_function (inst ∷ insts) graph s =
    apply_transfer_function insts graph (transfer_instruction inst graph s)

-- The state at the entry of a block, from the exits of its predecessors.
unfoldable pub merge_exits : List BlockId → StorageStateMap → StorageState → StorageState
merge_exits [] states s = s
merge_exits (p ∷ ps) states s = merge_exits ps states (merge s (exit_state p states))

-- `worklist.extend`, on a stack with its top first
unfoldable pub push_all : List BlockId → List BlockId → List BlockId
push_all [] stack = stack
push_all (b ∷ bs) stack = push_all bs (b ∷ stack)

-- Every block starts and ends folded.
unfoldable pub initial_states : List (BlockId × SsaBlock) → StorageStateMap → StorageStateMap
initial_states [] states = states
initial_states ((id, block) ∷ blocks) states =
    initial_states blocks
      ((update_exit_state id folded_state (set_entry_state id folded_state states)).1)

-- One round: the states after, and the stack.
unfoldable pub visit_block :
    CallGraphAnalysis
    → BlockId
    → SsaBlock
    → List BlockId
    → StorageStateMap
    → StorageStateMap × List BlockId
unfolding merge_exits apply_transfer_function push_all
visit_block graph id block rest states =
    let entry = merge_exits block.predecessors states folded_state in
    let exit = apply_transfer_function block.instructions graph entry in
    let (changed, after) = update_exit_state id exit (set_entry_state id entry states) in
    (after, if changed then push_all block.successors rest else rest)

unfoldable pub states_loop :
    ℕ → SsaCfg → CallGraphAnalysis → StorageStateMap → List BlockId → Option StorageStateMap
unfolding visit_block
states_loop fuel cfg graph states [] = some states
states_loop zero cfg graph states (id ∷ rest) = none
states_loop (suc fuel) cfg graph states (id ∷ rest) = do
  block ← get id cfg.blocks
  let (after, stack) = visit_block graph id block rest states
  states_loop fuel cfg graph after stack

unfoldable pub compute_storage_states : SsaCfg → CallGraphAnalysis → Option StorageStateMap
unfolding initial_states states_loop
compute_storage_states cfg graph =
    states_loop (suc (edge_count cfg.blocks)) cfg graph (initial_states cfg.blocks new_state_map)
      (cfg.entry ∷ [])
