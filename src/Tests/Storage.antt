-- ===== src/Tests/Storage.antt =====
-- ir/src/ssa_ir.rs and analyzer/src/storage.rs at concrete inputs: a checked function of two blocks that stores
-- and loads a variable, calls outside, and goes on to a block without stores.
use merak.Prelude.{true, false, ◌≡◌, ◌⊎◌, refl, some, none, List, [], ◌∷◌, nat_eq}
use merak.Prelude.Map.{get, insert}
use merak.Prelude.Outcome.{ok, err}
use merak.Ast.Node.{unknown}
use merak.Ast.Expression.{Expression}
use merak.Ast.Contract.{checked}
use merak.Errors.{MerakError, storage_access_after_external_call}
use merak.Symbols.Id.{SymbolId, named, symbol_eq}
use merak.Symbols.Table.{SymbolInfo, SymbolTable, entrypoint}
use merak.Ir.Operand.{Register, location, external}
use merak.Ir.Terminator.{BlockId, unreachable}
use merak.Ir.Ssa.{
  SsaInstruction, storage_load, storage_store, copy, call, unfold_var, fold_var, SsaBlock, SsaCfg,
  SsaContract, new_cfg, new_block, add_edge, add_instruction_at,
}
use merak.Ir.Ssa.Mirrored.{IsMirrored, Built, Built-IsMirrored}
use merak.Analyzer.Storage.{
  StorageLocation, StorageLocationSet, mutable, from_contract, StorageStateMap, folded_state,
  entry_state, new_state_map, is_folded,
}
use merak.Analyzer.Storage.CallGraph.{CallGraphAnalysis, analyze_calls}
use merak.Analyzer.Storage.States.{compute_storage_states}
use merak.Analyzer.Storage.States.Folded.{compute_storage_states-folded}
use merak.Analyzer.Storage.Insertion.{insert_fold_unfold_instructions}
use merak.Analyzer.Storage.Insertion.Discipline.{monitor, erase_folds, Disciplined}
use merak.Analyzer.Storage.Insertion.Balance.{
  with_instructions, folds, insert_fold_unfold_instructions-Disciplined,
  insert_fold_unfold_instructions-folds,
}
use merak.Analyzer.Storage.Validation.{check_no_stores_after_call, validate_cei_pattern}
use merak.Analyzer.Storage.Validation.Sweep.{has_stores, Follows}
use merak.Analyzer.Storage.Validation.NoStores.{validate_cei_pattern-decides}
use merak.Tests.Symbols.{int_type, total_info, with_total}

abbrev total : SymbolId
total = named "total" 0

abbrev run : SymbolId
run = named "run" 1

abbrev run_info : SymbolInfo
run_info = record {
  qualified_name = record { parts = "Token" ∷ "run" ∷ [] };
  kind = entrypoint checked [] [] [] int_type;
  ty = none;
}

abbrev table : SymbolTable
table = record with_total { symbol_arena = total_info ∷ run_info ∷ [] }

abbrev first_value : Register
first_value = record { symbol = named "x" 2; version = 0 }

abbrev next_value : Register
next_value = record { symbol = named "x" 2; version = 1 }

abbrev load_total : SsaInstruction
load_total = storage_load first_value total unknown

abbrev store_total : SsaInstruction
store_total = storage_store total (location first_value) unknown

abbrev call_out : SsaInstruction
call_out = call none (external (location first_value) (named "ping" 3)) [] unknown

abbrev empty_graph : SsaCfg
empty_graph = new_cfg "run" run

abbrev graph : SsaCfg
graph =
    let two = (new_block (new_block empty_graph).1).1 in
    add_instruction_at 1 (copy next_value (location first_value) unknown) (
      add_instruction_at 0 call_out
        (add_instruction_at 0 store_total (add_instruction_at 0 load_total (add_edge 0 1 two))))

graph-Built : Built graph
unfolding new_block get insert
graph-Built =
    let two = Built.block_made (Built.block_made (Built.new "run" run)) in
    let edged = Built.edge_added 0 1 refl refl two in
    Built.instruction_added 1 (copy next_value (location first_value) unknown) (
      Built.instruction_added 0 call_out
        (Built.instruction_added 0 store_total (Built.instruction_added 0 load_total edged)))

Built-IsMirrored_example : IsMirrored graph
Built-IsMirrored_example = Built-IsMirrored graph-Built

abbrev start : SsaBlock
start = record {
  id = 0;
  instructions = load_total ∷ store_total ∷ call_out ∷ [];
  terminator = unreachable;
  predecessors = [];
  successors = 1 ∷ [];
  loop_invariants = none;
  loop_variants = none;
}

abbrev end : SsaBlock
end = record {
  id = 1;
  instructions = copy next_value (location first_value) unknown ∷ [];
  terminator = unreachable;
  predecessors = 0 ∷ [];
  successors = [];
  loop_invariants = none;
  loop_variants = none;
}

graph-start : get 0 graph.blocks ≡ some start
unfolding new_block get insert add_edge add_instruction_at
graph-start = refl

graph-end : get 1 graph.blocks ≡ some end
unfolding new_block get insert add_edge add_instruction_at
graph-end = refl

abbrev contract : SsaContract
contract = record {
  name = "Token";
  variables =
      record {
        name = "total";
        ty = int_type;
        expr = Expression.identifier "total" 5 unknown;
        id = 1;
        source_ref = unknown;
      }
      ∷ [];
  constants = [];
  constructor = none;
  functions = graph ∷ [];
}

abbrev total_location : StorageLocation
total_location = record {
  symbol = total;
  refined_type = int_type;
  mutability = mutable;
  var_name = "Token::total";
}

abbrev places : StorageLocationSet
places = record { locations = (total, total_location) ∷ [] }

contract-places : from_contract contract table ≡ some places
unfolding from_contract get insert merak.Symbols.Table.get_symbol_by_node_id
    merak.Symbols.Table.get_symbol_id_by_node_id
contract-places = refl

abbrev calls : CallGraphAnalysis
calls = record { functions_with_external_calls = run ∷ [] }

contract-calls : analyze_calls contract ≡ some calls
unfolding analyze_calls new_block get insert add_edge add_instruction_at
contract-calls = refl

compute_storage_states-folded_example :
    (states : StorageStateMap) × (compute_storage_states graph calls ≡ some states)
    × ((id : BlockId) → entry_state id states ≡ folded_state)
unfolding new_block get insert add_edge add_instruction_at
compute_storage_states-folded_example =
    compute_storage_states-folded graph calls start (Built-IsMirrored graph-Built) refl

abbrev inserted : SsaBlock
inserted =
    with_instructions
      (unfold_var total unknown
        ∷ load_total
        ∷ store_total
        ∷ fold_var total unknown
        ∷ unfold_var total unknown
        ∷ call_out
        ∷ fold_var total unknown
        ∷ [])
      start

abbrev after_insertion : SsaCfg
after_insertion = record graph { blocks = (0, inserted) ∷ (1, end) ∷ [] }

insertion :
    insert_fold_unfold_instructions graph new_state_map places table calls ≡ some after_insertion
unfolding insert_fold_unfold_instructions new_block get insert add_edge add_instruction_at
    entry_state
insertion = refl

insert_fold_unfold_instructions-Disciplined_example :
    (new : List SsaInstruction) × (get 0 after_insertion.blocks
      ≡ some (with_instructions new start))
    × (erase_folds new ≡ start.instructions)
    × Disciplined places table calls new (entry_state 0 new_state_map)
    × (is_folded total (monitor new (entry_state 0 new_state_map)) ≡ true)
unfolding get
insert_fold_unfold_instructions-Disciplined_example =
    insert_fold_unfold_instructions-Disciplined contract table places calls new_state_map graph
      after_insertion 0 start total total_location contract-places graph-start
      (refl, (refl, (refl, tt))) insertion refl

insert_fold_unfold_instructions-folds_example :
    folds total (call_out ∷ fold_var total unknown ∷ []) ≡ true
unfolding get
insert_fold_unfold_instructions-folds_example =
    insert_fold_unfold_instructions-folds contract table places calls new_state_map graph
      after_insertion 0 start inserted total total_location unknown
      (unfold_var total unknown ∷ load_total ∷ store_total ∷ fold_var total unknown ∷ [])
      (call_out ∷ fold_var total unknown ∷ []) contract-places graph-start
      (refl, (refl, (refl, tt))) insertion refl refl refl

validate_cei_pattern-decides_example :
    ((e : MerakError) × (validate_cei_pattern graph table ≡ err e))
    ⊎ ((validate_cei_pattern graph table ≡ ok tt)
        × (has_stores [] ≡ false)
        × (has_stores end.instructions ≡ false))
unfolding new_block get insert add_edge add_instruction_at
    merak.Analyzer.Storage.get_reentrancy_modifier merak.Symbols.Table.get_symbol
validate_cei_pattern-decides_example =
    validate_cei_pattern-decides graph table 0 start none
      (external (location first_value) (named "ping" 3)) [] unknown (load_total ∷ store_total ∷ [])
      [] 1 end (Built-IsMirrored graph-Built) refl ((tt, (tt, (tt, tt))), ((tt, tt), tt))
      graph-start refl tt (Follows.goes Follows.stays graph-start refl) graph-end

-- A store after the call, in the same block and in the next one, is an error.
late_store :
    check_no_stores_after_call (add_instruction_at 0 store_total graph) 0 2 unknown
    ≡ err (storage_access_after_external_call "total" unknown unknown)
unfolding check_no_stores_after_call new_block get insert add_edge add_instruction_at
late_store = refl

next_store :
    check_no_stores_after_call (add_instruction_at 1 store_total graph) 0 2 unknown
    ≡ err (storage_access_after_external_call "total" unknown unknown)
unfolding check_no_stores_after_call new_block get insert add_edge add_instruction_at
next_store = refl

-- A store after the call in a function of one block.
abbrev one_block : SsaCfg
one_block =
    add_instruction_at 0 store_total (add_instruction_at 0 call_out (new_block empty_graph).1)

one_block_rejected :
    validate_cei_pattern one_block table
    ≡ err (storage_access_after_external_call "total" unknown unknown)
unfolding validate_cei_pattern new_block get insert add_instruction_at
    merak.Analyzer.Storage.get_reentrancy_modifier merak.Symbols.Table.get_symbol
one_block_rejected = refl
