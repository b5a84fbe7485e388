-- ===== src/Analyzer/Storage/CallGraph.antt =====
-- analyzer/src/storage.rs: which functions contain external calls. The recursion is on fuel; `none` is
-- that the fuel ran out or that a function is not in the contract.
use merak.Prelude.{
  ℕ, zero, suc, Bool, true, false, Option, none, some, List, [], ◌∷◌, ◌++◌, length, if◌then◌else◌,
}
use merak.Prelude.Partial.{◌>>=◌}
use merak.Symbols.Id.{SymbolId, same_id}
use merak.Ir.Operand.{internal, external}
use merak.Ir.Terminator.{BlockId}
use merak.Ir.Ssa.{SsaInstruction, call, SsaBlock, SsaCfg, SsaContract}
use merak.Analyzer.Storage.{contains_id}

pub record CallGraphAnalysis : Type 0 where
  pub functions_with_external_calls : List SymbolId

abbrev pub contains_external_calls : SymbolId → CallGraphAnalysis → Bool
contains_external_calls fn_id graph = contains_id fn_id graph.functions_with_external_calls

unfoldable pub find_function : SymbolId → List SsaCfg → Option SsaCfg
find_function fn_id [] = none
find_function fn_id (f ∷ fs) =
    if same_id f.function_id fn_id then some f else find_function fn_id fs

unfoldable pub all_instructions : List (BlockId × SsaBlock) → List SsaInstruction
all_instructions [] = []
all_instructions ((id, block) ∷ blocks) = block.instructions ++ all_instructions blocks

-- The loops over the instructions of a function, with the recursive call as an argument.
unfoldable pub scan_calls :
    (SymbolId → List SymbolId → Option (Bool × List SymbolId))
    → List SsaInstruction
    → List SymbolId
    → Option (Bool × List SymbolId)
scan_calls recurse [] visited = some (false, visited)
scan_calls recurse (call dest (external object method) args sr ∷ insts) visited =
    some (true, visited)
scan_calls recurse (call dest (internal callee_id) args sr ∷ insts) visited = do
  (found, more) ← recurse callee_id visited
  let rest = scan_calls recurse insts more
  if found then some (true, more) else rest
scan_calls recurse (inst ∷ insts) visited = scan_calls recurse insts visited

unfoldable pub contains_external_calls_recursive :
    ℕ → SsaContract → SymbolId → List SymbolId → Option (Bool × List SymbolId)
unfolding find_function all_instructions scan_calls
contains_external_calls_recursive zero contract fn_id visited = none
contains_external_calls_recursive (suc fuel) contract fn_id visited =
    let search = find_function fn_id contract.functions >>= λ cfg.
    scan_calls (contains_external_calls_recursive fuel contract) (all_instructions cfg.blocks)
      (fn_id ∷ visited) in
    if contains_id fn_id visited then some (false, visited) else search

-- The loop over the functions.
unfoldable pub analyze_functions :
    SsaContract → List SsaCfg → List SymbolId → Option (List SymbolId)
unfolding contains_external_calls_recursive
analyze_functions contract [] found = some found
analyze_functions contract (f ∷ fs) found = do
  (external_calls, visited) ←
      contains_external_calls_recursive (suc (suc (length contract.functions))) contract
        f.function_id []
  analyze_functions contract fs (if external_calls then f.function_id ∷ found else found)

unfoldable pub analyze_calls : SsaContract → Option CallGraphAnalysis
unfolding analyze_functions
analyze_calls contract = do
  found ← analyze_functions contract contract.functions []
  some (record { functions_with_external_calls = found })
