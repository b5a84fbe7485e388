-- ===== src/Analyzer/Storage/Validation.antt =====
-- analyzer/src/storage.rs: the checks that follow the insertion, and the analysis of a contract. The stack
-- of places is a list with its top first; its loop is on fuel, and `panic` is also that the fuel ran out.
pub mod Sweep
pub mod Returns
pub mod NoStores
use merak.Prelude.{
  ℕ, zero, suc, ◌+◌, String, Bool, true, false, Option, none, some, List, [], ◌∷◌, length, drop,
  if◌then◌else◌, nat_eq,
}
use merak.Prelude.Map.{Map, get}
use merak.Prelude.Outcome.{Outcome, ok, err, panic, ◌>>=◌}
use merak.Ast.Node.{SourceRef}
use merak.Ast.Contract.{Modifier, checked, reentrant}
use merak.Errors.{MerakError, storage_access_after_external_call, write_to_immutable}
use merak.Symbols.Id.{SymbolId, named, temp, symbol_eq}
use merak.Symbols.Table.{SymbolTable}
use merak.Ir.Operand.{CallTarget, internal, external}
use merak.Ir.Terminator.{BlockId}
use merak.Ir.Ssa.{
  SsaInstruction, storage_store, call, SsaBlock, SsaCfg, SsaContract, contains_block,
}
use merak.Analyzer.Resolve.Declare.{same_modifier}
use merak.Analyzer.Storage.{
  StorageLocation, StorageLocationSet, is_mutable, from_contract, get_reentrancy_modifier,
}
use merak.Analyzer.Storage.CallGraph.{CallGraphAnalysis, analyze_calls}
use merak.Analyzer.Storage.States.{compute_storage_states}
use merak.Analyzer.Storage.Work.{edge_count}
use merak.Analyzer.Storage.Insertion.{insert_fold_unfold_instructions}

abbrev pub Analyzed : Type 0 → Type 0
Analyzed A = Outcome MerakError A

-- An `unwrap` or an index.
abbrev pub expect {ℓ} : {A : Type ℓ} → Option A → Outcome MerakError A
expect none = panic
expect (some a) = ok a

-- A symbol as the error prints it: of that text its name is kept.
abbrev pub printed_name : SymbolId → String
printed_name (named name i) = name
printed_name (temp i) = ""

unfoldable pub check_instructions : List SsaInstruction → SourceRef → Analyzed (Unit {0})
check_instructions [] call_point = ok tt
check_instructions (storage_store var value sr ∷ insts) call_point =
    err (storage_access_after_external_call (printed_name var) sr call_point)
check_instructions (inst ∷ insts) call_point = check_instructions insts call_point

-- The successors of a block, pushed with the index 0.
unfoldable pub push_places : List BlockId → List (BlockId × ℕ) → List (BlockId × ℕ)
push_places [] stack = stack
push_places (b ∷ bs) stack = push_places bs ((b, 0) ∷ stack)

unfoldable pub stores_loop :
    ℕ → SsaCfg → SourceRef → List BlockId → List (BlockId × ℕ) → Analyzed (Unit {0})
unfolding check_instructions push_places
stores_loop fuel cfg call_point visited [] = ok tt
stores_loop zero cfg call_point visited (place ∷ rest) = panic
stores_loop (suc fuel) cfg call_point visited ((id, start) ∷ rest) =
    let skipped = stores_loop fuel cfg call_point visited rest in
    let entered = expect (get id cfg.blocks) >>= λ block.
    check_instructions (drop start block.instructions) call_point >>= λ clean.
    stores_loop fuel cfg call_point (id ∷ visited) (push_places block.successors rest) in
    if contains_block id visited then skipped else entered

unfoldable pub check_no_stores_after_call : SsaCfg → BlockId → ℕ → SourceRef → Analyzed (Unit {0})
unfolding stores_loop
check_no_stores_after_call cfg id index call_point =
    stores_loop (suc (edge_count cfg.blocks)) cfg call_point [] ((id, index + 1) ∷ [])

-- A call after which no store may follow: an external one, or one of a reentrant function.
unfoldable pub check_call :
    SsaCfg → SymbolTable → BlockId → ℕ → SsaInstruction → Analyzed (Unit {0})
unfolding check_no_stores_after_call
check_call cfg t id index (call dest (external object method) args sr) =
    check_no_stores_after_call cfg id index sr
check_call cfg t id index (call dest (internal fn_id) args sr) = do
  modifier ← expect (get_reentrancy_modifier fn_id t)
  if same_modifier modifier reentrant then check_no_stores_after_call cfg id index sr else ok tt
check_call cfg t id index inst = ok tt

unfoldable pub check_calls :
    SsaCfg → SymbolTable → BlockId → ℕ → List SsaInstruction → Analyzed (Unit {0})
unfolding check_call
check_calls cfg t id index [] = ok tt
check_calls cfg t id index (inst ∷ insts) = do
  clean ← check_call cfg t id index inst
  check_calls cfg t id (suc index) insts

unfoldable pub check_blocks : SsaCfg → SymbolTable → List (BlockId × SsaBlock) → Analyzed (Unit {0})
unfolding check_calls
check_blocks cfg t [] = ok tt
check_blocks cfg t ((id, block) ∷ blocks) = do
  clean ← check_calls cfg t id 0 block.instructions
  check_blocks cfg t blocks

unfoldable pub validate_cei_pattern : SsaCfg → SymbolTable → Analyzed (Unit {0})
unfolding check_blocks
validate_cei_pattern cfg t = do
  modifier ← expect (get_reentrancy_modifier cfg.function_id t)
  if same_modifier modifier checked then check_blocks cfg t cfg.blocks else ok tt

abbrev pub check_write : StorageLocation → SourceRef → Analyzed (Unit {0})
check_write location sr =
    if is_mutable location.mutability then ok tt else err (write_to_immutable location.var_name sr)

unfoldable pub check_writes : StorageLocationSet → List SsaInstruction → Analyzed (Unit {0})
check_writes set [] = ok tt
check_writes set (storage_store var value sr ∷ insts) = do
  location ← expect (get var set.locations)
  allowed ← check_write location sr
  check_writes set insts
check_writes set (inst ∷ insts) = check_writes set insts

unfoldable pub validate_blocks :
    StorageLocationSet → List (BlockId × SsaBlock) → Analyzed (Unit {0})
unfolding check_writes
validate_blocks set [] = ok tt
validate_blocks set ((id, block) ∷ blocks) = do
  allowed ← check_writes set block.instructions
  validate_blocks set blocks

unfoldable pub validate_immutability : SsaCfg → StorageLocationSet → Analyzed (Unit {0})
unfolding validate_blocks
validate_immutability cfg set = validate_blocks set cfg.blocks

-- What `analyze_storage` and the loop of `analyze_storage_contract` do with a function.
unfoldable pub analyze_function :
    StorageLocationSet → SymbolTable → CallGraphAnalysis → SsaCfg → Analyzed SsaCfg
unfolding validate_cei_pattern validate_immutability
analyze_function set t graph cfg = do
  states ← expect (compute_storage_states cfg graph)
  inserted ← expect (insert_fold_unfold_instructions cfg states set t graph)
  safe ← validate_cei_pattern inserted t
  allowed ← validate_immutability inserted set
  ok inserted

unfoldable pub analyze_storage : SsaContract → SsaCfg → SymbolTable → Analyzed SsaCfg
unfolding analyze_function
analyze_storage contract cfg t = do
  set ← expect (from_contract contract t)
  graph ← expect (analyze_calls contract)
  analyze_function set t graph cfg

unfoldable pub analyze_all :
    StorageLocationSet → SymbolTable → CallGraphAnalysis → List SsaCfg → Analyzed (List SsaCfg)
unfolding analyze_function
analyze_all set t graph [] = ok []
analyze_all set t graph (cfg ∷ cfgs) = do
  first ← analyze_function set t graph cfg
  rest ← analyze_all set t graph cfgs
  ok (first ∷ rest)

unfoldable pub analyze_storage_contract : SsaContract → SymbolTable → Analyzed SsaContract
unfolding analyze_all
analyze_storage_contract contract t = do
  set ← expect (from_contract contract t)
  graph ← expect (analyze_calls contract)
  functions ← analyze_all set t graph contract.functions
  ok (record contract { functions = functions })
