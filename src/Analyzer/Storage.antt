-- ===== src/Analyzer/Storage.antt =====
-- analyzer/src/storage.rs: the states of the storage variables, the folds and unfolds that are put around
-- their uses, and the location set. A `HashMap` is an association list, a `HashSet` a list.
pub mod Work
pub mod CallGraph
pub mod States
pub mod Insertion
pub mod Validation
use merak.Prelude.{
  ℕ, String, Bool, true, false, not, ◌&&◌, Option, none, some, List, [], ◌∷◌, if◌then◌else◌, nat_eq,
}
use merak.Prelude.Map.{Map, get, insert}
use merak.Prelude.Partial.{◌>>=◌}
use merak.Ast.Types.{RefinedType}
use merak.Ast.Contract.{Modifier}
use merak.Ast.Statement.{StateVar, StateConst}
use merak.Ast.Node.{NodeId}
use merak.Symbols.Id.{SymbolId, same_id, symbol_eq}
use merak.Symbols.Table.{
  SymbolKind, function, entrypoint, SymbolInfo, SymbolTable, qualified, get_symbol,
  get_symbol_by_node_id, get_symbol_id_by_node_id,
}
use merak.Ir.Terminator.{BlockId}
use merak.Ir.Ssa.{SsaContract}

pub data StorageMutability : Type 0 where
  mutable immutable : StorageMutability

pub record StorageLocation : Type 0 where
  pub symbol : SymbolId
  pub refined_type : RefinedType
  pub mutability : StorageMutability
  pub var_name : String

pub record StorageLocationSet : Type 0 where
  pub locations : Map SymbolId StorageLocation

abbrev pub is_mutable : StorageMutability → Bool
is_mutable mutable = true
is_mutable immutable = false

-- A location, where the node has a symbol and the symbol a type; the `unwrap`s and `expect`s else panic.
abbrev pub location_of_symbol :
    StorageMutability
    → Option SymbolId
    → Option (Option SymbolInfo)
    → Option (SymbolId × StorageLocation)
location_of_symbol kind (some id) (some (some info)) = do
  ty ← info.ty
  some (
    id,
    record {
      symbol = id;
      refined_type = ty;
      mutability = kind;
      var_name = qualified info.qualified_name;
    },
  )
location_of_symbol kind id info = none

unfoldable pub add_location :
    StorageMutability
    → NodeId
    → SymbolTable
    → Map SymbolId StorageLocation
    → Option (Map SymbolId StorageLocation)
add_location kind node t locations = do
  (id, location) ←
      location_of_symbol kind (get_symbol_id_by_node_id node t) (get_symbol_by_node_id node t)
  some (insert id location locations)

unfoldable pub add_variable_locations :
    List StateVar
    → SymbolTable
    → Map SymbolId StorageLocation
    → Option (Map SymbolId StorageLocation)
unfolding add_location
add_variable_locations [] t locations = some locations
add_variable_locations (v ∷ vs) t locations = do
  more ← add_location mutable v.id t locations
  add_variable_locations vs t more

unfoldable pub add_constant_locations :
    List StateConst
    → SymbolTable
    → Map SymbolId StorageLocation
    → Option (Map SymbolId StorageLocation)
unfolding add_location
add_constant_locations [] t locations = some locations
add_constant_locations (c ∷ cs) t locations = do
  more ← add_location immutable c.id t locations
  add_constant_locations cs t more

unfoldable pub from_contract : SsaContract → SymbolTable → Option StorageLocationSet
unfolding add_variable_locations add_constant_locations
from_contract contract t = do
  variables ← add_variable_locations contract.variables t []
  all ← add_constant_locations contract.constants t variables
  some (record { locations = all })

unfoldable is_storage : SymbolId → StorageLocationSet → Bool
is_storage id set = elim (get id set.locations) [ none ↦ false | some location ↦ true ]

abbrev pub contains_id : SymbolId → List SymbolId → Bool
contains_id id [] = false
contains_id id (x ∷ ids) = if same_id x id then true else contains_id id ids

abbrev pub remove_id : SymbolId → List SymbolId → List SymbolId
remove_id id [] = []
remove_id id (x ∷ ids) = let rest = remove_id id ids in if same_id x id then rest else x ∷ rest

abbrev pub intersection : List SymbolId → List SymbolId → List SymbolId
intersection [] others = []
intersection (x ∷ ids) others =
    let rest = intersection ids others in if contains_id x others then x ∷ rest else rest

abbrev pub is_subset : List SymbolId → List SymbolId → Bool
is_subset [] others = true
is_subset (x ∷ ids) others = contains_id x others && is_subset ids others

pub record StorageState : Type 0 where
  pub unfolded : List SymbolId

-- `StorageState::empty`
abbrev pub folded_state : StorageState
folded_state = record { unfolded = [] }

abbrev pub is_unfolded : SymbolId → StorageState → Bool
is_unfolded loc s = contains_id loc s.unfolded

abbrev pub is_folded : SymbolId → StorageState → Bool
is_folded loc s = not (contains_id loc s.unfolded)

-- `unfold` and `fold`
abbrev pub unfold_loc : SymbolId → StorageState → StorageState
unfold_loc loc s = record {
  unfolded = if contains_id loc s.unfolded then s.unfolded else loc ∷ s.unfolded;
}

abbrev pub fold_loc : SymbolId → StorageState → StorageState
fold_loc loc s = record { unfolded = remove_id loc s.unfolded }

unfoldable unfold_all_mutable : Map SymbolId StorageLocation → StorageState → StorageState
unfold_all_mutable [] s = s
unfold_all_mutable ((id, location) ∷ locations) s =
    unfold_all_mutable locations (if is_mutable location.mutability then unfold_loc id s else s)

abbrev pub fold_all : StorageState → StorageState
fold_all s = record { unfolded = [] }

abbrev pub merge : StorageState → StorageState → StorageState
merge s other = record { unfolded = intersection s.unfolded other.unfolded }

-- The derived `PartialEq`, of sets.
abbrev pub same_state : StorageState → StorageState → Bool
same_state s r = is_subset s.unfolded r.unfolded && is_subset r.unfolded s.unfolded

pub record StorageStateMap : Type 0 where
  pub block_entry_states : Map BlockId StorageState
  pub block_exit_states : Map BlockId StorageState

abbrev pub new_state_map : StorageStateMap
new_state_map = record { block_entry_states = []; block_exit_states = [] }

abbrev pub or_folded : Option StorageState → StorageState
or_folded none = folded_state
or_folded (some s) = s

unfoldable pub entry_state : BlockId → StorageStateMap → StorageState
entry_state id m = or_folded (get id m.block_entry_states)

unfoldable pub exit_state : BlockId → StorageStateMap → StorageState
exit_state id m = or_folded (get id m.block_exit_states)

unfoldable pub set_entry_state : BlockId → StorageState → StorageStateMap → StorageStateMap
set_entry_state id s m = record m { block_entry_states = insert id s m.block_entry_states }

-- Whether the state changed, and the states after.
abbrev pub is_same_exit : Option StorageState → StorageState → Bool
is_same_exit none s = false
is_same_exit (some existing) s = same_state existing s

unfoldable pub update_exit_state : BlockId → StorageState → StorageStateMap → Bool × StorageStateMap
update_exit_state id s m =
    if is_same_exit (get id m.block_exit_states) s
    then (false, m)
    else (true, record m { block_exit_states = insert id s m.block_exit_states })

abbrev pub reentrancy_of : SymbolKind → Option Modifier
reentrancy_of (function v reentrancy ps es rs ty) = some reentrancy
reentrancy_of (entrypoint reentrancy ps es rs ty) = some reentrancy
reentrancy_of kind = none

unfoldable pub get_reentrancy_modifier : SymbolId → SymbolTable → Option Modifier
get_reentrancy_modifier fn_id t = do info ← get_symbol fn_id t; reentrancy_of info.kind
