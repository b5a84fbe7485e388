-- ===== src/Symbols/Table.antt =====
-- symbols/src/symbol_table.rs: the arena of symbols, the scopes and the maps from nodes and names. A
-- method that changes the table returns the new one. `none` and `panic` stand for an index out of range
-- and for an underflow. A `HashMap` is an association list.
pub mod Key
pub mod Adding
pub mod Valid
pub mod Scoping
use merak.Prelude.{
  ℕ, zero, suc, ◌+◌, ◌-◌, String, Bool, Option, none, some, List, [], ◌∷◌, ◌++◌, length, get_elem?,
  set, nat_eq, string_eq,
}
use Prim.Native.String.{◌++◌ as str_append}
use merak.Prelude.Map.{Map, get, insert}
use merak.Prelude.Partial.{◌>>=◌}
use merak.Prelude.Outcome.{Outcome, ok, err, panic}
use merak.Ast.Node.{NodeId}
use merak.Ast.Predicate.{Predicate}
use merak.Ast.Types.{BaseType, RefinedType}
use merak.Ast.Contract.{Param, Visibility, Modifier}
use merak.Errors.{MerakError, name_resolution}
use merak.Symbols.Id.{SymbolId, named, as_usize}
use merak.Symbols.Table.Key.{SymbolNamespace, value, callable, type_space, key_eq}

-- A name like `Contract::function::local`.
pub record QualifiedName : Type 0 where
  pub parts : List String

abbrev pub join : List String → String
join [] = ""
join (part ∷ []) = part
join (part ∷ next ∷ parts) = str_append part (str_append "::" (join (next ∷ parts)))

-- `QualifiedName::to_string`
abbrev pub qualified : QualifiedName → String
qualified name = join name.parts

abbrev pub last_part : List String → Option String
last_part [] = none
last_part (part ∷ []) = some part
last_part (part ∷ next ∷ parts) = last_part (next ∷ parts)

pub data SymbolKind : Type 0 where
  contract state_var state_const parameter local_var : SymbolKind
  contract_init : String → SymbolKind
  function :
      Visibility
      → Modifier
      → List Param
      → List Predicate
      → List Predicate
      → RefinedType
      → SymbolKind
  entrypoint : Modifier → List Param → List Predicate → List Predicate → RefinedType → SymbolKind
  interface : List SymbolId → SymbolKind
  interface_function : List Param → RefinedType → SymbolKind

-- `SymbolKind::namespace`
abbrev pub namespace : SymbolKind → SymbolNamespace
namespace contract = type_space
namespace (contract_init c) = callable
namespace state_var = value
namespace state_const = value
namespace (function v m ps es rs ty) = callable
namespace (entrypoint m ps es rs ty) = callable
namespace parameter = value
namespace local_var = value
namespace (interface fs) = type_space
namespace (interface_function ps ty) = callable

pub record SymbolInfo : Type 0 where
  pub qualified_name : QualifiedName
  pub kind : SymbolKind
  pub ty : Option RefinedType

pub record Scope : Type 0 where
  pub symbols : Map (String × SymbolNamespace) SymbolId

pub record SymbolTable : Type 0 where
  pub symbol_arena : List SymbolInfo
  pub scopes : List Scope
  pub current_scope : ℕ
  pub node_to_symbol : Map NodeId SymbolId
  pub expr_to_type : Map NodeId BaseType
  pub qualified_names_to_symbol : Map String SymbolId

abbrev pub empty_scope : Scope
empty_scope = record { symbols = [] }

-- `SymbolTable::new`
abbrev pub empty_table : SymbolTable
empty_table = record {
  symbol_arena = [];
  scopes = empty_scope ∷ [];
  current_scope = 0;
  node_to_symbol = [];
  expr_to_type = [];
  qualified_names_to_symbol = [];
}

-- `push_scope`, whose result no caller reads
unfoldable pub push_scope : SymbolTable → SymbolTable
push_scope t = record t { scopes = t.scopes ++ empty_scope ∷ []; current_scope = length t.scopes }

-- `Vec::pop`
abbrev pub drop_last : List Scope → List Scope
drop_last [] = []
drop_last (s ∷ []) = []
drop_last (s ∷ r ∷ scopes) = s ∷ drop_last (r ∷ scopes)

abbrev pub checked_pred : ℕ → Option ℕ
checked_pred zero = none
checked_pred (suc n) = some n

unfoldable pub pop_scope : SymbolTable → Option SymbolTable
pop_scope t = do
  parent ← checked_pred t.current_scope
  some (record t { scopes = drop_last t.scopes; current_scope = parent })

unfoldable pub clean_scopes : SymbolTable → SymbolTable
clean_scopes t = record t { scopes = empty_scope ∷ []; current_scope = 0 }

unfoldable pub insert_expr_type : NodeId → BaseType → SymbolTable → SymbolTable
insert_expr_type id ty t = record t { expr_to_type = insert id ty t.expr_to_type }

-- The symbol put into a scope.
abbrev pub bind : String → SymbolNamespace → SymbolId → Scope → Scope
bind name space id scope = record { symbols = insert (name, space) id scope.symbols }

-- `insert`
unfoldable pub insert_symbol :
    String → SymbolNamespace → SymbolId → SymbolTable → Option SymbolTable
insert_symbol name space id t = do
  scope ← get_elem? t.scopes t.current_scope
  some (record t { scopes = set t.scopes t.current_scope (bind name space id scope) })

-- The loop of `lookup` from a scope outwards; `none` inside is that no scope has the name.
unfoldable pub lookup_in : List Scope → String × SymbolNamespace → ℕ → Option (Option SymbolId)
lookup_in scopes key zero = do scope ← get_elem? scopes zero; some (get key scope.symbols)
lookup_in scopes key (suc n) = do
  scope ← get_elem? scopes (suc n)
  elim (get key scope.symbols) [ some id ↦ some (some id) | none ↦ lookup_in scopes key n ]

-- What `lookup` answers after the loop.
abbrev pub or_qualified : SymbolTable → String → Option SymbolId → Option SymbolId
or_qualified t name (some id) = some id
or_qualified t name none = get name t.qualified_names_to_symbol

unfoldable pub lookup : String → SymbolNamespace → SymbolTable → Option (Option SymbolId)
unfolding lookup_in
lookup name space t = do
  found ← lookup_in t.scopes (name, space) t.current_scope
  some (or_qualified t name found)

-- `get_symbol` and `get_symbol_mut`
unfoldable pub get_symbol : SymbolId → SymbolTable → Option SymbolInfo
get_symbol id t = get_elem? t.symbol_arena (as_usize id)

-- The table that a new symbol makes.
unfoldable pub with_symbol : NodeId → String → SymbolInfo → Scope → SymbolTable → SymbolTable
with_symbol node simple_name info scope t =
    let id = named simple_name (length t.symbol_arena) in
    record t {
      symbol_arena = t.symbol_arena ++ info ∷ [];
      qualified_names_to_symbol =
          insert (qualified info.qualified_name) id t.qualified_names_to_symbol;
      scopes = set t.scopes t.current_scope (bind simple_name (namespace info.kind) id scope);
      node_to_symbol = insert node id t.node_to_symbol;
    }

-- The duplicate check reads the symbol that is there, for its message.
abbrev pub duplicate : Option SymbolInfo → Outcome MerakError (SymbolId × SymbolTable)
duplicate none = panic
duplicate (some old) = err name_resolution

abbrev pub add_unless :
    NodeId
    → String
    → SymbolInfo
    → SymbolTable
    → Scope
    → Option SymbolId
    → Outcome MerakError (SymbolId × SymbolTable)
add_unless node simple_name info t scope (some existing) = duplicate (get_symbol existing t)
add_unless node simple_name info t scope none =
    ok (named simple_name (length t.symbol_arena), with_symbol node simple_name info scope t)

abbrev pub add_to :
    NodeId
    → String
    → SymbolInfo
    → SymbolTable
    → Option Scope
    → Outcome MerakError (SymbolId × SymbolTable)
add_to node simple_name info t none = panic
add_to node simple_name info t (some scope) =
    add_unless node simple_name info t scope (get (simple_name, namespace info.kind) scope.symbols)

abbrev pub add_named :
    NodeId → SymbolInfo → SymbolTable → Option String → Outcome MerakError (SymbolId × SymbolTable)
add_named node info t none = err name_resolution
add_named node info t (some simple_name) =
    add_to node simple_name info t (get_elem? t.scopes t.current_scope)

unfoldable pub add_symbol :
    NodeId
    → QualifiedName
    → SymbolKind
    → Option RefinedType
    → SymbolTable
    → Outcome MerakError (SymbolId × SymbolTable)
add_symbol node name kind ty t =
    add_named node (record { qualified_name = name; kind = kind; ty = ty }) t (last_part name.parts)

-- A node is connected to the symbol that its name leads to, if any.
abbrev pub connect : NodeId → SymbolTable → Option SymbolId → Option SymbolId × SymbolTable
connect node t none = (none, t)
connect node t (some id) = (some id, record t { node_to_symbol = insert node id t.node_to_symbol })

unfoldable pub resolve_reference :
    NodeId → String → SymbolNamespace → SymbolTable → Option (Option SymbolId × SymbolTable)
resolve_reference node name space t = do found ← lookup name space t; some (connect node t found)

unfoldable pub get_symbol_id_by_node_id : NodeId → SymbolTable → Option SymbolId
get_symbol_id_by_node_id node t = get node t.node_to_symbol

-- `none` inside is that the node has no symbol.
unfoldable pub get_symbol_by_node_id : NodeId → SymbolTable → Option (Option SymbolInfo)
unfolding get_symbol
get_symbol_by_node_id node t = elim (get node t.node_to_symbol) [
  | none ↦ some none
  | some id ↦ get_symbol id t >>= λ info. some (some info)
]

-- The write of `update_type` to the symbol that is read.
abbrev pub retype :
    RefinedType → SymbolTable → SymbolId → Option SymbolInfo → Outcome MerakError SymbolTable
retype ty t id none = panic
retype ty t id (some info) =
    ok (record t { symbol_arena = set t.symbol_arena (as_usize id) (record info { ty = some ty }) })

abbrev pub retype_node :
    RefinedType → SymbolTable → Option SymbolId → Outcome MerakError SymbolTable
retype_node ty t none = err name_resolution
retype_node ty t (some id) = retype ty t id (get_symbol id t)

-- `update_type`, which fails for a node with no symbol
unfoldable pub update_type : NodeId → RefinedType → SymbolTable → Outcome MerakError SymbolTable
update_type node ty t = retype_node ty t (get node t.node_to_symbol)
