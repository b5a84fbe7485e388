-- ===== src/Analyzer/Resolve/Files.antt =====
-- analyzer/src/lib.rs: the declarations of a contract, its interfaces and a program's files, up to type
-- checking.
use merak.Prelude.{String, Option, none, some, List, [], ◌∷◌, ◌++◌, if◌then◌else◌, string_eq}
use merak.Prelude.Map.{Map}
use merak.Prelude.Partial.{◌>>=◌}
use merak.Prelude.Outcome.{Outcome, ok, err, panic}
use merak.Ast.Node.{NodeId, SourceRef}
use merak.Ast.Types.{RefinedType}
use merak.Ast.Expression.{Expression}
use merak.Ast.Statement.{StateVar, StateConst}
use merak.Ast.Contract.{
  Function, Import, InterfaceFunctionSig, InterfaceDecl, Constructor, Contract, File,
}
use merak.Errors.{MerakError, function_redefinition}
use merak.Symbols.Id.{SymbolId, named}
use merak.Symbols.Table.Key.{type_space}
use merak.Symbols.Table.{SymbolKind, SymbolTable, clean_scopes, lookup, insert_symbol, add_symbol}
use merak.Analyzer.Resolve.{
  Progress, report, add_or_report, in_path, leave_scope, enter_scope, collect_and_resolve_block,
  resolve_names_in_expression,
}
use merak.Analyzer.Resolve.Declare.{
  contains_name, or_unit, check_old_at, add_parameters, collect_and_resolve_function,
}

-- One state variable or constant.
unfoldable pub add_state :
    String
    → String
    → RefinedType
    → Expression
    → NodeId
    → SourceRef
    → SymbolKind
    → Progress
    → Option Progress
unfolding resolve_names_in_expression add_or_report
add_state contract_name name ty e id sr kind s = do
  resolved ← resolve_names_in_expression e (check_old_at ty sr s)
  add_or_report id (in_path (contract_name ∷ []) name) kind (some ty) resolved

unfoldable pub add_variables : String → List StateVar → Progress → Option Progress
unfolding add_state
add_variables contract_name [] s = some s
add_variables contract_name (v ∷ vs) s = do
  added ← add_state contract_name v.name v.ty v.expr v.id v.source_ref SymbolKind.state_var s
  add_variables contract_name vs added

unfoldable pub add_constants : String → List StateConst → Progress → Option Progress
unfolding add_state
add_constants contract_name [] s = some s
add_constants contract_name (v ∷ vs) s = do
  added ← add_state contract_name v.name v.ty v.expr v.id v.source_ref SymbolKind.state_const s
  add_constants contract_name vs added

unfoldable pub add_constructor : String → Option Constructor → Progress → Option Progress
unfolding add_or_report add_parameters
add_constructor contract_name none s = some s
add_constructor contract_name (some c) s = do
  let path = contract_name ∷ "constructor" ∷ []
  added ←
      add_or_report c.id (record { parts = path }) (SymbolKind.contract_init contract_name) none s
  inner ← add_parameters path c.params (enter_scope added)
  body ← collect_and_resolve_block path c.body inner
  leave_scope body

abbrev pub check_redefinition : List String → Function → Progress → Progress
check_redefinition declared f s =
    if contains_name declared f.name
    then report (function_redefinition f.name f.source_ref) s
    else s

-- `swap_remove(0)`: the first error, which the last one replaces.
abbrev pub last_error : MerakError → List MerakError → MerakError
last_error e [] = e
last_error e (d ∷ ds) = last_error d ds

abbrev pub drop_last_error : MerakError → List MerakError → List MerakError
drop_last_error e [] = []
drop_last_error e (d ∷ ds) = e ∷ drop_last_error d ds

abbrev pub after_swap_remove : List MerakError → List MerakError
after_swap_remove [] = []
after_swap_remove (d ∷ ds) = last_error d ds ∷ drop_last_error d ds

-- The loop over the functions; the error that it stops with, if any.
unfoldable pub add_functions :
    String → List String → List Function → Progress → Option (Option MerakError × Progress)
add_functions contract_name declared [] s = some (none, s)
add_functions contract_name declared (f ∷ fs) s =
    collect_and_resolve_function f contract_name (check_redefinition declared f s) >>= λ added.
    let rest = add_functions contract_name (f.name ∷ declared) fs added in
    elim added.1 [ [] ↦ rest | e ∷ es ↦ some (some e, (added.0, after_swap_remove es)) ]

-- The contract's scope is left only where no function stops the loop.
abbrev pub leave_contract : Option MerakError × Progress → Option (Option MerakError × Progress)
leave_contract (some e, s) = some (some e, s)
leave_contract (none, s) = leave_scope s >>= λ outer. some (none, outer)

unfoldable pub collect_and_resolve_contract :
    Contract → Progress → Option (Option MerakError × Progress)
unfolding add_or_report add_variables add_constants add_constructor add_functions
collect_and_resolve_contract c s = do
  added ← add_or_report c.id (record { parts = c.name ∷ [] }) SymbolKind.contract none s
  variables ← add_variables c.name c.variables (enter_scope added)
  constants ← add_constants c.name c.constants variables
  constructed ← add_constructor c.name c.constructor constants
  finished ← add_functions c.name [] c.functions constructed
  leave_contract finished

-- A symbol that could not be added is the empty name.
unfoldable pub add_interface_function :
    String → String → InterfaceFunctionSig → Progress → Option (SymbolId × Progress)
add_interface_function contract_name interface f (t, errors) =
    elim (add_symbol f.id (record { parts = contract_name ∷ interface ∷ f.name ∷ [] })
      (SymbolKind.interface_function f.params (or_unit f.return_type)) none t) [
        | ok (id, u) ↦ some (id, (u, errors))
        | err e ↦ some (named "" 0, (t, errors ++ e ∷ []))
        | panic ↦ none
      ]

unfoldable pub add_interface_functions :
    String → String → List InterfaceFunctionSig → Progress → Option (List SymbolId × Progress)
unfolding add_interface_function
add_interface_functions contract_name interface [] s = some ([], s)
add_interface_functions contract_name interface (f ∷ fs) s = do
  (id, added) ← add_interface_function contract_name interface f s
  (ids, rest) ← add_interface_functions contract_name interface fs added
  some (id ∷ ids, rest)

unfoldable pub collect_and_resolve_interfaces :
    String → List InterfaceDecl → Progress → Option Progress
unfolding add_interface_functions add_or_report
collect_and_resolve_interfaces contract_name [] s = some s
collect_and_resolve_interfaces contract_name (i ∷ is) s = do
  (ids, functions) ← add_interface_functions contract_name i.name i.functions s
  added ←
      add_or_report i.id (in_path (contract_name ∷ []) i.name) (SymbolKind.interface ids) none
        functions
  collect_and_resolve_interfaces contract_name is added

-- An alias of an import names the symbol of the contract, which a missing contract makes a panic.
unfoldable pub add_aliases : List Import → SymbolTable → Option SymbolTable
add_aliases [] t = some t
add_aliases (i ∷ is) t = elim i.alias [
  | none ↦ add_aliases is t
  | some alias ↦ lookup i.contract_name type_space t >>= λ found.
      found >>= λ id. insert_symbol alias type_space id t >>= λ u. add_aliases is u
]

abbrev pub with_stop : Option MerakError → List MerakError → List MerakError
with_stop none errors = errors
with_stop (some e) errors = errors ++ e ∷ []

-- One file; the first error stops the loop over the files.
unfoldable pub resolve_file : File → SymbolTable → Outcome MerakError SymbolTable
unfolding add_aliases collect_and_resolve_interfaces collect_and_resolve_contract
resolve_file file t =
    elim (add_aliases file.imports t >>= λ u.
    collect_and_resolve_interfaces file.contract.name file.interfaces (u, []) >>= λ s.
    collect_and_resolve_contract file.contract s) [
      | none ↦ panic
      | some (stop, (u, errors)) ↦ elim (with_stop stop errors) [
        | [] ↦ ok (clean_scopes u)
        | e ∷ es ↦ err e
      ]
    ]

-- The loop of `analyze` over the files, up to type checking.
unfoldable pub resolve_files : Map String File → SymbolTable → Outcome MerakError SymbolTable
unfolding resolve_file
resolve_files [] t = ok t
resolve_files ((name, file) ∷ files) t = elim (resolve_file file t) [
  | ok u ↦ resolve_files files u
  | err e ↦ err e
  | panic ↦ panic
]
