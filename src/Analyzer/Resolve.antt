-- ===== src/Analyzer/Resolve.antt =====
-- analyzer/src/lib.rs: name resolution of expressions and statements. The pass reads and changes the
-- symbol table and appends to the list of errors; `none` is a panic of the table.
pub mod Declare
pub mod Files
pub mod Resolved
pub mod Blocks
pub mod Connected
use merak.Prelude.{
  ℕ, String, Bool, true, false, Option, none, some, List, [], ◌∷◌, ◌++◌, if◌then◌else◌,
}
use merak.Prelude.Partial.{◌>>=◌}
use merak.Prelude.Outcome.{Outcome, ok, err, panic}
use merak.Ast.Node.{NodeId, SourceRef}
use merak.Ast.Predicate.Operations.{contains_old}
use merak.Ast.Expression.{
  Expression, literal, identifier, binary_op, unary_op, grouped, function_call, member_call,
  Arguments,
}
use merak.Ast.Types.{RefinedType, constraint, type_source_ref}
use merak.Ast.Statement.{
  Statement, expression, if_then, if_else, while, return, assignment, var_declaration,
  const_declaration, Block,
}
use merak.Errors.{MerakError, undefined_variable, undefined_function, old_invalid_use}
use merak.Symbols.Id.{SymbolId}
use merak.Symbols.Table.Key.{SymbolNamespace, value, callable, type_space}
use merak.Symbols.Table.{
  QualifiedName, SymbolKind, local_var, SymbolTable, push_scope, pop_scope, add_symbol,
  resolve_reference,
}

-- The table and the errors so far.
abbrev pub Progress : Type 0
Progress = SymbolTable × List MerakError

abbrev pub report : MerakError → Progress → Progress
report e (t, errors) = (t, errors ++ e ∷ [])

-- A reference that is resolved, or the error that it is not.
abbrev pub reported : MerakError → List MerakError → Option SymbolId × SymbolTable → Progress
reported e errors (some id, t) = (t, errors)
reported e errors (none, t) = (t, errors ++ e ∷ [])

unfoldable pub resolve_or :
    NodeId → String → SymbolNamespace → MerakError → Progress → Option Progress
resolve_or node name space e (t, errors) = do
  found ← resolve_reference node name space t
  some (reported e errors found)

-- A callee is looked up as a function, then as a contract or interface.
abbrev pub resolve_type_next :
    NodeId → String → MerakError → List MerakError → Option SymbolId × SymbolTable → Option Progress
resolve_type_next node name e errors (some id, t) = some (t, errors)
resolve_type_next node name e errors (none, t) = resolve_or node name type_space e (t, errors)

unfoldable pub resolve_callee : NodeId → String → SourceRef → Progress → Option Progress
unfolding resolve_or
resolve_callee node name sr (t, errors) = do
  found ← resolve_reference node name callable t
  resolve_type_next node name (undefined_function name sr) errors found

unfoldable mutual
  unfolding resolve_or resolve_callee

  pub resolve_names_in_expression : Expression → Progress → Option Progress
  resolve_names_in_expression (literal lit i sr) s = some s
  resolve_names_in_expression (identifier x i sr) s =
      resolve_or i x value (undefined_variable x sr) s
  resolve_names_in_expression (binary_op l op r i sr) s = do
    left ← resolve_names_in_expression l s
    resolve_names_in_expression r left
  resolve_names_in_expression (unary_op op e i sr) s = resolve_names_in_expression e s
  resolve_names_in_expression (grouped e i sr) s = resolve_names_in_expression e s
  resolve_names_in_expression (function_call f args i sr) s = do
    called ← resolve_callee i f sr s
    resolve_arguments args called
  resolve_names_in_expression (member_call e f args i sr) s = do
    object ← resolve_names_in_expression e s
    resolve_arguments args object

  pub resolve_arguments : Arguments → Progress → Option Progress
  resolve_arguments Arguments.nil s = some s
  resolve_arguments (Arguments.cons e es) s = do
    first ← resolve_names_in_expression e s
    resolve_arguments es first

-- `add_symbol` where its error is only reported.
unfoldable pub add_or_report :
    NodeId → QualifiedName → SymbolKind → Option RefinedType → Progress → Option Progress
add_or_report node name kind ty (t, errors) = elim (add_symbol node name kind ty t) [
  | ok (id, u) ↦ some (u, errors)
  | err e ↦ some (t, errors ++ e ∷ [])
  | panic ↦ none
]

-- `old` in a type that is written is reported.
abbrev pub check_old : Option RefinedType → Progress → Progress
check_old none s = s
check_old (some ty) s =
    if contains_old (constraint ty) then report (old_invalid_use (type_source_ref ty)) s else s

abbrev pub in_path : List String → String → QualifiedName
in_path path name = record { parts = path ++ name ∷ [] }

-- A scope that is left.
abbrev pub leave_scope : Progress → Option Progress
leave_scope (t, errors) = do outer ← pop_scope t; some (outer, errors)

abbrev pub enter_scope : Progress → Progress
enter_scope (t, errors) = (push_scope t, errors)

unfoldable mutual
  unfolding resolve_names_in_expression add_or_report resolve_or

  pub collect_and_resolve_statement : List String → Statement → Progress → Option Progress
  collect_and_resolve_statement path (var_declaration name ty e i sr) s = do
    resolved ← resolve_names_in_expression e (check_old ty s)
    add_or_report i (in_path path name) local_var ty resolved
  collect_and_resolve_statement path (const_declaration name ty e i sr) s = do
    resolved ← resolve_names_in_expression e (check_old ty s)
    add_or_report i (in_path path name) local_var ty resolved
  collect_and_resolve_statement path (assignment target e i sr) s = do
    resolved ← resolve_names_in_expression e s
    resolve_or i target value (undefined_variable target sr) resolved
  collect_and_resolve_statement path (if_then condition then_block i sr) s = do
    tested ← resolve_names_in_expression condition s
    inner ← collect_and_resolve_block path then_block (enter_scope tested)
    leave_scope inner
  collect_and_resolve_statement path (if_else condition then_block else_block i sr) s = do
    tested ← resolve_names_in_expression condition s
    inner ← collect_and_resolve_block path then_block (enter_scope tested)
    outer ← leave_scope inner
    other ← collect_and_resolve_block path else_block (enter_scope outer)
    leave_scope other
  collect_and_resolve_statement path (while condition invariants variants body i sr) s = do
    tested ← resolve_names_in_expression condition s
    inner ← collect_and_resolve_block path body (enter_scope tested)
    leave_scope inner
  collect_and_resolve_statement path (return none i sr) s = some s
  collect_and_resolve_statement path (return (some e) i sr) s = resolve_names_in_expression e s
  collect_and_resolve_statement path (expression e i sr) s = resolve_names_in_expression e s

  pub collect_and_resolve_block : List String → Block → Progress → Option Progress
  collect_and_resolve_block path Block.nil s = some s
  collect_and_resolve_block path (Block.cons statement block) s = do
    first ← collect_and_resolve_statement path statement s
    collect_and_resolve_block path block first
