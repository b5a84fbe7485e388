-- ===== src/Analyzer/Typecheck/Statements.antt =====
-- analyzer/src/typechecker.rs: statements, blocks, contracts and programs. The expected return type that
-- the checker keeps in a cell is an argument: it is set before a body and put back after it. The message
-- that a loop prints is dropped.
use merak.Prelude.{String, false, Option, none, some, List, [], ◌∷◌, string_eq}
use merak.Prelude.Outcome.{ok, err, ◌>>=◌}
use merak.Ast.Node.{NodeId, SourceRef, unknown}
use merak.Ast.Predicate.{truth}
use merak.Ast.Expression.{Expression}
use merak.Ast.Types.{BaseType, bool, RefinedType, refined, base}
use merak.Ast.Statement.{
  Statement, if_then, if_else, while, return, assignment, var_declaration, const_declaration, Block,
  StateVar, StateConst,
}
use merak.Ast.Contract.{Function, Constructor, Contract, File, Program}
use merak.Errors.{type_mismatch}
use merak.Symbols.Table.{SymbolTable, insert_expr_type, update_type}
use merak.Analyzer.Typecheck.{
  Checked, infer_basetype, check_basetype, check_condition, symbol_of, expect_type,
}

-- An expression whose type is to be `expected`.
unfoldable pub check_expression :
    SourceRef → Expression → BaseType → SymbolTable → Checked SymbolTable
check_expression at e expected t = do
  (inferred, u) ← infer_basetype at e t
  same ← check_basetype at inferred expected
  ok u

-- A condition of an `If` or a `While`
unfoldable pub check_test : SourceRef → Expression → SymbolTable → Checked SymbolTable
check_test at e t = do pure ← check_condition e; check_expression at e bool t

unfoldable pub check_return :
    SourceRef → Option Expression → Option RefinedType → SymbolTable → Checked SymbolTable
check_return sr (some e) (some expected) t = check_expression sr e (base expected) t
check_return sr none none t = ok t
check_return sr (some e) none t = do (inferred, u) ← infer_basetype sr e t; err (type_mismatch sr)
check_return sr none (some expected) t = err (type_mismatch sr)

unfoldable pub check_declaration :
    String
    → Option RefinedType
    → Expression
    → NodeId
    → SourceRef
    → SymbolTable
    → Checked SymbolTable
check_declaration name (some ty) e i sr t = check_expression sr e (base ty) t
check_declaration name none e i sr t = do
  (inferred, u) ← infer_basetype sr e t
  update_type i (refined inferred name (truth 0 unknown) false sr) u

unfoldable pub check_assignment :
    Expression → NodeId → SourceRef → SymbolTable → Checked SymbolTable
check_assignment e i sr t = do
  (inferred, u) ← infer_basetype sr e t
  symbol ← symbol_of i u
  expected ← expect_type symbol.ty
  same ← check_basetype sr inferred expected
  ok u

unfoldable mutual
  unfolding check_test check_return check_declaration check_assignment

  pub check_statement : Option RefinedType → Statement → SymbolTable → Checked SymbolTable
  check_statement expected (Statement.expression e i sr) t = do
    (inferred, u) ← infer_basetype sr e t
    ok (insert_expr_type i inferred u)
  check_statement expected (if_then c then_block i sr) t = do
    u ← check_test sr c t
    check_block expected then_block u
  check_statement expected (if_else c then_block else_block i sr) t = do
    u ← check_test sr c t
    v ← check_block expected then_block u
    check_block expected else_block v
  check_statement expected (while c invariants variants body i sr) t = do
    u ← check_test sr c t
    check_block expected body u
  check_statement expected (return e i sr) t = check_return sr e expected t
  check_statement expected (assignment target e i sr) t = check_assignment e i sr t
  check_statement expected (var_declaration name ty e i sr) t = check_declaration name ty e i sr t
  check_statement expected (const_declaration name ty e i sr) t = check_declaration name ty e i sr t

  pub check_block : Option RefinedType → Block → SymbolTable → Checked SymbolTable
  check_block expected Block.nil t = ok t
  check_block expected (Block.cons statement block) t = do
    u ← check_statement expected statement t
    check_block expected block u

-- State variables and constants stand in no statement: a mismatch has no known place.
unfoldable pub check_variables : List StateVar → SymbolTable → Checked SymbolTable
unfolding check_expression
check_variables [] t = ok t
check_variables (v ∷ vs) t = do
  u ← check_expression unknown v.expr (base v.ty) t
  check_variables vs u

unfoldable pub check_constants : List StateConst → SymbolTable → Checked SymbolTable
unfolding check_expression
check_constants [] t = ok t
check_constants (c ∷ cs) t = do
  u ← check_expression unknown c.expr (base c.ty) t
  check_constants cs u

unfoldable pub check_constructor : Option Constructor → SymbolTable → Checked SymbolTable
check_constructor none t = ok t
check_constructor (some c) t = check_block none c.body t

unfoldable pub check_functions : List Function → SymbolTable → Checked SymbolTable
check_functions [] t = ok t
check_functions (f ∷ fs) t = do u ← check_block f.return_type f.body t; check_functions fs u

unfoldable pub check_contract : Contract → SymbolTable → Checked SymbolTable
unfolding check_constructor
check_contract contract t = do
  u ← check_variables contract.variables t
  v ← check_constants contract.constants u
  w ← check_constructor contract.constructor v
  check_functions contract.functions w

unfoldable pub check_files : List (String × File) → SymbolTable → Checked SymbolTable
check_files [] t = ok t
check_files ((name, file) ∷ files) t = do u ← check_contract file.contract t; check_files files u

unfoldable pub check : Program → SymbolTable → Checked SymbolTable
check program t = check_files program.files t
