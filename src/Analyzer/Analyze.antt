-- ===== src/Analyzer/Analyze.antt =====
-- analyzer/src/lib.rs: `analyze`, name resolution of every file and then type checking of every contract.
-- What it prints is dropped.
use merak.Prelude.Outcome.{Outcome, ◌>>=◌}
use merak.Ast.Contract.{Program}
use merak.Errors.{MerakError}
use merak.Symbols.Table.{SymbolTable, empty_table}
use merak.Analyzer.Resolve.Files.{resolve_files}
use merak.Analyzer.Typecheck.Statements.{check}

unfoldable pub analyze : Program → Outcome MerakError SymbolTable
analyze program = resolve_files program.files empty_table >>= λ t. check program t
