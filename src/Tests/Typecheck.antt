-- ===== src/Tests/Typecheck.antt =====
-- analyzer/src/: a loop over a state variable, its names and its types.
use merak.Prelude.{◌≡◌, ◌≢◌, refl, true, some, none, [], ◌∷◌, List, String}
use merak.Prelude.Int.{pos}
use merak.Prelude.Map.{get, insert}
use merak.Prelude.Outcome.{ok, panic}
use merak.Ast.Types.{int, bool}
use merak.Ast.Node.{unknown}
use merak.Ast.Operator.{less, equal}
use merak.Ast.Expression.{H256, Expression, literal, identifier, binary_op, integer, boolean}
use merak.Ast.Expression.Conversion.{to_predicate}
use merak.Ast.Statement.{while, return, Block}
use merak.Errors.{MerakError}
use merak.Symbols.Id.{named}
use merak.Symbols.Table.{
  SymbolTable, insert_expr_type, get_symbol_by_node_id, get_symbol, resolve_reference, lookup,
}
use merak.Symbols.Table.Valid.{IsValid, Built, Built-IsValid}
use merak.Analyzer.Resolve.{collect_and_resolve_block, resolve_names_in_expression}
use merak.Analyzer.Resolve.Blocks.{collect_and_resolve_block-Runs}
use merak.Analyzer.Resolve.Connected.{IsConnected, resolve_names_in_expression-IsConnected}
use merak.Analyzer.Typecheck.{
  infer_basetype, is_pure_logical, symbol_of, assert_binary_type, check_basetype, check_condition,
}
use merak.Analyzer.Typecheck.Statements.{
  check_block, check_statement, check_return, check_test, check_expression,
}
use merak.Analyzer.Typecheck.Typing.{HasType, SameSymbols}
use merak.Analyzer.Typecheck.Sound.{infer_basetype_sound}
use merak.Analyzer.Typecheck.Complete.{infer_basetype_complete}
use merak.Analyzer.Typecheck.Bodies.{BlockRule, check_block_sound}
use merak.Analyzer.Typecheck.Total.{IsTyped, infer_basetype-no_panic}
use merak.Symbols.Table.Key.{value}
use merak.Tests.Symbols.{total_info, int_type, with_total, with_total-Built}

abbrev test : Expression
test = binary_op (identifier "total" 5 unknown) less (literal (integer (pos 3)) 6 unknown) 7 unknown

abbrev loop : Block
loop =
    Block.cons
      (while test [] []
        (Block.cons (return (some (identifier "total" 8 unknown)) 9 unknown) Block.nil) 10 unknown)
      Block.nil

abbrev connected : SymbolTable
connected = record with_total {
  node_to_symbol = (1, named "total" 0) ∷ (5, named "total" 0) ∷ (8, named "total" 0) ∷ [];
}

abbrev typed : SymbolTable
typed = record connected { expr_to_type = (6, int) ∷ (7, bool) ∷ [] }

test_resolves :
    resolve_names_in_expression test (with_total, [])
    ≡ some (
      record with_total { node_to_symbol = (1, named "total" 0) ∷ (5, named "total" 0) ∷ [] },
      [],
    )
unfolding resolve_names_in_expression get insert resolve_reference lookup
test_resolves = refl

resolve_names_in_expression-IsConnected_example :
    IsConnected
      (record with_total { node_to_symbol = (1, named "total" 0) ∷ (5, named "total" 0) ∷ [] })
      test
resolve_names_in_expression-IsConnected_example =
    resolve_names_in_expression-IsConnected test with_total
      (record with_total { node_to_symbol = (1, named "total" 0) ∷ (5, named "total" 0) ∷ [] }) []
      test_resolves

collect_and_resolve_block-Runs_example :
    (u : SymbolTable) × (found : List MerakError) × (collect_and_resolve_block
        ("Token" ∷ "count" ∷ [])
        loop
        (with_total, [])
      ≡ some (u, found))
    × IsValid u
    × (u.current_scope ≡ 0)
collect_and_resolve_block-Runs_example =
    collect_and_resolve_block-Runs ("Token" ∷ "count" ∷ []) loop with_total []
      (Built-IsValid with_total-Built)

test_inferred : infer_basetype unknown test connected ≡ ok (bool, typed)
unfolding infer_basetype symbol_of get_symbol_by_node_id get_symbol get insert_expr_type insert
    assert_binary_type
test_inferred = refl

test_pure : is_pure_logical test ≡ true
unfolding is_pure_logical
test_pure = refl

infer_basetype_sound_example : HasType connected test bool × SameSymbols connected typed
infer_basetype_sound_example =
    infer_basetype_sound unknown test connected typed bool test_pure test_inferred

test_typed : HasType connected test bool
unfolding symbol_of get_symbol_by_node_id get_symbol get
test_typed = (int, int, (total_info, int_type, refl, refl, refl), refl, (refl, refl, refl))

infer_basetype_complete_example :
    (u : SymbolTable) × (infer_basetype unknown test connected ≡ ok (bool, u))
    × SameSymbols connected u
infer_basetype_complete_example = infer_basetype_complete unknown test connected bool test_typed

loop_checked : check_block (some int_type) loop connected ≡ ok typed
unfolding check_block check_statement check_return check_test check_expression check_condition
    is_pure_logical check_basetype infer_basetype symbol_of get_symbol_by_node_id get_symbol get
    insert_expr_type insert assert_binary_type
loop_checked = refl

check_block_sound_example : BlockRule (some int_type) loop connected
check_block_sound_example = check_block_sound (some int_type) loop connected typed loop_checked

abbrev resolved_table : SymbolTable
resolved_table = record with_total {
  node_to_symbol = (1, named "total" 0) ∷ (5, named "total" 0) ∷ [];
}

total_resolved :
    resolve_reference 5 "total" value with_total ≡ some (some (named "total" 0), resolved_table)
unfolding resolve_reference lookup get insert
total_resolved = refl

test-IsTyped : IsTyped resolved_table test
unfolding symbol_of get_symbol_by_node_id get_symbol get
test-IsTyped = ((total_info, int_type, refl, refl), tt)

infer_basetype-no_panic_example : infer_basetype unknown test resolved_table ≢ panic
infer_basetype-no_panic_example =
    infer_basetype-no_panic unknown test resolved_table
      (Built-IsValid (Built.resolved 5 "total" value with_total-Built total_resolved)) test_pure
      (resolve_names_in_expression-IsConnected test with_total resolved_table [] test_resolves)
      test-IsTyped

-- A condition that passes the checker and is no predicate: a comparison is not an operand of one.
abbrev compared : Expression
compared = binary_op test equal (literal (boolean true) 11 unknown) 12 unknown

compared_condition : check_condition compared ≡ ok tt
unfolding check_condition is_pure_logical
compared_condition = refl

compared_inferred :
    infer_basetype unknown compared connected
    ≡ ok (
      bool,
      record connected { expr_to_type = (6, int) ∷ (7, bool) ∷ (11, bool) ∷ (12, bool) ∷ [] },
    )
unfolding infer_basetype symbol_of get_symbol_by_node_id get_symbol get insert_expr_type insert
    assert_binary_type
compared_inferred = refl

compared_no_predicate : (show : H256 → String) → to_predicate show compared ≡ none
unfolding to_predicate
compared_no_predicate show = refl
