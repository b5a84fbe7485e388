-- ===== src/Tests/Symbols.antt =====
-- symbols/src/symbol_table.rs: a table with a state variable, and a scope above it.
use merak.Prelude.{◌≡◌, refl, true, some, none, [], ◌∷◌}
use merak.Prelude.Map.{get, insert}
use merak.Prelude.Outcome.{ok}
use merak.Ast.Types.{int, RefinedType, refined}
use merak.Ast.Node.{unknown}
use merak.Ast.Predicate.{truth}
use merak.Symbols.Id.{named}
use merak.Symbols.Table.Key.{value}
use merak.Symbols.Table.{
  QualifiedName, state_var, local_var, SymbolInfo, SymbolTable, empty_table, add_symbol, lookup,
  get_symbol, push_scope, pop_scope, with_symbol,
}
use merak.Symbols.Table.Valid.{IsValid, Built, new, Built-IsValid}
use merak.Symbols.Table.Scoping.{Inside, opened, pop_scope-Inside, lookup-add_symbol}

abbrev pub int_type : RefinedType
int_type = refined int "x" (truth 0 unknown) true unknown

abbrev pub total_name : QualifiedName
total_name = record { parts = "Token" ∷ "total" ∷ [] }

abbrev pub total_info : SymbolInfo
total_info = record { qualified_name = total_name; kind = state_var; ty = some int_type }

abbrev pub with_total : SymbolTable
with_total = record {
  symbol_arena = total_info ∷ [];
  scopes = record { symbols = (("total", value), named "total" 0) ∷ [] } ∷ [];
  current_scope = 0;
  node_to_symbol = (1, named "total" 0) ∷ [];
  expr_to_type = [];
  qualified_names_to_symbol = ("Token::total", named "total" 0) ∷ [];
}

pub total_added :
    add_symbol 1 total_name state_var (some int_type) empty_table ≡ ok (named "total" 0, with_total)
unfolding add_symbol get with_symbol insert
total_added = refl

pub with_total-Built : Built with_total
with_total-Built = Built.added 1 total_name state_var (some int_type) new total_added

Built-IsValid_example : IsValid with_total
Built-IsValid_example =
    Built-IsValid (Built.added 1 total_name state_var (some int_type) new total_added)

lookup-add_symbol_example :
    (lookup "total" value with_total ≡ some (some (named "total" 0)))
    × (get_symbol (named "total" 0) with_total ≡ some total_info)
lookup-add_symbol_example =
    lookup-add_symbol empty_table with_total (named "total" 0) 1 total_name state_var
      (some int_type) "total" (Built-IsValid new) refl total_added

abbrev step_name : QualifiedName
step_name = record { parts = "Token" ∷ "transfer" ∷ "step" ∷ [] }

-- A local variable in a scope of its own.
abbrev with_step : SymbolTable
with_step = record {
  symbol_arena =
      total_info ∷ record { qualified_name = step_name; kind = local_var; ty = none } ∷ [];
  scopes =
      record { symbols = (("total", value), named "total" 0) ∷ [] }
      ∷ record { symbols = (("step", value), named "step" 1) ∷ [] }
      ∷ [];
  current_scope = 1;
  node_to_symbol = (1, named "total" 0) ∷ (2, named "step" 1) ∷ [];
  expr_to_type = [];
  qualified_names_to_symbol =
      ("Token::total", named "total" 0) ∷ ("Token::transfer::step", named "step" 1) ∷ [];
}

step_added :
    add_symbol 2 step_name local_var none (push_scope with_total) ≡ ok (named "step" 1, with_step)
unfolding add_symbol push_scope get with_symbol insert
step_added = refl

pop_scope-Inside_example :
    (w : SymbolTable) × (pop_scope with_step ≡ some w)
    × (w.scopes ≡ with_total.scopes)
    × (w.current_scope ≡ 0)
pop_scope-Inside_example =
    pop_scope-Inside (Built-IsValid with_total-Built)
      (Inside.added {t = with_total} 2 step_name local_var none opened step_added)
