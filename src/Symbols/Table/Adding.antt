-- ===== src/Symbols/Table/Adding.antt =====
-- symbols/src/symbol_table.rs: `add_symbol` where it answers a symbol.
use merak.Prelude.{
  ◌≡◌, ◌≢◌, ap, sym, ◌∙◌, String, Option, none, some, length, get_elem?, nat_eq, string_eq,
  Option-cases, inl, inr,
}
use merak.Prelude.Map.{get}
use merak.Prelude.Outcome.{ok, ok-injective}
use merak.Ast.Node.{NodeId}
use merak.Ast.Types.{RefinedType}
use merak.Symbols.Id.{SymbolId, named}
use merak.Symbols.Table.Key.{key_eq}
use merak.Symbols.Table.{
  QualifiedName, SymbolKind, namespace, SymbolInfo, Scope, SymbolTable, get_symbol, with_symbol,
  add_symbol, last_part, add_unless, add_to, add_named, duplicate,
}

duplicate-ne-ok :
    (old : Option SymbolInfo) (id : SymbolId) (u : SymbolTable) → duplicate old ≢ ok (id, u)
duplicate-ne-ok none id u h = cc
duplicate-ne-ok (some old) id u h = cc

-- What a symbol that is added tells of the table: its scope, that the name was free there, its number
-- and the table after it.
pub add_symbol-eq_ok :
    (t u : SymbolTable) (id : SymbolId) (node : NodeId) (name : QualifiedName) (kind : SymbolKind)
    (ty : Option RefinedType)
    → add_symbol node name kind ty t ≡ ok (id, u)
    → (simple_name : String) × (scope : Scope) × (last_part name.parts ≡ some simple_name)
      × (get_elem? t.scopes t.current_scope ≡ some scope)
      × (get (simple_name, namespace kind) scope.symbols ≡ none)
      × (id ≡ named simple_name (length t.symbol_arena))
      × (u
          ≡ with_symbol node simple_name
              (record { qualified_name = name; kind = kind; ty = ty })
              scope
              t)
unfolding add_symbol
add_symbol-eq_ok t u id node name kind ty h =
    let info : SymbolInfo = record { qualified_name = name; kind = kind; ty = ty } in
    elim (Option-cases (last_part name.parts)) [
      | inl e ↦ absurd (cc)
      | inr (simple_name, named_so) ↦
          let run₁ = sym (ap (add_named node info t) named_so) ∙ h in
          elim (Option-cases (get_elem? t.scopes t.current_scope)) [
            | inl e ↦ absurd (cc)
            | inr (scope, at) ↦
                let run₂ = sym (ap (add_to node simple_name info t) at) ∙ run₁ in
                elim (Option-cases (get (simple_name, namespace kind) scope.symbols)) [
                  | inr (old, e) ↦ absurd (
                      duplicate-ne-ok (get_symbol old t) id u
                        (sym (ap (add_unless node simple_name info t scope) e) ∙ run₂))
                  | inl free ↦
                      let run₃ = sym (ap (add_unless node simple_name info t scope) free) ∙ run₂ in
                      let result =
                        ok-injective
                          (
                            named simple_name (length t.symbol_arena),
                            with_symbol node simple_name info scope t,
                          )
                          (id, u) run₃ in
                      (
                        simple_name,
                        scope,
                        named_so,
                        at,
                        free,
                        sym (ap (λ r. r.0) result),
                        sym (ap (λ r. r.1) result),
                      )
                ]
          ]
    ]
