-- ===== src/Analyzer/Resolve/Blocks.antt =====
-- analyzer/src/lib.rs: statements and blocks on valid tables.
use merak.Prelude.{
  ℕ, suc, ◌≡◌, ◌≢◌, refl, ap, sym, ◌∙◌, String, Option, none, some, List, [], ◌∷◌, ◌++◌, length,
  get_elem?-below, All-get_elem?, nat_eq, arith, inl, inr, Bool-cases,
}
use mathlib.Core.Path.{subst}
use merak.Prelude.Map.{get, AllValues-get}
use merak.Prelude.Partial.{◌>>=◌}
use merak.Prelude.Outcome.{panic, Outcome-cases}
use merak.Ast.Node.{NodeId}
use merak.Ast.Predicate.Operations.{contains_old}
use merak.Ast.Expression.{Expression}
use merak.Ast.Types.{RefinedType, constraint}
use merak.Ast.Statement.{
  Statement, expression, if_then, if_else, while, return, assignment, var_declaration,
  const_declaration, Block,
}
use merak.Errors.{MerakError, undefined_variable}
use merak.Symbols.Id.{SymbolId, as_usize}
use merak.Symbols.Table.Key.{value, key_eq}
use merak.Symbols.Table.{
  QualifiedName, SymbolKind, namespace, SymbolInfo, Scope, local_var, SymbolTable, push_scope,
  pop_scope, drop_last, checked_pred, add_symbol, last_part, get_symbol, add_named, add_to,
  add_unless, duplicate,
}
use merak.Symbols.Table.Valid.{
  InArena, ScopeInArena, IsValid, with_symbol-IsValid, push_scope-IsValid, pop_scope-IsValid,
}
use merak.Symbols.Table.Adding.{add_symbol-eq_ok}
use merak.Symbols.Table.Scoping.{current_scope-with_symbol}
use merak.Analyzer.Resolve.{
  Progress, resolve_or, resolve_names_in_expression, add_or_report, check_old, in_path, leave_scope,
  enter_scope, collect_and_resolve_statement, collect_and_resolve_block,
}
use merak.Analyzer.Resolve.Resolved.{Runs, Runs->>=, resolve_or-Runs, expression-Runs}

get_symbol-below :
    (t : SymbolTable) (id : SymbolId)
    → InArena (length t.symbol_arena) id
    → (info : SymbolInfo) × (get_symbol id t ≡ some info)
unfolding get_symbol
get_symbol-below t id h = get_elem?-below t.symbol_arena (as_usize id) h

duplicate-ne-panic :
    (o : Option SymbolInfo) (info : SymbolInfo) → o ≡ some info → duplicate o ≢ panic
duplicate-ne-panic none info h = λ p. cc
duplicate-ne-panic (some i) info h = λ p. cc

-- The current scope is there, and a symbol that a scope has is in the arena.
add_unless-ne-panic :
    (t : SymbolTable) (node : NodeId) (name : String) (info : SymbolInfo) (scope : Scope)
    (existing : Option SymbolId)
    → IsValid t
    → ScopeInArena (length t.symbol_arena) scope
    → get (name, namespace info.kind) scope.symbols ≡ existing
    → add_unless node name info t scope existing ≢ panic
add_unless-ne-panic t node name info scope none valid inner found = λ p. cc
add_unless-ne-panic t node name info scope (some id) valid inner found =
    let (old, at) = get_symbol-below t id (
      AllValues-get (InArena (length t.symbol_arena)) (name, namespace info.kind) id scope.symbols
        inner found) in
    duplicate-ne-panic (get_symbol id t) old at

add_symbol-ne-panic :
    (t : SymbolTable) (node : NodeId) (name : QualifiedName) (kind : SymbolKind)
    (ty : Option RefinedType)
    → IsValid t
    → add_symbol node name kind ty t ≢ panic
unfolding add_symbol
add_symbol-ne-panic t node name kind ty valid = of_name (last_part name.parts)
  where
    of_name :
        (last : Option String)
        → add_named node (record { qualified_name = name; kind = kind; ty = ty }) t last ≢ panic
    of_name none = λ p. cc
    of_name (some simple_name) =
        let info : SymbolInfo = record { qualified_name = name; kind = kind; ty = ty } in
        let (scope, at) =
          get_elem?-below t.scopes t.current_scope (omega (arith, valid.innermost)) in
        λ p.
          add_unless-ne-panic t node simple_name info scope
            (get (simple_name, namespace kind) scope.symbols) valid
            (All-get_elem? (ScopeInArena (length t.symbol_arena)) t.scopes t.current_scope scope
              valid.scoped at)
            refl (sym (ap (add_to node simple_name info t) at) ∙ p)

add_or_report-Runs :
    (t : SymbolTable) (node : NodeId) (name : QualifiedName) (kind : SymbolKind)
    (ty : Option RefinedType) (s : Progress)
    → IsValid (s.0)
    → (s.0).current_scope ≡ t.current_scope
    → Runs t (add_or_report node name kind ty s)
unfolding add_or_report
add_or_report-Runs t node name kind ty (u, errors) valid same =
    elim (Outcome-cases (add_symbol node name kind ty u)) [
      | inl ((id, v), e) ↦
          let (simple_name, scope, named_so, at, free, number, after) =
            add_symbol-eq_ok u v id node name kind ty e in
          let info : SymbolInfo = record { qualified_name = name; kind = kind; ty = ty } in
          (
            (v, errors),
            rw (e, add_or_report) refl,
            subst IsValid (sym after) (with_symbol-IsValid node simple_name info scope u valid at),
            ap (λ x. x.current_scope) after
                ∙ (current_scope-with_symbol node simple_name info scope u ∙ same),
          )
      | inr (inl (why, e)) ↦ ((u, errors ++ why ∷ []), rw (e, add_or_report) refl, valid, same)
      | inr (inr e) ↦ absurd (add_symbol-ne-panic u node name kind ty valid e)
    ]

check_old-table : (ty : Option RefinedType) (s : Progress) → (check_old ty s).0 ≡ s.0
check_old-table none s = refl
check_old-table (some ty) s = elim (Bool-cases (contains_old (constraint ty))) [
  | inl e ↦ rw e
  | inr e ↦ rw e
]

pop_scope-some :
    (u : SymbolTable) (n : ℕ)
    → u.current_scope ≡ suc n
    → pop_scope u ≡ some (record u { scopes = drop_last u.scopes; current_scope = n })
unfolding pop_scope
pop_scope-some u n e =
    ap
      (λ c. checked_pred c >>= λ parent.
        some (record u { scopes = drop_last u.scopes; current_scope = parent }))
      e

leave_scope-Runs :
    (t : SymbolTable) (s : Progress)
    → IsValid (s.0)
    → (s.0).current_scope ≡ suc t.current_scope
    → Runs t (leave_scope s)
leave_scope-Runs t (u, errors) valid same =
    let w : SymbolTable = record u {
      scopes = drop_last u.scopes;
      current_scope = t.current_scope;
    } in
    let popped : pop_scope u ≡ some w = pop_scope-some u t.current_scope same in
    (
      (w, errors),
      ap (λ o. o >>= λ outer. some (outer, errors)) popped,
      pop_scope-IsValid valid popped,
      refl,
    )

current_scope-push_scope :
    (t : SymbolTable) → IsValid t → (push_scope t).current_scope ≡ suc t.current_scope
unfolding push_scope
current_scope-push_scope t valid = omega (arith, valid.innermost)

-- A block in a scope of its own, which is left after it.
scoped-Runs :
    (t : SymbolTable) (s : Progress) (inside : Progress → Option Progress)
    → IsValid (s.0)
    → (s.0).current_scope ≡ t.current_scope
    → Runs (push_scope (s.0)) (inside (enter_scope s))
    → Runs t (inside (enter_scope s) >>= leave_scope)
scoped-Runs t (u, errors) inside valid same (out, e, v, c) =
    rw e (leave_scope-Runs t out v (c ∙ (current_scope-push_scope u valid ∙ ap suc same)))

-- The same, with what follows the block.
scoped-next-Runs :
    (t : SymbolTable) (s : Progress) (inside next : Progress → Option Progress)
    → IsValid (s.0)
    → (s.0).current_scope ≡ t.current_scope
    → Runs (push_scope (s.0)) (inside (enter_scope s))
    → ((out : Progress)
        → IsValid (out.0)
        → (out.0).current_scope ≡ t.current_scope
        → Runs t (next out))
    → Runs t (inside (enter_scope s) >>= λ inner. leave_scope inner >>= next)
scoped-next-Runs t (u, errors) inside next valid same (out, e, v, c) continue = rw e (
    Runs->>= t (leave_scope out) next
      (leave_scope-Runs t out v (c ∙ (current_scope-push_scope u valid ∙ ap suc same))) continue)

declaration-Runs :
    (path : List String) (t : SymbolTable) (i : NodeId) (name : String) (ty : Option RefinedType)
    (e : Expression) (s : Progress)
    → IsValid (s.0)
    → (s.0).current_scope ≡ t.current_scope
    → Runs t (
        resolve_names_in_expression e (check_old ty s) >>= λ x.
        add_or_report i (in_path path name) local_var ty x)
declaration-Runs path t i name ty e s valid same =
    Runs->>= t (resolve_names_in_expression e (check_old ty s))
      (λ x. add_or_report i (in_path path name) local_var ty x)
      (expression-Runs t e (check_old ty s) (rw (check_old-table ty s) valid)
        (ap (λ x. x.current_scope) (check_old-table ty s) ∙ same))
      (λ x v c. add_or_report-Runs t i (in_path path name) local_var ty x v c)

module _ (path : List String) where
  mutual
    unfolding collect_and_resolve_statement

    statement-Runs :
        (t : SymbolTable) (statement : Statement) (s : Progress)
        → IsValid (s.0)
        → (s.0).current_scope ≡ t.current_scope
        → Runs t (collect_and_resolve_statement path statement s)
    statement-Runs t (var_declaration name ty e i sr) s valid same =
        declaration-Runs path t i name ty e s valid same
    statement-Runs t (const_declaration name ty e i sr) s valid same =
        declaration-Runs path t i name ty e s valid same
    statement-Runs t (assignment target e i sr) s valid same =
        Runs->>= t (resolve_names_in_expression e s)
          (λ x. resolve_or i target value (undefined_variable target sr) x)
          (expression-Runs t e s valid same)
          (λ x v c. resolve_or-Runs t i target value (undefined_variable target sr) x v c)
    statement-Runs t (if_then condition then_block i sr) s valid same =
        Runs->>= t (resolve_names_in_expression condition s)
          (λ x. collect_and_resolve_block path then_block (enter_scope x) >>= leave_scope)
          (expression-Runs t condition s valid same)
          (λ x v c.
            scoped-Runs t x (λ y. collect_and_resolve_block path then_block y) v c
              (block-Runs (push_scope (x.0)) then_block (enter_scope x) (push_scope-IsValid v)
                refl))
    statement-Runs t (if_else condition then_block else_block i sr) s valid same =
        Runs->>= t (resolve_names_in_expression condition s) _
          (expression-Runs t condition s valid same)
          (λ x v c.
            scoped-next-Runs t x (λ y. collect_and_resolve_block path then_block y)
              (λ y. collect_and_resolve_block path else_block (enter_scope y) >>= leave_scope) v c
              (block-Runs (push_scope (x.0)) then_block (enter_scope x) (push_scope-IsValid v) refl)
              (λ y w d.
                scoped-Runs t y (λ z. collect_and_resolve_block path else_block z) w d
                  (block-Runs (push_scope (y.0)) else_block (enter_scope y) (push_scope-IsValid w)
                    refl)))
    statement-Runs t (while condition invariants variants body i sr) s valid same =
        Runs->>= t (resolve_names_in_expression condition s)
          (λ x. collect_and_resolve_block path body (enter_scope x) >>= leave_scope)
          (expression-Runs t condition s valid same)
          (λ x v c.
            scoped-Runs t x (λ y. collect_and_resolve_block path body y) v c
              (block-Runs (push_scope (x.0)) body (enter_scope x) (push_scope-IsValid v) refl))
    statement-Runs t (return none i sr) s valid same = (s, refl, valid, same)
    statement-Runs t (return (some e) i sr) s valid same = expression-Runs t e s valid same
    statement-Runs t (expression e i sr) s valid same = expression-Runs t e s valid same

    block-Runs :
        (t : SymbolTable) (block : Block) (s : Progress)
        → IsValid (s.0)
        → (s.0).current_scope ≡ t.current_scope
        → Runs t (collect_and_resolve_block path block s)
    block-Runs t Block.nil s valid same = (s, refl, valid, same)
    block-Runs t (Block.cons statement block) s valid same =
        Runs->>= t (collect_and_resolve_statement path statement s)
          (λ x. collect_and_resolve_block path block x) (statement-Runs t statement s valid same)
          (λ x v c. block-Runs t block x v c)

-- On a valid table a block is resolved without a panic, errors or not, and the table is valid after it,
-- with the current scope that it had: every scope that is opened is left.
pub collect_and_resolve_block-Runs :
    (path : List String) (block : Block) (t : SymbolTable) (errors : List MerakError)
    → IsValid t
    → (u : SymbolTable) × (found : List MerakError) × (collect_and_resolve_block path block
          (t, errors)
        ≡ some (u, found))
      × IsValid u
      × (u.current_scope ≡ t.current_scope)
collect_and_resolve_block-Runs path block t errors valid =
    let ((u, found), runs, after, same) = block-Runs path t block (t, errors) valid refl in
    (u, found, runs, after, same)
