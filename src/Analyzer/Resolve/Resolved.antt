-- ===== src/Analyzer/Resolve/Resolved.antt =====
-- analyzer/src/lib.rs: name resolution of blocks on valid tables, whose methods then do not panic.
use merak.Prelude.{
  ℕ, zero, suc, ◌<◌, ◌≡◌, refl, ap, ◌∙◌, String, Option, none, some, List, length, get_elem?-below,
  nat_eq, arith, Option-cases, inl, inr,
}
use merak.Prelude.Map.{get}
use merak.Prelude.Partial.{◌>>=◌}
use merak.Ast.Node.{NodeId, SourceRef}
use merak.Ast.Expression.{
  Expression, literal, identifier, binary_op, unary_op, grouped, function_call, member_call,
  Arguments,
}
use merak.Errors.{MerakError, undefined_function, undefined_variable}
use merak.Symbols.Id.{SymbolId}
use merak.Symbols.Table.Key.{SymbolNamespace, value, callable, type_space, key_eq}
use merak.Symbols.Table.{
  Scope, SymbolTable, lookup_in, lookup, or_qualified, connect, resolve_reference,
}
use merak.Symbols.Table.Valid.{IsValid, connect-IsValid}
use merak.Analyzer.Resolve.{
  Progress, reported, resolve_or, resolve_type_next, resolve_callee, resolve_names_in_expression,
  resolve_arguments,
}

-- The code returns, with a valid table whose current scope is the one of `t`.
abbrev pub Runs : SymbolTable → Option Progress → Type 0
Runs t m =
    (out : Progress) × (m ≡ some out) × IsValid (out.0) × ((out.0).current_scope ≡ t.current_scope)

pub Runs->>= :
    (t : SymbolTable) (first : Option Progress) (next : Progress → Option Progress)
    → Runs t first
    → ((out : Progress)
        → IsValid (out.0)
        → (out.0).current_scope ≡ t.current_scope
        → Runs t (next out))
    → Runs t (first >>= next)
Runs->>= t first next (out, e, valid, same) continue = rw e (continue out valid same)

lookup_in-total :
    (scopes : List Scope) (key : String × SymbolNamespace) (i : ℕ)
    → i < length scopes
    → (found : Option SymbolId) × (lookup_in scopes key i ≡ some found)
unfolding lookup_in
lookup_in-total scopes key zero h =
    let (scope, at) = get_elem?-below scopes zero h in (get key scope.symbols, rw at refl)
lookup_in-total scopes key (suc i) h =
    let (scope, at) = get_elem?-below scopes (suc i) h in
    let (found, further) = lookup_in-total scopes key i (omega arith) in
    elim (Option-cases (get key scope.symbols)) [
      | inl e ↦ (
        found,
        rw at (
            ap (λ o. elim o [ some j ↦ some (some j) | none ↦ lookup_in scopes key i ]) e
            ∙ further),
      )
      | inr (id, e) ↦ (
        some id,
        rw at (ap (λ o. elim o [ some j ↦ some (some j) | none ↦ lookup_in scopes key i ]) e),
      )
    ]

lookup-total :
    (name : String) (space : SymbolNamespace) (t : SymbolTable)
    → IsValid t
    → (found : Option SymbolId) × (lookup name space t ≡ some found)
unfolding lookup
lookup-total name space t valid =
    let (found, inner) =
      lookup_in-total t.scopes (name, space) t.current_scope (omega (arith, valid.innermost)) in
    (or_qualified t name found, rw inner refl)

current_scope-connect :
    (node : NodeId) (t : SymbolTable) (found : Option SymbolId)
    → (connect node t found).1.current_scope ≡ t.current_scope
current_scope-connect node t none = refl
current_scope-connect node t (some id) = refl

reported-table :
    (e : MerakError) (errors : List MerakError) (r : Option SymbolId × SymbolTable)
    → (reported e errors r).0 ≡ r.1
reported-table e errors (none, t) = refl
reported-table e errors (some id, t) = refl

-- A reference runs, and so does what is done with its answer.
resolve_reference-Runs :
    (t u : SymbolTable) (node : NodeId) (name : String) (space : SymbolNamespace)
    (next : Option SymbolId × SymbolTable → Option Progress)
    → IsValid u
    → u.current_scope ≡ t.current_scope
    → ((r : Option SymbolId × SymbolTable)
        → IsValid (r.1)
        → (r.1).current_scope ≡ t.current_scope
        → Runs t (next r))
    → Runs t (resolve_reference node name space u >>= next)
unfolding resolve_reference
resolve_reference-Runs t u node name space next valid same continue =
    let (found, looked) = lookup-total name space u valid in
    rw looked (
      continue (connect node u found) (connect-IsValid node name space u found valid looked)
        (current_scope-connect node u found ∙ same))

pub resolve_or-Runs :
    (t : SymbolTable) (node : NodeId) (name : String) (space : SymbolNamespace) (e : MerakError)
    (s : Progress)
    → IsValid (s.0)
    → (s.0).current_scope ≡ t.current_scope
    → Runs t (resolve_or node name space e s)
unfolding resolve_or
resolve_or-Runs t node name space e (u, errors) valid same =
    resolve_reference-Runs t u node name space (λ r. some (reported e errors r)) valid same
      (λ r v c. (
        reported e errors r,
        refl,
        rw (reported-table e errors r) v,
        ap (λ x. x.current_scope) (reported-table e errors r) ∙ c,
      ))

resolve_type_next-Runs :
    (t : SymbolTable) (node : NodeId) (name : String) (e : MerakError) (errors : List MerakError)
    (r : Option SymbolId × SymbolTable)
    → IsValid (r.1)
    → (r.1).current_scope ≡ t.current_scope
    → Runs t (resolve_type_next node name e errors r)
resolve_type_next-Runs t node name e errors (some id, u) valid same =
    ((u, errors), refl, valid, same)
resolve_type_next-Runs t node name e errors (none, u) valid same =
    resolve_or-Runs t node name type_space e (u, errors) valid same

resolve_callee-Runs :
    (t : SymbolTable) (node : NodeId) (name : String) (sr : SourceRef) (s : Progress)
    → IsValid (s.0)
    → (s.0).current_scope ≡ t.current_scope
    → Runs t (resolve_callee node name sr s)
unfolding resolve_callee
resolve_callee-Runs t node name sr (u, errors) valid same =
    resolve_reference-Runs t u node name callable
      (λ r. resolve_type_next node name (undefined_function name sr) errors r) valid same
      (λ r v c. resolve_type_next-Runs t node name (undefined_function name sr) errors r v c)

module _ (t : SymbolTable) where
  mutual
    unfolding resolve_names_in_expression

    pub expression-Runs :
        (e : Expression) (s : Progress)
        → IsValid (s.0)
        → (s.0).current_scope ≡ t.current_scope
        → Runs t (resolve_names_in_expression e s)
    expression-Runs (literal lit i sr) s valid same = (s, refl, valid, same)
    expression-Runs (identifier x i sr) s valid same =
        resolve_or-Runs t i x value (undefined_variable x sr) s valid same
    expression-Runs (binary_op l op r i sr) s valid same =
        Runs->>= t (resolve_names_in_expression l s) (λ x. resolve_names_in_expression r x)
          (expression-Runs l s valid same) (λ x v c. expression-Runs r x v c)
    expression-Runs (unary_op op e i sr) s valid same = expression-Runs e s valid same
    expression-Runs (grouped e i sr) s valid same = expression-Runs e s valid same
    expression-Runs (function_call f args i sr) s valid same =
        Runs->>= t (resolve_callee i f sr s) (λ x. resolve_arguments args x)
          (resolve_callee-Runs t i f sr s valid same) (λ x v c. arguments-Runs args x v c)
    expression-Runs (member_call e f args i sr) s valid same =
        Runs->>= t (resolve_names_in_expression e s) (λ x. resolve_arguments args x)
          (expression-Runs e s valid same) (λ x v c. arguments-Runs args x v c)

    pub arguments-Runs :
        (es : Arguments) (s : Progress)
        → IsValid (s.0)
        → (s.0).current_scope ≡ t.current_scope
        → Runs t (resolve_arguments es s)
    arguments-Runs Arguments.nil s valid same = (s, refl, valid, same)
    arguments-Runs (Arguments.cons e es) s valid same =
        Runs->>= t (resolve_names_in_expression e s) (λ x. resolve_arguments es x)
          (expression-Runs e s valid same) (λ x v c. arguments-Runs es x v c)
