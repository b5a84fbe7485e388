-- ===== src/Symbols/Table/Scoping.antt =====
-- symbols/src/symbol_table.rs: what is declared in a scope, and what is left when it is popped.
use merak.Prelude.{
  ℕ, zero, suc, ◌+◌, ◌≡◌, refl, ap, sym, ◌∙◌, String, Option, none, some, List, [], ◌∷◌, ◌++◌,
  length, get_elem?, set, get_elem?-set_self, length-append, get_elem?-append_last, nat_eq,
  string_eq, arith,
}
use mathlib.Core.Option.{some-injective}
use mathlib.Core.Path.{subst}
use merak.Prelude.Map.{get, get-insert_self}
use merak.Prelude.Partial.{◌>>=◌, >>=-eq-some}
use merak.Prelude.Outcome.{ok}
use merak.Ast.Node.{NodeId}
use merak.Ast.Types.{BaseType, RefinedType}
use merak.Symbols.Id.{SymbolId, named}
use merak.Symbols.Table.Key.{SymbolNamespace, key_eq}
use merak.Symbols.Table.{
  QualifiedName, SymbolKind, namespace, SymbolInfo, Scope, SymbolTable, empty_scope, push_scope,
  pop_scope, drop_last, checked_pred, insert_expr_type, bind, lookup_in, lookup, get_symbol,
  with_symbol, add_symbol, last_part, connect, resolve_reference,
}
use merak.Symbols.Table.Adding.{add_symbol-eq_ok}
use merak.Symbols.Table.Valid.{IsValid}

-- What name resolution does in a scope opened on a table: declarations, uses, types, and scopes within
-- that are closed again.
pub data Inside : SymbolTable → SymbolTable → Type 0 where
  opened : {t : SymbolTable} → Inside t (push_scope t)
  added :
      {t u v : SymbolTable} {id : SymbolId} (node : NodeId) (name : QualifiedName)
      (kind : SymbolKind) (ty : Option RefinedType)
      → Inside t u
      → add_symbol node name kind ty u ≡ ok (id, v)
      → Inside t v
  resolved :
      {t u v : SymbolTable} {found : Option SymbolId} (node : NodeId) (name : String)
      (space : SymbolNamespace)
      → Inside t u
      → resolve_reference node name space u ≡ some (found, v)
      → Inside t v
  typed :
      {t u : SymbolTable} (node : NodeId) (ty : BaseType)
      → Inside t u
      → Inside t (insert_expr_type node ty u)
  nested : {t u v w : SymbolTable} → Inside t u → Inside u v → pop_scope v ≡ some w → Inside t w

-- The scopes of `t`, one more above them, which is the current one.
abbrev IsAbove : SymbolTable → SymbolTable → Type 0
IsAbove t u = (s : Scope) × (u.scopes ≡ t.scopes ++ s ∷ []) × (u.current_scope ≡ length t.scopes)

set-append_last :
    (scopes : List Scope) (s r : Scope)
    → set (scopes ++ s ∷ []) (length scopes) r ≡ scopes ++ r ∷ []
set-append_last [] s r = refl
set-append_last (x ∷ scopes) s r = ap (λ xs. x ∷ xs) (set-append_last scopes s r)

drop_last-append : (scopes : List Scope) (s : Scope) → drop_last (scopes ++ s ∷ []) ≡ scopes
drop_last-append [] s = refl
drop_last-append (x ∷ []) s = refl
drop_last-append (x ∷ y ∷ scopes) s = ap (λ xs. x ∷ xs) (drop_last-append (y ∷ scopes) s)

-- Closing the scope above a table gives its scopes back.
pop_scope-IsAbove :
    (t u : SymbolTable)
    → length t.scopes ≡ t.current_scope + 1
    → IsAbove t u
    → (w : SymbolTable) × (pop_scope u ≡ some w)
      × (w.scopes ≡ t.scopes)
      × (w.current_scope ≡ t.current_scope)
unfolding pop_scope
pop_scope-IsAbove t u inner (s, scopes, current) = (
  record u { scopes = drop_last u.scopes; current_scope = t.current_scope },
  ap
      (λ c. checked_pred c >>= λ parent.
        some (record u { scopes = drop_last u.scopes; current_scope = parent }))
      at,
  ap drop_last scopes ∙ drop_last-append t.scopes s,
  refl,
)
  where
    at : u.current_scope ≡ suc t.current_scope
    at = omega (arith, current, inner)

-- A write to the current scope changes the scope above and no other.
IsAbove-set :
    (t u v : SymbolTable) (r : Scope)
    → IsAbove t u
    → v.scopes ≡ set u.scopes u.current_scope r
    → v.current_scope ≡ u.current_scope
    → IsAbove t v
IsAbove-set t u v r (s, scopes, current) written same = (
  r,
  written
      ∙ (ap (λ n. set u.scopes n r) current
          ∙ (ap (λ xs. set xs (length t.scopes) r) scopes ∙ set-append_last t.scopes s r)),
  same ∙ current,
)

IsAbove-connect :
    (t u : SymbolTable) (node : NodeId) (answer : Option SymbolId)
    → IsAbove t u
    → IsAbove t ((connect node u answer).1)
IsAbove-connect t u node none h = h
IsAbove-connect t u node (some id) h = h

scopes-with_symbol :
    (node : NodeId) (name : String) (info : SymbolInfo) (scope : Scope) (u : SymbolTable)
    → (with_symbol node name info scope u).scopes
      ≡ set u.scopes u.current_scope
          (bind name (namespace info.kind) (named name (length u.symbol_arena)) scope)
unfolding with_symbol
scopes-with_symbol node name info scope u = refl

pub current_scope-with_symbol :
    (node : NodeId) (name : String) (info : SymbolInfo) (scope : Scope) (u : SymbolTable)
    → (with_symbol node name info scope u).current_scope ≡ u.current_scope
unfolding with_symbol
current_scope-with_symbol node name info scope u = refl

Inside-IsAbove : {t u : SymbolTable} → Inside t u → IsAbove t u
unfolding push_scope insert_expr_type resolve_reference
Inside-IsAbove opened = (empty_scope, refl, refl)
Inside-IsAbove (added {t} {u} {v} {id} node name kind ty inside h) =
    let (simple_name, scope, named_so, at, free, number, after) =
      add_symbol-eq_ok u v id node name kind ty h in
    let info : SymbolInfo = record { qualified_name = name; kind = kind; ty = ty } in
    IsAbove-set t u v
      (bind simple_name (namespace kind) (named simple_name (length u.symbol_arena)) scope)
      (Inside-IsAbove inside)
      (ap (λ x. x.scopes) after ∙ scopes-with_symbol node simple_name info scope u)
      (ap (λ x. x.current_scope) after ∙ current_scope-with_symbol node simple_name info scope u)
Inside-IsAbove (resolved {t} {u} {v} {found} node name space inside h) =
    let (answer, looked, done) = >>=-eq-some (lookup name space u) _ h in
    subst (IsAbove t) (ap (λ r. r.1) (some-injective (connect node u answer) (found, v) done))
      (IsAbove-connect t u node answer (Inside-IsAbove inside))
Inside-IsAbove (typed node ty inside) = Inside-IsAbove inside
Inside-IsAbove (nested {t} {u} {v} {w} inside deeper h) =
    let (s, scopes, current) = Inside-IsAbove inside in
    let sized : length u.scopes ≡ u.current_scope + 1 =
      omega (arith, ap length scopes, length-append t.scopes (s ∷ []), current) in
    let (x, closed, back, number) = pop_scope-IsAbove u v sized (Inside-IsAbove deeper) in
    let same : x ≡ w = some-injective x w (sym closed ∙ h) in
    (
      s,
      ap (λ y. y.scopes) (sym same) ∙ (back ∙ scopes),
      ap (λ y. y.current_scope) (sym same) ∙ (number ∙ current),
    )

-- When a scope that was opened on a valid table is closed, the scopes and the current scope are those
-- from before it was opened, whatever was declared or resolved inside and in scopes within it.
pub pop_scope-Inside :
    {t u : SymbolTable}
    → IsValid t
    → Inside t u
    → (w : SymbolTable) × (pop_scope u ≡ some w)
      × (w.scopes ≡ t.scopes)
      × (w.current_scope ≡ t.current_scope)
pop_scope-Inside {t} {u} valid inside =
    pop_scope-IsAbove t u valid.innermost (Inside-IsAbove inside)

-- The name stands in the scope where the search begins.
lookup_in-here :
    (scopes : List Scope) (key : String × SymbolNamespace) (i : ℕ) (scope : Scope) (id : SymbolId)
    → get_elem? scopes i ≡ some scope
    → get key scope.symbols ≡ some id
    → lookup_in scopes key i ≡ some (some id)
unfolding lookup_in
lookup_in-here scopes key zero scope id at here = rw at (ap some here)
lookup_in-here scopes key (suc i) scope id at here =
    rw at (ap (λ o. elim o [ some j ↦ some (some j) | none ↦ lookup_in scopes key i ]) here)

symbols-bind :
    (name : String) (space : SymbolNamespace) (id : SymbolId) (scope : Scope)
    → get (name, space) (bind name space id scope).symbols ≡ some id
symbols-bind name space id scope = get-insert_self (name, space) id scope.symbols

lookup-with_symbol :
    (t : SymbolTable) (node : NodeId) (name : String) (info : SymbolInfo) (scope : Scope)
    → IsValid t
    → lookup name (namespace info.kind) (with_symbol node name info scope t)
      ≡ some (some (named name (length t.symbol_arena)))
unfolding lookup with_symbol
lookup-with_symbol t node name info scope valid =
    let id = named name (length t.symbol_arena) in
    let changed = bind name (namespace info.kind) id scope in
    let at = get_elem?-set_self t.scopes t.current_scope changed (omega (arith, valid.innermost)) in
    let found =
      lookup_in-here (set t.scopes t.current_scope changed) (name, namespace info.kind)
        t.current_scope changed id at (symbols-bind name (namespace info.kind) id scope) in
    rw found refl

get_symbol-with_symbol :
    (t : SymbolTable) (node : NodeId) (name : String) (info : SymbolInfo) (scope : Scope)
    → get_symbol (named name (length t.symbol_arena)) (with_symbol node name info scope t)
      ≡ some info
unfolding get_symbol with_symbol
get_symbol-with_symbol t node name info scope = get_elem?-append_last t.symbol_arena info

-- After a symbol is added its simple name leads to it, in its namespace, and its number leads to what
-- was said of it.
pub lookup-add_symbol :
    (t u : SymbolTable) (id : SymbolId) (node : NodeId) (name : QualifiedName) (kind : SymbolKind)
    (ty : Option RefinedType) (simple_name : String)
    → IsValid t
    → last_part name.parts ≡ some simple_name
    → add_symbol node name kind ty t ≡ ok (id, u)
    → (lookup simple_name (namespace kind) u ≡ some (some id))
      × (get_symbol id u ≡ some (record { qualified_name = name; kind = kind; ty = ty }))
lookup-add_symbol t u id node name kind ty simple_name valid last h =
    let (found_name, scope, named_so, at, free, number, after) =
      add_symbol-eq_ok t u id node name kind ty h in
    let info : SymbolInfo = record { qualified_name = name; kind = kind; ty = ty } in
    let same : found_name ≡ simple_name =
      some-injective found_name simple_name (sym named_so ∙ last) in
    rw (after, number, same)
      (
        lookup-with_symbol t node simple_name info scope valid,
        get_symbol-with_symbol t node simple_name info scope,
      )
