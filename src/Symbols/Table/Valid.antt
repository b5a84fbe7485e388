-- ===== src/Symbols/Table/Valid.antt =====
-- symbols/src/symbol_table.rs: the invariant of a symbol table, method by method.
use merak.Prelude.{
  ℕ, zero, suc, ◌+◌, ◌-◌, ◌<◌, ◌⊎◌, ◌≡◌, refl, ap, sym, ◌∙◌, ◌≤◌, String, Option, none, some, List,
  [], ◌∷◌, ◌++◌, length, get_elem?, set, All, All-append, All-map, All-get_elem?, All-set,
  length-set, length-append, nat_eq, string_eq, arith, Option-cases, inl, inr,
}
use mathlib.Core.Option.{some-injective}
use mathlib.Core.Path.{subst}
use merak.Prelude.Map.{get, AllValues, AllValues-get, AllValues-insert, AllValues-map}
use merak.Prelude.Partial.{>>=-eq-some}
use merak.Prelude.Outcome.{ok, ok-injective}
use merak.Ast.Node.{NodeId}
use merak.Ast.Types.{BaseType, RefinedType}
use merak.Symbols.Id.{SymbolId, named, as_usize}
use merak.Symbols.Table.Key.{SymbolNamespace, key_eq}
use merak.Symbols.Table.{
  QualifiedName, SymbolKind, namespace, qualified, SymbolInfo, Scope, SymbolTable, empty_scope,
  empty_table, push_scope, pop_scope, drop_last, checked_pred, clean_scopes, insert_expr_type,
  insert_symbol, bind, lookup_in, lookup, or_qualified, get_symbol, with_symbol, add_symbol,
  connect, retype, retype_node, resolve_reference, update_type,
}
use merak.Symbols.Table.Adding.{add_symbol-eq_ok}

-- The number of a symbol is an index of an arena of `n` symbols.
abbrev pub InArena : ℕ → SymbolId → Type 0
InArena n id = as_usize id < n

abbrev pub ScopeInArena : ℕ → Scope → Type 0
ScopeInArena n scope = AllValues (InArena n) scope.symbols

-- The current scope is the last one, and every symbol that a scope or a map holds is in the arena.
pub record IsValid (t : SymbolTable) : Type 0 where
  pub innermost : length t.scopes ≡ t.current_scope + 1
  pub scoped : All (ScopeInArena (length t.symbol_arena)) t.scopes
  pub noded : AllValues (InArena (length t.symbol_arena)) t.node_to_symbol
  pub named_ok : AllValues (InArena (length t.symbol_arena)) t.qualified_names_to_symbol

-- The tables that the methods make of a new one.
pub data Built : SymbolTable → Type 0 where
  new : Built empty_table
  pushed : {t : SymbolTable} → Built t → Built (push_scope t)
  popped : {t u : SymbolTable} → Built t → pop_scope t ≡ some u → Built u
  cleaned : {t : SymbolTable} → Built t → Built (clean_scopes t)
  typed :
      {t : SymbolTable} (node : NodeId) (ty : BaseType)
      → Built t
      → Built (insert_expr_type node ty t)
  aliased :
      {t u : SymbolTable} {id : SymbolId} (name alias : String) (space : SymbolNamespace)
      → Built t
      → lookup name space t ≡ some (some id)
      → insert_symbol alias space id t ≡ some u
      → Built u
  added :
      {t u : SymbolTable} {id : SymbolId} (node : NodeId) (name : QualifiedName) (kind : SymbolKind)
      (ty : Option RefinedType)
      → Built t
      → add_symbol node name kind ty t ≡ ok (id, u)
      → Built u
  resolved :
      {t u : SymbolTable} {found : Option SymbolId} (node : NodeId) (name : String)
      (space : SymbolNamespace)
      → Built t
      → resolve_reference node name space t ≡ some (found, u)
      → Built u
  updated :
      {t u : SymbolTable} (node : NodeId) (ty : RefinedType)
      → Built t
      → update_type node ty t ≡ ok u
      → Built u

pub push_scope-IsValid : {t : SymbolTable} → IsValid t → IsValid (push_scope t)
unfolding push_scope
push_scope-IsValid {t} v = record {
  innermost = omega (arith, length-append t.scopes (empty_scope ∷ []));
  scoped =
      All-append (ScopeInArena (length t.symbol_arena)) t.scopes (empty_scope ∷ []) v.scoped
        (tt, tt);
  noded = v.noded;
  named_ok = v.named_ok;
}

length-drop_last : (scopes : List Scope) → length (drop_last scopes) ≡ length scopes - 1
length-drop_last [] = refl
length-drop_last (s ∷ []) = refl
length-drop_last (s ∷ r ∷ scopes) = omega (arith, length-drop_last (r ∷ scopes))

checked_pred-eq_some : (n p : ℕ) → checked_pred n ≡ some p → n ≡ p + 1
checked_pred-eq_some zero p h = absurd (cc)
checked_pred-eq_some (suc n) p h = omega (arith, some-injective n p h)

All-drop_last : (P : Scope → Type 0) (scopes : List Scope) → All P scopes → All P (drop_last scopes)
All-drop_last P [] h = tt
All-drop_last P (s ∷ []) h = tt
All-drop_last P (s ∷ r ∷ scopes) (p, h) = (p, All-drop_last P (r ∷ scopes) h)

pub pop_scope-IsValid : {t u : SymbolTable} → IsValid t → pop_scope t ≡ some u → IsValid u
unfolding pop_scope
pop_scope-IsValid {t} {u} v h =
    let (parent, below, done) = >>=-eq-some (checked_pred t.current_scope) _ h in
    subst IsValid
      (some-injective (record t { scopes = drop_last t.scopes; current_scope = parent }) u done)
      (record {
        innermost = omega (
          arith,
          v.innermost,
          length-drop_last t.scopes,
          checked_pred-eq_some t.current_scope parent below,
        );
        scoped = All-drop_last (ScopeInArena (length t.symbol_arena)) t.scopes v.scoped;
        noded = v.noded;
        named_ok = v.named_ok;
      })

clean_scopes-IsValid : {t : SymbolTable} → IsValid t → IsValid (clean_scopes t)
unfolding clean_scopes
clean_scopes-IsValid v = record {
  innermost = omega arith;
  scoped = (tt, tt);
  noded = v.noded;
  named_ok = v.named_ok;
}

-- A scope answers, or the next one outwards does.
pub lookup_step :
    (here : Option SymbolId) (rest : Option (Option SymbolId)) (id : SymbolId)
    → elim here [ some j ↦ some (some j) | none ↦ rest ] ≡ some (some id)
    → (here ≡ some id) ⊎ (rest ≡ some (some id))
lookup_step none rest id h = inr h
lookup_step (some j) rest id h = inl (some-injective (some j) (some id) h)

insert_expr_type-IsValid :
    {t : SymbolTable} (node : NodeId) (ty : BaseType)
    → IsValid t
    → IsValid (insert_expr_type node ty t)
unfolding insert_expr_type
insert_expr_type-IsValid node ty v = record {
  innermost = v.innermost;
  scoped = v.scoped;
  noded = v.noded;
  named_ok = v.named_ok;
}

-- A symbol that a name leads to is in the arena.
lookup_in-InArena :
    (n : ℕ) (scopes : List Scope) (key : String × SymbolNamespace) (i : ℕ) (id : SymbolId)
    → All (ScopeInArena n) scopes
    → lookup_in scopes key i ≡ some (some id)
    → InArena n id
unfolding lookup_in
lookup_in-InArena n scopes key zero id h found =
    let (scope, at, done) = >>=-eq-some (get_elem? scopes zero) _ found in
    AllValues-get (InArena n) key id scope.symbols
      (All-get_elem? (ScopeInArena n) scopes zero scope h at)
      (some-injective (get key scope.symbols) (some id) done)
lookup_in-InArena n scopes key (suc i) id h found =
    let (scope, at, done) = >>=-eq-some (get_elem? scopes (suc i)) _ found in
    elim (lookup_step (get key scope.symbols) (lookup_in scopes key i) id done) [
      | inr further ↦ lookup_in-InArena n scopes key i id h further
      | inl here ↦
          AllValues-get (InArena n) key id scope.symbols
            (All-get_elem? (ScopeInArena n) scopes (suc i) scope h at) here
    ]

lookup-InArena :
    (t : SymbolTable) (name : String) (space : SymbolNamespace) (id : SymbolId)
    → IsValid t
    → lookup name space t ≡ some (some id)
    → InArena (length t.symbol_arena) id
unfolding lookup
lookup-InArena t name space id v h =
    let (found, inner, done) = >>=-eq-some (lookup_in t.scopes (name, space) t.current_scope) _ h in
    from found inner (some-injective (or_qualified t name found) (some id) done)
  where
    from :
        (found : Option SymbolId)
        → lookup_in t.scopes (name, space) t.current_scope ≡ some found
        → or_qualified t name found ≡ some id
        → InArena (length t.symbol_arena) id
    from none inner done =
        AllValues-get (InArena (length t.symbol_arena)) name id t.qualified_names_to_symbol
          v.named_ok done
    from (some j) inner done =
        lookup_in-InArena (length t.symbol_arena) t.scopes (name, space) t.current_scope id v.scoped
          (inner ∙ ap some done)

-- What stands in an arena stands in a larger one.
module _ (n m : ℕ) (le : n ≤ m) where
  InArena-le : (id : SymbolId) → InArena n id → InArena m id
  InArena-le id h = omega (arith, le, h)

  ScopeInArena-le : (scope : Scope) → ScopeInArena n scope → ScopeInArena m scope
  ScopeInArena-le scope h = AllValues-map (InArena n) (InArena m) InArena-le scope.symbols h

insert_symbol-IsValid :
    {t u : SymbolTable} (name : String) (space : SymbolNamespace) (id : SymbolId)
    → IsValid t
    → InArena (length t.symbol_arena) id
    → insert_symbol name space id t ≡ some u
    → IsValid u
unfolding insert_symbol
insert_symbol-IsValid {t} {u} name space id v q h =
    let (scope, at, done) = >>=-eq-some (get_elem? t.scopes t.current_scope) _ h in
    let P = ScopeInArena (length t.symbol_arena) in
    let inner = All-get_elem? P t.scopes t.current_scope scope v.scoped at in
    subst IsValid
      (some-injective
        (record t { scopes = set t.scopes t.current_scope (bind name space id scope) }) u done)
      (record {
        innermost = length-set t.scopes t.current_scope (bind name space id scope) ∙ v.innermost;
        scoped = All-set P t.scopes t.current_scope (bind name space id scope) v.scoped (
            AllValues-insert (InArena (length t.symbol_arena)) (name, space) id scope.symbols q
              inner);
        noded = v.noded;
        named_ok = v.named_ok;
      })

pub connect-IsValid :
    (node : NodeId) (name : String) (space : SymbolNamespace) (t : SymbolTable)
    (found : Option SymbolId)
    → IsValid t
    → lookup name space t ≡ some found
    → IsValid ((connect node t found).1)
connect-IsValid node name space t none v looked = v
connect-IsValid node name space t (some id) v looked = record {
  innermost = v.innermost;
  scoped = v.scoped;
  noded =
      AllValues-insert (InArena (length t.symbol_arena)) node id t.node_to_symbol
        (lookup-InArena t name space id v looked) v.noded;
  named_ok = v.named_ok;
}

resolve_reference-IsValid :
    {t u : SymbolTable} {found : Option SymbolId} (node : NodeId) (name : String)
    (space : SymbolNamespace)
    → IsValid t
    → resolve_reference node name space t ≡ some (found, u)
    → IsValid u
unfolding resolve_reference
resolve_reference-IsValid {t} {u} {found} node name space v h =
    let (answer, looked, done) = >>=-eq-some (lookup name space t) _ h in
    subst IsValid (ap (λ r. r.1) (some-injective (connect node t answer) (found, u) done))
      (connect-IsValid node name space t answer v looked)

retype-IsValid :
    (ty : RefinedType) (t u : SymbolTable) (id : SymbolId) (info : Option SymbolInfo)
    → IsValid t
    → retype ty t id info ≡ ok u
    → IsValid u
retype-IsValid ty t u id none v h = absurd (cc)
retype-IsValid ty t u id (some info) v h =
    let arena = set t.symbol_arena (as_usize id) (record info { ty = some ty }) in
    let same : length t.symbol_arena ≡ length arena =
      sym (length-set t.symbol_arena (as_usize id) (record info { ty = some ty })) in
    subst IsValid (ok-injective (record t { symbol_arena = arena }) u h) (record {
      innermost = v.innermost;
      scoped = subst (λ n. All (ScopeInArena n) t.scopes) same v.scoped;
      noded = subst (λ n. AllValues (InArena n) t.node_to_symbol) same v.noded;
      named_ok = subst (λ n. AllValues (InArena n) t.qualified_names_to_symbol) same v.named_ok;
    })

update_type-IsValid :
    {t u : SymbolTable} (node : NodeId) (ty : RefinedType)
    → IsValid t
    → update_type node ty t ≡ ok u
    → IsValid u
unfolding update_type
update_type-IsValid {t} {u} node ty v h = elim (Option-cases (get node t.node_to_symbol)) [
  | inl e ↦ absurd (cc)
  | inr (id, e) ↦ retype-IsValid ty t u id (get_symbol id t) v (sym (ap (retype_node ty t) e) ∙ h)
]

pub with_symbol-IsValid :
    (node : NodeId) (simple_name : String) (info : SymbolInfo) (scope : Scope) (t : SymbolTable)
    → IsValid t
    → get_elem? t.scopes t.current_scope ≡ some scope
    → IsValid (with_symbol node simple_name info scope t)
unfolding with_symbol
with_symbol-IsValid node simple_name info scope t v at =
    let n = length t.symbol_arena in
    let m = length (t.symbol_arena ++ info ∷ []) in
    let more : m ≡ n + 1 = length-append t.symbol_arena (info ∷ []) in
    let le : n ≤ m = omega (arith, more) in
    let fresh : n < m = omega (arith, more) in
    let id = named simple_name n in
    let scopes_le =
      All-map (ScopeInArena n) (ScopeInArena m) (ScopeInArena-le n m le) t.scopes v.scoped in
    let inner = All-get_elem? (ScopeInArena m) t.scopes t.current_scope scope scopes_le at in
    let changed = bind simple_name (namespace info.kind) id scope in
    record {
      innermost = length-set t.scopes t.current_scope changed ∙ v.innermost;
      scoped = All-set (ScopeInArena m) t.scopes t.current_scope changed scopes_le (
          AllValues-insert (InArena m) (simple_name, namespace info.kind) id scope.symbols fresh
            inner);
      noded =
          AllValues-insert (InArena m) node id t.node_to_symbol fresh
            (AllValues-map (InArena n) (InArena m) (InArena-le n m le) t.node_to_symbol v.noded);
      named_ok =
          AllValues-insert (InArena m) (qualified info.qualified_name) id
            t.qualified_names_to_symbol fresh
            (AllValues-map (InArena n) (InArena m) (InArena-le n m le) t.qualified_names_to_symbol
              v.named_ok);
    }

-- Every table that the methods make of a new one is valid: its current scope is its last, and each
-- symbol that a scope, a node or a qualified name leads to is in the arena.
pub Built-IsValid : {t : SymbolTable} → Built t → IsValid t
Built-IsValid new = record { innermost = omega arith; scoped = (tt, tt); noded = tt; named_ok = tt }
Built-IsValid (pushed b) = push_scope-IsValid (Built-IsValid b)
Built-IsValid (popped b h) = pop_scope-IsValid (Built-IsValid b) h
Built-IsValid (cleaned b) = clean_scopes-IsValid (Built-IsValid b)
Built-IsValid (typed node ty b) = insert_expr_type-IsValid node ty (Built-IsValid b)
Built-IsValid (aliased {t} {u} {id} name alias space b found h) =
    insert_symbol-IsValid alias space id (Built-IsValid b)
      (lookup-InArena t name space id (Built-IsValid b) found) h
Built-IsValid (added {t} {u} {id} node name kind ty b h) =
    let (simple_name, scope, named_so, at, free, number, after) =
      add_symbol-eq_ok t u id node name kind ty h in
    subst IsValid (sym after) (
      with_symbol-IsValid node simple_name (record { qualified_name = name; kind = kind; ty = ty })
        scope t (Built-IsValid b) at)
Built-IsValid (resolved node name space b h) =
    resolve_reference-IsValid node name space (Built-IsValid b) h
Built-IsValid (updated node ty b h) = update_type-IsValid node ty (Built-IsValid b) h
