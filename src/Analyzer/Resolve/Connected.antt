-- ===== src/Analyzer/Resolve/Connected.antt =====
-- analyzer/src/lib.rs: the nodes that the resolution of an expression connects to symbols.
use merak.Prelude.{
  ◌≤◌, ◌≡◌, refl, ap, ◌∙◌, String, Option, none, some, List, [], ◌∷◌, length, length-append, nat_eq,
  arith, Bool-cases, inl, inr,
}
use mathlib.Core.Option.{some-injective}
use mathlib.Core.Path.{subst}
use merak.Prelude.Map.{get, get-insert, get-insert_self}
use merak.Prelude.Partial.{>>=-eq-some}
use merak.Ast.Node.{NodeId, SourceRef}
use merak.Ast.Expression.{
  Expression, literal, identifier, binary_op, unary_op, grouped, function_call, member_call,
  Arguments,
}
use merak.Errors.{MerakError, undefined_function, undefined_variable}
use merak.Symbols.Id.{SymbolId}
use merak.Symbols.Table.Key.{SymbolNamespace, value, callable, type_space}
use merak.Symbols.Table.{SymbolTable, lookup, connect, resolve_reference}
use merak.Analyzer.Resolve.{
  Progress, reported, resolve_or, resolve_type_next, resolve_callee, resolve_names_in_expression,
  resolve_arguments,
}

-- The node is connected to a symbol.
abbrev pub HasSymbol : SymbolTable → NodeId → Type 0
HasSymbol t node = (id : SymbolId) × (get node t.node_to_symbol ≡ some id)

-- Every name that the type checker looks up by its node is connected. The method of a member call is not:
-- its node is connected when its object has a type.
abbrev mutual
  pub IsConnected : SymbolTable → Expression → Type 0
  IsConnected t (literal lit i sr) = Unit
  IsConnected t (identifier x i sr) = HasSymbol t i
  IsConnected t (binary_op l op r i sr) = IsConnected t l × IsConnected t r
  IsConnected t (unary_op op e i sr) = IsConnected t e
  IsConnected t (grouped e i sr) = IsConnected t e
  IsConnected t (function_call f args i sr) = HasSymbol t i × AreConnected t args
  IsConnected t (member_call e f args i sr) = IsConnected t e × AreConnected t args

  pub AreConnected : SymbolTable → Arguments → Type 0
  AreConnected t Arguments.nil = Unit
  AreConnected t (Arguments.cons e es) = IsConnected t e × AreConnected t es

-- What is connected stays so.
abbrev pub Extends : SymbolTable → SymbolTable → Type 0
Extends t u = (node : NodeId) → HasSymbol t node → HasSymbol u node

mutual
  pub IsConnected-Extends :
      (t u : SymbolTable) → Extends t u → (e : Expression) → IsConnected t e → IsConnected u e
  IsConnected-Extends t u more (literal lit i sr) h = tt
  IsConnected-Extends t u more (identifier x i sr) h = more i h
  IsConnected-Extends t u more (binary_op l op r i sr) (h, k) =
      (IsConnected-Extends t u more l h, IsConnected-Extends t u more r k)
  IsConnected-Extends t u more (unary_op op e i sr) h = IsConnected-Extends t u more e h
  IsConnected-Extends t u more (grouped e i sr) h = IsConnected-Extends t u more e h
  IsConnected-Extends t u more (function_call f args i sr) (h, k) =
      (more i h, AreConnected-Extends t u more args k)
  IsConnected-Extends t u more (member_call e f args i sr) (h, k) =
      (IsConnected-Extends t u more e h, AreConnected-Extends t u more args k)

  pub AreConnected-Extends :
      (t u : SymbolTable) → Extends t u → (es : Arguments) → AreConnected t es → AreConnected u es
  AreConnected-Extends t u more Arguments.nil h = tt
  AreConnected-Extends t u more (Arguments.cons e es) (h, k) =
      (IsConnected-Extends t u more e h, AreConnected-Extends t u more es k)

-- From one state to the next nothing is disconnected, errors are only added, and with no new error `P`
-- holds of the table.
abbrev Links : (SymbolTable → Type 0) → Progress → Progress → Type 0
Links P s out =
    Extends (s.0) (out.0)
    × (length (s.1) ≤ length (out.1))
    × (length (out.1) ≤ length (s.1) → P (out.0))

Links-trans :
    (P Q : SymbolTable → Type 0)
    → ((t u : SymbolTable) → Extends t u → P t → P u)
    → (s mid out : Progress) → Links P s mid
    → Links Q mid out
    → Links (λ t. P t × Q t) s out
Links-trans P Q grows s mid out (more, le, p) (more', le', q) = (
  λ node h. more' node (more node h),
  omega (arith, le, le'),
  λ quiet. (
    grows (mid.0) (out.0) more' (p (omega (arith, quiet, le, le'))),
    q (omega (arith, quiet, le, le')),
  ),
)

Extends-connect :
    (t : SymbolTable) (node : NodeId) (found : Option SymbolId)
    → Extends t ((connect node t found).1)
Extends-connect t node none k h = h
Extends-connect t node (some id) k (old, h) = elim (Bool-cases (nat_eq.same node k)) [
  | inl e ↦ (id, rw (get-insert, e) refl)
  | inr e ↦ (old, rw (get-insert, e) h)
]

HasSymbol-connect :
    (t : SymbolTable) (node : NodeId) (id : SymbolId)
    → HasSymbol ((connect node t (some id)).1) node
HasSymbol-connect t node id = (id, get-insert_self node id t.node_to_symbol)

-- One reference, and the error that it may add.
connect-Links :
    (t : SymbolTable) (node : NodeId) (e : MerakError) (errors : List MerakError)
    (found : Option SymbolId)
    → Links (λ u. HasSymbol u node) (t, errors) (reported e errors (connect node t found))
connect-Links t node e errors none = (
  λ k h. h,
  omega (arith, length-append errors (e ∷ [])),
  λ quiet. absurd (omega (arith, quiet, length-append errors (e ∷ []))),
)
connect-Links t node e errors (some id) =
    (Extends-connect t node (some id), omega arith, λ quiet. HasSymbol-connect t node id)

resolve_or-Links :
    (node : NodeId) (name : String) (space : SymbolNamespace) (e : MerakError) (s out : Progress)
    → resolve_or node name space e s ≡ some out
    → Links (λ u. HasSymbol u node) s out
unfolding resolve_or resolve_reference
resolve_or-Links node name space e (t, errors) out h =
    let (r, resolved, done) = >>=-eq-some (resolve_reference node name space t) _ h in
    let (found, looked, connected) = >>=-eq-some (lookup name space t) _ resolved in
    subst (Links (λ u. HasSymbol u node) (t, errors))
      (ap (reported e errors) (some-injective (connect node t found) r connected)
        ∙ some-injective (reported e errors r) out done)
      (connect-Links t node e errors found)

callee-Links :
    (t : SymbolTable) (node : NodeId) (name : String) (e : MerakError) (errors : List MerakError)
    (found : Option SymbolId) (out : Progress)
    → resolve_type_next node name e errors (connect node t found) ≡ some out
    → Links (λ u. HasSymbol u node) (t, errors) out
callee-Links t node name e errors none out h =
    resolve_or-Links node name type_space e (t, errors) out h
callee-Links t node name e errors (some id) out h =
    subst (Links (λ u. HasSymbol u node) (t, errors))
      (some-injective ((connect node t (some id)).1, errors) out h)
      (Extends-connect t node (some id), omega arith, λ quiet. HasSymbol-connect t node id)

resolve_callee-Links :
    (node : NodeId) (name : String) (sr : SourceRef) (s out : Progress)
    → resolve_callee node name sr s ≡ some out
    → Links (λ u. HasSymbol u node) s out
unfolding resolve_callee resolve_reference
resolve_callee-Links node name sr (t, errors) out h =
    let (r, resolved, done) = >>=-eq-some (resolve_reference node name callable t) _ h in
    let (found, looked, connected) = >>=-eq-some (lookup name callable t) _ resolved in
    callee-Links t node name (undefined_function name sr) errors found out (
      ap (resolve_type_next node name (undefined_function name sr) errors)
        (some-injective (connect node t found) r connected)
      ∙ done)

mutual
  unfolding resolve_names_in_expression

  expression-Links :
      (e : Expression) (s out : Progress)
      → resolve_names_in_expression e s ≡ some out
      → Links (λ t. IsConnected t e) s out
  expression-Links (literal lit i sr) s out h =
      subst (Links (λ t. Unit) s) (some-injective s out h) (λ k p. p, omega arith, λ quiet. tt)
  expression-Links (identifier x i sr) s out h =
      resolve_or-Links i x value (undefined_variable x sr) s out h
  expression-Links (binary_op l op r i sr) s out h =
      let (mid, first, next) = >>=-eq-some (resolve_names_in_expression l s) _ h in
      Links-trans (λ t. IsConnected t l) (λ t. IsConnected t r)
        (λ t u more p. IsConnected-Extends t u more l p) s mid out (expression-Links l s mid first)
        (expression-Links r mid out next)
  expression-Links (unary_op op e i sr) s out h = expression-Links e s out h
  expression-Links (grouped e i sr) s out h = expression-Links e s out h
  expression-Links (function_call f args i sr) s out h =
      let (mid, first, next) = >>=-eq-some (resolve_callee i f sr s) _ h in
      Links-trans (λ t. HasSymbol t i) (λ t. AreConnected t args) (λ t u more p. more i p) s mid out
        (resolve_callee-Links i f sr s mid first) (arguments-Links args mid out next)
  expression-Links (member_call e f args i sr) s out h =
      let (mid, first, next) = >>=-eq-some (resolve_names_in_expression e s) _ h in
      Links-trans (λ t. IsConnected t e) (λ t. AreConnected t args)
        (λ t u more p. IsConnected-Extends t u more e p) s mid out (expression-Links e s mid first)
        (arguments-Links args mid out next)

  arguments-Links :
      (es : Arguments) (s out : Progress)
      → resolve_arguments es s ≡ some out
      → Links (λ t. AreConnected t es) s out
  arguments-Links Arguments.nil s out h =
      subst (Links (λ t. Unit) s) (some-injective s out h) (λ k p. p, omega arith, λ quiet. tt)
  arguments-Links (Arguments.cons e es) s out h =
      let (mid, first, next) = >>=-eq-some (resolve_names_in_expression e s) _ h in
      Links-trans (λ t. IsConnected t e) (λ t. AreConnected t es)
        (λ t u more p. IsConnected-Extends t u more e p) s mid out (expression-Links e s mid first)
        (arguments-Links es mid out next)

-- Where the names of an expression are resolved with no new error, each identifier and each callee in it
-- is connected to a symbol.
pub resolve_names_in_expression-IsConnected :
    (e : Expression) (t u : SymbolTable) (errors : List MerakError)
    → resolve_names_in_expression e (t, errors) ≡ some (u, errors)
    → IsConnected u e
resolve_names_in_expression-IsConnected e t u errors h =
    (expression-Links e (t, errors) (u, errors) h).2 (omega arith)
