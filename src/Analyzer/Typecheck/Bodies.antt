-- ===== src/Analyzer/Typecheck/Bodies.antt =====
-- analyzer/src/typechecker.rs: the conditions and the returns of a checked body.
use merak.Prelude.{String, ◌≡◌, refl, sym, ◌∙◌, arith, true, Option, none, some}
use mathlib.Core.Path.{subst}
use merak.Prelude.Outcome.{ok, >>=-eq-ok, ok-injective}
use merak.Ast.Node.{NodeId, SourceRef}
use merak.Ast.Expression.{Expression}
use merak.Ast.Types.{BaseType, bool, RefinedType, base}
use merak.Ast.Statement.{
  Statement, if_then, if_else, while, return, assignment, var_declaration, const_declaration, Block,
}
use merak.Symbols.Table.{SymbolInfo, SymbolTable}
use merak.Analyzer.Typecheck.{
  infer_basetype, check_basetype, check_condition, is_pure_logical, symbol_of, expect_type,
}
use merak.Analyzer.Typecheck.Statements.{
  check_expression, check_test, check_return, check_declaration, check_assignment, check_statement,
  check_block,
}
use merak.Analyzer.Typecheck.Typing.{HasType, IsAssignable}
use merak.Analyzer.Typecheck.Sound.{
  infer_basetype_sound, check_basetype_sound, symbol_of-SameSymbols,
}

-- In the table `t` an expression without method calls has the type.
abbrev pub Fits : SymbolTable → Expression → BaseType → Type 0
Fits t e ty = is_pure_logical e ≡ true → HasType t e ty

abbrev pub IsCondition : SymbolTable → Expression → Type 0
IsCondition t c = (is_pure_logical c ≡ true) × HasType t c bool

abbrev pub ReturnRule : Option RefinedType → Option Expression → SymbolTable → Type 0
ReturnRule (some expected) (some e) t = Fits t e (base expected) × IsAssignable (base expected)
ReturnRule none none t = Unit
ReturnRule expected e t = ⊥

-- A declaration with a type; one without a type takes that of its value.
abbrev pub DeclarationRule : Option RefinedType → Expression → SymbolTable → Type 0
DeclarationRule (some ty) e t = Fits t e (base ty) × IsAssignable (base ty)
DeclarationRule none e t = Unit

-- The type of the symbol that is assigned, for a value without method calls.
abbrev pub AssignmentRule : Expression → NodeId → SymbolTable → Type 0
AssignmentRule e i t =
    is_pure_logical e ≡ true
    → (info : SymbolInfo) × (declared : RefinedType) × (symbol_of i t ≡ ok info)
      × (info.ty ≡ some declared)
      × HasType t e (base declared)
      × IsAssignable (base declared)

-- At every depth a test is a condition, and what is returned, declared or assigned has its type, each in
-- the table that the checker has there: the one that the checks before it answer.
abbrev mutual
  pub StatementRule : Option RefinedType → Statement → SymbolTable → Type 0
  StatementRule expected (if_then c then_block i sr) t =
      IsCondition t c
      × (u : SymbolTable) × (check_test sr c t ≡ ok u)
      × BlockRule expected then_block u
  StatementRule expected (if_else c then_block else_block i sr) t =
      IsCondition t c
      × (u : SymbolTable) × (check_test sr c t ≡ ok u)
      × BlockRule expected then_block u
      × (v : SymbolTable) × (check_block expected then_block u ≡ ok v)
      × BlockRule expected else_block v
  StatementRule expected (while c invariants variants body i sr) t =
      IsCondition t c × (u : SymbolTable) × (check_test sr c t ≡ ok u) × BlockRule expected body u
  StatementRule expected (return e i sr) t = ReturnRule expected e t
  StatementRule expected (assignment target e i sr) t = AssignmentRule e i t
  StatementRule expected (var_declaration name ty e i sr) t = DeclarationRule ty e t
  StatementRule expected (const_declaration name ty e i sr) t = DeclarationRule ty e t
  StatementRule expected (Statement.expression e i sr) t = Unit

  pub BlockRule : Option RefinedType → Block → SymbolTable → Type 0
  BlockRule expected Block.nil t = Unit
  BlockRule expected (Block.cons statement block) t =
      StatementRule expected statement t
      × (u : SymbolTable) × (check_statement expected statement t ≡ ok u)
      × BlockRule expected block u

check_condition_sound :
    (e : Expression) (o : Unit {0}) → check_condition e ≡ ok o → is_pure_logical e ≡ true
unfolding check_condition
check_condition_sound e o h = ground arith

check_expression_sound :
    (at : SourceRef) (e : Expression) (expected : BaseType) (t u : SymbolTable)
    → check_expression at e expected t ≡ ok u
    → Fits t e expected × IsAssignable expected
unfolding check_expression
check_expression_sound at e expected t u h =
    let ((inferred, v), infers, h₁) = >>=-eq-ok (infer_basetype at e t) _ h in
    let (o, fits, h₂) = >>=-eq-ok (check_basetype at inferred expected) _ h₁ in
    let (same, assignable) = check_basetype_sound at inferred expected o fits in
    (
      λ pure. subst (HasType t e) same ((infer_basetype_sound at e t v inferred pure infers).0),
      assignable,
    )

check_test_sound :
    (at : SourceRef) (e : Expression) (t u : SymbolTable)
    → check_test at e t ≡ ok u
    → IsCondition t e
unfolding check_test
check_test_sound at e t u h =
    let (o, condition, h₁) = >>=-eq-ok (check_condition e) _ h in
    let pure = check_condition_sound e o condition in
    (pure, (check_expression_sound at e bool t u h₁).0 pure)

check_return_sound :
    (sr : SourceRef) (e : Option Expression) (expected : Option RefinedType) (t u : SymbolTable)
    → check_return sr e expected t ≡ ok u
    → ReturnRule expected e t
unfolding check_return
check_return_sound sr (some e) (some expected) t u h =
    check_expression_sound sr e (base expected) t u h
check_return_sound sr none none t u h = tt
check_return_sound sr (some e) none t u h =
    let ((inferred, v), infers, h₁) = >>=-eq-ok (infer_basetype sr e t) _ h in absurd (cc)
check_return_sound sr none (some expected) t u h = absurd (cc)

check_declaration_sound :
    (name : String) (ty : Option RefinedType) (e : Expression) (i : NodeId) (sr : SourceRef)
    (t u : SymbolTable)
    → check_declaration name ty e i sr t ≡ ok u
    → DeclarationRule ty e t
unfolding check_declaration
check_declaration_sound name (some ty) e i sr t u h = check_expression_sound sr e (base ty) t u h
check_declaration_sound name none e i sr t u h = tt

expect_type-ok :
    (o : Option RefinedType) (ty : BaseType)
    → expect_type o ≡ ok ty
    → (declared : RefinedType) × (o ≡ some declared) × (base declared ≡ ty)
expect_type-ok (some declared) ty h = (declared, refl, ok-injective (base declared) ty h)
expect_type-ok none ty h = absurd (cc)

check_assignment_sound :
    (e : Expression) (i : NodeId) (sr : SourceRef) (t u : SymbolTable)
    → check_assignment e i sr t ≡ ok u
    → AssignmentRule e i t
unfolding check_assignment
check_assignment_sound e i sr t u h pure =
    let ((inferred, v), infers, h₁) = >>=-eq-ok (infer_basetype sr e t) _ h in
    let (info, found, h₂) = >>=-eq-ok (symbol_of i v) _ h₁ in
    let (expected, typed, h₃) = >>=-eq-ok (expect_type info.ty) _ h₂ in
    let (o, fits, h₄) = >>=-eq-ok (check_basetype sr inferred expected) _ h₃ in
    let (declared, has, is) = expect_type-ok info.ty expected typed in
    let (has_type, symbols) = infer_basetype_sound sr e t v inferred pure infers in
    let (same, assignable) = check_basetype_sound sr inferred expected o fits in
    (
      info,
      declared,
      sym (symbol_of-SameSymbols t v i symbols) ∙ found,
      has,
      subst (HasType t e) (same ∙ sym is) has_type,
      subst IsAssignable (sym is) assignable,
    )

module _ (expected : Option RefinedType) where
  mutual
    unfolding check_statement

    statement_sound :
        (statement : Statement) (t u : SymbolTable)
        → check_statement expected statement t ≡ ok u
        → StatementRule expected statement t
    statement_sound (if_then c then_block i sr) t u h =
        let (v, test, h₁) = >>=-eq-ok (check_test sr c t) _ h in
        (check_test_sound sr c t v test, v, test, block_sound then_block v u h₁)
    statement_sound (if_else c then_block else_block i sr) t u h =
        let (v, test, h₁) = >>=-eq-ok (check_test sr c t) _ h in
        let (w, first, second) = >>=-eq-ok (check_block expected then_block v) _ h₁ in
        (
          check_test_sound sr c t v test,
          v,
          test,
          block_sound then_block v w first,
          w,
          first,
          block_sound else_block w u second,
        )
    statement_sound (while c invariants variants body i sr) t u h =
        let (v, test, h₁) = >>=-eq-ok (check_test sr c t) _ h in
        (check_test_sound sr c t v test, v, test, block_sound body v u h₁)
    statement_sound (return e i sr) t u h = check_return_sound sr e expected t u h
    statement_sound (Statement.expression e i sr) t u h = tt
    statement_sound (assignment target e i sr) t u h = check_assignment_sound e i sr t u h
    statement_sound (var_declaration name ty e i sr) t u h =
        check_declaration_sound name ty e i sr t u h
    statement_sound (const_declaration name ty e i sr) t u h =
        check_declaration_sound name ty e i sr t u h

    block_sound :
        (block : Block) (t u : SymbolTable)
        → check_block expected block t ≡ ok u
        → BlockRule expected block t
    block_sound Block.nil t u h = tt
    block_sound (Block.cons statement block) t u h =
        let (v, first, rest) = >>=-eq-ok (check_statement expected statement t) _ h in
        (statement_sound statement t v first, v, first, block_sound block v u rest)

-- In a body that passes the checker, at every depth and in the table that the checker has at that place:
-- the test of an `If` or a `While` has no method calls and has the type bool; a return has a value where
-- and only where a return type is expected; and a value without method calls has the type that is expected
-- of it, where it is returned, declared with a type, or assigned to a symbol.
pub check_block_sound :
    (expected : Option RefinedType) (block : Block) (t u : SymbolTable)
    → check_block expected block t ≡ ok u
    → BlockRule expected block t
check_block_sound expected block t u h = block_sound expected block t u h
