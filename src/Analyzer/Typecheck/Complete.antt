-- ===== src/Analyzer/Typecheck/Complete.antt =====
-- analyzer/src/typechecker.rs: inference on expressions that have a type by the rules.
use merak.Prelude.{
  ℕ, suc, ◌≡◌, refl, ap, sym, ◌∙◌, String, Bool, true, false, List, [], ◌∷◌, length, arith,
  string_eq,
}
use merak.Prelude.Outcome.{ok}
use merak.Ast.Node.{SourceRef}
use merak.Ast.Operator.{
  BinaryOperator, logical_or, logical_and, equal, not_equal, less_equal, less, greater_equal,
  greater, UnaryOperator, negate,
}
use merak.Ast.Expression.{
  Expression, literal, identifier, binary_op, unary_op, grouped, function_call, member_call,
  Arguments,
}
use merak.Ast.Types.{BaseType, int, bool, contract}
use merak.Symbols.Table.{SymbolInfo, SymbolTable, insert_expr_type}
use merak.Analyzer.Typecheck.{
  Checked, type_of_literal, is_conversion, param_types, assert_binary_type, assert_unary_type,
  check_basetype, check_arity, count, infer_basetype, infer_call, infer_conversion, check_arguments,
  check_equality_op,
}
use merak.Analyzer.Typecheck.Typing.{
  IsEquatable, IsAssignable, BinaryRule, UnaryRule, HasType, CallRule, IsAddress, HaveTypes,
  SameSymbols,
}
use merak.Analyzer.Typecheck.Sound.{symbol_of-SameSymbols, length-param_types}

check_equality_op_complete :
    (a b c : BaseType) → IsEquatable a → b ≡ a → c ≡ bool → check_equality_op a b ≡ ok c
check_equality_op_complete int b c eq same is = rw (same, is) refl
check_equality_op_complete bool b c eq same is = rw (same, is) refl
check_equality_op_complete BaseType.string b c eq same is = rw (same, is) refl
check_equality_op_complete BaseType.address b c eq same is = rw (same, is) refl
check_equality_op_complete a b c eq same is = absurd eq

assert_binary_type_complete :
    (op : BinaryOperator) (a b c : BaseType)
    → BinaryRule op a b c
    → assert_binary_type op a b ≡ ok c
unfolding assert_binary_type
assert_binary_type_complete equal a b c (eq, same, is) = check_equality_op_complete a b c eq same is
assert_binary_type_complete not_equal a b c (eq, same, is) =
    check_equality_op_complete a b c eq same is
assert_binary_type_complete less a b c (l, r, is) = rw (l, r, is) refl
assert_binary_type_complete less_equal a b c (l, r, is) = rw (l, r, is) refl
assert_binary_type_complete greater a b c (l, r, is) = rw (l, r, is) refl
assert_binary_type_complete greater_equal a b c (l, r, is) = rw (l, r, is) refl
assert_binary_type_complete logical_and a b c (l, r, is) = rw (l, r, is) refl
assert_binary_type_complete logical_or a b c (l, r, is) = rw (l, r, is) refl
assert_binary_type_complete op a b c (l, r, is) = rw (l, r, is) refl

assert_unary_type_complete :
    (op : UnaryOperator) (a c : BaseType) → UnaryRule op a c → assert_unary_type op a ≡ ok c
unfolding assert_unary_type
assert_unary_type_complete negate a c (operand, is) = rw (operand, is) refl
assert_unary_type_complete UnaryOperator.not a c (operand, is) = rw (operand, is) refl

check_basetype_complete :
    (at : SourceRef) (a : BaseType) → IsAssignable a → check_basetype at a a ≡ ok tt
unfolding check_basetype
check_basetype_complete at int fits = refl
check_basetype_complete at bool fits = refl
check_basetype_complete at BaseType.string fits = refl
check_basetype_complete at BaseType.address fits = refl
check_basetype_complete at (contract c) fits = rw ((string_eq.same_iff c c).1 refl) refl
check_basetype_complete at a fits = absurd fits

-- Inference that answers, in a table with the symbols of `s`.
abbrev Answers : SymbolTable → BaseType → Checked (BaseType × SymbolTable) → Type 0
Answers s ty m = (u : SymbolTable) × (m ≡ ok (ty, u)) × SameSymbols s u

abbrev Passes : SymbolTable → Checked SymbolTable → Type 0
Passes s m = (u : SymbolTable) × (m ≡ ok u) × SameSymbols s u

check_arity_complete :
    (name : String) (expected found : ℕ) (sr : SourceRef)
    → expected ≡ found
    → check_arity name expected found sr ≡ ok tt
check_arity_complete name expected found sr same = ground arith

infer_call_complete :
    (P : Type 0) (Q : List BaseType → Type 0) (s : SymbolTable) (f : String) (found : ℕ)
    (sr : SourceRef) (info : SymbolInfo) (b : Bool) (convert : Checked (BaseType × SymbolTable))
    (check : List BaseType → Checked SymbolTable)
    → (P → Answers s (contract f) convert)
    → ((tys : List BaseType) → Q tys → (length tys ≡ found) × Passes s (check tys))
    → (ty : BaseType) → CallRule P Q f ty sr info b
    → Answers s ty (infer_call f found sr info b convert check)
unfolding infer_call
infer_call_complete P Q s f found sr info true convert check on_convert on_check ty (address, is) =
    let (u, converts, same) = on_convert address in (u, converts ∙ ap (λ c. ok (c, u)) is, same)
infer_call_complete P Q s f found sr info false convert check on_convert on_check ty
      (result, params, signed, fits, is) =
    let (arity, (u, checks, same)) = on_check (param_types params) fits in
    (
      u,
      rw
          (
            signed,
            check_arity_complete f (length params) found sr
                (sym (length-param_types params) ∙ arity),
            checks,
            is,
          )
          refl,
      same,
    )

module _ (s : SymbolTable) (at : SourceRef) where
  mutual
    unfolding infer_basetype insert_expr_type

    infer-Complete :
        (e : Expression) (t : SymbolTable)
        → SameSymbols s t
        → (ty : BaseType) → HasType s e ty
        → Answers s ty (infer_basetype at e t)
    infer-Complete (literal lit i sr) t same ty typed = (
      insert_expr_type i (type_of_literal lit) t,
      ap (λ c. ok (c, insert_expr_type i (type_of_literal lit) t)) typed,
      same,
    )
    infer-Complete (identifier x i sr) t same ty (info, declared, found, has, is) =
        (t, rw (symbol_of-SameSymbols s t i same, found, has, is) refl, same)
    infer-Complete (binary_op l op r i sr) t same ty (a, b, typed_l, typed_r, rule) =
        let (t₁, left, same₁) = infer-Complete l t same a typed_l in
        let (t₂, right, same₂) = infer-Complete r t₁ same₁ b typed_r in
        (
          insert_expr_type i ty t₂,
          rw (left, right, assert_binary_type_complete op a b ty rule) refl,
          same₂,
        )
    infer-Complete (unary_op op e i sr) t same ty (a, typed, rule) =
        let (t₁, operand, same₁) = infer-Complete e t same a typed in
        (
          insert_expr_type i ty t₁,
          rw (operand, assert_unary_type_complete op a ty rule) refl,
          same₁,
        )
    infer-Complete (grouped e i sr) t same ty typed = infer-Complete e t same ty typed
    infer-Complete (function_call f args i sr) t same ty (info, found, rule) =
        rw (symbol_of-SameSymbols s t i same, found)
          (infer_call_complete (IsAddress s args) (HaveTypes s args) s f (count args) sr info
            (is_conversion info.kind) (infer_conversion at f sr args t)
            (λ tys. check_arguments at args tys t) (conversion-Complete args f sr t same)
            (arguments-Complete args t same) ty rule)
    infer-Complete (member_call e method args i sr) t same ty typed = absurd typed

    conversion-Complete :
        (args : Arguments) (f : String) (sr : SourceRef) (t : SymbolTable)
        → SameSymbols s t
        → IsAddress s args
        → Answers s (contract f) (infer_conversion at f sr args t)
    conversion-Complete (Arguments.cons e Arguments.nil) f sr t same typed =
        let (u, infers, same₁) = infer-Complete e t same BaseType.address typed in
        (u, rw infers refl, same₁)
    conversion-Complete Arguments.nil f sr t same typed = absurd typed
    conversion-Complete (Arguments.cons e (Arguments.cons d es)) f sr t same typed = absurd typed

    arguments-Complete :
        (args : Arguments) (t : SymbolTable)
        → SameSymbols s t
        → (tys : List BaseType) → HaveTypes s args tys
        → (length tys ≡ count args) × Passes s (check_arguments at args tys t)
    arguments-Complete Arguments.nil t same [] typed = (refl, (t, refl, same))
    arguments-Complete Arguments.nil t same (ty ∷ tys) typed = absurd typed
    arguments-Complete (Arguments.cons e es) t same [] typed = absurd typed
    arguments-Complete (Arguments.cons e es) t same (ty ∷ tys) (typed, fits, rest) =
        let (t₁, infers, same₁) = infer-Complete e t same ty typed in
        let (arity, (u, checks, same₂)) = arguments-Complete es t₁ same₁ tys rest in
        (ap suc arity, (u, rw (infers, check_basetype_complete at ty fits, checks) refl, same₂))

-- An expression that has a type by the typing rules has that type inferred, whatever the place `at`.
pub infer_basetype_complete :
    (at : SourceRef) (e : Expression) (t : SymbolTable) (ty : BaseType)
    → HasType t e ty
    → (u : SymbolTable) × (infer_basetype at e t ≡ ok (ty, u)) × SameSymbols t u
infer_basetype_complete at e t ty typed = infer-Complete t at e t (refl, refl) ty typed
