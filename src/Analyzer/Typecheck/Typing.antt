-- ===== src/Analyzer/Typecheck/Typing.antt =====
-- The typing rules of the expressions without method calls, beside analyzer/src/typechecker.rs. A rule
-- reads the symbols of the table and not its types of expressions.
use merak.Prelude.{String, Bool, true, false, ◌≡◌, some, List, [], ◌∷◌}
use merak.Prelude.Outcome.{ok}
use merak.Ast.Node.{SourceRef}
use merak.Ast.Operator.{
  BinaryOperator, logical_or, logical_and, equal, not_equal, less_equal, less, greater_equal,
  greater, UnaryOperator, negate,
}
use merak.Ast.Expression.{
  Expression, literal, identifier, binary_op, unary_op, grouped, function_call, member_call,
  Arguments,
}
use merak.Ast.Types.{BaseType, int, bool, contract, RefinedType, base}
use merak.Ast.Contract.{Param}
use merak.Symbols.Table.{SymbolInfo, SymbolTable}
use merak.Analyzer.Typecheck.{
  symbol_of, type_of_literal, is_conversion, call_signature, param_types,
}

-- Types that have an equality on values.
abbrev pub IsEquatable : BaseType → Type 0
IsEquatable int = Unit
IsEquatable bool = Unit
IsEquatable BaseType.string = Unit
IsEquatable BaseType.address = Unit
IsEquatable ty = ⊥

-- Types that an argument or an assigned value may have.
abbrev pub IsAssignable : BaseType → Type 0
IsAssignable (contract c) = Unit
IsAssignable ty = IsEquatable ty

-- Operands and result of an operator.
abbrev pub BinaryRule : BinaryOperator → BaseType → BaseType → BaseType → Type 0
BinaryRule equal a b c = IsEquatable a × (b ≡ a) × (c ≡ bool)
BinaryRule not_equal a b c = IsEquatable a × (b ≡ a) × (c ≡ bool)
BinaryRule less a b c = (a ≡ int) × (b ≡ int) × (c ≡ bool)
BinaryRule less_equal a b c = (a ≡ int) × (b ≡ int) × (c ≡ bool)
BinaryRule greater a b c = (a ≡ int) × (b ≡ int) × (c ≡ bool)
BinaryRule greater_equal a b c = (a ≡ int) × (b ≡ int) × (c ≡ bool)
BinaryRule logical_and a b c = (a ≡ bool) × (b ≡ bool) × (c ≡ bool)
BinaryRule logical_or a b c = (a ≡ bool) × (b ≡ bool) × (c ≡ bool)
BinaryRule op a b c = (a ≡ int) × (b ≡ int) × (c ≡ int)

abbrev pub UnaryRule : UnaryOperator → BaseType → BaseType → Type 0
UnaryRule negate a c = (a ≡ int) × (c ≡ int)
UnaryRule UnaryOperator.not a c = (a ≡ bool) × (c ≡ bool)

-- A conversion has one address; a function has arguments of the types of its parameters.
abbrev pub CallRule :
    Type 0 → (List BaseType → Type 0) → String → BaseType → SourceRef → SymbolInfo → Bool → Type 0
CallRule is_address have_types f ty sr info true = is_address × (contract f ≡ ty)
CallRule is_address have_types f ty sr info false =
    (result : RefinedType) × (params : List Param) × (call_signature sr info.kind
      ≡ ok (result, params))
    × have_types (param_types params)
    × (base result ≡ ty)

abbrev mutual
  pub HasType : SymbolTable → Expression → BaseType → Type 0
  HasType t (literal lit i sr) ty = type_of_literal lit ≡ ty
  HasType t (identifier x i sr) ty =
      (info : SymbolInfo) × (declared : RefinedType) × (symbol_of i t ≡ ok info)
      × (info.ty ≡ some declared)
      × (base declared ≡ ty)
  HasType t (binary_op l op r i sr) ty =
      (a : BaseType) × (b : BaseType) × HasType t l a × HasType t r b × BinaryRule op a b ty
  HasType t (unary_op op e i sr) ty = (a : BaseType) × HasType t e a × UnaryRule op a ty
  HasType t (grouped e i sr) ty = HasType t e ty
  HasType t (function_call f args i sr) ty =
      (info : SymbolInfo) × (symbol_of i t ≡ ok info)
      × CallRule (IsAddress t args) (λ tys. HaveTypes t args tys) f ty sr info
          (is_conversion info.kind)
  HasType t (member_call e method args i sr) ty = ⊥

  pub IsAddress : SymbolTable → Arguments → Type 0
  IsAddress t (Arguments.cons e Arguments.nil) = HasType t e BaseType.address
  IsAddress t args = ⊥

  pub HaveTypes : SymbolTable → Arguments → List BaseType → Type 0
  HaveTypes t Arguments.nil [] = Unit
  HaveTypes t (Arguments.cons e es) (ty ∷ tys) =
      HasType t e ty × IsAssignable ty × HaveTypes t es tys
  HaveTypes t args tys = ⊥

-- The same symbols, whatever the types of expressions.
abbrev pub SameSymbols : SymbolTable → SymbolTable → Type 0
SameSymbols s t = (t.node_to_symbol ≡ s.node_to_symbol) × (t.symbol_arena ≡ s.symbol_arena)
