-- ===== src/Analyzer/Typecheck.antt =====
-- analyzer/src/typechecker.rs: base types of expressions. The checker's symbol table is passed from call
-- to call; the place of the statement being checked, the top of the stack of `SourceRefGuard`, is the
-- argument `at`. An `expect` that fails is a panic.
pub mod Statements
pub mod Typing
pub mod Sound
pub mod Complete
pub mod Bodies
pub mod Total
use merak.Prelude.{
  ℕ, zero, suc, String, Bool, true, false, ◌&&◌, Option, none, some, List, [], ◌∷◌, length, map,
  ◌==◌, if◌then◌else◌, string_eq,
}
use Prim.Native.String.{◌++◌ as str_append}
use merak.Prelude.Outcome.{Outcome, ok, err, panic, ◌>>=◌}
use merak.Ast.Node.{NodeId, SourceRef, unknown}
use merak.Ast.Operator.{
  BinaryOperator, logical_or, logical_and, equal, not_equal, less_equal, less, greater_equal,
  greater, subtract, multiply, divide, UnaryOperator, negate,
}
use merak.Ast.Expression.{
  Literal, integer, boolean, Expression, literal, identifier, binary_op, unary_op, grouped,
  function_call, member_call, Arguments,
}
use merak.Ast.Types.{BaseType, int, bool, contract, RefinedType, base}
use merak.Ast.Contract.{Param}
use merak.Errors.{
  MerakError, semantic_error, type_mismatch, arity_mismatch, member_call_on_non_contract,
  undefined_method, not_callable,
}
use merak.Symbols.Id.{SymbolId}
use merak.Symbols.Table.Key.{callable}
use merak.Symbols.Table.{
  SymbolKind, function, entrypoint, interface_function, SymbolInfo, SymbolTable,
  get_symbol_by_node_id, get_symbol, resolve_reference, insert_expr_type,
}

abbrev pub Checked : Type 0 → Type 0
Checked A = Outcome MerakError A

abbrev pub type_of_literal : Literal → BaseType
type_of_literal (integer n) = int
type_of_literal (boolean b) = bool
type_of_literal (Literal.string s) = BaseType.string
type_of_literal (Literal.address a) = BaseType.address

unfoldable pub check_basetype : SourceRef → BaseType → BaseType → Checked (Unit {0})
check_basetype at int int = ok tt
check_basetype at bool bool = ok tt
check_basetype at BaseType.string BaseType.string = ok tt
check_basetype at BaseType.address BaseType.address = ok tt
check_basetype at (contract c) (contract d) =
    if string_eq.same c d then ok tt else err (type_mismatch unknown)
check_basetype at inferred expected = err (type_mismatch at)

abbrev pub check_arithmetic_op : BaseType → BaseType → Checked BaseType
check_arithmetic_op int int = ok int
check_arithmetic_op l r = err (type_mismatch unknown)

abbrev pub check_equality_op : BaseType → BaseType → Checked BaseType
check_equality_op int int = ok bool
check_equality_op bool bool = ok bool
check_equality_op BaseType.string BaseType.string = ok bool
check_equality_op BaseType.address BaseType.address = ok bool
check_equality_op l r = err (type_mismatch unknown)

abbrev pub check_ordering_op : BaseType → BaseType → Checked BaseType
check_ordering_op int int = ok bool
check_ordering_op l r = err (type_mismatch unknown)

abbrev pub check_logical_op : BaseType → BaseType → Checked BaseType
check_logical_op bool bool = ok bool
check_logical_op l r = err (type_mismatch unknown)

unfoldable pub assert_binary_type : BinaryOperator → BaseType → BaseType → Checked BaseType
assert_binary_type BinaryOperator.add l r = check_arithmetic_op l r
assert_binary_type subtract l r = check_arithmetic_op l r
assert_binary_type multiply l r = check_arithmetic_op l r
assert_binary_type divide l r = check_arithmetic_op l r
assert_binary_type BinaryOperator.modulo l r = check_arithmetic_op l r
assert_binary_type equal l r = check_equality_op l r
assert_binary_type not_equal l r = check_equality_op l r
assert_binary_type less l r = check_ordering_op l r
assert_binary_type less_equal l r = check_ordering_op l r
assert_binary_type greater l r = check_ordering_op l r
assert_binary_type greater_equal l r = check_ordering_op l r
assert_binary_type logical_and l r = check_logical_op l r
assert_binary_type logical_or l r = check_logical_op l r

unfoldable pub assert_unary_type : UnaryOperator → BaseType → Checked BaseType
assert_unary_type negate int = ok int
assert_unary_type negate ty = err (type_mismatch unknown)
assert_unary_type UnaryOperator.not bool = ok bool
assert_unary_type UnaryOperator.not ty = err (type_mismatch unknown)

-- `get_symbol_by_node_id(..).expect(..)`
abbrev pub expect_symbol : Option (Option SymbolInfo) → Checked SymbolInfo
expect_symbol (some (some info)) = ok info
expect_symbol (some none) = panic
expect_symbol none = panic

unfoldable pub symbol_of : NodeId → SymbolTable → Checked SymbolInfo
symbol_of node t = expect_symbol (get_symbol_by_node_id node t)

abbrev pub expect_type : Option RefinedType → Checked BaseType
expect_type (some ty) = ok (base ty)
expect_type none = panic

-- A contract or interface that is called is a conversion of an address.
abbrev pub is_conversion : SymbolKind → Bool
is_conversion SymbolKind.contract = true
is_conversion (SymbolKind.interface fs) = true
is_conversion kind = false

-- The result and the parameters of what a call by name may call. The text of the error prints the kind,
-- which is unimplemented for a function of an interface.
abbrev pub call_signature : SourceRef → SymbolKind → Checked (RefinedType × List Param)
call_signature sr (function v m params es rs ty) = ok (ty, params)
call_signature sr (entrypoint m params es rs ty) = ok (ty, params)
call_signature sr (interface_function params ty) = panic
call_signature sr kind = err (type_mismatch sr)

-- The result and the parameters of a method.
abbrev pub method_signature : String → SourceRef → SymbolKind → Checked (RefinedType × List Param)
method_signature method sr (interface_function params ty) = ok (ty, params)
method_signature method sr (function v m params es rs ty) = ok (ty, params)
method_signature method sr (entrypoint m params es rs ty) = ok (ty, params)
method_signature method sr kind = err (not_callable method sr)

abbrev pub count : Arguments → ℕ
count Arguments.nil = 0
count (Arguments.cons e es) = suc (count es)

abbrev pub check_arity : String → ℕ → ℕ → SourceRef → Checked (Unit {0})
check_arity name expected found sr =
    if expected == found then ok tt else err (arity_mismatch name expected found sr)

abbrev pub param_types : List Param → List BaseType
param_types [] = []
param_types (p ∷ ps) = base p.ty ∷ param_types ps

abbrev pub contract_name : SourceRef → BaseType → Checked String
contract_name sr (contract name) = ok name
contract_name sr ty = err (member_call_on_non_contract sr)

abbrev pub expect_address : SourceRef → BaseType → Checked (Unit {0})
expect_address sr BaseType.address = ok tt
expect_address sr ty = err (type_mismatch sr)

-- The method's symbol, and the table in which its node is connected to it.
abbrev pub expect_method :
    MerakError → Option (Option SymbolId × SymbolTable) → Checked (SymbolInfo × SymbolTable)
expect_method e none = panic
expect_method e (some (none, t)) = err e
expect_method e (some (some id, t)) = elim (get_symbol id t) [
  | none ↦ panic
  | some info ↦ ok (info, t)
]

unfoldable pub method_of :
    NodeId → String → String → SourceRef → SymbolTable → Checked (SymbolInfo × SymbolTable)
method_of node name method sr t =
    expect_method (undefined_method method name sr)
      (resolve_reference node (str_append name (str_append "::" method)) callable t)

-- A call by name, from the outcome of a conversion and the check of the arguments.
unfoldable pub infer_call :
    String
    → ℕ
    → SourceRef
    → SymbolInfo
    → Bool
    → Checked (BaseType × SymbolTable)
    → (List BaseType → Checked SymbolTable)
    → Checked (BaseType × SymbolTable)
infer_call f found sr info true convert check = convert
infer_call f found sr info false convert check = do
  signature ← call_signature sr info.kind
  same ← check_arity f (length (signature.1)) found sr
  u ← check (param_types (signature.1))
  ok (base (signature.0), u)

unfoldable mutual
  unfolding infer_call symbol_of method_of assert_binary_type assert_unary_type check_basetype

  pub infer_basetype : SourceRef → Expression → SymbolTable → Checked (BaseType × SymbolTable)
  infer_basetype at (literal lit i sr) t =
      ok (type_of_literal lit, insert_expr_type i (type_of_literal lit) t)
  infer_basetype at (identifier x i sr) t = do
    info ← symbol_of i t
    ty ← expect_type info.ty
    ok (ty, t)
  infer_basetype at (binary_op l op r i sr) t = do
    (base_left, t₁) ← infer_basetype at l t
    (base_right, t₂) ← infer_basetype at r t₁
    ty ← assert_binary_type op base_left base_right
    ok (ty, insert_expr_type i ty t₂)
  infer_basetype at (unary_op op e i sr) t = do
    (operand, t₁) ← infer_basetype at e t
    ty ← assert_unary_type op operand
    ok (ty, insert_expr_type i ty t₁)
  infer_basetype at (grouped e i sr) t = infer_basetype at e t
  infer_basetype at (function_call f args i sr) t = do
    info ← symbol_of i t
    infer_call f (count args) sr info (is_conversion info.kind) (infer_conversion at f sr args t)
        (λ tys. check_arguments at args tys t)
  infer_basetype at (member_call e method args i sr) t = do
    (object, t₁) ← infer_basetype at e t
    name ← contract_name sr object
    (info, t₂) ← method_of i name method sr t₁
    signature ← method_signature method sr info.kind
    same ← check_arity method (length (signature.1)) (count args) sr
    u ← check_arguments at args (param_types (signature.1)) t₂
    ok (base (signature.0), u)

  -- The one argument of a conversion is an address.
  pub infer_conversion :
      SourceRef → String → SourceRef → Arguments → SymbolTable → Checked (BaseType × SymbolTable)
  infer_conversion at f sr (Arguments.cons e Arguments.nil) t = do
    (ty, u) ← infer_basetype at e t
    same ← expect_address sr ty
    ok (contract f, u)
  infer_conversion at f sr args t = err (arity_mismatch f 1 (count args) sr)

  -- The loop over the arguments and the types of the parameters, as far as both go.
  pub check_arguments : SourceRef → Arguments → List BaseType → SymbolTable → Checked SymbolTable
  check_arguments at Arguments.nil tys t = ok t
  check_arguments at (Arguments.cons e es) [] t = ok t
  check_arguments at (Arguments.cons e es) (ty ∷ tys) t = do
    (inferred, u) ← infer_basetype at e t
    same ← check_basetype at inferred ty
    check_arguments at es tys u

-- `is_pure_function` answers true for every name.
abbrev pub is_pure_function : String → Bool
is_pure_function name = true

unfoldable mutual
  pub is_pure_logical : Expression → Bool
  is_pure_logical (literal lit i sr) = true
  is_pure_logical (identifier x i sr) = true
  is_pure_logical (binary_op l op r i sr) = is_pure_logical l && is_pure_logical r
  is_pure_logical (function_call f args i sr) = is_pure_function f && are_pure_logical args
  is_pure_logical (member_call e f args i sr) = false
  is_pure_logical (unary_op op e i sr) = is_pure_logical e
  is_pure_logical (grouped e i sr) = is_pure_logical e

  pub are_pure_logical : Arguments → Bool
  are_pure_logical Arguments.nil = true
  are_pure_logical (Arguments.cons e es) = is_pure_logical e && are_pure_logical es

unfoldable pub check_condition : Expression → Checked (Unit {0})
unfolding is_pure_logical
check_condition e = if is_pure_logical e then ok tt else err semantic_error
