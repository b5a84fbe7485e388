-- ===== src/Analyzer/Typecheck/Total.antt =====
-- analyzer/src/typechecker.rs: inference after name resolution, where its `expect`s hold.
use merak.Prelude.{
  ℕ, String, ◌≡◌, ◌≢◌, refl, ◌==◌, Bool, true, false, Bool-cases, string_eq, inl, inr, some, List,
  [], ◌∷◌, length, nat_eq, get_elem?-below,
}
use merak.Prelude.Map.{get, AllValues-get}
use merak.Prelude.Outcome.{Outcome, ok, err, panic, ◌>>=◌}
use merak.Ast.Node.{NodeId, SourceRef}
use merak.Ast.Operator.{
  BinaryOperator, logical_or, logical_and, equal, not_equal, less_equal, less, greater_equal,
  greater, UnaryOperator, negate,
}
use merak.Ast.Expression.{
  Expression, literal, identifier, binary_op, unary_op, grouped, function_call, member_call,
  Arguments,
}
use merak.Ast.Types.{BaseType, int, bool, contract, RefinedType}
use merak.Symbols.Id.{SymbolId, as_usize}
use merak.Symbols.Table.{
  SymbolKind, function, entrypoint, interface_function, SymbolInfo, SymbolTable,
  get_symbol_by_node_id, get_symbol,
}
use merak.Symbols.Table.Valid.{IsValid, InArena}
use merak.Analyzer.Resolve.Connected.{HasSymbol, IsConnected, AreConnected}
use merak.Analyzer.Typecheck.{
  Checked, symbol_of, is_conversion, call_signature, param_types, assert_binary_type,
  assert_unary_type, check_basetype, check_arity, count, infer_basetype, infer_call,
  infer_conversion, check_arguments, expect_address, is_pure_logical, are_pure_logical,
  check_arithmetic_op, check_equality_op, check_ordering_op, check_logical_op,
}
use merak.Analyzer.Typecheck.Typing.{SameSymbols}
use merak.Analyzer.Typecheck.Sound.{symbol_of-SameSymbols, infer-Sound, and_left, and_right}

>>=-no_panic {ℓ κ μ} :
    {E : Type κ} {A : Type ℓ} {B : Type μ} (first : Outcome E A) (next : A → Outcome E B)
    → first ≢ panic
    → ((a : A) → first ≡ ok a → next a ≢ panic)
    → (first >>= next) ≢ panic
>>=-no_panic (ok a) next h k = k a refl
>>=-no_panic (err e) next h k = λ p. absurd (cc)
>>=-no_panic panic next h k = λ p. h refl

check_equality_op-no_panic : (a b : BaseType) → check_equality_op a b ≢ panic
check_equality_op-no_panic int int = λ p. absurd (cc)
check_equality_op-no_panic bool bool = λ p. absurd (cc)
check_equality_op-no_panic BaseType.string BaseType.string = λ p. absurd (cc)
check_equality_op-no_panic BaseType.address BaseType.address = λ p. absurd (cc)
check_equality_op-no_panic a b = λ p. absurd (cc)

check_ordering_op-no_panic : (a b : BaseType) → check_ordering_op a b ≢ panic
check_ordering_op-no_panic int int = λ p. absurd (cc)
check_ordering_op-no_panic a b = λ p. absurd (cc)

check_logical_op-no_panic : (a b : BaseType) → check_logical_op a b ≢ panic
check_logical_op-no_panic bool bool = λ p. absurd (cc)
check_logical_op-no_panic a b = λ p. absurd (cc)

check_arithmetic_op-no_panic : (a b : BaseType) → check_arithmetic_op a b ≢ panic
check_arithmetic_op-no_panic int int = λ p. absurd (cc)
check_arithmetic_op-no_panic a b = λ p. absurd (cc)

assert_binary_type-no_panic :
    (op : BinaryOperator) (a b : BaseType) → assert_binary_type op a b ≢ panic
unfolding assert_binary_type
assert_binary_type-no_panic equal a b = check_equality_op-no_panic a b
assert_binary_type-no_panic not_equal a b = check_equality_op-no_panic a b
assert_binary_type-no_panic less a b = check_ordering_op-no_panic a b
assert_binary_type-no_panic less_equal a b = check_ordering_op-no_panic a b
assert_binary_type-no_panic greater a b = check_ordering_op-no_panic a b
assert_binary_type-no_panic greater_equal a b = check_ordering_op-no_panic a b
assert_binary_type-no_panic logical_and a b = check_logical_op-no_panic a b
assert_binary_type-no_panic logical_or a b = check_logical_op-no_panic a b
assert_binary_type-no_panic op a b = check_arithmetic_op-no_panic a b

assert_unary_type-no_panic : (op : UnaryOperator) (a : BaseType) → assert_unary_type op a ≢ panic
unfolding assert_unary_type
assert_unary_type-no_panic negate int = λ p. absurd (cc)
assert_unary_type-no_panic negate a = λ p. absurd (cc)
assert_unary_type-no_panic UnaryOperator.not bool = λ p. absurd (cc)
assert_unary_type-no_panic UnaryOperator.not a = λ p. absurd (cc)

check_basetype-no_panic : (at : SourceRef) (a b : BaseType) → check_basetype at a b ≢ panic
unfolding check_basetype
check_basetype-no_panic at int int = λ p. absurd (cc)
check_basetype-no_panic at bool bool = λ p. absurd (cc)
check_basetype-no_panic at BaseType.string BaseType.string = λ p. absurd (cc)
check_basetype-no_panic at BaseType.address BaseType.address = λ p. absurd (cc)
check_basetype-no_panic at (contract c) (contract d) = elim (Bool-cases (string_eq.same c d)) [
  | inl same ↦ rw same (λ p. absurd (cc))
  | inr other ↦ rw other (λ p. absurd (cc))
]
check_basetype-no_panic at a b = λ p. absurd (cc)

expect_address-no_panic : (sr : SourceRef) (a : BaseType) → expect_address sr a ≢ panic
expect_address-no_panic sr BaseType.address = λ p. absurd (cc)
expect_address-no_panic sr a = λ p. absurd (cc)

-- What a call by name leads to is not a function of an interface.
abbrev pub IsPrintable : SymbolKind → Type 0
IsPrintable (interface_function params ty) = ⊥
IsPrintable kind = Unit

call_signature-no_panic :
    (sr : SourceRef) (kind : SymbolKind) → IsPrintable kind → call_signature sr kind ≢ panic
call_signature-no_panic sr (function v m ps es rs ty) h = λ p. absurd (cc)
call_signature-no_panic sr (entrypoint m ps es rs ty) h = λ p. absurd (cc)
call_signature-no_panic sr (interface_function params ty) h = absurd h
call_signature-no_panic sr kind h = λ p. absurd (cc)

check_arity-no_panic : (name : String) (n k : ℕ) (sr : SourceRef) → check_arity name n k sr ≢ panic
check_arity-no_panic name n k sr = elim (Bool-cases (n == k)) [
  | inl same ↦ rw same (λ p. absurd (cc))
  | inr other ↦ rw other (λ p. absurd (cc))
]

-- Every identifier leads to a symbol that has a type, as parameters, state variables and checked
-- declarations do, and every callee to a symbol that is not a function of an interface.
abbrev mutual
  pub IsTyped : SymbolTable → Expression → Type 0
  IsTyped t (literal lit i sr) = Unit
  IsTyped t (identifier x i sr) =
      (info : SymbolInfo) × (declared : RefinedType) × (symbol_of i t ≡ ok info)
      × (info.ty ≡ some declared)
  IsTyped t (binary_op l op r i sr) = IsTyped t l × IsTyped t r
  IsTyped t (unary_op op e i sr) = IsTyped t e
  IsTyped t (grouped e i sr) = IsTyped t e
  IsTyped t (function_call f args i sr) =
      (info : SymbolInfo) × (symbol_of i t ≡ ok info) × IsPrintable info.kind × AreTyped t args
  IsTyped t (member_call e method args i sr) = IsTyped t e × AreTyped t args

  pub AreTyped : SymbolTable → Arguments → Type 0
  AreTyped t Arguments.nil = Unit
  AreTyped t (Arguments.cons e es) = IsTyped t e × AreTyped t es

symbol_of-found :
    (t : SymbolTable) (node : NodeId) (id : SymbolId) (info : SymbolInfo)
    → get node t.node_to_symbol ≡ some id
    → get_symbol id t ≡ some info
    → symbol_of node t ≡ ok info
unfolding symbol_of get_symbol_by_node_id
symbol_of-found t node id info at found = cc

-- A node that is connected in a valid table has a symbol.
symbol_of-IsValid :
    (t : SymbolTable) (node : NodeId)
    → IsValid t
    → HasSymbol t node
    → (info : SymbolInfo) × (symbol_of node t ≡ ok info)
unfolding get_symbol
symbol_of-IsValid t node valid (id, at) =
    let inside =
      AllValues-get (InArena (length t.symbol_arena)) node id t.node_to_symbol valid.noded at in
    let (info, found) = get_elem?-below t.symbol_arena (as_usize id) inside in
    (info, symbol_of-found t node id info at found)

infer_call-no_panic :
    (f : String) (found : ℕ) (sr : SourceRef) (info : SymbolInfo) (b : Bool)
    (convert : Checked (BaseType × SymbolTable)) (check : List BaseType → Checked SymbolTable)
    → IsPrintable info.kind
    → convert ≢ panic
    → ((tys : List BaseType) → check tys ≢ panic)
    → infer_call f found sr info b convert check ≢ panic
unfolding infer_call
infer_call-no_panic f found sr info true convert check p h k = h
infer_call-no_panic f found sr info false convert check p h k =
    >>=-no_panic (call_signature sr info.kind) _ (call_signature-no_panic sr info.kind p)
      (λ signature signed.
        >>=-no_panic (check_arity f (length (signature.1)) found sr) _
          (check_arity-no_panic f (length (signature.1)) found sr)
          (λ o arity.
            >>=-no_panic (check (param_types (signature.1))) _ (k (param_types (signature.1)))
              (λ u checked. λ e. absurd (cc))))

module _ (s : SymbolTable) (at : SourceRef) (valid : IsValid s) where
  mutual
    unfolding infer_basetype is_pure_logical

    infer-no_panic :
        (e : Expression) (t : SymbolTable)
        → is_pure_logical e ≡ true
        → SameSymbols s t
        → IsConnected s e
        → IsTyped s e
        → infer_basetype at e t ≢ panic
    infer-no_panic (literal lit i sr) t pure same connected typed = λ p. absurd (cc)
    infer-no_panic (identifier x i sr) t pure same connected (info, declared, found, has) =
        rw (symbol_of-SameSymbols s t i same, found, has) (λ p. absurd (cc))
    infer-no_panic (binary_op l op r i sr) t pure same (connected_l, connected_r)
          (typed_l, typed_r) =
        let pure_l = and_left (is_pure_logical l) (is_pure_logical r) pure in
        >>=-no_panic (infer_basetype at l t) _ (infer-no_panic l t pure_l same connected_l typed_l)
          (λ left first.
            let same₁ = (infer-Sound s at l t pure_l same (left.0) (left.1) first).1 in
            >>=-no_panic (infer_basetype at r (left.1)) _
              (infer-no_panic r (left.1) (and_right (is_pure_logical l) (is_pure_logical r) pure)
                same₁ connected_r typed_r)
              (λ right second.
                >>=-no_panic (assert_binary_type op (left.0) (right.0)) _
                  (assert_binary_type-no_panic op (left.0) (right.0)) (λ c rule. λ p. absurd (cc))))
    infer-no_panic (unary_op op e i sr) t pure same connected typed =
        >>=-no_panic (infer_basetype at e t) _ (infer-no_panic e t pure same connected typed)
          (λ operand first.
            >>=-no_panic (assert_unary_type op (operand.0)) _
              (assert_unary_type-no_panic op (operand.0)) (λ c rule. λ p. absurd (cc)))
    infer-no_panic (grouped e i sr) t pure same connected typed =
        infer-no_panic e t pure same connected typed
    infer-no_panic (function_call f args i sr) t pure same (connected, connected_args)
          (info, found, printable, typed) =
        rw (symbol_of-SameSymbols s t i same, found)
          (infer_call-no_panic f (count args) sr info (is_conversion info.kind)
            (infer_conversion at f sr args t) (λ tys. check_arguments at args tys t) printable
            (conversion-no_panic args f sr t pure same connected_args typed)
            (arguments-no_panic args t pure same connected_args typed))
    infer-no_panic (member_call e method args i sr) t pure same connected typed = absurd (cc)

    conversion-no_panic :
        (args : Arguments) (f : String) (sr : SourceRef) (t : SymbolTable)
        → are_pure_logical args ≡ true
        → SameSymbols s t
        → AreConnected s args
        → AreTyped s args
        → infer_conversion at f sr args t ≢ panic
    conversion-no_panic (Arguments.cons e Arguments.nil) f sr t pure same (connected, c)
          (typed, d) =
        >>=-no_panic (infer_basetype at e t) _
          (infer-no_panic e t (and_left (is_pure_logical e) true pure) same connected typed)
          (λ operand first.
            >>=-no_panic (expect_address sr (operand.0)) _ (expect_address-no_panic sr (operand.0))
              (λ o address. λ p. absurd (cc)))
    conversion-no_panic Arguments.nil f sr t pure same connected typed = λ p. absurd (cc)
    conversion-no_panic (Arguments.cons e (Arguments.cons d es)) f sr t pure same connected typed =
        λ p. absurd (cc)

    arguments-no_panic :
        (args : Arguments) (t : SymbolTable)
        → are_pure_logical args ≡ true
        → SameSymbols s t
        → AreConnected s args
        → AreTyped s args
        → (tys : List BaseType) → check_arguments at args tys t ≢ panic
    arguments-no_panic Arguments.nil t pure same connected typed tys = λ p. absurd (cc)
    arguments-no_panic (Arguments.cons e es) t pure same connected typed [] = λ p. absurd (cc)
    arguments-no_panic (Arguments.cons e es) t pure same (connected, connected_rest)
          (typed, typed_rest) (ty ∷ tys) =
        let pure_first = and_left (is_pure_logical e) (are_pure_logical es) pure in
        >>=-no_panic (infer_basetype at e t) _ (infer-no_panic e t pure_first same connected typed)
          (λ inferred first.
            let same₁ = (infer-Sound s at e t pure_first same (inferred.0) (inferred.1) first).1 in
            >>=-no_panic (check_basetype at (inferred.0) ty) _
              (check_basetype-no_panic at (inferred.0) ty)
              (λ o fits.
                arguments-no_panic es (inferred.1)
                  (and_right (is_pure_logical e) (are_pure_logical es) pure) same₁ connected_rest
                  typed_rest tys))

-- On a valid table, an expression without method calls whose names were resolved, and whose identifiers
-- lead to symbols with types and whose callees to symbols that are not functions of an interface, has its
-- type inferred without a panic: there is a type or an error.
pub infer_basetype-no_panic :
    (at : SourceRef) (e : Expression) (t : SymbolTable)
    → IsValid t
    → is_pure_logical e ≡ true
    → IsConnected t e
    → IsTyped t e
    → infer_basetype at e t ≢ panic
infer_basetype-no_panic at e t valid pure connected typed =
    infer-no_panic t at valid e t pure (refl, refl) connected typed
