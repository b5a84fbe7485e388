-- ===== src/Analyzer/Typecheck/Sound.antt =====
-- analyzer/src/typechecker.rs: an inferred type follows from the rules.
use merak.Prelude.{
  ℕ, suc, ◌≡◌, refl, ap, sym, ◌∙◌, String, Bool, true, false, ◌&&◌, Option, none, some, List, [],
  ◌∷◌, length, arith, Bool-cases, inl, inr, string_eq,
}
use mathlib.Core.Path.{subst}
use merak.Prelude.Outcome.{ok, >>=-eq-ok, ok-injective}
use merak.Ast.Node.{NodeId, SourceRef}
use merak.Ast.Operator.{
  BinaryOperator, logical_or, logical_and, equal, not_equal, less_equal, less, greater_equal,
  greater, UnaryOperator, negate,
}
use merak.Ast.Expression.{
  Expression, literal, identifier, binary_op, unary_op, grouped, function_call, member_call,
  Arguments,
}
use merak.Ast.Types.{BaseType, int, bool, contract, RefinedType, base}
use merak.Ast.Contract.{Param}
use merak.Symbols.Table.{
  SymbolInfo, SymbolTable, insert_expr_type, get_symbol_by_node_id, get_symbol,
}
use merak.Analyzer.Typecheck.{
  Checked, symbol_of, expect_type, type_of_literal, is_conversion, call_signature, param_types,
  assert_binary_type, assert_unary_type, check_basetype, check_arity, count, infer_basetype,
  infer_call, infer_conversion, check_arguments, expect_address, is_pure_logical, are_pure_logical,
  check_arithmetic_op, check_equality_op, check_ordering_op, check_logical_op,
}
use merak.Analyzer.Typecheck.Typing.{
  IsEquatable, IsAssignable, BinaryRule, UnaryRule, HasType, CallRule, IsAddress, HaveTypes,
  SameSymbols,
}

check_arithmetic_op_sound :
    (a b c : BaseType) → check_arithmetic_op a b ≡ ok c → (a ≡ int) × (b ≡ int) × (c ≡ int)
check_arithmetic_op_sound int int c h = ground arith
check_arithmetic_op_sound a b c h = absurd (cc)

check_ordering_op_sound :
    (a b c : BaseType) → check_ordering_op a b ≡ ok c → (a ≡ int) × (b ≡ int) × (c ≡ bool)
check_ordering_op_sound int int c h = ground arith
check_ordering_op_sound a b c h = absurd (cc)

check_logical_op_sound :
    (a b c : BaseType) → check_logical_op a b ≡ ok c → (a ≡ bool) × (b ≡ bool) × (c ≡ bool)
check_logical_op_sound bool bool c h = ground arith
check_logical_op_sound a b c h = absurd (cc)

check_equality_op_sound :
    (a b c : BaseType) → check_equality_op a b ≡ ok c → IsEquatable a × (b ≡ a) × (c ≡ bool)
check_equality_op_sound int int c h = (tt, refl, cc)
check_equality_op_sound bool bool c h = (tt, refl, cc)
check_equality_op_sound BaseType.string BaseType.string c h = (tt, refl, cc)
check_equality_op_sound BaseType.address BaseType.address c h = (tt, refl, cc)
check_equality_op_sound a b c h = absurd (cc)

assert_binary_type_sound :
    (op : BinaryOperator) (a b c : BaseType)
    → assert_binary_type op a b ≡ ok c
    → BinaryRule op a b c
unfolding assert_binary_type
assert_binary_type_sound equal a b c h = check_equality_op_sound a b c h
assert_binary_type_sound not_equal a b c h = check_equality_op_sound a b c h
assert_binary_type_sound less a b c h = check_ordering_op_sound a b c h
assert_binary_type_sound less_equal a b c h = check_ordering_op_sound a b c h
assert_binary_type_sound greater a b c h = check_ordering_op_sound a b c h
assert_binary_type_sound greater_equal a b c h = check_ordering_op_sound a b c h
assert_binary_type_sound logical_and a b c h = check_logical_op_sound a b c h
assert_binary_type_sound logical_or a b c h = check_logical_op_sound a b c h
assert_binary_type_sound BinaryOperator.add a b c h = check_arithmetic_op_sound a b c h
assert_binary_type_sound op a b c h = check_arithmetic_op_sound a b c h

assert_unary_type_sound :
    (op : UnaryOperator) (a c : BaseType) → assert_unary_type op a ≡ ok c → UnaryRule op a c
unfolding assert_unary_type
assert_unary_type_sound negate int c h = (refl, cc)
assert_unary_type_sound negate a c h = absurd (cc)
assert_unary_type_sound UnaryOperator.not bool c h = (refl, cc)
assert_unary_type_sound UnaryOperator.not a c h = absurd (cc)

pub check_basetype_sound :
    (at : SourceRef) (a b : BaseType) (u : Unit {0})
    → check_basetype at a b ≡ ok u
    → (a ≡ b) × IsAssignable b
unfolding check_basetype
check_basetype_sound at int int u h = (refl, tt)
check_basetype_sound at bool bool u h = (refl, tt)
check_basetype_sound at BaseType.string BaseType.string u h = (refl, tt)
check_basetype_sound at BaseType.address BaseType.address u h = (refl, tt)
check_basetype_sound at (contract c) (contract d) u h = elim (Bool-cases (string_eq.same c d)) [
  | inl e ↦ (ap contract ((string_eq.same_iff c d).0 e), tt)
  | inr e ↦ absurd (ground arith)
]
check_basetype_sound at a b u h = absurd (cc)

-- Equal symbols give equal answers.
pub symbol_of-SameSymbols :
    (s t : SymbolTable) (node : NodeId) → SameSymbols s t → symbol_of node t ≡ symbol_of node s
unfolding symbol_of get_symbol_by_node_id get_symbol
symbol_of-SameSymbols s t node (nodes, arena) = rw (nodes, arena) refl

SameSymbols-insert :
    (s t : SymbolTable) (node : NodeId) (ty : BaseType)
    → SameSymbols s t
    → SameSymbols s (insert_expr_type node ty t)
unfolding insert_expr_type
SameSymbols-insert s t node ty h = h

expect_type_sound :
    (o : Option RefinedType) (ty : BaseType)
    → expect_type o ≡ ok ty
    → (declared : RefinedType) × (o ≡ some declared) × (base declared ≡ ty)
expect_type_sound none ty h = absurd (cc)
expect_type_sound (some d) ty h = (d, refl, cc)

expect_address_sound :
    (sr : SourceRef) (ty : BaseType) (u : Unit {0})
    → expect_address sr ty ≡ ok u
    → ty ≡ BaseType.address
expect_address_sound sr BaseType.address u h = refl
expect_address_sound sr ty u h = absurd (cc)

pub and_left : (a b : Bool) → (a && b) ≡ true → a ≡ true
and_left true b h = refl
and_left false b h = absurd (cc)

pub and_right : (a b : Bool) → (a && b) ≡ true → b ≡ true
and_right true b h = h
and_right false b h = absurd (cc)

abbrev Returns : Checked (BaseType × SymbolTable) → BaseType → SymbolTable → Type 0
Returns m ty u = m ≡ ok (ty, u)

-- A type that is inferred, in a table with the symbols of `s`.
abbrev Sound : SymbolTable → Expression → Checked (BaseType × SymbolTable) → Type 0
Sound s e m = (ty : BaseType) (u : SymbolTable) → m ≡ ok (ty, u) → HasType s e ty × SameSymbols s u

pub length-param_types : (ps : List Param) → length (param_types ps) ≡ length ps
length-param_types [] = refl
length-param_types (p ∷ ps) = ap suc (length-param_types ps)

check_arity_sound :
    (name : String) (expected found : ℕ) (sr : SourceRef) (u : Unit {0})
    → check_arity name expected found sr ≡ ok u
    → expected ≡ found
check_arity_sound name expected found sr u h = ground arith

infer_call_sound :
    (P : Type 0) (Q : List BaseType → Type 0) (s : SymbolTable) (f : String) (found : ℕ)
    (sr : SourceRef) (info : SymbolInfo) (b : Bool) (convert : Checked (BaseType × SymbolTable))
    (check : List BaseType → Checked SymbolTable)
    → ((ty : BaseType) (u : SymbolTable)
        → convert ≡ ok (ty, u)
        → P × (contract f ≡ ty) × SameSymbols s u)
    → ((tys : List BaseType) (u : SymbolTable)
        → length tys ≡ found
        → check tys ≡ ok u
        → Q tys × SameSymbols s u)
    → (ty : BaseType) (u : SymbolTable) → infer_call f found sr info b convert check ≡ ok (ty, u)
    → CallRule P Q f ty sr info b × SameSymbols s u
unfolding infer_call
infer_call_sound P Q s f found sr info true convert check on_convert on_check ty u h =
    let (address, is, same) = on_convert ty u h in ((address, is), same)
infer_call_sound P Q s f found sr info false convert check on_convert on_check ty u h =
    let ((result, params), signed, h₁) = >>=-eq-ok (call_signature sr info.kind) _ h in
    let (o, arity, h₂) = >>=-eq-ok (check_arity f (length params) found sr) _ h₁ in
    let (v, checked, h₃) = >>=-eq-ok (check (param_types params)) _ h₂ in
    let (fits, same) =
      on_check (param_types params) v
        (length-param_types params ∙ check_arity_sound f (length params) found sr o arity)
        checked in
    let is = ok-injective (base result, v) (ty, u) h₃ in
    (
      (result, params, signed, fits, ap (λ r. r.0) is),
      subst (SameSymbols s) (ap (λ r. r.1) is) same,
    )

module _ (s : SymbolTable) (at : SourceRef) where
  answered :
      (e : Expression) (t : SymbolTable) (c ty : BaseType) (u : SymbolTable)
      → HasType s e c
      → SameSymbols s t
      → Returns (ok (c, t)) ty u
      → HasType s e ty × SameSymbols s u
  answered e t c ty u typed same h =
      subst (λ r. HasType s e (r.0) × SameSymbols s (r.1)) (ok-injective (c, t) (ty, u) h)
        (typed, same)

  mutual
    unfolding infer_basetype is_pure_logical

    pub infer-Sound :
        (e : Expression) (t : SymbolTable)
        → is_pure_logical e ≡ true
        → SameSymbols s t
        → Sound s e (infer_basetype at e t)
    infer-Sound (literal lit i sr) t pure same ty u h =
        answered (literal lit i sr) _ (type_of_literal lit) ty u refl
          (SameSymbols-insert s t i _ same) h
    infer-Sound (identifier x i sr) t pure same ty u h =
        let (info, found, h₁) = >>=-eq-ok (symbol_of i t) _ h in
        let (b, typed, h₂) = >>=-eq-ok (expect_type info.ty) _ h₁ in
        let (declared, has, is) = expect_type_sound info.ty b typed in
        answered (identifier x i sr) t b ty u
          (info, declared, sym (symbol_of-SameSymbols s t i same) ∙ found, has, is) same h₂
    infer-Sound (binary_op l op r i sr) t pure same ty u h =
        let ((a, t₁), left, h₁) = >>=-eq-ok (infer_basetype at l t) _ h in
        let ((b, t₂), right, h₂) = >>=-eq-ok (infer_basetype at r t₁) _ h₁ in
        let (c, rule, h₃) = >>=-eq-ok (assert_binary_type op a b) _ h₂ in
        let (typed_l, same₁) =
          infer-Sound l t (and_left (is_pure_logical l) (is_pure_logical r) pure) same a t₁ left in
        let (typed_r, same₂) =
          infer-Sound r t₁ (and_right (is_pure_logical l) (is_pure_logical r) pure) same₁ b t₂
            right in
        answered (binary_op l op r i sr) _ c ty u
          (a, b, typed_l, typed_r, assert_binary_type_sound op a b c rule)
          (SameSymbols-insert s t₂ i c same₂) h₃
    infer-Sound (unary_op op e i sr) t pure same ty u h =
        let ((a, t₁), operand, h₁) = >>=-eq-ok (infer_basetype at e t) _ h in
        let (c, rule, h₂) = >>=-eq-ok (assert_unary_type op a) _ h₁ in
        let (typed, same₁) = infer-Sound e t pure same a t₁ operand in
        answered (unary_op op e i sr) _ c ty u (a, typed, assert_unary_type_sound op a c rule)
          (SameSymbols-insert s t₁ i c same₁) h₂
    infer-Sound (grouped e i sr) t pure same ty u h = infer-Sound e t pure same ty u h
    infer-Sound (function_call f args i sr) t pure same ty u h =
        let (info, found, h₁) = >>=-eq-ok (symbol_of i t) _ h in
        let (rule, same₁) =
          infer_call_sound (IsAddress s args) (HaveTypes s args) s f (count args) sr info
            (is_conversion info.kind) (infer_conversion at f sr args t)
            (λ tys. check_arguments at args tys t) (conversion-Sound args f sr t pure same)
            (arguments-Sound args t pure same) ty u h₁ in
        ((info, sym (symbol_of-SameSymbols s t i same) ∙ found, rule), same₁)
    infer-Sound (member_call e method args i sr) t pure same ty u h = absurd (cc)

    conversion-Sound :
        (args : Arguments) (f : String) (sr : SourceRef) (t : SymbolTable)
        → are_pure_logical args ≡ true
        → SameSymbols s t
        → (ty : BaseType) (u : SymbolTable) → infer_conversion at f sr args t ≡ ok (ty, u)
        → IsAddress s args × (contract f ≡ ty) × SameSymbols s u
    conversion-Sound (Arguments.cons e Arguments.nil) f sr t pure same ty u h =
        let ((a, t₁), operand, h₁) = >>=-eq-ok (infer_basetype at e t) _ h in
        let (b, address, h₂) = >>=-eq-ok (expect_address sr a) _ h₁ in
        let (typed, same₁) =
          infer-Sound e t (and_left (is_pure_logical e) true pure) same a t₁ operand in
        let is = ok-injective (contract f, t₁) (ty, u) h₂ in
        (
          subst (HasType s e) (expect_address_sound sr a b address) typed,
          ap (λ r. r.0) is,
          subst (SameSymbols s) (ap (λ r. r.1) is) same₁,
        )
    conversion-Sound Arguments.nil f sr t pure same ty u h = absurd (cc)
    conversion-Sound (Arguments.cons e (Arguments.cons d es)) f sr t pure same ty u h = absurd (cc)

    arguments-Sound :
        (args : Arguments) (t : SymbolTable)
        → are_pure_logical args ≡ true
        → SameSymbols s t
        → (tys : List BaseType) (u : SymbolTable) → length tys ≡ count args
        → check_arguments at args tys t ≡ ok u
        → HaveTypes s args tys × SameSymbols s u
    arguments-Sound Arguments.nil t pure same [] u arity h =
        (tt, subst (SameSymbols s) (ok-injective t u h) same)
    arguments-Sound Arguments.nil t pure same (ty ∷ tys) u arity h = absurd (omega (arith, arity))
    arguments-Sound (Arguments.cons e es) t pure same [] u arity h = absurd (omega (arith, arity))
    arguments-Sound (Arguments.cons e es) t pure same (ty ∷ tys) u arity h =
        let ((a, t₁), operand, h₁) = >>=-eq-ok (infer_basetype at e t) _ h in
        let (b, fits, h₂) = >>=-eq-ok (check_basetype at a ty) _ h₁ in
        let (typed, same₁) =
          infer-Sound e t (and_left (is_pure_logical e) (are_pure_logical es) pure) same a t₁
            operand in
        let (rest, same₂) =
          arguments-Sound es t₁ (and_right (is_pure_logical e) (are_pure_logical es) pure) same₁ tys
            u (omega (arith, arity)) h₂ in
        let (equal_types, assignable) = check_basetype_sound at a ty b fits in
        ((subst (HasType s e) equal_types typed, assignable, rest), same₂)

-- An expression without method calls whose type is inferred has that type by the typing rules, which read
-- only the symbols of the table, and inference leaves those symbols as they were.
pub infer_basetype_sound :
    (at : SourceRef) (e : Expression) (t u : SymbolTable) (ty : BaseType)
    → is_pure_logical e ≡ true
    → infer_basetype at e t ≡ ok (ty, u)
    → HasType t e ty × SameSymbols t u
infer_basetype_sound at e t u ty pure h = infer-Sound t at e t pure (refl, refl) ty u h
