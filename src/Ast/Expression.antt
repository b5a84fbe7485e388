-- ===== src/Ast/Expression.antt =====
-- ast/src/expression.rs: expressions, and the renaming of their identifiers. A `Vec` of arguments is
-- the list type of the block; `none` is a panic.
pub mod Conversion
pub mod Renaming
pub mod UsedVars
pub mod Truth
use mathlib.Core.Option.{get_or}
use merak.Prelude.{ℕ, String, Bool, Option, none, some, List, [], ◌∷◌, ◌++◌, string_eq}
use merak.Prelude.Partial.{◌>>=◌}
use merak.Prelude.Int.{ℤ}
use merak.Prelude.Map.{Map, get}
use merak.Ast.Node.{NodeId, SourceRef}
use merak.Ast.Operator.{BinaryOperator, UnaryOperator}
use merak.Ast.Predicate.Substitute.{rename}

-- `primitive_types::H256`: its 32 bytes.
pub record H256 : Type 0 where
  pub bytes : List ℕ

pub data Literal : Type 0 where
  integer : ℤ → Literal
  address : H256 → Literal
  boolean : Bool → Literal
  string : String → Literal

mutual
  pub data Expression : Type 0 where
    literal : Literal → NodeId → SourceRef → Expression
    identifier : String → NodeId → SourceRef → Expression
    binary_op : Expression → BinaryOperator → Expression → NodeId → SourceRef → Expression
    unary_op : UnaryOperator → Expression → NodeId → SourceRef → Expression
    grouped : Expression → NodeId → SourceRef → Expression
    function_call : String → Arguments → NodeId → SourceRef → Expression
    member_call : Expression → String → Arguments → NodeId → SourceRef → Expression

  pub data Arguments : Type 0 where
    nil : Arguments
    cons : Expression → Arguments → Arguments

-- `Expression::substitute_identifiers`
unfoldable mutual
  unfolding rename

  pub substitute_identifiers : Map String String → Expression → Expression
  substitute_identifiers m (literal lit i sr) = literal lit i sr
  substitute_identifiers m (identifier x i sr) = identifier (rename m x) i sr
  substitute_identifiers m (binary_op l op r i sr) =
      binary_op (substitute_identifiers m l) op (substitute_identifiers m r) i sr
  substitute_identifiers m (unary_op op e i sr) = unary_op op (substitute_identifiers m e) i sr
  substitute_identifiers m (grouped e i sr) = grouped (substitute_identifiers m e) i sr
  substitute_identifiers m (function_call f args i sr) =
      function_call f (map_identifiers m args) i sr
  substitute_identifiers m (member_call e f args i sr) =
      member_call (substitute_identifiers m e) f (map_identifiers m args) i sr

  pub map_identifiers : Map String String → Arguments → Arguments
  map_identifiers m nil = nil
  map_identifiers m (cons e es) = cons (substitute_identifiers m e) (map_identifiers m es)

-- `Expression::substitute_vars`, which panics on a name that is not mapped.
unfoldable mutual
  pub substitute_vars : Map String String → Expression → Option Expression
  substitute_vars m (literal lit i sr) = some (literal lit i sr)
  substitute_vars m (identifier x i sr) = do stack ← get x m; some (identifier stack i sr)
  substitute_vars m (binary_op l op r i sr) = do
    left ← substitute_vars m l
    right ← substitute_vars m r
    some (binary_op left op right i sr)
  substitute_vars m (unary_op op e i sr) = do
    expr ← substitute_vars m e
    some (unary_op op expr i sr)
  substitute_vars m (grouped e i sr) = do inner ← substitute_vars m e; some (grouped inner i sr)
  substitute_vars m (function_call f args i sr) = do
    args' ← map_substitute_vars m args
    some (function_call f args' i sr)
  substitute_vars m (member_call e f args i sr) = do
    args' ← map_substitute_vars m args
    some (member_call (substitute_identifiers m e) f args' i sr)

  pub map_substitute_vars : Map String String → Arguments → Option Arguments
  map_substitute_vars m nil = some nil
  map_substitute_vars m (cons e es) = do
    first ← substitute_vars m e
    rest ← map_substitute_vars m es
    some (cons first rest)

-- `Expression::get_used_vars`
unfoldable mutual
  pub get_used_vars : Expression → List String
  get_used_vars (literal lit i sr) = []
  get_used_vars (identifier x i sr) = x ∷ []
  get_used_vars (binary_op l op r i sr) = get_used_vars l ++ get_used_vars r
  get_used_vars (unary_op op e i sr) = get_used_vars e
  get_used_vars (grouped e i sr) = get_used_vars e
  get_used_vars (function_call f args i sr) = f ∷ all_used_vars args
  get_used_vars (member_call e f args i sr) = get_used_vars e ++ all_used_vars args

  pub all_used_vars : Arguments → List String
  all_used_vars nil = []
  all_used_vars (cons e es) = get_used_vars e ++ all_used_vars es
