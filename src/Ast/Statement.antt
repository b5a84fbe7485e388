-- ===== src/Ast/Statement.antt =====
-- ast/src/statement.rs: statements and blocks. A `Block` is the list type of the block; an `If` with no
-- else block is a constructor of its own.
use merak.Prelude.{String, Option, List}
use merak.Ast.Node.{NodeId, SourceRef}
use merak.Ast.Predicate.{Predicate, RefinementExpr}
use merak.Ast.Expression.{Expression}
use merak.Ast.Types.{RefinedType}

mutual
  pub data Statement : Type 0 where
    expression : Expression → NodeId → SourceRef → Statement
    if_then : Expression → Block → NodeId → SourceRef → Statement
    if_else : Expression → Block → Block → NodeId → SourceRef → Statement
    while :
        Expression → List Predicate → List RefinementExpr → Block → NodeId → SourceRef → Statement
    return : Option Expression → NodeId → SourceRef → Statement
    assignment : String → Expression → NodeId → SourceRef → Statement
    var_declaration const_declaration :
        String → Option RefinedType → Expression → NodeId → SourceRef → Statement

  pub data Block : Type 0 where
    nil : Block
    cons : Statement → Block → Block

pub record StateVar : Type 0 where
  pub name : String
  pub ty : RefinedType
  pub expr : Expression
  pub id : NodeId
  pub source_ref : SourceRef

pub record StateConst : Type 0 where
  pub name : String
  pub ty : RefinedType
  pub expr : Expression
  pub id : NodeId
  pub source_ref : SourceRef
