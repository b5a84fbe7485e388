-- ===== src/Ast/Contract.antt =====
-- ast/src/contract.rs and ast/src/function.rs: files, contracts and functions. A path is its text, an
-- `IndexMap` an association list.
use merak.Prelude.{String, Bool, Option, List}
use merak.Prelude.Map.{Map}
use merak.Ast.Node.{NodeId, SourceRef}
use merak.Ast.Predicate.{Predicate}
use merak.Ast.Types.{RefinedType}
use merak.Ast.Statement.{Block, StateVar, StateConst}

pub record Param : Type 0 where
  pub name : String
  pub ty : RefinedType
  pub id : NodeId
  pub source_ref : SourceRef

pub data Visibility : Type 0 where
  internal external entrypoint : Visibility

pub data Modifier : Type 0 where
  payable guarded reentrant checked : Modifier

pub record Function : Type 0 where
  pub visibility : Visibility
  pub payable : Bool
  pub modifiers : List Modifier
  pub name : String
  pub params : List Param
  pub return_type : Option RefinedType
  pub requires : List Predicate
  pub ensures : List Predicate
  pub body : Block
  pub id : NodeId
  pub source_ref : SourceRef

pub record Import : Type 0 where
  pub contract_name : String
  pub file_path : String
  pub alias : Option String
  pub id : NodeId
  pub source_ref : SourceRef

pub record InterfaceFunctionSig : Type 0 where
  pub name : String
  pub params : List Param
  pub return_type : Option RefinedType
  pub id : NodeId
  pub source_ref : SourceRef

pub record InterfaceDecl : Type 0 where
  pub name : String
  pub functions : List InterfaceFunctionSig
  pub id : NodeId
  pub source_ref : SourceRef

pub record Constructor : Type 0 where
  pub params : List Param
  pub body : Block
  pub id : NodeId
  pub source_ref : SourceRef

pub record Contract : Type 0 where
  pub name : String
  pub id : NodeId
  pub variables : List StateVar
  pub constants : List StateConst
  pub constructor : Option Constructor
  pub functions : List Function
  pub source_ref : SourceRef

pub record File : Type 0 where
  pub imports : List Import
  pub interfaces : List InterfaceDecl
  pub contract : Contract

pub record Program : Type 0 where
  pub files : Map String File
