-- ===== src/Ast.antt =====
-- ast/src: the syntax trees of the source language and of its refinements.
pub mod Node
pub mod Predicate
pub mod Operator
pub mod Expression
pub mod Types
pub mod Statement
pub mod Contract
