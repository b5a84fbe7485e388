-- ===== src/Ast/Operator.antt =====
-- ast/src/expression.rs: the operators of the source language.

pub data BinaryOperator : Type 0 where
  logical_or logical_and equal not_equal less_equal less greater_equal greater : BinaryOperator
  add subtract multiply divide modulo : BinaryOperator

pub data UnaryOperator : Type 0 where
  negate not : UnaryOperator
