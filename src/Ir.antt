-- ===== src/Ir.antt =====
-- ir/src/: the intermediate representation.
pub mod Operand
pub mod Terminator
pub mod Ssa
