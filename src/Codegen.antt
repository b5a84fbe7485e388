-- ===== src/Codegen.antt =====
-- codegen/src/codegen: from lowered instructions to bytecode.
pub mod Shuffler
pub mod Analysis
pub mod Instructions
pub mod Terminators
