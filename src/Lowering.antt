-- ===== src/Lowering.antt =====
-- codegen/src/lowering/.
pub mod Slot
pub mod Instruction
pub mod Execution
