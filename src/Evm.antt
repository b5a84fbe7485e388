-- ===== src/Evm.antt =====
-- codegen/src/evm: the opcodes and the bytecode builder.
pub mod Opcode
pub mod Builder
