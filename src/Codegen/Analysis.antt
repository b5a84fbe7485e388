-- ===== src/Codegen/Analysis.antt =====
-- codegen/src/analysis/: which slots are live, where they are kept, and how deep the stack gets.
pub mod StackDepth
pub mod Liveness
pub mod Allocator
