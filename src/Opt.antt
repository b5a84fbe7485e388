-- ===== src/Opt.antt =====
-- codegen/src/opt/.
pub mod Pipeline
pub mod DeadCode
