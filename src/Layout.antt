-- ===== src/Layout.antt =====
-- codegen/src/layout/.
pub mod Storage
