-- ===== src/Analyzer.antt =====
-- analyzer/src/.
pub mod Resolve
pub mod Typecheck
pub mod Analyze
pub mod Storage
