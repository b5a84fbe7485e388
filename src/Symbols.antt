-- ===== src/Symbols.antt =====
-- symbols/src/.
pub mod Id
pub mod Table
