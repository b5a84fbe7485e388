-- ===== src/Ast/Node.antt =====
-- ast/src/node_id.rs and ast/src/meta.rs: what every tree node carries.
use merak.Prelude.{ℕ, ◌+◌}

abbrev pub NodeId : Type 0
NodeId = ℕ

pub record SourceRef : Type 0 where
  pub start : ℕ
  pub end : ℕ

abbrev pub unknown : SourceRef
unknown = record { start = 0; end = 0 }

pub record NodeIdGenerator : Type 0 where
  pub next_id : ℕ

unfoldable pub next : NodeIdGenerator → NodeId × NodeIdGenerator
next gen = (gen.next_id, record { next_id = gen.next_id + 1 })
