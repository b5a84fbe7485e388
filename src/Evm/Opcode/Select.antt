-- ===== src/Evm/Opcode/Select.antt =====
-- codegen/src/evm/opcodes.rs: which PUSH, DUP or SWAP serves a size or a position.
-- A `match` on numerals is the list of its arms, read from the first to the last.
use merak.Prelude.{ℕ, List, [], ◌∷◌, Option, none, some, ◌==◌, if◌then◌else◌}
use merak.Evm.Opcode.{
  Opcode, push1, push2, push3, push4, push5, push6, push7, push8, push9, push10, push11, push12,
  push13, push14, push15, push16, push17, push18, push19, push20, push21, push22, push23, push24,
  push25, push26, push27, push28, push29, push30, push31, push32, dup1, dup2, dup3, dup4, dup5,
  dup6, dup7, dup8, dup9, dup10, dup11, dup12, dup13, dup14, dup15, dup16, swap1, swap2, swap3,
  swap4, swap5, swap6, swap7, swap8, swap9, swap10, swap11, swap12, swap13, swap14, swap15, swap16,
}

-- The arm that a `match` takes, or its arm `_ => None`.
unfoldable pub match_arms : List (ℕ × Opcode) → ℕ → Option Opcode
match_arms [] n = none
match_arms ((k, op) ∷ arms) n = if n == k then some op else match_arms arms n

abbrev pub push_arms : List (ℕ × Opcode)
push_arms =
    (1, push1)
    ∷ (2, push2)
    ∷ (3, push3)
    ∷ (4, push4)
    ∷ (5, push5)
    ∷ (6, push6)
    ∷ (7, push7)
    ∷ (8, push8)
    ∷ (9, push9)
    ∷ (10, push10)
    ∷ (11, push11)
    ∷ (12, push12)
    ∷ (13, push13)
    ∷ (14, push14)
    ∷ (15, push15)
    ∷ (16, push16)
    ∷ (17, push17)
    ∷ (18, push18)
    ∷ (19, push19)
    ∷ (20, push20)
    ∷ (21, push21)
    ∷ (22, push22)
    ∷ (23, push23)
    ∷ (24, push24)
    ∷ (25, push25)
    ∷ (26, push26)
    ∷ (27, push27)
    ∷ (28, push28)
    ∷ (29, push29)
    ∷ (30, push30)
    ∷ (31, push31)
    ∷ (32, push32)
    ∷ []

-- `Opcode::push_for_size`
unfoldable pub push_for_size : ℕ → Option Opcode
unfolding match_arms
push_for_size size = match_arms push_arms size

abbrev pub dup_arms : List (ℕ × Opcode)
dup_arms =
    (1, dup1)
    ∷ (2, dup2)
    ∷ (3, dup3)
    ∷ (4, dup4)
    ∷ (5, dup5)
    ∷ (6, dup6)
    ∷ (7, dup7)
    ∷ (8, dup8)
    ∷ (9, dup9)
    ∷ (10, dup10)
    ∷ (11, dup11)
    ∷ (12, dup12)
    ∷ (13, dup13)
    ∷ (14, dup14)
    ∷ (15, dup15)
    ∷ (16, dup16)
    ∷ []

-- `Opcode::dup_for_position`
unfoldable pub dup_for_position : ℕ → Option Opcode
unfolding match_arms
dup_for_position pos = match_arms dup_arms pos

abbrev pub swap_arms : List (ℕ × Opcode)
swap_arms =
    (1, swap1)
    ∷ (2, swap2)
    ∷ (3, swap3)
    ∷ (4, swap4)
    ∷ (5, swap5)
    ∷ (6, swap6)
    ∷ (7, swap7)
    ∷ (8, swap8)
    ∷ (9, swap9)
    ∷ (10, swap10)
    ∷ (11, swap11)
    ∷ (12, swap12)
    ∷ (13, swap13)
    ∷ (14, swap14)
    ∷ (15, swap15)
    ∷ (16, swap16)
    ∷ []

-- `Opcode::swap_for_position`
unfoldable pub swap_for_position : ℕ → Option Opcode
unfolding match_arms
swap_for_position pos = match_arms swap_arms pos
