-- ===== src/Evm/Opcode/Ranges.antt =====
-- codegen/src/evm/opcodes.rs: the sizes and positions of PUSH, DUP and SWAP, and their bytes.
use mathlib.Core.Option
use merak.Prelude.{
  ℕ, ◌+◌, ◌≤◌, ◌<◌, ◌≡◌, refl, List, [], ◌∷◌, Option, none, some, ◌&&◌, arith, leb, ltb,
  if◌then◌else◌, length,
}
use merak.Evm.Opcode.{Opcode, encode}
use merak.Evm.Opcode.Select.{
  match_arms, push_arms, push_for_size, dup_arms, dup_for_position, swap_arms, swap_for_position,
}

-- The arms are keyed `k`, `k + 1`, …, and the opcode of the arm `j` has the byte `base + j`.
abbrev Consecutive : ℕ → ℕ → List (ℕ × Opcode) → Type 0
Consecutive base k [] = Unit
Consecutive base k ((j, op) ∷ arms) =
    (j ≡ k) × (encode op ≡ base + k) × Consecutive base (k + 1) arms

abbrev pub in_range : ℕ → ℕ → ℕ → ℕ → Option ℕ
in_range base lo hi n = if leb lo n && ltb n hi then some (base + n) else none

match_arms-Consecutive :
    (base k n : ℕ) (arms : List (ℕ × Opcode))
    → Consecutive base k arms
    → Option.map encode (match_arms arms n) ≡ in_range base k (k + length arms) n
unfolding match_arms
match_arms-Consecutive base k n [] h = ground arith
match_arms-Consecutive base k n ((j, op) ∷ arms) (p, q, r) =
    ground (arith, match_arms-Consecutive base (k + 1) n arms r)

pub push_for_size-byte : (n : ℕ) → Option.map encode (push_for_size n) ≡ in_range 0x5f 1 33 n
unfolding push_for_size encode
push_for_size-byte n = match_arms-Consecutive 0x5f 1 n push_arms (omega arith)

pub dup_for_position-byte : (n : ℕ) → Option.map encode (dup_for_position n) ≡ in_range 0x7f 1 17 n
unfolding dup_for_position encode
dup_for_position-byte n = match_arms-Consecutive 0x7f 1 n dup_arms (omega arith)

pub swap_for_position-byte :
    (n : ℕ) → Option.map encode (swap_for_position n) ≡ in_range 0x8f 1 17 n
unfolding swap_for_position encode
swap_for_position-byte n = match_arms-Consecutive 0x8f 1 n swap_arms (omega arith)

-- `push_for_size` serves the sizes from 1 to 32, and PUSH `n` has the byte 0x5f + n; `dup_for_position` and
-- `swap_for_position` serve the positions from 1 to 16, and DUP `n` and SWAP `n` have the bytes 0x7f + n and
-- 0x8f + n.
pub selected-encode :
    (n : ℕ)
    → (Option.map encode (push_for_size n) ≡ in_range 0x5f 1 33 n)
      × (Option.map encode (dup_for_position n) ≡ in_range 0x7f 1 17 n)
      × (Option.map encode (swap_for_position n) ≡ in_range 0x8f 1 17 n)
selected-encode n = (push_for_size-byte n, dup_for_position-byte n, swap_for_position-byte n)

-- A value in range is given by an opcode.
pub in_range-opcode :
    (o : Option Opcode) (base lo hi n : ℕ)
    → Option.map encode o ≡ in_range base lo hi n
    → lo ≤ n
    → n < hi
    → (op : Opcode) × (o ≡ some op) × (encode op ≡ base + n)
in_range-opcode none base lo hi n e p q = absurd (ground arith)
in_range-opcode (some op) base lo hi n e p q = (op, refl, ground arith)
