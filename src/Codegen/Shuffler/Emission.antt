-- ===== src/Codegen/Shuffler/Emission.antt =====
-- codegen/src/codegen/stack_shuffler.rs: the bytecode of plans, and how deep DUP and SWAP reach.
use native.Mathlib.Nat.{mod-one}
use merak.Prelude.{
  false, ℕ, zero, suc, ◌+◌, ◌^◌, ◌<◌, ◌≤◌, ◌≡◌, ◌∙◌, refl, sym, ap, List, [], ◌∷◌, ◌++◌, Option,
  none, some, arith, length, All, All-append, Bool-cases, Option-cases, inl, inr, ◌==◌,
  append_assoc, append-nil,
}
use merak.Prelude.Outcome.{ok, ◌>>=◌}
use merak.Lowering.Slot.{StackSlot, StackState, memory_offset_for_slot}
use merak.Evm.Opcode.{Opcode, encode}
use merak.Evm.Opcode.Select.{dup_for_position, swap_for_position}
use merak.Evm.Opcode.Ranges.{dup_for_position-byte, swap_for_position-byte, in_range-opcode}
use merak.Evm.Builder.{BytecodeBuilder, emit, push_u64}
use merak.Evm.Builder.Push.{push_u64-appended}
use merak.Codegen.Shuffler.{
  ShuffleOp, dup, swap, pop, mload_slot, mstore_slot, holds_slot, already_correct, position_from,
  fetch, rotated_target, fetch_all, swap_pops, pops, plan_shuffle, emit_op, emit_shuffle,
}

-- The EVM has an opcode for the operation.
abbrev pub IsEncodable : ShuffleOp → Type 0
IsEncodable (dup n) = (1 ≤ n) × (n ≤ 16)
IsEncodable (swap n) = (1 ≤ n) × (n ≤ 16)
IsEncodable op = Unit

position_from-lt :
    (i p : ℕ) (layout : List (Option StackSlot)) (t : StackSlot)
    → position_from i layout t ≡ some p
    → p < i + length layout
unfolding position_from
position_from-lt i p [] t e = absurd (cc)
position_from-lt i p (s ∷ layout) t e = elim (Bool-cases (holds_slot s t)) [
  | inl h ↦ let at : i ≡ p = cc (rw (h, position_from) at e) in omega arith
  | inr h ↦ omega (arith, position_from-lt (i + 1) p layout t (rw (h, position_from) at e))
]

fetch-IsEncodable :
    (layout : List (Option StackSlot)) (t : StackSlot)
    → length layout ≤ 16
    → IsEncodable (fetch layout t)
unfolding fetch
fetch-IsEncodable layout t h = elim (Option-cases (position_from 0 layout t)) [
  | inl e ↦ rw (e, fetch) tt
  | inr (p, e) ↦ rw (e, fetch) (omega (arith, position_from-lt 0 p layout t e))
]

fetch_all-IsEncodable :
    (target : List StackSlot) (rotation count : ℕ) (layout : List (Option StackSlot))
    → length layout + count ≤ 16
    → All IsEncodable (fetch_all target rotation count layout)
unfolding fetch_all
fetch_all-IsEncodable target rotation zero layout h = tt
fetch_all-IsEncodable target rotation (suc j) layout h = (
  fetch-IsEncodable layout _ (omega arith),
  fetch_all-IsEncodable target rotation j (some _ ∷ layout) (omega arith),
)

swap_pops-IsEncodable : (n m : ℕ) → 1 ≤ n → n ≤ 16 → All IsEncodable (swap_pops n m)
unfolding swap_pops
swap_pops-IsEncodable n zero p q = tt
swap_pops-IsEncodable n (suc m) p q = ((p, q), (tt, swap_pops-IsEncodable n m p q))

pops-IsEncodable : (m : ℕ) → All IsEncodable (pops m)
unfolding pops
pops-IsEncodable zero = tt
pops-IsEncodable (suc m) = (tt, pops-IsEncodable m)

plan_shuffle-IsEncodable :
    (current : List (Option StackSlot)) (target warm : List StackSlot)
    → length current + length target ≤ 16
    → All IsEncodable (plan_shuffle current target warm)
unfolding plan_shuffle
plan_shuffle-IsEncodable current target warm h =
    elim (Bool-cases (already_correct current target)) [
      | inl e ↦ rw e tt
      | inr e ↦ elim (Bool-cases (length target == 0)) [
        | inl z ↦ rw (e, z) (pops-IsEncodable (length current))
        | inr z ↦
            rw (e, z)
              (All-append IsEncodable (fetch_all target _ (length target) current) _
                (fetch_all-IsEncodable target _ (length target) current h)
                (swap_pops-IsEncodable (length target) (length current) (ground arith)
                  (omega arith)))
      ]
    ]

memory_offset_for_slot-lt :
    (state : StackState) (slot : StackSlot) → memory_offset_for_slot state slot < 2 ^ 64
unfolding memory_offset_for_slot
memory_offset_for_slot-lt state slot = omega arith

-- A builder with more code at its end.
abbrev pub extended : BytecodeBuilder → List ℕ → BytecodeBuilder
extended b bytes = record b { code = b.code ++ bytes }

-- PUSH of an offset, then an opcode that reads it.
push_offset :
    (state : StackState) (slot : StackSlot) (op : Opcode) (b : BytecodeBuilder)
    → (bytes : List ℕ) × ((push_u64 (memory_offset_for_slot state slot) b >>= λ pushed.
          ok (emit op pushed))
        ≡ ok (extended b bytes))
unfolding emit
push_offset state slot op b =
    let offset = memory_offset_for_slot state slot in
    let (operand, runs, _) = push_u64-appended offset b (memory_offset_for_slot-lt state slot) in
    ((0x5f + length operand) ∷ operand ++ encode op ∷ [], rw (runs, append_assoc))

-- What an operation that the EVM has appends.
emit_op-ok :
    (state : StackState) (op : ShuffleOp) (b : BytecodeBuilder)
    → IsEncodable op
    → (bytes : List ℕ) × (emit_op state op b ≡ ok (extended b bytes))
unfolding emit_op emit
emit_op-ok state (dup n) b (p, q) =
    let (op, found, at) =
      in_range-opcode (dup_for_position n) 0x7f 1 17 n (dup_for_position-byte n) p (omega arith) in
    (encode op ∷ [], rw (found, emit_op))
emit_op-ok state (swap n) b (p, q) =
    let (op, found, at) =
      in_range-opcode (swap_for_position n) 0x8f 1 17 n (swap_for_position-byte n) p
        (omega arith) in
    (encode op ∷ [], rw (found, emit_op))
emit_op-ok state pop b h = (encode Opcode.pop ∷ [], refl)
emit_op-ok state (mload_slot slot) b h = push_offset state slot Opcode.mload b
emit_op-ok state (mstore_slot slot) b h = push_offset state slot Opcode.mstore b

emit_shuffle-ok :
    (state : StackState) (ops : List ShuffleOp) (b : BytecodeBuilder)
    → All IsEncodable ops
    → (bytes : List ℕ) × (emit_shuffle state ops b ≡ ok (extended b bytes))
unfolding emit_shuffle
emit_shuffle-ok state [] b h = ([], ap (λ c. ok (record b { code = c })) (sym (append-nil b.code)))
emit_shuffle-ok state (op ∷ ops) b (p, h) =
    let (first, runs) = emit_op-ok state op b p in
    let (later, more) = emit_shuffle-ok state ops (extended b first) h in
    (
      first ++ later,
      rw runs (more ∙ ap (λ c. ok (record b { code = c })) (append_assoc b.code first later)),
    )

-- For at most 16 slots, the current ones and the target's together, the plan uses no DUP or SWAP that the
-- EVM lacks, and it is emitted without a panic: code is appended, and nothing else of the builder changes.
pub emit_shuffle-plan_shuffle :
    (state : StackState) (current : List (Option StackSlot)) (target warm : List StackSlot)
    (b : BytecodeBuilder)
    → length current + length target ≤ 16
    → All IsEncodable (plan_shuffle current target warm)
      × (bytes : List ℕ) × (emit_shuffle state (plan_shuffle current target warm) b
          ≡ ok (extended b bytes))
emit_shuffle-plan_shuffle state current target warm b h =
    let encodable = plan_shuffle-IsEncodable current target warm h in
    let (bytes, runs) = emit_shuffle-ok state (plan_shuffle current target warm) b encodable in
    (encodable, bytes, runs)

dup_for_position-none : (n : ℕ) → 16 < n → dup_for_position n ≡ none
dup_for_position-none n h = elim (Option-cases (dup_for_position n)) [
  | inl e ↦ e
  | inr (op, e) ↦ absurd (ground (arith, dup_for_position-byte n, e))
]

-- A layout in which the slot stands is not empty.
already_correct-deep :
    (current : List (Option StackSlot)) (t : StackSlot)
    → 16 < length current
    → already_correct current (t ∷ []) ≡ false
unfolding already_correct
already_correct-deep [] t h = refl
already_correct-deep (c ∷ []) t h = absurd (omega (arith, h))
already_correct-deep (c ∷ d ∷ current) t h = ground arith

fetch-dropped :
    (state : StackState) (current : List (Option StackSlot)) (t : StackSlot) (ops : List ShuffleOp)
    (b : BytecodeBuilder) (p : ℕ)
    → position_from 0 current t ≡ some p
    → 16 ≤ p
    → emit_shuffle state (fetch current t ∷ ops) b ≡ emit_shuffle state ops b
unfolding fetch emit_shuffle emit_op
fetch-dropped state current t ops b p at deep =
    let none_such : dup_for_position (p + 1) ≡ none =
      dup_for_position-none (p + 1) (omega (arith, deep)) in
    rw (at, fetch) (rw (none_such, emit_op))

-- Where the first place of a slot in a layout is 16 or more deep, it is not brought up: in the bytecode of
-- the operation that fetches it and any others there is only that of the others, and the bytecode of the
-- plan that is to leave that slot alone on the stack is that of the plan's swaps and pops.
pub emit_shuffle-deep_dropped :
    (state : StackState) (current : List (Option StackSlot)) (t : StackSlot) (ops : List ShuffleOp)
    (warm : List StackSlot) (b : BytecodeBuilder) (p : ℕ)
    → position_from 0 current t ≡ some p
    → 16 ≤ p
    → (emit_shuffle state (fetch current t ∷ ops) b ≡ emit_shuffle state ops b)
      × (emit_shuffle state (plan_shuffle current (t ∷ []) warm) b
          ≡ emit_shuffle state (swap_pops 1 (length current)) b)
unfolding plan_shuffle rotated_target fetch_all
emit_shuffle-deep_dropped state current t ops warm b p at deep =
    let inside : 16 < length current = omega (arith, deep, position_from-lt 0 p current t at) in
    (
      fetch-dropped state current t ops b p at deep,
      rw (already_correct-deep current t inside, mod-one)
          (fetch-dropped state current t (swap_pops 1 (length current)) b p at deep),
    )
