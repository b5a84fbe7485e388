-- ===== src/Evm/Builder/Push.antt =====
-- codegen/src/evm/bytecode.rs: the instruction that `push` appends, and the value of its operand.
use native.Mathlib.Nat.{pow-suc, mod-add-div', div-div-eq-div-mul}
use merak.Prelude.{
  ℕ, zero, suc, ◌+◌, ◌*◌, ◌/◌, ◌%◌, ◌^◌, ◌≤◌, ◌<◌, ◌≡◌, ◌∙◌, ap, refl, List, [], ◌∷◌, ◌++◌,
  append_assoc, arith, length, Bool-cases, inl, inr, ◌==◌, ==_iff,
}
use merak.Prelude.Outcome.{ok}
use merak.Evm.Opcode.{encode}
use merak.Evm.Opcode.Select.{push_for_size}
use merak.Evm.Opcode.Ranges.{push_for_size-byte, in_range-opcode}
use merak.Evm.Builder.{
  BytecodeBuilder, emit, trim_leading_zeros, push, push_trimmed, push_u64, to_be_bytes,
}

-- The number that bytes stand for, the highest byte first.
abbrev pub be_value : List ℕ → ℕ
be_value [] = 0
be_value (byte ∷ bytes) = byte * 256 ^ length bytes + be_value bytes

pub be_value-trim_leading_zeros :
    (bytes : List ℕ) → be_value (trim_leading_zeros bytes) ≡ be_value bytes
unfolding trim_leading_zeros
be_value-trim_leading_zeros [] = refl
be_value-trim_leading_zeros (byte ∷ bytes) = elim (Bool-cases (byte == 0)) [
  | inl z ↦ rw (z, (==_iff byte 0).0 z) (omega (arith, be_value-trim_leading_zeros bytes))
  | inr n ↦ rw n
]

length-trim_leading_zeros : (bytes : List ℕ) → length (trim_leading_zeros bytes) ≤ length bytes
unfolding trim_leading_zeros
length-trim_leading_zeros [] = omega arith
length-trim_leading_zeros (byte ∷ bytes) = ground (arith, length-trim_leading_zeros bytes)

-- The builder after one instruction of the opcode byte `op` with operand `operand`.
abbrev pub appended : BytecodeBuilder → ℕ → List ℕ → BytecodeBuilder
appended b op operand = record b { code = b.code ++ op ∷ operand }

-- A PUSH of one to 32 operand bytes, whose opcode says how many follow and whose value is `v`.
abbrev pub IsPushOf : ℕ → List ℕ → Type 0
IsPushOf v operand = (1 ≤ length operand) × (length operand ≤ 32) × (be_value operand ≡ v)

push_trimmed-appended :
    (bytes : List ℕ) (b : BytecodeBuilder)
    → length bytes ≤ 32
    → (operand : List ℕ) × (push_trimmed bytes b ≡ ok (appended b (0x5f + length operand) operand))
      × IsPushOf (be_value bytes) operand
unfolding push_trimmed emit encode
push_trimmed-appended [] b h = (
  0 ∷ [],
  (λ i. ok (record b { code = append_assoc b.code (0x60 ∷ []) (0 ∷ []) i })),
  (omega arith, omega arith, omega arith),
)
push_trimmed-appended (byte ∷ bytes) b h =
    let n = length (byte ∷ bytes) in
    let (op, found, at) =
      in_range-opcode (push_for_size n) 0x5f 1 33 n (push_for_size-byte n) (omega arith)
        (omega arith) in
    (byte ∷ bytes, rw (found, push_trimmed, at, append_assoc), (omega arith, omega arith, refl))

-- `push` of at most 32 bytes does not panic: it appends one PUSH instruction, whose operand has
-- from 1 to 32 bytes, as many as its opcode says, and stands for the same number.
pub push-appended :
    (value : List ℕ) (b : BytecodeBuilder)
    → length value ≤ 32
    → (operand : List ℕ) × (push value b ≡ ok (appended b (0x5f + length operand) operand))
      × IsPushOf (be_value value) operand
unfolding push
push-appended value b h = rw (← be_value-trim_leading_zeros value) (
    push_trimmed-appended (trim_leading_zeros value) b
      (omega (arith, length-trim_leading_zeros value)))

-- The digits of a number above and below `p`, put together again.
mod-split : (value p : ℕ) → value / p % 256 * p + value % p ≡ value % (p * 256)
mod-split value p = omega (
  arith,
  ap (λ (t : ℕ). t * p) (mod-add-div' (value / p) 256),
  mod-add-div' value p,
  mod-add-div' value (p * 256),
  ap (λ (t : ℕ). t * (p * 256)) (div-div-eq-div-mul value p 256),
)

pub length-to_be_bytes : (n value : ℕ) → length (to_be_bytes n value) ≡ n
unfolding to_be_bytes
length-to_be_bytes zero value = refl
length-to_be_bytes (suc n) value = omega (arith, length-to_be_bytes n value)

be_value-to_be_bytes_mod : (n value : ℕ) → be_value (to_be_bytes n value) ≡ value % 256 ^ n
unfolding to_be_bytes
be_value-to_be_bytes_mod zero value = omega arith
be_value-to_be_bytes_mod (suc n) value =
    rw (length-to_be_bytes, be_value-to_be_bytes_mod n value, pow-suc) (mod-split value (256 ^ n))

-- `push_u64` never panics, and its operand stands for the number.
pub push_u64-appended :
    (value : ℕ) (b : BytecodeBuilder)
    → value < 2 ^ 64
    → (operand : List ℕ) × (push_u64 value b ≡ ok (appended b (0x5f + length operand) operand))
      × IsPushOf value operand
unfolding push_u64
push_u64-appended value b h =
    let same : be_value (to_be_bytes 8 value) ≡ value =
      be_value-to_be_bytes_mod 8 value ∙ omega arith in
    let (operand, runs, (lo, hi, v)) =
      push-appended (to_be_bytes 8 value) b (omega (arith, length-to_be_bytes 8 value)) in
    (operand, runs, (lo, hi, v ∙ same))
