-- ===== src/Tests/Evm.antt =====
-- codegen/src/evm at concrete inputs.
use mathlib.Core.Option
use merak.Prelude.{ℕ, ◌+◌, ◌≡◌, refl, List, [], ◌∷◌, some, arith, length, get_elem?, nat_eq}
use merak.Prelude.Outcome.{ok, err}
use merak.Prelude.Map.{get, insert}
use merak.Evm.Opcode.{Opcode, encode}
use merak.Evm.Opcode.Select.{push_for_size, dup_for_position, swap_for_position}
use merak.Evm.Opcode.Ranges.{in_range, selected-encode}
use merak.Evm.Opcode.Roundtrip.{decode, decode-encode, encode-injective}
use merak.Evm.Builder.{
  BytecodeBuilder, empty, emit, push, push_u64, new_label, mark_label, jump_to, finalize,
  unresolved_label, effective_target, trim_leading_zeros, to_be_bytes,
}
use merak.Evm.Builder.Push.{appended, IsPushOf, push-appended, push_u64-appended}
use merak.Evm.Builder.WellFormed.{
  Built, new, label_made, jumped, label_marked, emitted, WellFormed, Built-WellFormed,
}
use merak.Evm.Builder.Finalize.{patched_byte, finalize-patched, finalize-unresolved}

decode-encode_example : decode (encode Opcode.sstore) ≡ some Opcode.sstore
decode-encode_example = decode-encode Opcode.sstore

encode-injective_example : Opcode.add ≡ Opcode.add
encode-injective_example = encode-injective Opcode.add Opcode.add refl

selected-encode_example :
    (Option.map encode (push_for_size 16) ≡ in_range 0x5f 1 33 16)
    × (Option.map encode (dup_for_position 16) ≡ in_range 0x7f 1 17 16)
    × (Option.map encode (swap_for_position 16) ≡ in_range 0x8f 1 17 16)
selected-encode_example = selected-encode 16

-- push(&[0, 0, 0x42]) emits PUSH1 0x42, and push_u64(0x123456) emits PUSH3.
push_trims : push (0 ∷ 0 ∷ 0x42 ∷ []) empty ≡ ok (record empty { code = 0x60 ∷ 0x42 ∷ [] })
unfolding push trim_leading_zeros push_for_size emit encode
push_trims = refl

push_u64_trims :
    push_u64 0x123456 empty ≡ ok (record empty { code = 0x62 ∷ 0x12 ∷ 0x34 ∷ 0x56 ∷ [] })
unfolding push_u64 to_be_bytes push trim_leading_zeros push_for_size emit encode
push_u64_trims = refl

push-appended_example :
    (operand : List ℕ) × (push (0 ∷ 0x42 ∷ []) empty
      ≡ ok (appended empty (0x5f + length operand) operand))
    × IsPushOf 0x42 operand
push-appended_example = push-appended (0 ∷ 0x42 ∷ []) empty (omega arith)

push_u64-appended_example :
    (operand : List ℕ) × (push_u64 0x123456 empty
      ≡ ok (appended empty (0x5f + length operand) operand))
    × IsPushOf 0x123456 operand
push_u64-appended_example = push_u64-appended 0x123456 empty (omega arith)

-- A forward jump over one instruction: PUSH2 ADDR JUMP ADD JUMPDEST.
abbrev jump_forward : BytecodeBuilder
jump_forward = emit Opcode.jumpdest (mark_label 0 (emit Opcode.add (jump_to 0 (new_label empty).1)))

jump_forward-Built : Built jump_forward
unfolding new_label jump_to emit
jump_forward-Built =
    emitted Opcode.jumpdest
      (label_marked 0 (omega arith) (emitted Opcode.add (jumped 0 (omega arith) (label_made new))))

Built-WellFormed_example : WellFormed jump_forward
Built-WellFormed_example = Built-WellFormed jump_forward-Built

jump_forward_code : finalize jump_forward ≡ ok (0x61 ∷ 0 ∷ 5 ∷ 0x56 ∷ 0x01 ∷ 0x5b ∷ [])
unfolding finalize new_label jump_to emit mark_label encode effective_target get insert
jump_forward_code = refl

finalize-patched_example :
    (code : List ℕ) × (finalize jump_forward ≡ ok code)
    × (length code ≡ length jump_forward.code)
    × ((i : ℕ)
        → get_elem? code i
          ≡ patched_byte jump_forward jump_forward.pending_jumps jump_forward.code i)
unfolding new_label jump_to emit mark_label insert get
finalize-patched_example = finalize-patched jump_forward Built-WellFormed_example ((5, refl), tt)

-- A jump to a label that is never marked.
abbrev jump_nowhere : BytecodeBuilder
jump_nowhere = jump_to 0 (new_label empty).1

jump_nowhere-Built : Built jump_nowhere
unfolding new_label
jump_nowhere-Built = jumped 0 (omega arith) (label_made new)

finalize-unresolved_example : finalize jump_nowhere ≡ err (unresolved_label 0)
unfolding new_label jump_to emit get
finalize-unresolved_example =
    finalize-unresolved jump_nowhere [] [] (record { position = 1; target = 0; size = 2 })
      (Built-WellFormed jump_nowhere-Built) refl tt refl
