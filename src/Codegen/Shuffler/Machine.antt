-- ===== src/Codegen/Shuffler/Machine.antt =====
-- What the shuffle operations do: the EVM's stack, top first, and the memory cells of the slots.
-- Plans of codegen/src/codegen/stack_shuffler.rs are checked against this machine.
use merak.Prelude.{
  ℕ, zero, suc, Option, none, some, List, [], ◌∷◌, get_elem?, set, ◌==◌, if◌then◌else◌,
}
use merak.Codegen.Shuffler.{ShuffleOp, dup, swap, pop, mload_slot, mstore_slot}
use merak.Lowering.Slot.{StackSlot}

-- The stack, and the value that each slot's memory cell holds.
abbrev pub Machine {ℓ} : Type ℓ → Type ℓ
Machine V = List V × (StackSlot → V)

module _ {ℓ} {V : Type ℓ} where
  push_found : Option V → Machine V → Option (Machine V)
  push_found none vm = none
  push_found (some v) (stack, mem) = some (v ∷ stack, mem)

  -- SWAP `n` exchanges the top with the item `n` below it.
  exchange : V → ℕ → List V → Option V → Option (List V)
  exchange top n stack none = none
  exchange top n stack (some v) = some (v ∷ set stack n top)

  with_mem : (StackSlot → V) → Option (List V) → Option (Machine V)
  with_mem mem none = none
  with_mem mem (some stack) = some (stack, mem)

  -- One operation; `none` where the stack is too short.
  unfoldable pub step : ShuffleOp → Machine V → Option (Machine V)
  unfolding push_found exchange with_mem
  step (dup zero) vm = none
  step (dup (suc n)) (stack, mem) = push_found (get_elem? stack n) (stack, mem)
  step (swap zero) vm = none
  step (swap (suc n)) ([], mem) = none
  step (swap (suc n)) (top ∷ stack, mem) = with_mem mem (exchange top n stack (get_elem? stack n))
  step pop ([], mem) = none
  step pop (top ∷ stack, mem) = some (stack, mem)
  step (mload_slot slot) (stack, mem) = some (mem slot ∷ stack, mem)
  step (mstore_slot slot) ([], mem) = none
  step (mstore_slot slot) (top ∷ stack, mem) = some (stack, λ s. if s == slot then top else mem s)

  unfoldable pub run : List ShuffleOp → Machine V → Option (Machine V)
  run [] vm = some vm
  run (op ∷ ops) vm = elim (step op vm) [ none ↦ none | some vm' ↦ run ops vm' ]
