-- ===== src/Tests/Shuffler.antt =====
-- codegen/src/codegen/stack_shuffler.rs at concrete inputs.
use merak.Prelude.{
  Option, ℕ, ◌+◌, ◌≡◌, refl, List, [], ◌∷◌, ◌++◌, none, some, arith, replicate, All,
}
use merak.Prelude.Outcome.{ok}
use merak.Evm.Builder.{empty}
use merak.Lowering.Slot.{StackSlot, StackState}
use merak.Codegen.Shuffler.{
  position_from, fetch, dup, swap, pop, mload_slot, plan_shuffle, swap_pops, shuffle_cost,
  emit_shuffle,
}
use merak.Codegen.Shuffler.Machine.{run}
use merak.Codegen.Shuffler.Correct.{plan_shuffle_correct}
use merak.Codegen.Shuffler.Emission.{
  IsEncodable, extended, emit_shuffle-plan_shuffle, emit_shuffle-deep_dropped,
}

-- The condition slot 1 above the layout of slots 1 and 0, from the layout of slots 0 and 1.
branch_plan :
    plan_shuffle (some 0 ∷ some 1 ∷ []) (1 ∷ 0 ∷ 1 ∷ []) []
    ≡ dup 2 ∷ dup 1 ∷ dup 3 ∷ swap 3 ∷ pop ∷ swap 3 ∷ pop ∷ []
unfolding plan_shuffle
branch_plan = refl

reload_plan : plan_shuffle [] (0 ∷ 1 ∷ []) [] ≡ mload_slot 1 ∷ mload_slot 0 ∷ []
unfolding plan_shuffle
reload_plan = refl

shuffle_cost_cold : shuffle_cost (mload_slot 0 ∷ dup 1 ∷ pop ∷ []) [] ≡ 26
unfolding shuffle_cost
shuffle_cost_cold = refl

-- Slot k holds k + 100; slot 2 is in memory only.
plan_shuffle-correct_example :
    run
      (plan_shuffle (some 0 ∷ some 1 ∷ []) (1 ∷ 2 ∷ 1 ∷ []) [])
      ((100 ∷ 101 ∷ []) ++ 7 ∷ [], λ s. s + 100)
    ≡ some ((101 ∷ 102 ∷ 101 ∷ []) ++ 7 ∷ [], λ s. s + 100)
plan_shuffle-correct_example =
    plan_shuffle_correct (λ s. s + 100) (λ s. s + 100) (some 0 ∷ some 1 ∷ []) (1 ∷ 2 ∷ 1 ∷ []) []
      (100 ∷ 101 ∷ []) (7 ∷ []) (refl, (refl, tt)) ((λ h. refl), ((λ h. refl), ((λ h. refl), tt)))

abbrev frame : StackState
frame = record { frame_base = 0x80 }

emit_shuffle-plan_shuffle_example :
    All IsEncodable (plan_shuffle (some 0 ∷ []) (1 ∷ []) [])
    × (bytes : List ℕ) × (emit_shuffle frame (plan_shuffle (some 0 ∷ []) (1 ∷ []) []) empty
        ≡ ok (extended empty bytes))
emit_shuffle-plan_shuffle_example =
    emit_shuffle-plan_shuffle frame (some 0 ∷ []) (1 ∷ []) [] empty (omega arith)

-- Slot 3 lies under 16 others, slot 5 on top of it.
abbrev deep_layout : List (Option StackSlot)
deep_layout = some 5 ∷ replicate 15 none ++ some 3 ∷ some 4 ∷ []

emit_shuffle-deep_dropped_example :
    (emit_shuffle frame (fetch deep_layout 3 ∷ dup 1 ∷ []) empty
      ≡ emit_shuffle frame (dup 1 ∷ []) empty)
    × (emit_shuffle frame (plan_shuffle deep_layout (3 ∷ []) []) empty
        ≡ emit_shuffle frame (swap_pops 1 18) empty)
unfolding position_from
emit_shuffle-deep_dropped_example =
    emit_shuffle-deep_dropped frame deep_layout 3 (dup 1 ∷ []) [] empty 16 refl (omega arith)
