-- ===== src/Tests/Layout.antt =====
-- codegen/src/layout/storage.rs at concrete inputs: the variables of the source's tests.
use merak.Prelude.{ℕ, ◌≡◌, refl, ◌⊎◌, some, ap, arith}
use merak.Symbols.Id.{SymbolId, named}
use merak.Layout.Storage.{
  uint256, address, StorageSlot, StorageLayout, empty_layout, assign, slot_of,
}
use merak.Layout.Storage.Disjoint.{start, next, IsBefore, slot_of-IsBefore}

abbrev var1 : SymbolId
var1 = named "var1" 1

abbrev var2 : SymbolId
var2 = named "var2" 2

abbrev two_variables : StorageLayout
two_variables = (assign var2 address ((assign var1 uint256 empty_layout).1)).1

abbrev word : ℕ → StorageSlot
word n = record { offset = n; size = 1 }

second_word : slot_of var2 two_variables ≡ some (word 1)
unfolding assign merak.Prelude.Map.get merak.Prelude.Map.insert
second_word = refl

two_words : two_variables.next_slot ≡ 2
unfolding assign
two_words = refl

slot_of-IsBefore_example : IsBefore (word 0) (word 1) ⊎ IsBefore (word 1) (word 0)
unfolding assign merak.Prelude.Map.get merak.Prelude.Map.insert
slot_of-IsBefore_example =
    slot_of-IsBefore two_variables
      (next ((assign var1 uint256 empty_layout).1) var2 address
        (next empty_layout var1 uint256 start (omega arith)) (omega arith))
      var1 var2 (word 0) (word 1) (λ e. absurd (cc)) refl refl
