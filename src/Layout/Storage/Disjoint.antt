-- ===== src/Layout/Storage/Disjoint.antt =====
-- codegen/src/layout/storage.rs: the words of storage that a layout gives to its variables.
use merak.Prelude.{
  ◌+◌, ◌^◌, ◌≤◌, ◌<◌, ◌≡◌, refl, sym, ◌∙◌, ◌≢◌, ◌⊎◌, inl, inr, some, arith, Bool-cases,
  if◌then◌else◌,
}
use mathlib.Core.Option.{some-injective}
use merak.Prelude.Map.{get, get-insert}
use merak.Symbols.Id.{SymbolId, symbol_eq, same_id, same_id_sound}
use merak.Layout.Storage.{
  EvmType, storage_size, StorageSlot, StorageLayout, empty_layout, assign, slot_of,
}

-- The layouts that assignments make, one after the other, before the 64 bits run out.
pub data Assigned : StorageLayout → Type 0 where
  start : Assigned empty_layout
  next :
      (layout : StorageLayout) (var : SymbolId) (ty : EvmType)
      → Assigned layout
      → layout.next_slot + storage_size ty < 2 ^ 64
      → Assigned ((assign var ty layout).1)

-- The words of one slot end before those of the other begin.
abbrev pub IsBefore : StorageSlot → StorageSlot → Type 0
IsBefore a b = a.offset + a.size ≤ b.offset

slot_of-assign :
    (layout : StorageLayout) (var key : SymbolId) (ty : EvmType)
    → slot_of key ((assign var ty layout).1)
      ≡ (if same_id var key then some ((assign var ty layout).0) else slot_of key layout)
unfolding assign
slot_of-assign layout var key ty = get-insert var key _ layout.slots

offset-assign :
    (layout : StorageLayout) (var : SymbolId) (ty : EvmType)
    → (assign var ty layout).0.offset ≡ layout.next_slot
unfolding assign
offset-assign layout var ty = refl

next_slot-assign :
    (layout : StorageLayout) (var : SymbolId) (ty : EvmType)
    → layout.next_slot + storage_size ty < 2 ^ 64
    → (assign var ty layout).1.next_slot
      ≡ (assign var ty layout).0.offset + (assign var ty layout).0.size
unfolding assign
next_slot-assign layout var ty fits = omega arith

-- A slot of the layout after an assignment is the new one or one of the layout before.
slot_of-assign_cases :
    (layout : StorageLayout) (var key : SymbolId) (ty : EvmType) (a : StorageSlot)
    → slot_of key ((assign var ty layout).1) ≡ some a
    → ((var ≡ key) × (a ≡ (assign var ty layout).0)) ⊎ (slot_of key layout ≡ some a)
slot_of-assign_cases layout var key ty a h = elim (Bool-cases (same_id var key)) [
  | inl e ↦
      let found : some ((assign var ty layout).0) ≡ some a =
        ground (arith, slot_of-assign layout var key ty) in
      inl (same_id_sound var key e, sym (some-injective ((assign var ty layout).0) a found))
  | inr e ↦ inr (ground (arith, slot_of-assign layout var key ty))
]

-- Every slot ends before the next one to be given.
slot_of-below :
    (layout : StorageLayout)
    → Assigned layout
    → (key : SymbolId) (a : StorageSlot) → slot_of key layout ≡ some a
    → a.offset + a.size ≤ layout.next_slot
unfolding get
slot_of-below _ start key a h = absurd (cc)
slot_of-below _ (next layout var ty made fits) key a h =
    elim (slot_of-assign_cases layout var key ty a h) [
      | inl (e, new) ↦ rw (new, next_slot-assign layout var ty fits) (omega arith)
      | inr old ↦ omega (
        arith,
        slot_of-below layout made key a old,
        next_slot-assign layout var ty fits,
        offset-assign layout var ty,
      )
    ]

-- Two different variables that have slots in a layout made by assignments have slots with no word in
-- common.
pub slot_of-IsBefore :
    (layout : StorageLayout) (made : Assigned layout) (j k : SymbolId) (a b : StorageSlot)
    → j ≢ k
    → slot_of j layout ≡ some a
    → slot_of k layout ≡ some b
    → IsBefore a b ⊎ IsBefore b a
unfolding get
slot_of-IsBefore _ start j k a b different hj hk = absurd (cc)
slot_of-IsBefore _ (next layout var ty made fits) j k a b different hj hk =
    elim (slot_of-assign_cases layout var j ty a hj) [
      | inl (ej, newj) ↦ elim (slot_of-assign_cases layout var k ty b hk) [
        | inl (ek, newk) ↦ absurd (different (sym ej ∙ ek))
        | inr oldk ↦ inr (
            rw newj
              (omega (arith, slot_of-below layout made k b oldk, offset-assign layout var ty)))
      ]
      | inr oldj ↦ elim (slot_of-assign_cases layout var k ty b hk) [
        | inl (ek, newk) ↦ inl (
            rw newk
              (omega (arith, slot_of-below layout made j a oldj, offset-assign layout var ty)))
        | inr oldk ↦ slot_of-IsBefore layout made j k a b different oldj oldk
      ]
    ]
