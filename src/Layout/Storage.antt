-- ===== src/Layout/Storage.antt =====
-- codegen/src/layout/storage.rs and the types of codegen/src/lowering/mod.rs: the storage slots of the
-- state variables.
pub mod Disjoint
use merak.Prelude.{ℕ, ◌+◌, ◌%◌, ◌^◌, List, [], Option}
use merak.Prelude.Map.{Map, get, insert}
use merak.Symbols.Id.{SymbolId, symbol_eq}

pub data EvmType : Type 0 where
  uint256 address bool bytes : EvmType

unfoldable pub storage_size : EvmType → ℕ
storage_size uint256 = 1
storage_size address = 1
storage_size bool = 1
storage_size bytes = 1

pub record StorageSlot : Type 0 where
  pub offset : ℕ
  pub size : ℕ

pub record StorageLayout : Type 0 where
  pub slots : Map SymbolId StorageSlot
  pub next_slot : ℕ

-- `StorageLayout::new`
abbrev pub empty_layout : StorageLayout
empty_layout = record { slots = []; next_slot = 0 }

-- `StorageLayout::assign`; the next slot is a `u64`.
unfoldable pub assign : SymbolId → EvmType → StorageLayout → StorageSlot × StorageLayout
unfolding storage_size
assign var ty layout =
    let size = storage_size ty in
    let slot : StorageSlot = record { offset = layout.next_slot; size = size } in
    (
      slot,
      record {
        slots = insert var slot layout.slots;
        next_slot = (layout.next_slot + size) % 2 ^ 64;
      },
    )

-- `StorageLayout::get`
abbrev pub slot_of : SymbolId → StorageLayout → Option StorageSlot
slot_of var layout = get var layout.slots
