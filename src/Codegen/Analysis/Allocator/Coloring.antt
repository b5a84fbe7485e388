-- ===== src/Codegen/Analysis/Allocator/Coloring.antt =====
-- codegen/src/analysis/stack_allocator.rs: slots whose intervals overlap.
use merak.Prelude.{
  ℕ, suc, zero, ◌+◌, ◌≤◌, ◌<◌, ◌==◌, ltb, leb, if◌then◌else◌, true, false, Bool-cases, ◌≡◌, ◌≢◌,
  refl, sym, ap, ◌∙◌, inl, inr, arith, some, List, [], ◌∷◌, length, All, All-map, ltb→lt,
}
use mathlib.Core.List.{Memᴰ}
use mathlib.Core.List.Memᴰ.{head, tail}
use mathlib.Core.Path.{subst}
use merak.Prelude.Map.{Map}
use merak.Lowering.Slot.{StackSlot}
use merak.Codegen.Analysis.Liveness.{LiveInterval, overlaps, contains_slot}
use merak.Codegen.Analysis.Allocator.{
  SlotLocation, stack_pos, memory, comes_before, insert_by_start, sort_by_start, Colored,
  used_colors, lowest_free, color_all, location_of, locations, color_slots,
}

-- How many of the numbers are `c` or more.
abbrev count_from : ℕ → List ℕ → ℕ
count_from c [] = 0
count_from c (x ∷ xs) = (if leb c x then 1 else 0) + count_from c xs

count_from-length : (c : ℕ) (xs : List ℕ) → count_from c xs ≤ length xs
count_from-length c [] = omega arith
count_from-length c (x ∷ xs) = ground (arith, count_from-length c xs)

count_from-suc : (c : ℕ) (xs : List ℕ) → count_from (suc c) xs ≤ count_from c xs
count_from-suc c [] = omega arith
count_from-suc c (x ∷ xs) = ground (arith, count_from-suc c xs)

count_from-taken :
    (c : ℕ) (xs : List ℕ) → contains_slot c xs ≡ true → count_from (suc c) xs < count_from c xs
count_from-taken c [] h = absurd (cc)
count_from-taken c (x ∷ xs) h = elim (Bool-cases (x == c)) [
  | inl here ↦ ground (arith, count_from-suc c xs)
  | inr there ↦ let rest = count_from-taken c xs (ground arith) in ground (arith, rest)
]

-- The search ends at a number that is not taken, as there are fewer numbers taken than steps.
lowest_free-free :
    (fuel : ℕ) (used : List ℕ) (c : ℕ)
    → count_from c used < fuel
    → (r : ℕ) × (lowest_free fuel used c ≡ some r) × (contains_slot r used ≡ false)
unfolding lowest_free
lowest_free-free zero used c h = absurd (omega (arith, h))
lowest_free-free (suc fuel) used c h = elim (Bool-cases (contains_slot c used)) [
  | inl taken ↦
      let (r, found, free) =
        lowest_free-free fuel used (suc c) (omega (arith, h, count_from-taken c used taken)) in
      (r, rw taken found, free)
  | inr free ↦ (c, rw free refl, free)
]

-- Two colors differ where the intervals overlap.
abbrev Differ : ℕ → LiveInterval → Colored → Type 0
Differ c iv d = overlaps d.interval iv ≡ true → c ≢ d.color

abbrev pub Apart : List Colored → Type 0
Apart [] = Unit
Apart (c ∷ colored) = All (Differ c.color c.interval) colored × Apart colored

contains_slot-cons :
    (c x : ℕ) (xs : List ℕ)
    → contains_slot c (x ∷ xs) ≡ false
    → (c ≢ x) × (contains_slot c xs ≡ false)
contains_slot-cons c x xs h = ground arith

used_colors-Differ :
    (c : ℕ) (iv : LiveInterval) (colored : List Colored)
    → contains_slot c (used_colors iv colored) ≡ false
    → All (Differ c iv) colored
unfolding used_colors
used_colors-Differ c iv [] free = tt
used_colors-Differ c iv (d ∷ colored) free = elim (Bool-cases (overlaps d.interval iv)) [
  | inl over ↦
      let more : used_colors iv (d ∷ colored) ≡ d.color ∷ used_colors iv colored = rw over refl in
      let (differ, rest) =
        contains_slot-cons c d.color (used_colors iv colored)
          (sym (ap (contains_slot c) more) ∙ free) in
      ((λ o. differ), used_colors-Differ c iv colored rest)
  | inr apart ↦
      let same : used_colors iv (d ∷ colored) ≡ used_colors iv colored = rw apart refl in
      ((λ o. absurd (cc)), used_colors-Differ c iv colored (sym (ap (contains_slot c) same) ∙ free))
]

abbrev pub HasColor : List Colored → StackSlot × LiveInterval → Type 0
HasColor colored (slot, iv) =
    (c : ℕ) × Memᴰ (record { slot = slot; interval = iv; color = c }) colored

color_all-Apart :
    (slots : List (StackSlot × LiveInterval)) (colored : List Colored)
    → Apart colored
    → (result : List Colored) × (color_all slots colored ≡ some result)
      × Apart result
      × All (HasColor result) slots
      × ((d : Colored) → Memᴰ d colored → Memᴰ d result)
unfolding color_all
color_all-Apart [] colored apart = (colored, refl, apart, tt, λ d h. h)
color_all-Apart ((slot, iv) ∷ slots) colored apart =
    let used = used_colors iv colored in
    let (c, found, free) =
      lowest_free-free (suc (length used)) used 0 (omega (arith, count_from-length 0 used)) in
    let here : Colored = record { slot = slot; interval = iv; color = c } in
    let (result, colors, apart_after, has, kept) =
      color_all-Apart slots (here ∷ colored) (used_colors-Differ c iv colored free, apart) in
    (
      result,
      rw found colors,
      apart_after,
      ((c, kept here (head refl)), has),
      λ d h. kept d (tail h),
    )

insert_by_start-All :
    (P : StackSlot × LiveInterval → Type 0) (slot : StackSlot × LiveInterval)
    (slots : List (StackSlot × LiveInterval))
    → All P (insert_by_start slot slots)
    → P slot × All P slots
unfolding insert_by_start
insert_by_start-All P slot [] h = h
insert_by_start-All P slot (next ∷ slots) h = elim (Bool-cases (comes_before next slot)) [
  | inl before ↦
      let later : insert_by_start slot (next ∷ slots) ≡ next ∷ insert_by_start slot slots =
        rw before refl in
      let (first, rest) = subst (All P) later h in
      let (inserted, others) = insert_by_start-All P slot slots rest in (inserted, (first, others))
  | inr after ↦
      let first : insert_by_start slot (next ∷ slots) ≡ slot ∷ next ∷ slots = rw after refl in
      subst (All P) first h
]

sort_by_start-All :
    (P : StackSlot × LiveInterval → Type 0) (slots : List (StackSlot × LiveInterval))
    → All P (sort_by_start slots)
    → All P slots
unfolding sort_by_start
sort_by_start-All P [] h = tt
sort_by_start-All P (slot ∷ slots) h =
    let (first, rest) = insert_by_start-All P slot (sort_by_start slots) h in
    (first, sort_by_start-All P slots rest)

-- A location that is a stack position is one from 1 to 15, and not that of a slot whose interval overlaps.
abbrev Parted : SlotLocation → SlotLocation → Type 0
Parted (stack_pos p) (stack_pos q) = p ≢ q
Parted l r = Unit

abbrev InRange : SlotLocation → Type 0
InRange (stack_pos p) = (1 ≤ p) × (p ≤ 15)
InRange memory = Unit

abbrev Shares : Colored → Colored → Type 0
Shares c d =
    overlaps d.interval c.interval ≡ true → Parted (location_of c.color) (location_of d.color)

abbrev pub Allocated : List Colored → Type 0
Allocated [] = Unit
Allocated (c ∷ colored) = InRange (location_of c.color) × All (Shares c) colored × Allocated colored

location_of-InRange : (c : ℕ) → InRange (location_of c)
location_of-InRange c = elim (Bool-cases (ltb c 15)) [
  | inl low ↦ rw low (omega arith, omega (arith, ltb→lt c 15 low))
  | inr high ↦ rw high tt
]

location_of-Parted : (c d : ℕ) → c ≢ d → Parted (location_of c) (location_of d)
location_of-Parted c d differ = elim (Bool-cases (ltb c 15)) [
  | inl low ↦ elim (Bool-cases (ltb d 15)) [
    | inl also ↦ rw (low, also) (λ same. differ (omega (arith, same)))
    | inr high ↦ rw (low, high) tt
  ]
  | inr high ↦ rw high tt
]

Apart-Allocated : (colored : List Colored) → Apart colored → Allocated colored
Apart-Allocated [] apart = tt
Apart-Allocated (c ∷ colored) (differ, apart) = (
  location_of-InRange c.color,
  All-map (Differ c.color c.interval) (Shares c)
      (λ d h over. location_of-Parted c.color d.color (h over)) colored differ,
  Apart-Allocated colored apart,
)

-- The coloring ends, it gives every slot of the intervals a location, a location on the stack is a
-- position from 1 to 15, and two slots whose intervals overlap are never given the same position.
pub color_slots-Allocated :
    (intervals : Map StackSlot LiveInterval)
    → (colored : List Colored) × (color_slots intervals ≡ some (locations colored))
      × All (HasColor colored) intervals
      × Allocated colored
unfolding color_slots
color_slots-Allocated intervals =
    let (colored, colors, apart, has, kept) = color_all-Apart (sort_by_start intervals) [] tt in
    (
      colored,
      rw colors refl,
      sort_by_start-All (HasColor colored) intervals has,
      Apart-Allocated colored apart,
    )
