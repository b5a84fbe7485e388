-- ===== src/Opt/DeadCode/Slots.antt =====
-- codegen/src/opt/lowered/dead_code.rs: the slots that a function reads, as they are collected.
use mathlib.Core.Option.{some-injective}
use merak.Prelude.{
  true, ◌≡◌, sym, some, List, [], ◌∷◌, ◌++◌, ◌==◌, nat_eq, arith, All, Bool-cases, inl, inr,
}
use merak.Prelude.Map.{Map, get}
use merak.Ir.Terminator.{BlockId}
use merak.Lowering.Slot.{StackSlot}
use merak.Lowering.Instruction.{LoweredBlock}
use merak.Codegen.Shuffler.{contains}
use merak.Opt.DeadCode.{block_slots, collect_used_slots}

-- The slots `xs` are all in `used`.
abbrev pub Within : List StackSlot → List StackSlot → Type 0
Within used xs = All (λ s. contains used s ≡ true) xs

pub contains-append_right :
    (xs ys : List StackSlot) (s : StackSlot) → contains ys s ≡ true → contains (xs ++ ys) s ≡ true
contains-append_right [] ys s h = h
contains-append_right (x ∷ xs) ys s h = ground (arith, contains-append_right xs ys s h)

pub Within-append_right : (used ys xs : List StackSlot) → Within ys xs → Within (used ++ ys) xs
Within-append_right used ys [] h = tt
Within-append_right used ys (x ∷ xs) (p, h) =
    (contains-append_right used ys x p, Within-append_right used ys xs h)

pub Within-append_left : (xs ys zs : List StackSlot) → Within xs zs → Within (xs ++ ys) zs
Within-append_left xs ys [] h = tt
Within-append_left xs ys (z ∷ zs) (p, h) = (member xs p, Within-append_left xs ys zs h)
  where
    member : (ws : List StackSlot) → contains ws z ≡ true → contains (ws ++ ys) z ≡ true
    member [] q = absurd cc
    member (w ∷ ws) q = ground (arith, member ws)

pub Within-self : (xs : List StackSlot) → Within xs xs
Within-self [] = tt
Within-self (x ∷ xs) = (ground arith, Within-append_right (x ∷ []) xs xs (Within-self xs))

pub Within-collect_used_slots :
    (blocks : Map BlockId LoweredBlock) (id : BlockId) (b : LoweredBlock)
    → get id blocks ≡ some b
    → Within (collect_used_slots blocks) (block_slots b)
unfolding get
Within-collect_used_slots [] id b h = absurd cc
Within-collect_used_slots ((j, c) ∷ blocks) id b h = elim (Bool-cases (j == id)) [
  | inl e ↦ rw (sym (some-injective c b (ground arith))) (
      Within-append_left (block_slots c) (collect_used_slots blocks) (block_slots c)
        (Within-self (block_slots c)))
  | inr e ↦
      Within-append_right (block_slots c) (collect_used_slots blocks) (block_slots b)
        (Within-collect_used_slots blocks id b (ground arith))
]
