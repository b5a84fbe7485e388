-- ===== src/Codegen/Shuffler/Fetch.antt =====
-- codegen/src/codegen/stack_shuffler.rs: the loop of DUPs and MLOADs, run on the machine.
use mathlib.Core.List.{map-append}
use merak.Prelude.{
  ℕ, zero, suc, ◌+◌, ◌<◌, ◌≡◌, ◌∙◌, refl, ap, List, [], ◌∷◌, ◌++◌, map, Option, none, some, arith,
  get_elem?, append_assoc, Bool-cases, Option-cases, inl, inr, ◌==◌, ==_iff,
}
use merak.Lowering.Slot.{StackSlot}
use merak.Codegen.Shuffler.{ShuffleOp, holds_slot, position_from, fetch, rotated_target, fetch_all}
use merak.Codegen.Shuffler.Machine.{Machine, step, run}

-- A search that fails from one count fails from any.
position_from-none :
    (i j : ℕ) (layout : List (Option StackSlot)) (t : StackSlot)
    → position_from i layout t ≡ none
    → position_from j layout t ≡ none
unfolding position_from
position_from-none i j [] t h = refl
position_from-none i j (s ∷ layout) t h = elim (Bool-cases (holds_slot s t)) [
  | inl e ↦ absurd (cc (rw (e, position_from) at h))
  | inr e ↦
      rw (e, position_from)
        (position_from-none (i + 1) (j + 1) layout t (rw (e, position_from) at h))
]

-- The slots that the fetching loop leaves on top, first to last.
abbrev pub fetched : List StackSlot → ℕ → ℕ → List StackSlot
fetched target rotation zero = []
fetched target rotation (suc j) = fetched target rotation j ++ rotated_target target rotation j ∷ []

module _ {V : Type 0} where
  -- The stack holds, at each place that the layout gives to a slot, that slot's value.
  abbrev pub Holds : (StackSlot → V) → List (Option StackSlot) → List V → Type 0
  Holds val [] [] = Unit
  Holds val [] (v ∷ stack) = ⊥
  Holds val (c ∷ layout) [] = ⊥
  Holds val (none ∷ layout) (v ∷ stack) = Holds val layout stack
  Holds val (some s ∷ layout) (v ∷ stack) = (v ≡ val s) × Holds val layout stack

  -- A slot that the layout lacks has its value in memory.
  abbrev pub IsReloadable :
      (StackSlot → V) → (StackSlot → V) → List (Option StackSlot) → StackSlot → Type 0
  IsReloadable val mem layout t = position_from 0 layout t ≡ none → mem t ≡ val t

  pub run-append :
      (ops ops' : List ShuffleOp) (vm vm' : Machine V)
      → run ops vm ≡ some vm'
      → run (ops ++ ops') vm ≡ run ops' vm'
  unfolding run
  run-append [] ops' vm vm' h = ap (run ops') (cc)
  run-append (op ∷ ops) ops' vm vm' h = elim (Option-cases (step op vm)) [
    | inl e ↦ absurd (cc (rw (e, run) at h))
    | inr (vm₁, e) ↦ rw (e, run) (run-append ops ops' vm₁ vm' (rw (e, run) at h))
  ]

  IsReloadable-cons :
      (val mem : StackSlot → V) (s : Option StackSlot) (layout : List (Option StackSlot))
      (t : StackSlot)
      → IsReloadable val mem layout t
      → IsReloadable val mem (s ∷ layout) t
  unfolding position_from
  IsReloadable-cons val mem s layout t r h = elim (Bool-cases (holds_slot s t)) [
    | inl e ↦ absurd (cc (rw (e, position_from) at h))
    | inr e ↦ r (position_from-none 1 0 layout t (rw (e, position_from) at h))
  ]

  -- A slot that the search finds is on the stack, as deep as the search says.
  position_from-found :
      (val : StackSlot → V) (i p : ℕ) (layout : List (Option StackSlot)) (stack rest : List V)
      (t : StackSlot)
      → Holds val layout stack
      → position_from i layout t ≡ some p
      → (q : ℕ) × (p ≡ i + q) × (get_elem? (stack ++ rest) q ≡ some (val t))
  unfolding position_from
  position_from-found val i p [] [] rest t h e = absurd (cc)
  position_from-found val i p [] (v ∷ stack) rest t h e = absurd h
  position_from-found val i p (c ∷ layout) [] rest t h e = absurd h
  position_from-found val i p (none ∷ layout) (v ∷ stack) rest t h e =
      let (q, at, found) = position_from-found val (i + 1) p layout stack rest t h e in
      (suc q, omega arith, found)
  position_from-found val i p (some s ∷ layout) (v ∷ stack) rest t (w, h) e =
      elim (Bool-cases (s == t)) [
        | inl same ↦
            let at : i ≡ p = cc (rw (same, position_from) at e) in
            (0, omega arith, ap some (w ∙ ap val ((==_iff s t).0 same)))
        | inr other ↦
            let (q, at, found) =
              position_from-found val (i + 1) p layout stack rest t h
                (rw (other, position_from) at e) in
            (suc q, omega arith, found)
      ]

  -- One DUP or MLOAD puts the slot's value on top.
  fetch_correct :
      (val mem : StackSlot → V) (layout : List (Option StackSlot)) (stack rest : List V)
      (t : StackSlot)
      → Holds val layout stack
      → IsReloadable val mem layout t
      → step (fetch layout t) (stack ++ rest, mem) ≡ some (val t ∷ stack ++ rest, mem)
  unfolding fetch step
  fetch_correct val mem layout stack rest t h r = elim (Option-cases (position_from 0 layout t)) [
    | inl e ↦ rw (e, fetch) (ap (λ v. some (v ∷ stack ++ rest, mem)) (r e))
    | inr (p, e) ↦
        let (q, at, found) = position_from-found val 0 p layout stack rest t h e in
        let deep : p + 1 ≡ suc q = omega arith in rw (e, fetch, deep, found)
  ]

  -- The fetching loop puts the values of those slots on top of the stack.
  pub fetch_all_correct :
      (val mem : StackSlot → V) (target : List StackSlot) (rotation count : ℕ)
      (layout : List (Option StackSlot)) (stack rest : List V)
      → Holds val layout stack
      → ((j : ℕ) → j < count → IsReloadable val mem layout (rotated_target target rotation j))
      → run (fetch_all target rotation count layout) (stack ++ rest, mem)
        ≡ some (map val (fetched target rotation count) ++ (stack ++ rest), mem)
  unfolding fetch_all run
  fetch_all_correct val mem target rotation zero layout stack rest h r = refl
  fetch_all_correct val mem target rotation (suc j) layout stack rest h r =
      let t = rotated_target target rotation j in
      let below = fetched target rotation j in
      let first = fetch_correct val mem layout stack rest t h (r j (omega arith)) in
      let later =
        fetch_all_correct val mem target rotation j (some t ∷ layout) (val t ∷ stack) rest (refl, h)
          (λ k p. IsReloadable-cons val mem (some t) layout _ (r k (omega arith))) in
      rw (first, run) (later ∙ ap (λ s. some (s, mem)) (rw (map-append, append_assoc)))
