-- ===== src/Analyzer/Storage/Validation/Returns.antt =====
-- analyzer/src/storage.rs: the walk of `check_no_stores_after_call` ends.
use merak.Prelude.{
  ℕ, zero, suc, ◌+◌, ◌≤◌, Bool, true, false, Bool-cases, ◌≡◌, refl, ap, ◌∙◌, inl, inr, arith, ◌==◌,
  ==_iff, if◌then◌else◌, some, List, [], ◌∷◌, length, drop, All, nat_eq,
}
use merak.Prelude.Map.{get}
use merak.Prelude.Outcome.{ok, err, panic, ◌>>=◌}
use merak.Ast.Node.{SourceRef}
use merak.Ast.Contract.{Modifier, checked, reentrant}
use merak.Symbols.Id.{symbol_eq}
use merak.Symbols.Table.{SymbolTable}
use merak.Ir.Operand.{internal, external}
use merak.Ir.Terminator.{BlockId}
use merak.Ir.Ssa.{
  SsaInstruction, copy, phi, binary_op, unary_op, storage_load, storage_store, call, unfold_var,
  fold_var, assert, SsaBlock, SsaCfg, contains_block,
}
use merak.Ir.Ssa.Mirrored.{IsMirrored, IsThere}
use merak.Analyzer.Resolve.Declare.{same_modifier}
use merak.Analyzer.Storage.{get_reentrancy_modifier}
use merak.Analyzer.Storage.Work.{
  edge_count, weight, weight-drop, weight-le-edge_count, successors-IsThere,
}
use merak.Analyzer.Storage.Validation.{
  Analyzed, check_instructions, push_places, stores_loop, check_no_stores_after_call, check_call,
  check_calls, check_blocks, validate_cei_pattern,
}

-- A result that is not a panic.
abbrev pub IsReturned : Analyzed (Unit {0}) → Type 0
IsReturned (ok a) = Unit
IsReturned (err e) = Unit
IsReturned panic = ⊥

check_instructions-IsReturned :
    (insts : List SsaInstruction) (sr : SourceRef) → IsReturned (check_instructions insts sr)
unfolding check_instructions
check_instructions-IsReturned [] sr = tt
check_instructions-IsReturned (storage_store v a r ∷ insts) sr = tt
check_instructions-IsReturned (copy d a r ∷ insts) sr = check_instructions-IsReturned insts sr
check_instructions-IsReturned (phi d vs ∷ insts) sr = check_instructions-IsReturned insts sr
check_instructions-IsReturned (binary_op d o a b r ∷ insts) sr =
    check_instructions-IsReturned insts sr
check_instructions-IsReturned (unary_op d o a r ∷ insts) sr = check_instructions-IsReturned insts sr
check_instructions-IsReturned (storage_load d v r ∷ insts) sr =
    check_instructions-IsReturned insts sr
check_instructions-IsReturned (call d target args r ∷ insts) sr =
    check_instructions-IsReturned insts sr
check_instructions-IsReturned (unfold_var v r ∷ insts) sr = check_instructions-IsReturned insts sr
check_instructions-IsReturned (fold_var v r ∷ insts) sr = check_instructions-IsReturned insts sr
check_instructions-IsReturned (assert c k r ∷ insts) sr = check_instructions-IsReturned insts sr

bind-IsReturned :
    (first : Analyzed (Unit {0})) (next : Analyzed (Unit {0}))
    → IsReturned first
    → IsReturned next
    → IsReturned (first >>= λ done. next)
bind-IsReturned (ok a) next h k = k
bind-IsReturned (err e) next h k = tt
bind-IsReturned panic next h k = absurd h

length-push_places :
    (bs : List BlockId) (stack : List (BlockId × ℕ))
    → length (push_places bs stack) ≡ length bs + length stack
unfolding push_places
length-push_places [] stack = omega arith
length-push_places (b ∷ bs) stack = omega (arith, length-push_places bs ((b, 0) ∷ stack))

abbrev AllThere : SsaCfg → List (BlockId × ℕ) → Type 0
AllThere cfg stack = All (λ place. IsThere cfg.blocks place.0) stack

push_places-AllThere :
    (cfg : SsaCfg) (bs : List BlockId) (stack : List (BlockId × ℕ))
    → All (IsThere cfg.blocks) bs
    → AllThere cfg stack
    → AllThere cfg (push_places bs stack)
unfolding push_places
push_places-AllThere cfg [] stack h k = k
push_places-AllThere cfg (b ∷ bs) stack (p, h) k =
    push_places-AllThere cfg bs ((b, 0) ∷ stack) h (p, k)

module _ (cfg : SsaCfg) (sr : SourceRef) (mirrored : IsMirrored cfg) where
  stores_loop-IsReturned :
      (fuel : ℕ) (visited : List BlockId) (stack : List (BlockId × ℕ))
      → length stack + weight (λ k. contains_block k visited) cfg.blocks ≤ fuel
      → AllThere cfg stack
      → IsReturned (stores_loop fuel cfg sr visited stack)
  unfolding stores_loop
  stores_loop-IsReturned fuel visited [] enough there = tt
  stores_loop-IsReturned zero visited (place ∷ rest) enough there = absurd (omega (arith, enough))
  stores_loop-IsReturned (suc fuel) visited ((id, start) ∷ rest) enough ((block, at), there) =
      elim (Bool-cases (contains_block id visited)) [
        | inl seen ↦
            rw seen (stores_loop-IsReturned fuel visited rest (omega (arith, enough)) there)
        | inr fresh ↦
            let more : (k : BlockId)
                → contains_block k visited ≡ true
                → contains_block k (id ∷ visited) ≡ true =
              λ k was. ap (λ x. if id == k then true else x) was ∙ both (id == k) in
            let now : contains_block id (id ∷ visited) ≡ true =
              ap (λ b. if b then true else contains_block id visited) ((==_iff id id).1 refl) in
            let drops =
              weight-drop (λ k. contains_block k visited) (λ k. contains_block k (id ∷ visited))
                more id block cfg.blocks at fresh now in
            let pushed = successors-IsThere cfg mirrored id block at block.successors (λ b m. m) in
            rw (fresh, at)
              (bind-IsReturned (check_instructions (drop start block.instructions) sr)
                (stores_loop fuel cfg sr (id ∷ visited) (push_places block.successors rest))
                (check_instructions-IsReturned (drop start block.instructions) sr)
                (stores_loop-IsReturned fuel (id ∷ visited) (push_places block.successors rest)
                  (omega (arith, enough, drops, length-push_places block.successors rest))
                  (push_places-AllThere cfg block.successors rest pushed there)))
      ]
    where
      both : (b : Bool) → (if b then true else true) ≡ true
      both true = refl
      both false = refl

-- On a graph whose edges are mirrored and that has the block, the walk returns.
check_no_stores_after_call-IsReturned :
    (cfg : SsaCfg) (id : BlockId) (index : ℕ) (sr : SourceRef)
    → IsMirrored cfg
    → IsThere cfg.blocks id
    → IsReturned (check_no_stores_after_call cfg id index sr)
unfolding check_no_stores_after_call
check_no_stores_after_call-IsReturned cfg id index sr mirrored there =
    stores_loop-IsReturned cfg sr mirrored (suc (edge_count cfg.blocks)) [] ((id, index + 1) ∷ [])
      (omega (arith, weight-le-edge_count (λ k. false) cfg.blocks)) (there, tt)

-- A call of a function leads to its modifier.
abbrev pub HasKnownCallee : SymbolTable → SsaInstruction → Type 0
HasKnownCallee t (call dest (internal fn_id) args sr) =
    (m : Modifier) × (get_reentrancy_modifier fn_id t ≡ some m)
HasKnownCallee t inst = Unit

check_call-IsReturned :
    (cfg : SsaCfg) (t : SymbolTable) (id : BlockId) (index : ℕ) (inst : SsaInstruction)
    → IsMirrored cfg
    → IsThere cfg.blocks id
    → HasKnownCallee t inst
    → IsReturned (check_call cfg t id index inst)
unfolding check_call
check_call-IsReturned cfg t id index (call dest (external object method) args sr) mirrored there
      known =
    check_no_stores_after_call-IsReturned cfg id index sr mirrored there
check_call-IsReturned cfg t id index (call dest (internal fn_id) args sr) mirrored there (m, at) =
    rw at (elim (Bool-cases (same_modifier m reentrant)) [
      | inl same ↦ rw same (check_no_stores_after_call-IsReturned cfg id index sr mirrored there)
      | inr other ↦ rw other tt
    ])
check_call-IsReturned cfg t id index (copy d a r) mirrored there known = tt
check_call-IsReturned cfg t id index (phi d vs) mirrored there known = tt
check_call-IsReturned cfg t id index (binary_op d o a b r) mirrored there known = tt
check_call-IsReturned cfg t id index (unary_op d o a r) mirrored there known = tt
check_call-IsReturned cfg t id index (storage_load d v r) mirrored there known = tt
check_call-IsReturned cfg t id index (storage_store v a r) mirrored there known = tt
check_call-IsReturned cfg t id index (unfold_var v r) mirrored there known = tt
check_call-IsReturned cfg t id index (fold_var v r) mirrored there known = tt
check_call-IsReturned cfg t id index (assert c k r) mirrored there known = tt

check_calls-IsReturned :
    (cfg : SsaCfg) (t : SymbolTable) (id : BlockId) (index : ℕ) (insts : List SsaInstruction)
    → IsMirrored cfg
    → IsThere cfg.blocks id
    → All (HasKnownCallee t) insts
    → IsReturned (check_calls cfg t id index insts)
unfolding check_calls
check_calls-IsReturned cfg t id index [] mirrored there known = tt
check_calls-IsReturned cfg t id index (inst ∷ insts) mirrored there (k, known) =
    bind-IsReturned (check_call cfg t id index inst) (check_calls cfg t id (suc index) insts)
      (check_call-IsReturned cfg t id index inst mirrored there k)
      (check_calls-IsReturned cfg t id (suc index) insts mirrored there known)

abbrev pub HasKnownCallees : SymbolTable → List (BlockId × SsaBlock) → Type 0
HasKnownCallees t [] = Unit
HasKnownCallees t ((id, block) ∷ blocks) =
    All (HasKnownCallee t) block.instructions × HasKnownCallees t blocks

check_blocks-IsReturned :
    (cfg : SsaCfg) (t : SymbolTable) (blocks : List (BlockId × SsaBlock))
    → IsMirrored cfg
    → ((id : BlockId) → IsThere blocks id → IsThere cfg.blocks id)
    → HasKnownCallees t blocks
    → IsReturned (check_blocks cfg t blocks)
unfolding check_blocks get
check_blocks-IsReturned cfg t [] mirrored there known = tt
check_blocks-IsReturned cfg t ((id, block) ∷ blocks) mirrored there (k, known) =
    let here : IsThere cfg.blocks id = there id (block, rw ((==_iff id id).1 refl) refl) in
    bind-IsReturned (check_calls cfg t id 0 block.instructions) (check_blocks cfg t blocks)
      (check_calls-IsReturned cfg t id 0 block.instructions mirrored here k)
      (check_blocks-IsReturned cfg t blocks mirrored (λ j found. there j (in_tail j found)) known)
  where
    in_tail : (j : BlockId) → IsThere blocks j → IsThere ((id, block) ∷ blocks) j
    in_tail j (found, at) = elim (Bool-cases (id == j)) [
      | inl same ↦ (block, rw same refl)
      | inr other ↦ (found, rw other at)
    ]

pub validate_cei_pattern-IsReturned :
    (cfg : SsaCfg) (t : SymbolTable) (m : Modifier)
    → IsMirrored cfg
    → get_reentrancy_modifier cfg.function_id t ≡ some m
    → HasKnownCallees t cfg.blocks
    → IsReturned (validate_cei_pattern cfg t)
unfolding validate_cei_pattern
validate_cei_pattern-IsReturned cfg t m mirrored at known =
    rw at (elim (Bool-cases (same_modifier m checked)) [
      | inl same ↦
          rw same (check_blocks-IsReturned cfg t cfg.blocks mirrored (λ id found. found) known)
      | inr other ↦ rw other tt
    ])
