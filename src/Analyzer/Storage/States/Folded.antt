-- ===== src/Analyzer/Storage/States/Folded.antt =====
-- analyzer/src/storage.rs: `compute_storage_states` ends, and what it finds at the entry of a block.
use merak.Prelude.{
  ℕ, zero, suc, ◌+◌, ◌≤◌, Bool, true, false, Bool-cases, ◌≡◌, refl, sym, ap, ◌∙◌, inl, inr, arith,
  ◌==◌, ==_iff, if◌then◌else◌, Option, none, some, Option-cases, List, [], ◌∷◌, length, All, nat_eq,
}
use mathlib.Core.Path.{subst}
use merak.Prelude.Map.{Map, get, insert, get-insert, AllValues, AllValues-get, AllValues-insert}
use merak.Symbols.Id.{SymbolId, same_id_refl}
use merak.Ir.Terminator.{BlockId}
use merak.Ir.Ssa.{SsaBlock, SsaCfg}
use merak.Ir.Ssa.Mirrored.{IsMirrored, IsThere}
use merak.Analyzer.Storage.{
  StorageState, StorageStateMap, folded_state, contains_id, is_subset, same_state, is_same_exit,
  or_folded, new_state_map, entry_state, set_entry_state, update_exit_state,
}
use merak.Analyzer.Storage.Work.{
  weight, weight-drop, weight-le-edge_count, edge_count, successors-IsThere,
}
use merak.Analyzer.Storage.CallGraph.{CallGraphAnalysis}
use merak.Analyzer.Storage.States.{
  apply_transfer_function, merge_exits, push_all, initial_states, visit_block, states_loop,
  compute_storage_states,
}

contains_id_self : (id : SymbolId) (ids : List SymbolId) → contains_id id (id ∷ ids) ≡ true
contains_id_self id ids = rw (same_id_refl id) refl

is_subset-cons :
    (xs ys : List SymbolId) (y : SymbolId) → is_subset xs ys ≡ true → is_subset xs (y ∷ ys) ≡ true
is_subset-cons [] ys y h = refl
is_subset-cons (x ∷ xs) ys y h = ground (arith, is_subset-cons xs ys y)

is_subset_refl : (xs : List SymbolId) → is_subset xs xs ≡ true
is_subset_refl [] = refl
is_subset_refl (x ∷ xs) =
    ground (arith, contains_id_self x xs, is_subset-cons xs xs x (is_subset_refl xs))

same_state_refl : (s : StorageState) → same_state s s ≡ true
same_state_refl s = rw (is_subset_refl s.unfolded) refl

-- The exits of the predecessors are intersected with the empty set.
merge_exits-folded :
    (ps : List BlockId) (states : StorageStateMap)
    → merge_exits ps states folded_state ≡ folded_state
unfolding merge_exits
merge_exits-folded [] states = refl
merge_exits-folded (p ∷ ps) states = merge_exits-folded ps states

abbrev AllFolded : StorageStateMap → Type 0
AllFolded states = AllValues (λ s. s ≡ folded_state) states.block_entry_states

entry_state-AllFolded :
    (states : StorageStateMap) (id : BlockId)
    → AllFolded states
    → entry_state id states ≡ folded_state
unfolding entry_state
entry_state-AllFolded states id h = elim (Option-cases (get id states.block_entry_states)) [
  | inl gone ↦ rw gone refl
  | inr (s, there) ↦
      ap or_folded there
      ∙ AllValues-get (λ s. s ≡ folded_state) id s states.block_entry_states h there
]

entries-update :
    (id : BlockId) (s : StorageState) (states : StorageStateMap)
    → ((update_exit_state id s states).1).block_entry_states ≡ states.block_entry_states
unfolding update_exit_state
entries-update id s states = elim (Bool-cases (is_same_exit (get id states.block_exit_states) s)) [
  | inl same ↦ rw same refl
  | inr other ↦ rw other refl
]

set_update-AllFolded :
    (id : BlockId) (exit : StorageState) (states : StorageStateMap)
    → AllFolded states
    → AllFolded ((update_exit_state id exit (set_entry_state id folded_state states)).1)
unfolding set_entry_state
set_update-AllFolded id exit states h =
    subst (AllValues (λ s. s ≡ folded_state))
      (sym (entries-update id exit (set_entry_state id folded_state states)))
      (AllValues-insert (λ s. s ≡ folded_state) id folded_state states.block_entry_states refl h)

initial_states-AllFolded :
    (blocks : List (BlockId × SsaBlock)) (states : StorageStateMap)
    → AllFolded states
    → AllFolded (initial_states blocks states)
unfolding initial_states
initial_states-AllFolded [] states h = h
initial_states-AllFolded ((id, block) ∷ blocks) states h =
    initial_states-AllFolded blocks
      ((update_exit_state id folded_state (set_entry_state id folded_state states)).1)
      (set_update-AllFolded id folded_state states h)

length-push_all : (bs stack : List BlockId) → length (push_all bs stack) ≡ length bs + length stack
unfolding push_all
length-push_all [] stack = omega arith
length-push_all (b ∷ bs) stack = omega (arith, length-push_all bs (b ∷ stack))

push_all-All :
    (P : BlockId → Type 0) (bs stack : List BlockId)
    → All P bs
    → All P stack
    → All P (push_all bs stack)
unfolding push_all
push_all-All P [] stack h k = k
push_all-All P (b ∷ bs) stack (p, h) k = push_all-All P bs (b ∷ stack) h (p, k)

module _ (cfg : SsaCfg) (graph : CallGraphAnalysis) where
  -- The exit state that a visit of a block finds.
  abbrev target_of : Option SsaBlock → StorageState
  target_of none = folded_state
  target_of (some block) = apply_transfer_function block.instructions graph folded_state

  -- The exit state of the block is the one that a visit finds.
  abbrev settled : StorageStateMap → BlockId → Bool
  settled states id = is_same_exit (get id states.block_exit_states) (target_of (get id cfg.blocks))

  abbrev measure : StorageStateMap → List BlockId → ℕ
  measure states stack = length stack + weight (settled states) cfg.blocks

  -- Where the exit state does not change a visit only takes the block off the stack.
  visit-settled :
      (id : BlockId) (block : SsaBlock) (rest : List BlockId) (states : StorageStateMap)
      → is_same_exit
          (get id states.block_exit_states)
          (apply_transfer_function block.instructions graph folded_state)
        ≡ true
      → visit_block graph id block rest states ≡ (set_entry_state id folded_state states, rest)
  unfolding visit_block update_exit_state set_entry_state
  visit-settled id block rest states same =
      rw (merge_exits-folded block.predecessors states, same) refl

  visit-unsettled :
      (id : BlockId) (block : SsaBlock) (rest : List BlockId) (states : StorageStateMap)
      → is_same_exit
          (get id states.block_exit_states)
          (apply_transfer_function block.instructions graph folded_state)
        ≡ false
      → visit_block graph id block rest states ≡ (
        record (set_entry_state id folded_state states) {
          block_exit_states =
              insert id
                (apply_transfer_function block.instructions graph folded_state)
                states.block_exit_states;
        },
        push_all block.successors rest,
      )
  unfolding visit_block update_exit_state set_entry_state
  visit-unsettled id block rest states other =
      rw (merge_exits-folded block.predecessors states, other) refl

  abbrev exit_of : SsaBlock → StorageState
  exit_of block = apply_transfer_function block.instructions graph folded_state

  -- After a visit that changes the exit state the block is settled, and others stay so.
  settled-after :
      (id : BlockId) (block : SsaBlock) (states : StorageStateMap)
      (entries : Map BlockId StorageState)
      → get id cfg.blocks ≡ some block
      → (k : BlockId)
      → settled
          (record {
            block_entry_states = entries;
            block_exit_states = insert id (exit_of block) states.block_exit_states;
          })
          k
        ≡ (if id == k then true else settled states k)
  settled-after id block states entries at k = elim (Bool-cases (id == k)) [
    | inl same ↦
        let e : get k cfg.blocks ≡ some block = rw (← ((==_iff id k).0 same)) at in
        rw (get-insert id k (exit_of block) states.block_exit_states, same, e)
          (same_state_refl (exit_of block))
    | inr other ↦ rw (get-insert id k (exit_of block) states.block_exit_states, other) refl
  ]

  states_loop-step :
      (fuel : ℕ) (states : StorageStateMap) (id : BlockId) (rest : List BlockId) (block : SsaBlock)
      → get id cfg.blocks ≡ some block
      → (next : StorageStateMap × List BlockId) → visit_block graph id block rest states ≡ next
      → states_loop (suc fuel) cfg graph states (id ∷ rest)
        ≡ states_loop fuel cfg graph (next.0) (next.1)
  unfolding states_loop
  states_loop-step fuel states id rest block at next visit =
      let step : states_loop (suc fuel) cfg graph states (id ∷ rest)
          ≡ states_loop fuel cfg graph ((visit_block graph id block rest states).0)
              ((visit_block graph id block rest states).1) =
        rw at refl in
      step ∙ ap (λ r. states_loop fuel cfg graph (r.0) (r.1)) visit

  module _ (mirrored : IsMirrored cfg) where
    states_loop-ends :
        (fuel : ℕ) (states : StorageStateMap) (stack : List BlockId)
        → measure states stack ≤ fuel
        → All (IsThere cfg.blocks) stack
        → AllFolded states
        → (out : StorageStateMap) × (states_loop fuel cfg graph states stack ≡ some out)
          × AllFolded out
    unfolding states_loop set_entry_state
    states_loop-ends zero states [] enough there h = (states, refl, h)
    states_loop-ends (suc fuel) states [] enough there h = (states, refl, h)
    states_loop-ends zero states (id ∷ rest) enough there h = absurd (omega (arith, enough))
    states_loop-ends (suc fuel) states (id ∷ rest) enough ((block, at), there) h =
        let entries = insert id folded_state states.block_entry_states in
        let folded =
          AllValues-insert (λ s. s ≡ folded_state) id folded_state states.block_entry_states refl
            h in
        elim (Bool-cases (is_same_exit (get id states.block_exit_states) (exit_of block))) [
          | inl same ↦
              let (out, ends, after) =
                states_loop-ends fuel (record states { block_entry_states = entries }) rest
                  (omega (arith, enough)) there folded in
              (
                out,
                states_loop-step fuel states id rest block at
                      (record states { block_entry_states = entries }, rest)
                      (visit-settled id block rest states same)
                    ∙ ends,
                after,
              )
          | inr other ↦
              let next : StorageStateMap = record {
                block_entry_states = entries;
                block_exit_states = insert id (exit_of block) states.block_exit_states;
              } in
              let more : (k : BlockId) → settled states k ≡ true → settled next k ≡ true = λ k was.
                settled-after id block states entries at k
                ∙ ap (λ x. if id == k then true else x) was
                ∙ both (id == k) in
              let before : settled states id ≡ false =
                ap (λ o. is_same_exit (get id states.block_exit_states) (target_of o)) at ∙ other in
              let now : settled next id ≡ true =
                settled-after id block states entries at id
                ∙ ap (λ b. if b then true else settled states id) ((==_iff id id).1 refl) in
              let drops =
                weight-drop (settled states) (settled next) more id block cfg.blocks at before
                  now in
              let pushed =
                successors-IsThere cfg mirrored id block at block.successors (λ b m. m) in
              let (out, ends, after) =
                states_loop-ends fuel next (push_all block.successors rest)
                  (omega (arith, enough, drops, length-push_all block.successors rest))
                  (push_all-All (IsThere cfg.blocks) block.successors rest pushed there) folded in
              (
                out,
                states_loop-step fuel states id rest block at (next, push_all block.successors rest)
                      (visit-unsettled id block rest states other)
                    ∙ ends,
                after,
              )
        ]
      where
        both : (b : Bool) → (if b then true else true) ≡ true
        both true = refl
        both false = refl

-- On a graph whose edges are mirrored, with its entry there, the worklist ends, and it finds every
-- storage variable folded at the entry of every block.
pub compute_storage_states-folded :
    (cfg : SsaCfg) (graph : CallGraphAnalysis) (entry : SsaBlock)
    → IsMirrored cfg
    → get cfg.entry cfg.blocks ≡ some entry
    → (states : StorageStateMap) × (compute_storage_states cfg graph ≡ some states)
      × ((id : BlockId) → entry_state id states ≡ folded_state)
unfolding compute_storage_states
compute_storage_states-folded cfg graph entry mirrored at =
    let start = initial_states cfg.blocks new_state_map in
    let (out, ends, folded) =
      states_loop-ends cfg graph mirrored (suc (edge_count cfg.blocks)) start (cfg.entry ∷ [])
        (omega (arith, weight-le-edge_count (settled cfg graph start) cfg.blocks)) ((entry, at), tt)
        (initial_states-AllFolded cfg.blocks new_state_map tt) in
    (out, ends, λ id. entry_state-AllFolded out id folded)
