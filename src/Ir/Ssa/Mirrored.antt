-- ===== src/Ir/Ssa/Mirrored.antt =====
-- ir/src/ssa_ir.rs: the edges of a graph, from both ends.
use merak.Prelude.{
  ℕ, ◌≤◌, String, Bool, true, false, ◌&&◌, Bool-cases, ◌≡◌, refl, sym, ap, ◌∙◌, inl, inr, arith,
  Option, none, some, Option-cases, List, [], ◌∷◌, ◌++◌, nat_eq, ◌==◌, ==_iff, if◌then◌else◌,
}
use mathlib.Core.Option.{map as option_map}
use merak.Prelude.Map.{Map, get, insert, get-insert}
use merak.Symbols.Id.{SymbolId}
use merak.Ir.Terminator.{BlockId, Terminator}
use merak.Ir.Ssa.{
  SsaOperand, SsaInstruction, SsaBlock, SsaCfg, new_cfg, empty_block, new_block, change_block,
  push_instruction, put_terminator, add_instruction_at, add_terminator_at, contains_block, push_new,
  add_successor, add_predecessor, add_edge, add_param,
}

-- `b` stands among the successors of `a`, and `a` among the predecessors of `b`.
abbrev in_successors : BlockId → Option SsaBlock → Bool
in_successors b none = false
in_successors b (some block) = contains_block b block.successors

abbrev in_predecessors : BlockId → Option SsaBlock → Bool
in_predecessors a none = false
in_predecessors a (some block) = contains_block a block.predecessors

unfoldable pub leads_to : Map BlockId SsaBlock → BlockId → BlockId → Bool
leads_to blocks a b = in_successors b (get a blocks)

unfoldable pub comes_from : Map BlockId SsaBlock → BlockId → BlockId → Bool
comes_from blocks b a = in_predecessors a (get b blocks)

pub record IsMirrored (cfg : SsaCfg) : Type 0 where
  pub mirrored : (a b : BlockId) → leads_to cfg.blocks a b ≡ comes_from cfg.blocks b a
  pub fresh : (n : ℕ) → cfg.next_id ≤ n → get n cfg.blocks ≡ none

change_block-eq_none :
    (id : BlockId) (change : SsaBlock → SsaBlock) (blocks : Map BlockId SsaBlock)
    → get id blocks ≡ none
    → change_block id change blocks ≡ blocks
unfolding change_block
change_block-eq_none id change blocks gone = rw gone refl

change_block-eq_some :
    (id : BlockId) (change : SsaBlock → SsaBlock) (blocks : Map BlockId SsaBlock) (block : SsaBlock)
    → get id blocks ≡ some block
    → change_block id change blocks ≡ insert id (change block) blocks
unfolding change_block
change_block-eq_some id change blocks block there = rw there refl

get-change_block :
    (k id : BlockId) (change : SsaBlock → SsaBlock) (blocks : Map BlockId SsaBlock)
    → get k (change_block id change blocks)
      ≡ (if id == k then option_map change (get k blocks) else get k blocks)
get-change_block k id change blocks = elim (Option-cases (get id blocks)) [
  | inl gone ↦ elim (Bool-cases (id == k)) [
    | inl same ↦
        let here : get k blocks ≡ none = rw (← ((==_iff id k).0 same)) gone in
        rw (change_block-eq_none id change blocks gone, here, same) refl
    | inr other ↦ rw (change_block-eq_none id change blocks gone, other) refl
  ]
  | inr (block, there) ↦ elim (Bool-cases (id == k)) [
    | inl same ↦
        let here : get k blocks ≡ some block = rw (← ((==_iff id k).0 same)) there in
        rw
          (
            change_block-eq_some id change blocks block there,
            get-insert id k (change block) blocks,
            same,
            here,
          )
          refl
    | inr other ↦
        rw
          (
            change_block-eq_some id change blocks block there,
            get-insert id k (change block) blocks,
            other,
          )
          refl
  ]
]

contains_block-append :
    (b id : BlockId) (ids : List BlockId)
    → contains_block b (ids ++ id ∷ []) ≡ (if id == b then true else contains_block b ids)
contains_block-append b id [] = refl
contains_block-append b id (x ∷ ids) = ground (arith, contains_block-append b id ids)

contains_block-push_new :
    (b id : BlockId) (ids : List BlockId)
    → contains_block b (push_new id ids) ≡ (if id == b then true else contains_block b ids)
contains_block-push_new b id ids = elim (Bool-cases (contains_block id ids)) [
  | inl there ↦ elim (Bool-cases (id == b)) [
    | inl same ↦ rw (there, same) (rw (← ((==_iff id b).0 same)) there)
    | inr other ↦ rw (there, other) refl
  ]
  | inr gone ↦ rw gone (contains_block-append b id ids)
]

-- A block that a change keeps the edges of.
leads_to-change :
    (a b id : BlockId) (change : SsaBlock → SsaBlock) (blocks : Map BlockId SsaBlock)
    → ((block : SsaBlock) → (change block).successors ≡ block.successors)
    → leads_to (change_block id change blocks) a b ≡ leads_to blocks a b
unfolding leads_to
leads_to-change a b id change blocks same =
    ap (in_successors b) (get-change_block a id change blocks) ∙ kept (id == a) (get a blocks)
  where
    kept :
        (here : Bool) (o : Option SsaBlock)
        → in_successors b (if here then option_map change o else o) ≡ in_successors b o
    kept false o = refl
    kept true none = refl
    kept true (some block) = ap (contains_block b) (same block)

comes_from-change :
    (a b id : BlockId) (change : SsaBlock → SsaBlock) (blocks : Map BlockId SsaBlock)
    → ((block : SsaBlock) → (change block).predecessors ≡ block.predecessors)
    → comes_from (change_block id change blocks) b a ≡ comes_from blocks b a
unfolding comes_from
comes_from-change a b id change blocks same =
    ap (in_predecessors a) (get-change_block b id change blocks) ∙ kept (id == b) (get b blocks)
  where
    kept :
        (here : Bool) (o : Option SsaBlock)
        → in_predecessors a (if here then option_map change o else o) ≡ in_predecessors a o
    kept false o = refl
    kept true none = refl
    kept true (some block) = ap (contains_block a) (same block)

-- The end `id` of an edge is there.
abbrev pub IsThere : Map BlockId SsaBlock → BlockId → Type 0
IsThere blocks id = (block : SsaBlock) × (get id blocks ≡ some block)

leads_to-add :
    (a b from to : BlockId) (blocks : Map BlockId SsaBlock)
    → IsThere blocks from
    → leads_to (change_block from (add_successor to) blocks) a b
      ≡ (if from == a && to == b then true else leads_to blocks a b)
unfolding leads_to
leads_to-add a b from to blocks (block, there) =
    ap (in_successors b) (get-change_block a from (add_successor to) blocks)
    ∙ elim (Bool-cases (from == a)) [
      | inl same ↦
          let here : get a blocks ≡ some block = rw (← ((==_iff from a).0 same)) there in
          rw (same, here) (contains_block-push_new b to block.successors)
      | inr other ↦ rw other refl
    ]

comes_from-add :
    (a b from to : BlockId) (blocks : Map BlockId SsaBlock)
    → IsThere blocks to
    → comes_from (change_block to (add_predecessor from) blocks) b a
      ≡ (if from == a && to == b then true else comes_from blocks b a)
unfolding comes_from
comes_from-add a b from to blocks (block, there) =
    ap (in_predecessors a) (get-change_block b to (add_predecessor from) blocks)
    ∙ elim (Bool-cases (to == b)) [
      | inl same ↦
          let here : get b blocks ≡ some block = rw (← ((==_iff to b).0 same)) there in
          rw (same, here)
            (contains_block-push_new a from block.predecessors
              ∙ swapped (from == a) (contains_block a block.predecessors))
      | inr other ↦ rw other (never (from == a) (in_predecessors a (get b blocks)))
    ]
  where
    swapped : (x y : Bool) → (if x then true else y) ≡ (if x && true then true else y)
    swapped true y = refl
    swapped false y = refl

    never : (x y : Bool) → y ≡ (if x && false then true else y)
    never true y = refl
    never false y = refl

-- A write to a block that is there adds no block.
fresh-change :
    (n id : ℕ) (change : SsaBlock → SsaBlock) (blocks : Map BlockId SsaBlock)
    → get n blocks ≡ none
    → get n (change_block id change blocks) ≡ none
fresh-change n id change blocks gone =
    get-change_block n id change blocks
    ∙ ap (λ o. if id == n then option_map change o else o) gone
    ∙ both (id == n)
  where
    both : (here : Bool) → (if here then option_map change none else none) ≡ none
    both true = refl
    both false = refl

change_block-IsMirrored :
    (cfg : SsaCfg) (id : BlockId) (change : SsaBlock → SsaBlock)
    → ((block : SsaBlock) → (change block).successors ≡ block.successors)
    → ((block : SsaBlock) → (change block).predecessors ≡ block.predecessors)
    → IsMirrored cfg
    → IsMirrored (record cfg { blocks = change_block id change cfg.blocks })
change_block-IsMirrored cfg id change succs preds h = record {
  mirrored = λ a b.
      leads_to-change a b id change cfg.blocks succs
      ∙ (h.mirrored a b ∙ sym (comes_from-change a b id change cfg.blocks preds));
  fresh = λ n le. fresh-change n id change cfg.blocks (h.fresh n le);
}

IsThere-change :
    (to id : BlockId) (change : SsaBlock → SsaBlock) (blocks : Map BlockId SsaBlock)
    → IsThere blocks to
    → IsThere (change_block id change blocks) to
IsThere-change to id change blocks (block, there) = elim (Bool-cases (id == to)) [
  | inl same ↦ (change block, rw (get-change_block to id change blocks, same, there) refl)
  | inr other ↦ (block, rw (get-change_block to id change blocks, other) there)
]

add_edge-IsMirrored :
    (cfg : SsaCfg) (from to : BlockId)
    → IsThere cfg.blocks from
    → IsThere cfg.blocks to
    → IsMirrored cfg
    → IsMirrored (add_edge from to cfg)
unfolding add_edge
add_edge-IsMirrored cfg from to here there h =
    let mid = change_block from (add_successor to) cfg.blocks in
    record {
      mirrored = λ a b.
          leads_to-change a b to (add_predecessor from) mid (λ block. refl)
          ∙ (leads_to-add a b from to cfg.blocks here
              ∙ (ap (λ x. if from == a && to == b then true else x)
                    (h.mirrored a b
                      ∙ sym (
                          comes_from-change a b from (add_successor to) cfg.blocks (λ block. refl)))
                  ∙ sym (
                      comes_from-add a b from to mid
                        (IsThere-change to from (add_successor to) cfg.blocks there))));
      fresh = λ n le.
          fresh-change n to (add_predecessor from) mid
            (fresh-change n from (add_successor to) cfg.blocks (h.fresh n le));
    }

new_block-IsMirrored : (cfg : SsaCfg) → IsMirrored cfg → IsMirrored (new_block cfg).1
unfolding new_block leads_to comes_from
new_block-IsMirrored cfg h = record {
  mirrored = λ a b. out a b ∙ (h.mirrored a b ∙ sym (back b a));
  fresh = λ n le. elim (Bool-cases (cfg.next_id == n)) [
    | inl same ↦ absurd (ground (arith, same))
    | inr other ↦
        rw (get-insert cfg.next_id n (empty_block cfg.next_id) cfg.blocks, other)
          (h.fresh n (omega (arith, le)))
  ];
}
  where
    out :
        (a b : BlockId)
        → leads_to (insert cfg.next_id (empty_block cfg.next_id) cfg.blocks) a b
          ≡ leads_to cfg.blocks a b
    out a b = elim (Bool-cases (cfg.next_id == a)) [
      | inl same ↦
          let gone : get a cfg.blocks ≡ none =
            rw (← ((==_iff cfg.next_id a).0 same)) (h.fresh cfg.next_id (omega arith)) in
          rw (get-insert cfg.next_id a (empty_block cfg.next_id) cfg.blocks, same, gone) refl
      | inr other ↦ rw (get-insert cfg.next_id a (empty_block cfg.next_id) cfg.blocks, other) refl
    ]

    back :
        (b a : BlockId)
        → comes_from (insert cfg.next_id (empty_block cfg.next_id) cfg.blocks) b a
          ≡ comes_from cfg.blocks b a
    back b a = elim (Bool-cases (cfg.next_id == b)) [
      | inl same ↦
          let gone : get b cfg.blocks ≡ none =
            rw (← ((==_iff cfg.next_id b).0 same)) (h.fresh cfg.next_id (omega arith)) in
          rw (get-insert cfg.next_id b (empty_block cfg.next_id) cfg.blocks, same, gone) refl
      | inr other ↦ rw (get-insert cfg.next_id b (empty_block cfg.next_id) cfg.blocks, other) refl
    ]

-- The graphs that the methods make, with edges between blocks that are there.
pub data Built : SsaCfg → Type 0 where
  new : (name : String) (function_id : SymbolId) → Built (new_cfg name function_id)
  block_made : {cfg : SsaCfg} → Built cfg → Built (new_block cfg).1
  instruction_added :
      {cfg : SsaCfg} (id : BlockId) (instruction : SsaInstruction)
      → Built cfg
      → Built (add_instruction_at id instruction cfg)
  terminator_added :
      {cfg : SsaCfg} (id : BlockId) (terminator : Terminator SsaOperand)
      → Built cfg
      → Built (add_terminator_at id terminator cfg)
  edge_added :
      {cfg : SsaCfg} (from to : BlockId) {source target : SsaBlock}
      → get from cfg.blocks ≡ some source
      → get to cfg.blocks ≡ some target
      → Built cfg
      → Built (add_edge from to cfg)
  param_added : {cfg : SsaCfg} (id : SymbolId) → Built cfg → Built (add_param id cfg)

-- In every graph that the methods make of a new one, with edges between blocks that are there, a block
-- stands among the successors of another exactly where that one stands among its predecessors, and the
-- next block number is not in use.
pub Built-IsMirrored : {cfg : SsaCfg} → Built cfg → IsMirrored cfg
unfolding leads_to comes_from add_instruction_at add_terminator_at add_param get
Built-IsMirrored (new name function_id) = record { mirrored = λ a b. refl; fresh = λ n le. refl }
Built-IsMirrored (block_made {cfg} h) = new_block-IsMirrored cfg (Built-IsMirrored h)
Built-IsMirrored (instruction_added {cfg} id instruction h) =
    change_block-IsMirrored cfg id (push_instruction instruction) (λ block. refl) (λ block. refl)
      (Built-IsMirrored h)
Built-IsMirrored (terminator_added {cfg} id terminator h) =
    change_block-IsMirrored cfg id (put_terminator terminator) (λ block. refl) (λ block. refl)
      (Built-IsMirrored h)
Built-IsMirrored (edge_added {cfg} from to {source} {target} here there h) =
    add_edge-IsMirrored cfg from to (source, here) (target, there) (Built-IsMirrored h)
Built-IsMirrored (param_added {cfg} id h) =
    let mirrored = Built-IsMirrored h in
    record { mirrored = mirrored.mirrored; fresh = mirrored.fresh }

pub leads_to-at :
    (blocks : Map BlockId SsaBlock) (a b : BlockId) (block : SsaBlock)
    → get a blocks ≡ some block
    → contains_block b block.successors ≡ true
    → leads_to blocks a b ≡ true
unfolding leads_to
leads_to-at blocks a b block at m = ap (in_successors b) at ∙ m

pub comes_from-IsThere :
    (blocks : Map BlockId SsaBlock) (b a : BlockId)
    → comes_from blocks b a ≡ true
    → IsThere blocks b
unfolding comes_from
comes_from-IsThere blocks b a h = elim (Option-cases (get b blocks)) [
  | inl gone ↦ absurd (cc)
  | inr there ↦ there
]
