-- ===== src/Analyzer/Storage/Validation/Sweep.antt =====
-- analyzer/src/storage.rs: the walk of `check_no_stores_after_call`.
use merak.Prelude.{
  ℕ, zero, suc, ◌+◌, Bool, true, false, Bool-cases, ◌≡◌, refl, sym, ap, ◌∙◌, ◌≢◌, inl, inr, arith,
  ◌==◌, ==_iff, if◌then◌else◌, Option, none, some, List, [], ◌∷◌, drop, All, nat_eq,
}
use mathlib.Core.Path.{subst}
use mathlib.Core.Option.{some-injective}
use merak.Prelude.Map.{get}
use merak.Prelude.Outcome.{ok, ◌>>=◌, >>=-eq-ok}
use merak.Ast.Node.{SourceRef}
use merak.Symbols.Id.{symbol_eq}
use merak.Ir.Terminator.{BlockId}
use merak.Ir.Ssa.{
  SsaInstruction, copy, phi, binary_op, unary_op, storage_load, storage_store, call, unfold_var,
  fold_var, assert, SsaBlock, SsaCfg, contains_block,
}
use merak.Analyzer.Storage.Work.{edge_count}
use merak.Analyzer.Storage.Validation.{
  expect, check_instructions, push_places, stores_loop, check_no_stores_after_call,
}

abbrev pub is_store : SsaInstruction → Bool
is_store (storage_store var value sr) = true
is_store inst = false

abbrev pub has_stores : List SsaInstruction → Bool
has_stores [] = false
has_stores (inst ∷ insts) = let rest = has_stores insts in if is_store inst then true else rest

check_instructions-ok :
    (insts : List SsaInstruction) (sr : SourceRef)
    → check_instructions insts sr ≡ ok tt
    → has_stores insts ≡ false
unfolding check_instructions
check_instructions-ok [] sr done = refl
check_instructions-ok (storage_store v a r ∷ insts) sr done = absurd (cc)
check_instructions-ok (copy d a r ∷ insts) sr done = check_instructions-ok insts sr done
check_instructions-ok (phi d vs ∷ insts) sr done = check_instructions-ok insts sr done
check_instructions-ok (binary_op d o a b r ∷ insts) sr done = check_instructions-ok insts sr done
check_instructions-ok (unary_op d o a r ∷ insts) sr done = check_instructions-ok insts sr done
check_instructions-ok (storage_load d v r ∷ insts) sr done = check_instructions-ok insts sr done
check_instructions-ok (call d target args r ∷ insts) sr done = check_instructions-ok insts sr done
check_instructions-ok (unfold_var v r ∷ insts) sr done = check_instructions-ok insts sr done
check_instructions-ok (fold_var v r ∷ insts) sr done = check_instructions-ok insts sr done
check_instructions-ok (assert c k r ∷ insts) sr done = check_instructions-ok insts sr done

-- Whether a block waits on the stack.
abbrev waits : BlockId → List (BlockId × ℕ) → Bool
waits b [] = false
waits b ((x, start) ∷ stack) = let rest = waits b stack in if x == b then true else rest

waits-push_places :
    (b : BlockId) (bs : List BlockId) (stack : List (BlockId × ℕ))
    → (waits b stack ≡ true → waits b (push_places bs stack) ≡ true)
      × (contains_block b bs ≡ true → waits b (push_places bs stack) ≡ true)
unfolding push_places
waits-push_places b [] stack = (λ h. h, λ h. absurd (cc))
waits-push_places b (x ∷ bs) stack =
    let (kept, pushed) = waits-push_places b bs ((x, 0) ∷ stack) in
    (λ h. kept (ground (arith, h)), λ h. first h kept pushed)
  where
    first :
        contains_block b (x ∷ bs) ≡ true
        → (waits b ((x, 0) ∷ stack) ≡ true → waits b (push_places bs ((x, 0) ∷ stack)) ≡ true)
        → (contains_block b bs ≡ true → waits b (push_places bs ((x, 0) ∷ stack)) ≡ true)
        → waits b (push_places bs ((x, 0) ∷ stack)) ≡ true
    first h kept pushed = elim (Bool-cases (x == b)) [
      | inl here ↦ kept (rw here refl)
      | inr other ↦ pushed (ground (arith, h, other))
    ]

abbrev FromStart : List (BlockId × ℕ) → Type 0
FromStart stack = All (λ place. place.1 ≡ 0) stack

push_places-FromStart :
    (bs : List BlockId) (stack : List (BlockId × ℕ))
    → FromStart stack
    → FromStart (push_places bs stack)
unfolding push_places
push_places-FromStart [] stack h = h
push_places-FromStart (b ∷ bs) stack h = push_places-FromStart bs ((b, 0) ∷ stack) (refl, h)

-- A block without stores, whose successors are among the given ones.
abbrev IsSwept : SsaCfg → List BlockId → BlockId → Type 0
IsSwept cfg all id =
    (block : SsaBlock) × (get id cfg.blocks ≡ some block)
    × (has_stores block.instructions ≡ false)
    × ((b : BlockId) → contains_block b block.successors ≡ true → contains_block b all ≡ true)

-- The blocks that a run of the loop has visited at its end.
record Sweep (cfg : SsaCfg) (visited : List BlockId) (stack : List (BlockId × ℕ)) : Type 0 where
  all : List BlockId
  has_visited : (b : BlockId) → contains_block b visited ≡ true → contains_block b all ≡ true
  has_stack : (b : BlockId) → waits b stack ≡ true → contains_block b all ≡ true
  swept :
      (b : BlockId)
      → contains_block b all ≡ true
      → contains_block b visited ≡ false
      → IsSwept cfg all b

expect-ok : {A : Type 0} (o : Option A) (a : A) → expect {A = A} o ≡ ok a → o ≡ some a
expect-ok none a done = absurd (cc)
expect-ok (some b) a done = cc

module _ (cfg : SsaCfg) (sr : SourceRef) where
  stores_loop-step :
      (fuel : ℕ) (visited : List BlockId) (id : BlockId) (start : ℕ) (rest : List (BlockId × ℕ))
      → contains_block id visited ≡ false
      → stores_loop (suc fuel) cfg sr visited ((id, start) ∷ rest) ≡ ok tt
      → (block : SsaBlock) × (get id cfg.blocks ≡ some block)
        × (has_stores (drop start block.instructions) ≡ false)
        × (stores_loop fuel cfg sr (id ∷ visited) (push_places block.successors rest) ≡ ok tt)
  unfolding stores_loop
  stores_loop-step fuel visited id start rest fresh done =
      let entered =
        ap
          (λ b.
            if b
            then stores_loop fuel cfg sr visited rest
            else (expect (get id cfg.blocks) >>= λ block.
                check_instructions (drop start block.instructions) sr >>= λ clean.
                stores_loop fuel cfg sr (id ∷ visited) (push_places block.successors rest)))
          (sym fresh)
        ∙ done in
      let (block, at, more) =
        >>=-eq-ok (expect (get id cfg.blocks))
          (λ block. check_instructions (drop start block.instructions) sr >>= λ clean.
            stores_loop fuel cfg sr (id ∷ visited) (push_places block.successors rest))
          entered in
      let (clean, done_here, last) =
        >>=-eq-ok (check_instructions (drop start block.instructions) sr)
          (λ clean. stores_loop fuel cfg sr (id ∷ visited) (push_places block.successors rest))
          more in
      (
        block,
        expect-ok (get id cfg.blocks) block at,
        check_instructions-ok (drop start block.instructions) sr done_here,
        last,
      )

  swept_after :
      (visited : List BlockId) (id : BlockId) (rest : List (BlockId × ℕ)) (block : SsaBlock)
      → get id cfg.blocks ≡ some block
      → has_stores block.instructions ≡ false
      → Sweep cfg (id ∷ visited) (push_places block.successors rest)
      → Sweep cfg visited ((id, 0) ∷ rest)
  swept_after visited id rest block at clean sweep =
      let here : contains_block id sweep.all ≡ true =
        sweep.has_visited id
          (ap (λ b. if b then true else contains_block id visited) ((==_iff id id).1 refl)) in
      record {
        all = sweep.all;
        has_visited =
            λ b m. sweep.has_visited b (ap (λ x. if id == b then true else x) m ∙ both (id == b));
        has_stack = λ b m. elim (Bool-cases (id == b)) [
          | inl same ↦ rw (← ((==_iff id b).0 same)) here
          | inr other ↦
              sweep.has_stack b
                ((waits-push_places b block.successors rest).0 (ground (arith, m, other)))
        ];
        swept = λ b m fresh. elim (Bool-cases (id == b)) [
          | inl same ↦ rw (← ((==_iff id b).0 same)) (
            block,
            at,
            clean,
            λ c edge. sweep.has_stack c ((waits-push_places c block.successors rest).1 edge),
          )
          | inr other ↦ sweep.swept b m (rw (other, fresh) refl)
        ];
      }
    where
      both : (b : Bool) → (if b then true else true) ≡ true
      both true = refl
      both false = refl

  stores_loop-Sweep :
      (fuel : ℕ) (visited : List BlockId) (stack : List (BlockId × ℕ))
      → FromStart stack
      → stores_loop fuel cfg sr visited stack ≡ ok tt
      → Sweep cfg visited stack
  unfolding stores_loop
  stores_loop-Sweep fuel visited [] start done = record {
    all = visited;
    has_visited = λ b m. m;
    has_stack = λ b m. absurd (cc);
    swept = λ b m fresh. absurd (cc);
  }
  stores_loop-Sweep zero visited (place ∷ rest) start done = absurd (cc)
  stores_loop-Sweep (suc fuel) visited ((id, n) ∷ rest) (zeros, start) done =
      elim (Bool-cases (contains_block id visited)) [
        | inl seen ↦
            let sweep = stores_loop-Sweep fuel visited rest start (ground (arith, seen, done)) in
            record {
              all = sweep.all;
              has_visited = sweep.has_visited;
              has_stack = λ b m. elim (Bool-cases (id == b)) [
                | inl same ↦ rw (← ((==_iff id b).0 same)) (sweep.has_visited id seen)
                | inr other ↦ sweep.has_stack b (ground (arith, m, other))
              ];
              swept = sweep.swept;
            }
        | inr fresh ↦
            let (block, at, clean, last) = stores_loop-step fuel visited id n rest fresh done in
            let sweep =
              stores_loop-Sweep fuel (id ∷ visited) (push_places block.successors rest)
                (push_places-FromStart block.successors rest start) last in
            let whole = ap (λ k. has_stores (drop k block.instructions)) (sym zeros) ∙ clean in
            subst (λ k. Sweep cfg visited ((id, k) ∷ rest)) (sym zeros)
              (swept_after visited id rest block at whole sweep)
      ]

-- The blocks that a walk along the edges reaches.
pub data Follows (cfg : SsaCfg) (from : BlockId) : BlockId → Type 0 where
  stays : Follows cfg from from
  goes :
      {a b : BlockId} {block : SsaBlock}
      → Follows cfg from a
      → get a cfg.blocks ≡ some block
      → contains_block b block.successors ≡ true
      → Follows cfg from b

-- Nothing is stored from an index of a block on, nor in another block that is reached from it.
abbrev pub NoStoresAfter : SsaCfg → BlockId → ℕ → Type 0
NoStoresAfter cfg id start =
    ((block : SsaBlock)
      → get id cfg.blocks ≡ some block
      → has_stores (drop start block.instructions) ≡ false)
    × ((b : BlockId) (block : SsaBlock)
        → Follows cfg id b
        → b ≢ id
        → get b cfg.blocks ≡ some block
        → has_stores block.instructions ≡ false)

module _ (cfg : SsaCfg) (id : BlockId) (block : SsaBlock) (at : get id cfg.blocks ≡ some block)
    (sweep : Sweep cfg (id ∷ []) (push_places block.successors [])) where
  on_walk : {b : BlockId} → Follows cfg id b → contains_block b sweep.all ≡ true
  on_walk stays = sweep.has_visited id (ap (λ b. if b then true else false) ((==_iff id id).1 refl))
  on_walk (goes {a} {b} {block = found} walk there edge) = elim (Bool-cases (id == a)) [
    | inl same ↦
        let e : found ≡ block =
          some-injective found block
            (sym there ∙ ap (λ k. get k cfg.blocks) (sym ((==_iff id a).0 same)) ∙ at) in
        sweep.has_stack b (
          (waits-push_places b block.successors []).1
            (ap (λ c. contains_block b c.successors) (sym e) ∙ edge))
    | inr other ↦
        let (swept, here, clean, closed) = sweep.swept a (on_walk walk) (rw other refl) in
        closed b (
          ap (λ c. contains_block b c.successors) (some-injective swept found (sym here ∙ there))
          ∙ edge)
  ]

  on_walk-clean :
      (b : BlockId) (found : SsaBlock)
      → Follows cfg id b
      → b ≢ id
      → get b cfg.blocks ≡ some found
      → has_stores found.instructions ≡ false
  on_walk-clean b found walk away there =
      let other : contains_block b (id ∷ []) ≡ false = elim (Bool-cases (id == b)) [
        | inl same ↦ absurd (away (sym ((==_iff id b).0 same)))
        | inr differs ↦ rw differs refl
      ] in
      let (swept, here, clean, closed) = sweep.swept b (on_walk walk) other in
      ap (λ c. has_stores c.instructions) (some-injective found swept (sym there ∙ here)) ∙ clean

pub check_no_stores_after_call-ok :
    (cfg : SsaCfg) (id : BlockId) (index : ℕ) (sr : SourceRef)
    → check_no_stores_after_call cfg id index sr ≡ ok tt
    → NoStoresAfter cfg id (index + 1)
unfolding check_no_stores_after_call
check_no_stores_after_call-ok cfg id index sr done =
    let (block, at, clean, last) =
      stores_loop-step cfg sr (edge_count cfg.blocks) [] id (index + 1) [] refl done in
    let sweep =
      stores_loop-Sweep cfg sr (edge_count cfg.blocks) (id ∷ []) (push_places block.successors [])
        (push_places-FromStart block.successors [] tt) last in
    (
      λ b found.
          ap (λ c. has_stores (drop (index + 1) c.instructions))
            (some-injective b block (sym found ∙ at))
          ∙ clean,
      on_walk-clean cfg id block at sweep,
    )
