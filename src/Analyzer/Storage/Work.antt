-- ===== src/Analyzer/Storage/Work.antt =====
-- analyzer/src/storage.rs: what is left of a worklist over the blocks of a graph.
use merak.Prelude.{
  ℕ, ◌+◌, ◌≤◌, Bool, true, false, Bool-cases, ◌≡◌, refl, sym, ◌∙◌, inl, inr, arith, ◌==◌, ==_iff,
  if◌then◌else◌, some, List, [], ◌∷◌, length, All, nat_eq,
}
use mathlib.Core.Option.{some-injective}
use merak.Prelude.Map.{get}
use merak.Ir.Terminator.{BlockId}
use merak.Ir.Ssa.{SsaBlock, SsaCfg, contains_block}
use merak.Ir.Ssa.Mirrored.{IsMirrored, IsThere, leads_to-at, comes_from-IsThere}

-- How many edges leave the blocks.
abbrev pub edge_count : List (BlockId × SsaBlock) → ℕ
edge_count [] = 0
edge_count ((id, block) ∷ blocks) = length block.successors + edge_count blocks

-- How many edges leave the blocks that are not done.
abbrev pub weight : (BlockId → Bool) → List (BlockId × SsaBlock) → ℕ
weight done [] = 0
weight done ((id, block) ∷ blocks) =
    (if done id then 0 else length block.successors) + weight done blocks

pub weight-le-edge_count :
    (done : BlockId → Bool) (blocks : List (BlockId × SsaBlock))
    → weight done blocks ≤ edge_count blocks
weight-le-edge_count done [] = omega arith
weight-le-edge_count done ((id, block) ∷ blocks) = ground (arith, weight-le-edge_count done blocks)

module _ (done after : BlockId → Bool)
    (more : (id : BlockId) → done id ≡ true → after id ≡ true) where
  weight-le : (blocks : List (BlockId × SsaBlock)) → weight after blocks ≤ weight done blocks
  weight-le [] = omega arith
  weight-le ((id, block) ∷ blocks) = ground (arith, weight-le blocks, more id)

  -- A block that becomes done takes its edges with it.
  pub weight-drop :
      (id : BlockId) (block : SsaBlock) (blocks : List (BlockId × SsaBlock))
      → get id blocks ≡ some block
      → done id ≡ false
      → after id ≡ true
      → weight after blocks + length block.successors ≤ weight done blocks
  unfolding get
  weight-drop id block [] there undone now = absurd (cc)
  weight-drop id block ((k, b) ∷ blocks) there undone now = elim (Bool-cases (k == id)) [
    | inl same ↦
        let e : k ≡ id = (==_iff k id).0 same in
        let is : b ≡ block = some-injective b block (ground (arith, same)) in
        let here : (if after k then 0 else length b.successors) ≡ 0 = rw (e, now) refl in
        let before : (if done k then 0 else length b.successors) ≡ length block.successors =
          rw (e, undone, is) refl in
        omega (arith, here, before, weight-le blocks)
    | inr other ↦
        let rest = weight-drop id block blocks (ground (arith, other)) undone now in
        ground (arith, more k, rest)
  ]

-- The blocks that an edge leads to are there.
pub successors-IsThere :
    (cfg : SsaCfg)
    → IsMirrored cfg
    → (id : BlockId) (block : SsaBlock) → get id cfg.blocks ≡ some block
    → (bs : List BlockId)
    → ((b : BlockId) → contains_block b bs ≡ true → contains_block b block.successors ≡ true)
    → All (IsThere cfg.blocks) bs
successors-IsThere cfg h id block at [] sub = tt
successors-IsThere cfg h id block at (b ∷ bs) sub = (
  there b (sub b (ground (arith, ==_iff b b))),
  successors-IsThere cfg h id block at bs (λ c m. sub c (later c m)),
)
  where
    later : (c : BlockId) → contains_block c bs ≡ true → contains_block c (b ∷ bs) ≡ true
    later c m = ground (arith, m)

    there : (c : BlockId) → contains_block c block.successors ≡ true → IsThere cfg.blocks c
    there c m =
        comes_from-IsThere cfg.blocks c id
          (sym (h.mirrored id c) ∙ leads_to-at cfg.blocks id c block at m)
