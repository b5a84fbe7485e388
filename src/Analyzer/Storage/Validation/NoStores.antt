-- ===== src/Analyzer/Storage/Validation/NoStores.antt =====
-- analyzer/src/storage.rs: what `validate_cei_pattern` accepts.
use merak.Prelude.{
  ℕ, suc, ◌+◌, false, Bool-cases, ◌≡◌, refl, sym, ap, ◌∙◌, ◌≢◌, ◌⊎◌, inl, inr, arith, ◌==◌, ==_iff,
  if◌then◌else◌, Option, some, List, [], ◌∷◌, ◌++◌, length, drop, nat_eq,
}
use mathlib.Core.Path.{subst}
use mathlib.Core.Option.{some-injective}
use merak.Prelude.Map.{get}
use merak.Prelude.Outcome.{ok, err, ◌>>=◌, >>=-eq-ok, Outcome-cases}
use merak.Ast.Node.{SourceRef}
use merak.Ast.Contract.{checked, reentrant}
use merak.Errors.{MerakError}
use merak.Symbols.Id.{symbol_eq}
use merak.Symbols.Table.{SymbolTable}
use merak.Ir.Operand.{CallTarget, internal, external, Register}
use merak.Ir.Terminator.{BlockId}
use merak.Ir.Ssa.{SsaOperand, SsaInstruction, call, SsaBlock, SsaCfg}
use merak.Ir.Ssa.Mirrored.{IsMirrored}
use merak.Analyzer.Resolve.Declare.{same_modifier}
use merak.Analyzer.Storage.{get_reentrancy_modifier}
use merak.Analyzer.Storage.Validation.Sweep.{
  has_stores, Follows, NoStoresAfter, check_no_stores_after_call-ok,
}
use merak.Analyzer.Storage.Validation.Returns.{
  IsReturned, HasKnownCallees, validate_cei_pattern-IsReturned,
}
use merak.Analyzer.Storage.Validation.{
  expect, check_no_stores_after_call, check_call, check_calls, check_blocks, validate_cei_pattern,
}

-- The calls that no store may follow.
abbrev pub IsGuarded : SymbolTable → CallTarget → Type 0
IsGuarded t (external object method) = Unit
IsGuarded t (internal fn_id) = get_reentrancy_modifier fn_id t ≡ some reentrant

check_call-ok :
    (cfg : SsaCfg) (t : SymbolTable) (id : BlockId) (index : ℕ) (dest : Option Register)
    (target : CallTarget) (args : List SsaOperand) (sr : SourceRef)
    → IsGuarded t target
    → check_call cfg t id index (call dest target args sr) ≡ ok tt
    → NoStoresAfter cfg id (index + 1)
unfolding check_call
check_call-ok cfg t id index dest (external object method) args sr guarded done =
    check_no_stores_after_call-ok cfg id index sr done
check_call-ok cfg t id index dest (internal fn_id) args sr guarded done =
    check_no_stores_after_call-ok cfg id index sr (
      sym (
        ap
          (λ m. expect m >>= λ modifier.
            if same_modifier modifier reentrant
            then check_no_stores_after_call cfg id index sr
            else ok tt)
          guarded)
      ∙ done)

check_calls-at :
    (cfg : SsaCfg) (t : SymbolTable) (id : BlockId) (before : List SsaInstruction)
    (inst : SsaInstruction) (after : List SsaInstruction) (index : ℕ)
    → check_calls cfg t id index (before ++ inst ∷ after) ≡ ok tt
    → check_call cfg t id (index + length before) inst ≡ ok tt
unfolding check_calls
check_calls-at cfg t id [] inst after index done =
    let (clean, here, rest) =
      >>=-eq-ok (check_call cfg t id index inst) (λ clean. check_calls cfg t id (suc index) after)
        done in
    ap (λ i. check_call cfg t id i inst) (omega arith) ∙ here
check_calls-at cfg t id (x ∷ before) inst after index done =
    let (clean, here, rest) =
      >>=-eq-ok (check_call cfg t id index x)
        (λ clean. check_calls cfg t id (suc index) (before ++ inst ∷ after)) done in
    let same : index + suc (length before) ≡ suc index + length before = omega arith in
    ap (λ i. check_call cfg t id i inst) same
    ∙ check_calls-at cfg t id before inst after (suc index) rest

check_blocks-at :
    (cfg : SsaCfg) (t : SymbolTable) (blocks : List (BlockId × SsaBlock)) (id : BlockId)
    (block : SsaBlock)
    → get id blocks ≡ some block
    → check_blocks cfg t blocks ≡ ok tt
    → check_calls cfg t id 0 block.instructions ≡ ok tt
unfolding check_blocks get
check_blocks-at cfg t [] id block there done = absurd (cc)
check_blocks-at cfg t ((k, b) ∷ blocks) id block there done =
    let (clean, here, rest) =
      >>=-eq-ok (check_calls cfg t k 0 b.instructions) (λ clean. check_blocks cfg t blocks) done in
    elim (Bool-cases (k == id)) [
      | inl same ↦
          let e : b ≡ block = some-injective b block (ground (arith, there, same)) in
          ap (λ c. check_calls cfg t id 0 c.instructions) (sym e)
          ∙ ap (λ i. check_calls cfg t i 0 b.instructions) (sym ((==_iff k id).0 same))
          ∙ here
      | inr other ↦ check_blocks-at cfg t blocks id block (ground (arith, there, other)) rest
    ]

drop-append :
    (xs : List SsaInstruction) (x : SsaInstruction) (ys : List SsaInstruction)
    → drop (length xs + 1) (xs ++ x ∷ ys) ≡ ys
drop-append [] x ys = refl
drop-append (y ∷ xs) x ys =
    let one_more : suc (length xs) + 1 ≡ suc (length xs + 1) = omega arith in
    ap (λ n. drop n (y ∷ (xs ++ x ∷ ys))) one_more ∙ drop-append xs x ys

validate_cei_pattern-ok :
    (cfg : SsaCfg) (t : SymbolTable) (id : BlockId) (block : SsaBlock) (dest : Option Register)
    (target : CallTarget) (args : List SsaOperand) (sr : SourceRef)
    (before after : List SsaInstruction)
    → get_reentrancy_modifier cfg.function_id t ≡ some checked
    → validate_cei_pattern cfg t ≡ ok tt
    → get id cfg.blocks ≡ some block
    → block.instructions ≡ before ++ call dest target args sr ∷ after
    → IsGuarded t target
    → (has_stores after ≡ false)
      × ((b : BlockId) (other : SsaBlock)
          → Follows cfg id b
          → b ≢ id
          → get b cfg.blocks ≡ some other
          → has_stores other.instructions ≡ false)
unfolding validate_cei_pattern
validate_cei_pattern-ok cfg t id block dest target args sr before after is_checked done there split
      guarded =
    let all : check_blocks cfg t cfg.blocks ≡ ok tt =
      sym (
        ap
          (λ m. expect m >>= λ modifier.
            if same_modifier modifier checked then check_blocks cfg t cfg.blocks else ok tt)
          is_checked)
      ∙ done in
    let calls =
      ap (check_calls cfg t id 0) (sym split)
      ∙ check_blocks-at cfg t cfg.blocks id block there all in
    let from_zero : length before ≡ 0 + length before = omega arith in
    let (here, elsewhere) = check_call-ok cfg t id (length before) dest target args sr guarded (
      ap (λ i. check_call cfg t id i (call dest target args sr)) from_zero
      ∙ check_calls-at cfg t id before (call dest target args sr) after 0 calls) in
    (
      sym (
            ap (λ is. has_stores (drop (length before + 1) is)) split
            ∙ ap has_stores (drop-append before (call dest target args sr) after))
          ∙ here block there,
      elsewhere,
    )

-- What runs of a block once the call of block `id` was made: in that block what stands after the call.
abbrev pub after_call : BlockId → List SsaInstruction → BlockId → SsaBlock → List SsaInstruction
after_call id after b block = if b == id then after else block.instructions

-- On a graph whose edges are mirrored, of a function that is declared checked, where each callee is in the
-- table, and for a call that is external or of a function declared reentrant: the check rejects the
-- function, or it accepts it and then no store follows the call in its block, and none stands in any other
-- block that the edges lead to from there. The walk may be empty, as from a block without successors.
pub validate_cei_pattern-decides :
    (cfg : SsaCfg) (t : SymbolTable) (id : BlockId) (block : SsaBlock) (dest : Option Register)
    (target : CallTarget) (args : List SsaOperand) (sr : SourceRef)
    (before after : List SsaInstruction) (b : BlockId) (other : SsaBlock)
    → IsMirrored cfg
    → get_reentrancy_modifier cfg.function_id t ≡ some checked
    → HasKnownCallees t cfg.blocks
    → get id cfg.blocks ≡ some block
    → block.instructions ≡ before ++ call dest target args sr ∷ after
    → IsGuarded t target
    → Follows cfg id b
    → get b cfg.blocks ≡ some other
    → ((e : MerakError) × (validate_cei_pattern cfg t ≡ err e))
      ⊎ ((validate_cei_pattern cfg t ≡ ok tt)
          × (has_stores after ≡ false)
          × (has_stores (after_call id after b other) ≡ false))
validate_cei_pattern-decides cfg t id block dest target args sr before after b other mirrored
      is_checked known there split guarded walk found =
    elim (Outcome-cases (validate_cei_pattern cfg t)) [
      | inl (result, accepted) ↦
          let (here, elsewhere) =
            validate_cei_pattern-ok cfg t id block dest target args sr before after is_checked
              accepted there split guarded in
          inr (
            accepted,
            here,
            elim (Bool-cases (b == id)) [
              | inl same ↦ rw same here
              | inr differs ↦ rw differs (elsewhere b other walk (apart differs) found)
            ],
          )
      | inr (inl rejected) ↦ inl rejected
      | inr (inr panics) ↦ absurd (
          subst IsReturned panics
            (validate_cei_pattern-IsReturned cfg t checked mirrored is_checked known))
    ]
  where
    apart : (b == id) ≡ false → b ≢ id
    apart differs e = absurd (ground (arith, differs, (==_iff b id).1 e))
