-- ===== src/Analyzer/Storage/Insertion/Blocks.antt =====
-- analyzer/src/storage.rs: what `insert_fold_unfold_instructions` makes of the instructions of a block.
use merak.Prelude.{
  Bool, true, false, ◌&&◌, Bool-cases, ◌≡◌, refl, ap, ◌∙◌, inl, inr, if◌then◌else◌, Option, some,
  List, [], ◌∷◌, ◌++◌, All,
}
use mathlib.Core.Path.{subst}
use mathlib.Core.Option.{some-injective}
use merak.Prelude.Map.{Map}
use merak.Prelude.Partial.{◌>>=◌, >>=-eq-some}
use merak.Ast.Node.{SourceRef}
use merak.Symbols.Id.{SymbolId, symbol_eq}
use merak.Symbols.Table.{SymbolTable}
use merak.Ir.Operand.{CallTarget, Register}
use merak.Ir.Ssa.{
  SsaOperand, SsaInstruction, copy, phi, binary_op, unary_op, storage_load, storage_store, call,
  unfold_var, fold_var, assert,
}
use merak.Analyzer.Storage.{
  StorageLocation, StorageLocationSet, is_mutable, StorageState, is_unfolded, is_folded, fold_loc,
}
use merak.Analyzer.Storage.CallGraph.{CallGraphAnalysis}
use merak.Analyzer.Storage.Insertion.{
  Emitted, unfold_when, fold_when, unfold_mutable, fold_mutable, around_call, needs_fold_unfold,
  insert_at, insert_all,
}
use merak.Analyzer.Storage.Insertion.Discipline.{
  erase_folds, is_fold_or_unfold, IsPlain, IsRun, IsRun-join, unfold_when-IsRun, unfold_when_folded,
  around_call-IsRun,
}

pub erase_folds-append :
    (xs ys : List SsaInstruction) → erase_folds (xs ++ ys) ≡ erase_folds xs ++ erase_folds ys
erase_folds-append [] ys = refl
erase_folds-append (x ∷ xs) ys = elim (Bool-cases (is_fold_or_unfold x)) [
  | inl fold ↦ rw fold (erase_folds-append xs ys)
  | inr plain ↦ rw plain (ap (λ zs. x ∷ zs) (erase_folds-append xs ys))
]

pub erase_folds-join :
    (xs ys zs ws : List SsaInstruction)
    → erase_folds xs ≡ zs
    → erase_folds ys ≡ ws
    → erase_folds (xs ++ ys) ≡ zs ++ ws
erase_folds-join xs ys zs ws h k =
    erase_folds-append xs ys ∙ ap (λ vs. vs ++ erase_folds ys) h ∙ ap (λ vs. zs ++ vs) k

erase_folds-unfold_when :
    (b : Bool) (v : SymbolId) (sr : SourceRef) (s : StorageState)
    → erase_folds (unfold_when b v sr s).0 ≡ []
erase_folds-unfold_when true v sr s = refl
erase_folds-unfold_when false v sr s = refl

erase_folds-fold_when :
    (b : Bool) (v : SymbolId) (sr : SourceRef) (s : StorageState)
    → erase_folds (fold_when b v sr s).0 ≡ []
erase_folds-fold_when true v sr s = refl
erase_folds-fold_when false v sr s = refl

erase_folds-unfold_mutable :
    (locations : Map SymbolId StorageLocation) (sr : SourceRef) (s : StorageState)
    → erase_folds (unfold_mutable locations sr s).0 ≡ []
unfolding unfold_mutable
erase_folds-unfold_mutable [] sr s = refl
erase_folds-unfold_mutable ((v, location) ∷ locations) sr s =
    let b : Bool = is_mutable location.mutability && is_folded v s in
    let (first, mid) = unfold_when b v sr s in
    erase_folds-join first (unfold_mutable locations sr mid).0 [] []
      (erase_folds-unfold_when b v sr s) (erase_folds-unfold_mutable locations sr mid)

erase_folds-fold_mutable :
    (locations : Map SymbolId StorageLocation) (sr : SourceRef) (s : StorageState)
    → erase_folds (fold_mutable locations sr s).0 ≡ []
unfolding fold_mutable
erase_folds-fold_mutable [] sr s = refl
erase_folds-fold_mutable ((v, location) ∷ locations) sr s =
    let b : Bool = is_mutable location.mutability && is_unfolded v s in
    let (first, mid) = fold_when b v sr s in
    erase_folds-join first (fold_mutable locations sr mid).0 [] [] (erase_folds-fold_when b v sr s)
      (erase_folds-fold_mutable locations sr mid)

module _ (set : StorageLocationSet) (t : SymbolTable) (graph : CallGraphAnalysis) where
  -- What is emitted for the instructions is disciplined, and has them in their order.
  abbrev pub Emits : StorageState → List SsaInstruction → Emitted → Type 0
  Emits s insts e = IsRun set t graph s e × (erase_folds e.0 ≡ insts)

  Emits-some :
      (s : StorageState) (insts : List SsaInstruction) (e f : Emitted)
      → Emits s insts e
      → some e ≡ some f
      → Emits s insts f
  Emits-some s insts e f h same = subst (Emits s insts) (some-injective e f same) h

  Emits-join :
      (s mid out : StorageState) (xs ys zs ws : List SsaInstruction)
      → Emits s zs (xs, mid)
      → Emits mid ws (ys, out)
      → Emits s (zs ++ ws) (xs ++ ys, out)
  Emits-join s mid out xs ys zs ws (h, e) (k, f) =
      (IsRun-join set t graph s mid out xs ys h k, erase_folds-join xs ys zs ws e f)

  Emits-unfold_when :
      (v : SymbolId) (sr : SourceRef) (s : StorageState)
      → Emits s [] (unfold_when (is_folded v s) v sr s)
  Emits-unfold_when v sr s = (
    unfold_when-IsRun set t graph (is_folded v s) v sr s (λ h. h),
    erase_folds-unfold_when (is_folded v s) v sr s,
  )

  insert_at-call :
      (dest : Option Register) (target : CallTarget) (args : List SsaOperand) (sr : SourceRef)
      (s : StorageState) (e : Emitted)
      → insert_at set t graph (call dest target args sr) s ≡ some e
      → Emits s (call dest target args sr ∷ []) e
  unfolding insert_at around_call
  insert_at-call dest target args sr s e done =
      let inst : SsaInstruction = call dest target args sr in
      let (b, at, found) =
        >>=-eq-some (needs_fold_unfold target t graph)
          (λ b. some (if b then around_call set.locations inst sr s else (inst ∷ [], s))) done in
      by_need b at found
    where
      by_need :
          (b : Bool)
          → needs_fold_unfold target t graph ≡ some b
          → some (
              if b
              then around_call set.locations (call dest target args sr) sr s
              else (call dest target args sr ∷ [], s))
            ≡ some e
          → Emits s (call dest target args sr ∷ []) e
      by_need true at found =
          let inst : SsaInstruction = call dest target args sr in
          let (before, mid) = unfold_mutable set.locations sr s in
          let (after, out) = fold_mutable set.locations sr mid in
          Emits-some s (inst ∷ []) (around_call set.locations inst sr s) e
            (
              around_call-IsRun set t graph dest target args sr s at,
              erase_folds-join before (inst ∷ after) [] (inst ∷ [])
                  (erase_folds-unfold_mutable set.locations sr s)
                  (ap (λ zs. inst ∷ zs) (erase_folds-fold_mutable set.locations sr mid)),
            )
            found
      by_need false at found =
          Emits-some s (call dest target args sr ∷ []) (call dest target args sr ∷ [], s) e
            (((rw at tt, tt), refl), refl) found

  insert_at-Emits :
      (inst : SsaInstruction) (s : StorageState) (e : Emitted)
      → IsPlain inst
      → insert_at set t graph inst s ≡ some e
      → Emits s (inst ∷ []) e
  unfolding insert_at
  insert_at-Emits (copy d v r) s e plain done =
      Emits-some s (copy d v r ∷ []) (copy d v r ∷ [], s) e (((tt, tt), refl), refl) done
  insert_at-Emits (phi d vs) s e plain done =
      Emits-some s (phi d vs ∷ []) (phi d vs ∷ [], s) e (((tt, tt), refl), refl) done
  insert_at-Emits (binary_op d o a b r) s e plain done =
      Emits-some s (binary_op d o a b r ∷ []) (binary_op d o a b r ∷ [], s) e
        (((tt, tt), refl), refl) done
  insert_at-Emits (unary_op d o a r) s e plain done =
      Emits-some s (unary_op d o a r ∷ []) (unary_op d o a r ∷ [], s) e (((tt, tt), refl), refl)
        done
  insert_at-Emits (storage_load d v r) s e plain done =
      let inst : SsaInstruction = storage_load d v r in
      let (before, out) = unfold_when (is_folded v s) v r s in
      Emits-some s (inst ∷ []) (before ++ inst ∷ [], out) e
        (Emits-join s out out before (inst ∷ []) [] (inst ∷ []) (Emits-unfold_when v r s)
          (((unfold_when_folded v r s, tt), refl), refl))
        done
  insert_at-Emits (storage_store v value r) s e plain done =
      let inst : SsaInstruction = storage_store v value r in
      let (before, mid) = unfold_when (is_folded v s) v r s in
      let there : is_unfolded v mid ≡ true = unfold_when_folded v r s in
      Emits-some s (inst ∷ []) (before ++ inst ∷ fold_var v r ∷ [], fold_loc v mid) e
        (Emits-join s mid (fold_loc v mid) before (inst ∷ fold_var v r ∷ []) [] (inst ∷ [])
          (Emits-unfold_when v r s) (((there, (there, tt)), refl), refl))
        done
  insert_at-Emits (call dest target args r) s e plain done =
      insert_at-call dest target args r s e done
  insert_at-Emits (unfold_var v r) s e plain done = absurd (cc)
  insert_at-Emits (fold_var v r) s e plain done = absurd (cc)
  insert_at-Emits (assert c k r) s e plain done =
      Emits-some s (assert c k r ∷ []) (assert c k r ∷ [], s) e (((tt, tt), refl), refl) done

  pub insert_all-Emits :
      (insts : List SsaInstruction) (s : StorageState) (e : Emitted)
      → All IsPlain insts
      → insert_all set t graph insts s ≡ some e
      → Emits s insts e
  unfolding insert_all
  insert_all-Emits [] s e plain done = Emits-some s [] ([], s) e ((tt, refl), refl) done
  insert_all-Emits (inst ∷ insts) s e (p, plain) done =
      let ((first, mid), at, more) =
        >>=-eq-some (insert_at set t graph inst s)
          (λ (first, mid).
            insert_all set t graph insts mid >>= λ (rest, out). some (first ++ rest, out))
          done in
      let ((rest, out), all, last) =
        >>=-eq-some (insert_all set t graph insts mid) (λ (rest, out). some (first ++ rest, out))
          more in
      Emits-some s (inst ∷ insts) (first ++ rest, out) e
        (Emits-join s mid out first rest (inst ∷ []) insts
          (insert_at-Emits inst s (first, mid) p at)
          (insert_all-Emits insts mid (rest, out) plain all))
        last
