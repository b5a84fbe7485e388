-- ===== src/Analyzer/Storage/Insertion/Discipline.antt =====
-- analyzer/src/storage.rs: a monitor of folds and unfolds, beside the instructions that are inserted.
use merak.Prelude.{
  Bool, true, false, ◌&&◌, Bool-cases, ◌≡◌, refl, sym, ap, ◌∙◌, inl, inr, arith, if◌then◌else◌,
  Option, some, List, [], ◌∷◌, ◌++◌,
}
use merak.Prelude.Map.{Map}
use merak.Ast.Node.{SourceRef}
use merak.Symbols.Id.{SymbolId, same_id, same_id_refl, same_id_sound}
use merak.Symbols.Table.{SymbolTable}
use merak.Ir.Operand.{CallTarget, Register}
use merak.Ir.Ssa.{
  SsaOperand, SsaInstruction, storage_load, storage_store, call, unfold_var, fold_var,
}
use merak.Analyzer.Storage.{
  StorageLocation, StorageLocationSet, is_mutable, StorageState, contains_id, remove_id,
  is_unfolded, is_folded, unfold_loc, fold_loc,
}
use merak.Analyzer.Storage.CallGraph.{CallGraphAnalysis}
use merak.Analyzer.Storage.Insertion.{
  Emitted, unfold_when, fold_when, unfold_mutable, fold_mutable, around_call, needs_fold_unfold,
}

-- What an instruction does to the state, and a list of them.
abbrev pub monitor_step : SsaInstruction → StorageState → StorageState
monitor_step (unfold_var var sr) s = unfold_loc var s
monitor_step (fold_var var sr) s = fold_loc var s
monitor_step inst s = s

abbrev pub monitor : List SsaInstruction → StorageState → StorageState
monitor [] s = s
monitor (inst ∷ insts) s = monitor insts (monitor_step inst s)

-- Every mutable location is unfolded.
abbrev pub MutableUnfolded : Map SymbolId StorageLocation → StorageState → Type 0
MutableUnfolded [] s = Unit
MutableUnfolded ((var, location) ∷ locations) s =
    ((if is_mutable location.mutability then is_unfolded var s else true) ≡ true)
    × MutableUnfolded locations s

abbrev pub CallReady : Map SymbolId StorageLocation → Option Bool → StorageState → Type 0
CallReady locations (some true) s = MutableUnfolded locations s
CallReady locations needed s = Unit

-- A variable is unfolded only where it is folded and the other way round, it is read and written only
-- where it is unfolded, and around a call that may come back every mutable one is.
abbrev pub Allowed :
    StorageLocationSet → SymbolTable → CallGraphAnalysis → SsaInstruction → StorageState → Type 0
Allowed set t graph (unfold_var var sr) s = is_folded var s ≡ true
Allowed set t graph (fold_var var sr) s = is_unfolded var s ≡ true
Allowed set t graph (storage_load dest var sr) s = is_unfolded var s ≡ true
Allowed set t graph (storage_store var value sr) s = is_unfolded var s ≡ true
Allowed set t graph (call dest target args sr) s =
    CallReady set.locations (needs_fold_unfold target t graph) s
Allowed set t graph inst s = Unit

abbrev pub is_fold_or_unfold : SsaInstruction → Bool
is_fold_or_unfold (unfold_var var sr) = true
is_fold_or_unfold (fold_var var sr) = true
is_fold_or_unfold inst = false

-- The instructions without folds and unfolds.
abbrev pub erase_folds : List SsaInstruction → List SsaInstruction
erase_folds [] = []
erase_folds (inst ∷ insts) =
    let rest = erase_folds insts in if is_fold_or_unfold inst then rest else inst ∷ rest

abbrev pub IsPlain : SsaInstruction → Type 0
IsPlain inst = is_fold_or_unfold inst ≡ false

pub contains_id-unfold_loc :
    (w v : SymbolId) (s : StorageState)
    → is_unfolded w (unfold_loc v s) ≡ (if same_id v w then true else is_unfolded w s)
contains_id-unfold_loc w v s = elim (Bool-cases (contains_id v s.unfolded)) [
  | inl there ↦ elim (Bool-cases (same_id v w)) [
    | inl same ↦
        rw (there, same) (ap (λ x. contains_id x s.unfolded) (sym (same_id_sound v w same)) ∙ there)
    | inr other ↦ rw (there, other) refl
  ]
  | inr gone ↦ rw gone refl
]

contains_id-remove_id :
    (w v : SymbolId) (ids : List SymbolId)
    → contains_id w (remove_id v ids) ≡ (if same_id v w then false else contains_id w ids)
contains_id-remove_id w v [] = both (same_id v w)
  where
    both : (b : Bool) → false ≡ (if b then false else false)
    both true = refl
    both false = refl
contains_id-remove_id w v (x ∷ ids) = elim (Bool-cases (same_id x v)) [
  | inl gone ↦ elim (Bool-cases (same_id v w)) [
    | inl same ↦ rw gone (contains_id-remove_id w v ids ∙ rw same refl)
    | inr other ↦
        let e : same_id x w ≡ false = ap (λ y. same_id y w) (same_id_sound x v gone) ∙ other in
        rw gone (contains_id-remove_id w v ids ∙ rw (other, e) refl)
  ]
  | inr kept ↦ elim (Bool-cases (same_id v w)) [
    | inl same ↦
        let e : same_id x w ≡ false = ap (same_id x) (sym (same_id_sound v w same)) ∙ kept in
        rw (kept, e) (contains_id-remove_id w v ids)
    | inr other ↦ elim (Bool-cases (same_id x w)) [
      | inl here ↦ rw (kept, here, other) refl
      | inr there ↦ rw (kept, there) (contains_id-remove_id w v ids)
    ]
  ]
]

pub contains_id-fold_loc :
    (w v : SymbolId) (s : StorageState)
    → is_unfolded w (fold_loc v s) ≡ (if same_id v w then false else is_unfolded w s)
contains_id-fold_loc w v s = contains_id-remove_id w v s.unfolded

abbrev pub Disciplined :
    StorageLocationSet
    → SymbolTable
    → CallGraphAnalysis
    → List SsaInstruction
    → StorageState
    → Type 0
Disciplined set t graph [] s = Unit
Disciplined set t graph (inst ∷ insts) s =
    Allowed set t graph inst s × Disciplined set t graph insts (monitor_step inst s)

left_and_right : (a b : Bool) → (a && b) ≡ true → (a ≡ true) × (b ≡ true)
left_and_right a b h = (ground arith, ground arith)

unfold_when-keeps :
    (b : Bool) (w v : SymbolId) (sr : SourceRef) (s : StorageState)
    → is_unfolded w s ≡ true
    → is_unfolded w (unfold_when b v sr s).1 ≡ true
unfold_when-keeps true w v sr s h = contains_id-unfold_loc w v s ∙ ground arith
unfold_when-keeps false w v sr s h = h

pub unfold_when_folded :
    (v : SymbolId) (sr : SourceRef) (s : StorageState)
    → is_unfolded v (unfold_when (is_folded v s) v sr s).1 ≡ true
unfold_when_folded v sr s = elim (Bool-cases (contains_id v s.unfolded)) [
  | inl there ↦ rw there there
  | inr gone ↦
      let folded : is_folded v s ≡ true = rw gone refl in
      ap (λ b. is_unfolded v (unfold_when b v sr s).1) folded
      ∙ contains_id-unfold_loc v v s
      ∙ ap (λ b. if b then true else is_unfolded v s) (same_id_refl v)
]

unfold_mutable-keeps :
    (locations : Map SymbolId StorageLocation) (w : SymbolId) (sr : SourceRef) (s : StorageState)
    → is_unfolded w s ≡ true
    → is_unfolded w (unfold_mutable locations sr s).1 ≡ true
unfolding unfold_mutable
unfold_mutable-keeps [] w sr s h = h
unfold_mutable-keeps ((v, location) ∷ locations) w sr s h =
    let b : Bool = is_mutable location.mutability && is_folded v s in
    unfold_mutable-keeps locations w sr (unfold_when b v sr s).1 (unfold_when-keeps b w v sr s h)

unfold_mutable-MutableUnfolded :
    (locations : Map SymbolId StorageLocation) (sr : SourceRef) (s : StorageState)
    → MutableUnfolded locations (unfold_mutable locations sr s).1
unfolding unfold_mutable
unfold_mutable-MutableUnfolded [] sr s = tt
unfold_mutable-MutableUnfolded ((v, location) ∷ locations) sr s =
    let mid : StorageState =
      (unfold_when (is_mutable location.mutability && is_folded v s) v sr s).1 in
    let here : is_mutable location.mutability ≡ true → is_unfolded v mid ≡ true =
      λ m. rw m (unfold_when_folded v sr s) in
    let after : StorageState = (unfold_mutable locations sr mid).1 in
    (
      elim (Bool-cases (is_mutable location.mutability)) [
        | inl m ↦
            ap (λ b. if b then is_unfolded v after else true) m
            ∙ unfold_mutable-keeps locations v sr mid (here m)
        | inr other ↦ ap (λ b. if b then is_unfolded v after else true) other
      ],
      unfold_mutable-MutableUnfolded locations sr mid,
    )

module _ (set : StorageLocationSet) (t : SymbolTable) (graph : CallGraphAnalysis) where
  -- The instructions are disciplined and lead to the state beside them.
  abbrev pub IsRun : StorageState → Emitted → Type 0
  IsRun s e = Disciplined set t graph e.0 s × (monitor e.0 s ≡ e.1)

  pub IsRun-join :
      (s mid out : StorageState) (xs ys : List SsaInstruction)
      → IsRun s (xs, mid)
      → IsRun mid (ys, out)
      → IsRun s (xs ++ ys, out)
  IsRun-join s mid out [] ys (d, e) h = rw e h
  IsRun-join s mid out (x ∷ xs) ys ((a, d), e) h =
      let (rest, last) = IsRun-join (monitor_step x s) mid out xs ys (d, e) h in ((a, rest), last)

  pub unfold_when-IsRun :
      (b : Bool) (v : SymbolId) (sr : SourceRef) (s : StorageState)
      → (b ≡ true → is_folded v s ≡ true)
      → IsRun s (unfold_when b v sr s)
  unfold_when-IsRun true v sr s h = ((h refl, tt), refl)
  unfold_when-IsRun false v sr s h = (tt, refl)

  fold_when-IsRun :
      (b : Bool) (v : SymbolId) (sr : SourceRef) (s : StorageState)
      → (b ≡ true → is_unfolded v s ≡ true)
      → IsRun s (fold_when b v sr s)
  fold_when-IsRun true v sr s h = ((h refl, tt), refl)
  fold_when-IsRun false v sr s h = (tt, refl)

  unfold_mutable-IsRun :
      (locations : Map SymbolId StorageLocation) (sr : SourceRef) (s : StorageState)
      → IsRun s (unfold_mutable locations sr s)
  unfolding unfold_mutable
  unfold_mutable-IsRun [] sr s = (tt, refl)
  unfold_mutable-IsRun ((v, location) ∷ locations) sr s =
      let b : Bool = is_mutable location.mutability && is_folded v s in
      let (first, mid) = unfold_when b v sr s in
      let (rest, out) = unfold_mutable locations sr mid in
      IsRun-join s mid out first rest
        (unfold_when-IsRun b v sr s
          (λ h. (left_and_right (is_mutable location.mutability) (is_folded v s) h).1))
        (unfold_mutable-IsRun locations sr mid)

  fold_mutable-IsRun :
      (locations : Map SymbolId StorageLocation) (sr : SourceRef) (s : StorageState)
      → IsRun s (fold_mutable locations sr s)
  unfolding fold_mutable
  fold_mutable-IsRun [] sr s = (tt, refl)
  fold_mutable-IsRun ((v, location) ∷ locations) sr s =
      let b : Bool = is_mutable location.mutability && is_unfolded v s in
      let (first, mid) = fold_when b v sr s in
      let (rest, out) = fold_mutable locations sr mid in
      IsRun-join s mid out first rest
        (fold_when-IsRun b v sr s
          (λ h. (left_and_right (is_mutable location.mutability) (is_unfolded v s) h).1))
        (fold_mutable-IsRun locations sr mid)

  pub around_call-IsRun :
      (dest : Option Register) (target : CallTarget) (args : List SsaOperand) (sr : SourceRef)
      (s : StorageState)
      → needs_fold_unfold target t graph ≡ some true
      → IsRun s (around_call set.locations (call dest target args sr) sr s)
  unfolding around_call
  around_call-IsRun dest target args sr s needed =
      let (before, mid) = unfold_mutable set.locations sr s in
      let (after, out) = fold_mutable set.locations sr mid in
      let ready : CallReady set.locations (needs_fold_unfold target t graph) mid =
        rw needed (unfold_mutable-MutableUnfolded set.locations sr s) in
      let (rest, last) = fold_mutable-IsRun set.locations sr mid in
      IsRun-join s mid out before (call dest target args sr ∷ after)
        (unfold_mutable-IsRun set.locations sr s) ((ready, rest), last)
