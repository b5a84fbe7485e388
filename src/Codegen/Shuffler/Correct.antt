-- ===== src/Codegen/Shuffler/Correct.antt =====
-- codegen/src/codegen/stack_shuffler.rs: whole plans, run on the machine.
use native.Mathlib.Nat.{mod-lt, mod-eq_of_lt, mod-add-mod, mul-add-mod_self_left, mod-add-div}
use mathlib.Core.List.{map-append}
use mathlib.Core.Bool.{and-eq-true_iff}
use mathlib.Core.Path.{subst}
use merak.Prelude.{
  ℕ, zero, suc, ◌+◌, ◌-◌, ◌*◌, ◌%◌, ◌/◌, ◌<◌, ◌≡◌, ◌∙◌, refl, sym, ap, true, false, List, [], ◌∷◌,
  ◌++◌, map, Option, none, some, arith, length, get_elem?, get_or, set, All, append_assoc,
  Bool-cases, inl, inr, ◌==◌, ==_iff, if◌then◌else◌, length-append,
}
use merak.Lowering.Slot.{StackSlot}
use merak.Codegen.Shuffler.{
  ShuffleOp, swap, pop, already_correct, rotated_target, fetch_all, swap_pops, pops, plan_shuffle,
}
use merak.Codegen.Shuffler.Machine.{step, run}
use merak.Codegen.Shuffler.Fetch.{Holds, IsReloadable, run-append, fetched, fetch_all_correct}
use merak.Codegen.Shuffler.Rotation.{
  rotate, rotate_by, length-rotate_by, get_elem?-rotate_by, get_elem?-snoc, eq_of_get_elem?,
}

module _ {V : Type 0} where
  get_elem?-middle : (xs zs : List V) (y : V) → get_elem? (xs ++ y ∷ zs) (length xs) ≡ some y
  get_elem?-middle [] zs y = refl
  get_elem?-middle (x ∷ xs) zs y = get_elem?-middle xs zs y

  set-middle : (xs zs : List V) (y v : V) → set (xs ++ y ∷ zs) (length xs) v ≡ xs ++ v ∷ zs
  set-middle [] zs y v = refl
  set-middle (x ∷ xs) zs y v = ap (λ l. x ∷ l) (set-middle xs zs y v)

  run-swap_pop :
      (mem : StackSlot → V) (ops : List ShuffleOp) (x y : V) (xs zs : List V)
      → run (swap (suc (length xs)) ∷ pop ∷ ops) (x ∷ (xs ++ y ∷ zs), mem)
        ≡ run ops (xs ++ x ∷ zs, mem)
  unfolding run step
  run-swap_pop mem ops x y xs zs = rw (run, get_elem?-middle, set-middle)

  -- Each round of SWAP and POP drops the item below the first `n` and turns these round.
  swap_pops_correct :
      (mem : StackSlot → V) (n : ℕ) (xs ys rest : List V)
      → length xs ≡ suc n
      → run (swap_pops (suc n) (length ys)) (xs ++ (ys ++ rest), mem)
        ≡ some (rotate_by (length ys) xs ++ rest, mem)
  unfolding swap_pops run step rotate rotate_by
  swap_pops_correct mem n [] ys rest e = absurd (omega arith)
  swap_pops_correct mem n (x ∷ xs) [] rest e = refl
  swap_pops_correct mem n (x ∷ xs) (y ∷ ys) rest e =
      let size : n ≡ length xs = omega arith in
      let later =
        swap_pops_correct mem (length xs) (xs ++ x ∷ []) ys rest
          (omega (arith, length-append xs (x ∷ []))) in
      let once =
        run-swap_pop mem (swap_pops (suc (length xs)) (length ys)) x y xs (ys ++ rest)
        ∙ ap (λ s. run (swap_pops (suc (length xs)) (length ys)) (s, mem))
            (sym (append_assoc xs (x ∷ []) (ys ++ rest)))
        ∙ later in
      subst
        (λ k.
          run (swap_pops (suc k) (suc (length ys))) (x ∷ (xs ++ y ∷ (ys ++ rest)), mem)
          ≡ some (rotate_by (length ys) (xs ++ x ∷ []) ++ rest, mem))
        (sym size) once

  pops_correct :
      (mem : StackSlot → V) (stack rest : List V)
      → run (pops (length stack)) (stack ++ rest, mem) ≡ some (rest, mem)
  unfolding pops run step
  pops_correct mem [] rest = refl
  pops_correct mem (v ∷ stack) rest = pops_correct mem stack rest

  length-Holds :
      (val : StackSlot → V) (layout : List (Option StackSlot)) (stack : List V)
      → Holds val layout stack
      → length layout ≡ length stack
  length-Holds val [] [] h = refl
  length-Holds val [] (v ∷ stack) h = absurd h
  length-Holds val (c ∷ layout) [] h = absurd h
  length-Holds val (none ∷ layout) (v ∷ stack) h = ap suc (length-Holds val layout stack h)
  length-Holds val (some s ∷ layout) (v ∷ stack) (w, h) = ap suc (length-Holds val layout stack h)

  -- The fast path is taken where the stack already holds the target's values.
  already_correct_sound :
      (val : StackSlot → V) (layout : List (Option StackSlot)) (target : List StackSlot)
      (stack : List V)
      → Holds val layout stack
      → already_correct layout target ≡ true
      → stack ≡ map val target
  unfolding already_correct
  already_correct_sound val [] [] [] h e = refl
  already_correct_sound val [] [] (v ∷ stack) h e = absurd h
  already_correct_sound val [] (t ∷ target) stack h e = absurd (cc)
  already_correct_sound val (c ∷ layout) [] stack h e = absurd (cc)
  already_correct_sound val (c ∷ layout) (t ∷ target) [] h e = absurd h
  already_correct_sound val (none ∷ layout) (t ∷ target) (v ∷ stack) h e = absurd (cc)
  already_correct_sound val (some s ∷ layout) (t ∷ target) (v ∷ stack) (w, h) e =
      let (same, more) = (and-eq-true_iff (s == t) _).0 e in
      cc (w, ap val ((==_iff s t).0 same), already_correct_sound val layout target stack h more)

-- Turning the fetched slots `m` times puts the target in order.
length-fetched : (target : List StackSlot) (rotation k : ℕ) → length (fetched target rotation k) ≡ k
length-fetched target rotation zero = refl
length-fetched target rotation (suc k) = omega (
  arith,
  length-append (fetched target rotation k) (rotated_target target rotation k ∷ []),
  length-fetched target rotation k,
)

get_elem?-fetched :
    (target : List StackSlot) (rotation k i : ℕ)
    → i < k
    → get_elem? (fetched target rotation k) i ≡ some (rotated_target target rotation i)
get_elem?-fetched target rotation zero i h = absurd (omega arith)
get_elem?-fetched target rotation (suc k) i h =
    get_elem?-snoc (fetched target rotation k) (rotated_target target rotation k) i
    ∙ ground (arith, length-fetched target rotation k, get_elem?-fetched target rotation k i)

-- The index arithmetic of `rotated_target`, undone by the rotation.
index_back : (i m n : ℕ) → i < n → ((i + m) % n + n - m % n) % n ≡ i
index_back i m n h =
    let r = m % n in
    let below : r < n = mod-lt m (omega arith) in
    let a = (i + m) % n in
    let out : a + n - r ≡ a + (n - r) = omega arith in
    let whole : i + m + (n - r) ≡ n * (m / n + 1) + i = omega (arith, mod-add-div m n) in
    ap (λ k. k % n) out
    ∙ mod-add-mod (i + m) n (n - r)
    ∙ ap (λ k. k % n) whole
    ∙ mul-add-mod_self_left n (m / n + 1) i
    ∙ mod-eq_of_lt h

get_elem?-get_or :
    (xs : List StackSlot) (i d : ℕ) → i < length xs → get_elem? xs i ≡ some (get_or xs i d)
get_elem?-get_or [] i d h = elim h [ ]
get_elem?-get_or (x ∷ xs) zero d h = refl
get_elem?-get_or (x ∷ xs) (suc i) d h = get_elem?-get_or xs i d (omega arith)

All-get_or :
    (P : StackSlot → Type 0) (xs : List StackSlot) (i d : ℕ)
    → All P xs
    → i < length xs
    → P (get_or xs i d)
All-get_or P [] i d h p = elim p [ ]
All-get_or P (x ∷ xs) zero d (q, h) p = q
All-get_or P (x ∷ xs) (suc i) d (q, h) p = All-get_or P xs i d h (omega arith)

rotate_by-fetched :
    (target : List StackSlot) (m : ℕ)
    → rotate_by m (fetched target (m % length target) (length target)) ≡ target
unfolding rotated_target
rotate_by-fetched target m =
    let n = length target in
    let f = fetched target (m % n) n in
    let size : length f ≡ n = length-fetched target (m % n) n in
    eq_of_get_elem? (rotate_by m f) target (length-rotate_by m f ∙ size) λ i h.
      let here : i < length f = omega (arith, length-rotate_by m f) in
      let at : i < n = omega arith in
      let inside : (i + m) % n < n = mod-lt (i + m) (omega arith) in
      get_elem?-rotate_by m f i here
      ∙ ap (λ k. get_elem? f ((i + m) % k)) size
      ∙ get_elem?-fetched target (m % n) n ((i + m) % n) inside
      ∙ ap (λ k. some (get_or target k 0)) (index_back i m n at)
      ∙ sym (get_elem?-get_or target i 0 at)

module _ {V : Type 0} (val : StackSlot → V) where
  rotate_by-map :
      (m : ℕ) (xs : List StackSlot) → rotate_by m (map val xs) ≡ map val (rotate_by m xs)
  unfolding rotate_by rotate
  rotate_by-map zero xs = refl
  rotate_by-map (suc m) [] = rotate_by-map m []
  rotate_by-map (suc m) (x ∷ xs) =
      ap (rotate_by m) (sym (map-append val xs (x ∷ []))) ∙ rotate_by-map m (xs ++ x ∷ [])

  length-map : (xs : List StackSlot) → length (map val xs) ≡ length xs
  length-map [] = refl
  length-map (x ∷ xs) = ap suc (length-map xs)

  -- The path of a plan that fetches every slot of the target and then drops the current ones.
  rebuild_correct :
      (mem : StackSlot → V) (current : List (Option StackSlot)) (t : StackSlot)
      (ts : List StackSlot) (stack rest : List V)
      → Holds val current stack
      → All (IsReloadable val mem current) (t ∷ ts)
      → run
          (fetch_all (t ∷ ts) (length current % suc (length ts)) (suc (length ts)) current
            ++ swap_pops (suc (length ts)) (length current))
          (stack ++ rest, mem)
        ≡ some (map val (t ∷ ts) ++ rest, mem)
  unfolding rotated_target
  rebuild_correct mem current t ts stack rest h r =
      let target = t ∷ ts in
      let n = suc (length ts) in
      let m = length current in
      let f = fetched target (m % n) n in
      let size : m ≡ length stack = length-Holds val current stack h in
      let full : length (map val f) ≡ n = length-map f ∙ length-fetched target (m % n) n in
      run-append (fetch_all target (m % n) n current) (swap_pops n m) (stack ++ rest, mem) _
        (fetch_all_correct val mem target (m % n) n current stack rest h
          (λ j p. All-get_or (IsReloadable val mem current) target _ 0 r (mod-lt _ (omega arith))))
      ∙ ap (λ k. run (swap_pops n k) (map val f ++ (stack ++ rest), mem)) size
      ∙ swap_pops_correct mem (length ts) (map val f) stack rest full
      ∙ ap (λ xs. some (xs ++ rest, mem))
          (rotate_by-map (length stack) f
            ∙ ap (map val) (ap (λ k. rotate_by k f) (sym size) ∙ rotate_by-fetched target m))

-- Run on a stack that holds a current layout's values above `rest`, the plan puts the values of the
-- target's slots above `rest`, in the target's order and nothing else, and leaves memory alone. A
-- slot of the target that the current layout lacks must have its value in memory.
pub plan_shuffle_correct :
    {V : Type 0} (val mem : StackSlot → V) (current : List (Option StackSlot))
    (target warm : List StackSlot) (stack rest : List V)
    → Holds val current stack
    → All (IsReloadable val mem current) target
    → run (plan_shuffle current target warm) (stack ++ rest, mem)
      ≡ some (map val target ++ rest, mem)
unfolding plan_shuffle run
plan_shuffle_correct val mem current target warm stack rest h r =
    elim (Bool-cases (already_correct current target)) [
      | inl e ↦
          rw e
            (ap (λ s. some (s ++ rest, mem)) (already_correct_sound val current target stack h e))
      | inr e ↦ rw e (planned target r)
    ]
  where
    planned :
        (target : List StackSlot)
        → All (IsReloadable val mem current) target
        → run
            (if length target == 0
              then pops (length current)
              else fetch_all target (length current % length target) (length target) current
                ++ swap_pops (length target) (length current))
            (stack ++ rest, mem)
          ≡ some (map val target ++ rest, mem)
    planned [] r =
        ap (λ k. run (pops k) (stack ++ rest, mem)) (length-Holds val current stack h)
        ∙ pops_correct mem stack rest
    planned (t ∷ ts) r =
        let nonempty : (suc (length ts) == 0) ≡ false = ground arith in
        rw nonempty (rebuild_correct val mem current t ts stack rest h r)
