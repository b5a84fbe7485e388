-- ===== src/Evm/Builder/WellFormed.antt =====
-- codegen/src/evm/bytecode.rs: the invariant of a builder, method by method.
use mathlib.Core.Path.{subst}
use merak.Prelude.{
  ℕ, ◌+◌, ◌≤◌, ◌<◌, ◌≡◌, refl, List, [], ◌∷◌, ◌++◌, arith, Option, none, some, length, All, All-map,
  length-append, nat_eq, ◌==◌, Bool-cases, inl, inr,
}
use merak.Prelude.Map.{Map, insert}
use merak.Prelude.Outcome.{ok}
use merak.Evm.Opcode.{Opcode, encode}
use merak.Evm.Builder.{
  Label, PendingJump, BytecodeBuilder, mark_runtime_start, new_label, mark_label, emit, emit_bytes,
  push, push_label, empty, jump_to, jumpi_to,
}
use merak.Evm.Builder.Push.{appended, push-appended}

-- The pending jumps hold two bytes each, lie between `lo` and `hi`, in order and apart, and their
-- targets are labels below `next`.
abbrev pub Placed : ℕ → ℕ → ℕ → List PendingJump → Type 0
Placed next lo hi [] = lo ≤ hi
Placed next lo hi (j ∷ js) =
    (lo ≤ j.position) × (j.size ≡ 2) × (j.target < next) × Placed next (j.position + 2) hi js

-- A marked label was handed out, at a position in the code or at its end.
abbrev pub IsMarkedIn : ℕ → ℕ → Label × ℕ → Type 0
IsMarkedIn next size (label, at) = (label < next) × (at ≤ size)

abbrev pub RuntimeFits : ℕ → Option ℕ → Type 0
RuntimeFits size none = Unit
RuntimeFits size (some rs) = rs ≤ size

pub record WellFormed (b : BytecodeBuilder) : Type 0 where
  pub placed : Placed b.next_label_id 0 (length b.code) b.pending_jumps
  pub marked : All (IsMarkedIn b.next_label_id (length b.code)) b.labels
  pub runtime : RuntimeFits (length b.code) b.runtime_start

Placed-grow :
    (next next' lo hi hi' : ℕ) (js : List PendingJump)
    → next ≤ next'
    → hi ≤ hi'
    → Placed next lo hi js
    → Placed next' lo hi' js
Placed-grow next next' lo hi hi' [] p q h = omega arith
Placed-grow next next' lo hi hi' (j ∷ js) p q (a, b, c, h) =
    (a, b, omega arith, Placed-grow next next' (j.position + 2) hi hi' js p q h)

Placed-snoc :
    (next lo hi hi' : ℕ) (js : List PendingJump) (j : PendingJump)
    → Placed next lo hi js
    → hi ≤ j.position
    → j.size ≡ 2
    → j.target < next
    → j.position + 2 ≤ hi'
    → Placed next lo hi' (js ++ j ∷ [])
Placed-snoc next lo hi hi' [] j h p q r s = (omega arith, q, r, s)
Placed-snoc next lo hi hi' (i ∷ js) j (a, b, c, h) p q r s =
    (a, b, c, Placed-snoc next (i.position + 2) hi hi' js j h p q r s)

All-insert :
    (P : Label × ℕ → Type 0) (k v : ℕ) (m : Map Label ℕ) → P (k, v) → All P m → All P (insert k v m)
unfolding insert
All-insert P k v [] p h = (p, tt)
All-insert P k v ((j, w) ∷ m) p (q, h) = elim (Bool-cases (j == k)) [
  | inl e ↦ rw e (p, h)
  | inr e ↦ rw e (q, All-insert P k v m p h)
]

RuntimeFits-grow : (n m : ℕ) (rs : Option ℕ) → n ≤ m → RuntimeFits n rs → RuntimeFits m rs
RuntimeFits-grow n m none p h = tt
RuntimeFits-grow n m (some rs) p h = omega arith

-- Appended code keeps the invariant, whatever it is.
pub emit_bytes-WellFormed :
    {b : BytecodeBuilder} (bytes : List ℕ) → WellFormed b → WellFormed (emit_bytes bytes b)
unfolding emit_bytes
emit_bytes-WellFormed {b} bytes w =
    let n = b.next_label_id in
    let grows : length b.code ≤ length (b.code ++ bytes) =
      omega (arith, length-append b.code bytes) in
    record {
      placed = Placed-grow n n 0 _ _ _ (omega arith) grows w.placed;
      marked = All-map _ _ (λ m h. (h.0, omega arith)) b.labels w.marked;
      runtime = RuntimeFits-grow _ _ b.runtime_start grows w.runtime;
    }

pub emit-WellFormed : {b : BytecodeBuilder} (op : Opcode) → WellFormed b → WellFormed (emit op b)
unfolding emit
emit-WellFormed op w = emit_bytes-WellFormed (encode op ∷ []) w

pub mark_runtime_start-WellFormed :
    {b : BytecodeBuilder} → WellFormed b → WellFormed (mark_runtime_start b)
unfolding mark_runtime_start
mark_runtime_start-WellFormed w = record {
  placed = w.placed;
  marked = w.marked;
  runtime = omega arith;
}

pub new_label-WellFormed : {b : BytecodeBuilder} → WellFormed b → WellFormed (new_label b).1
unfolding new_label
new_label-WellFormed {b} w = record {
  placed = Placed-grow _ _ 0 _ _ b.pending_jumps (omega arith) (omega arith) w.placed;
  marked = All-map _ _ (λ m h. (omega arith, h.1)) b.labels w.marked;
  runtime = w.runtime;
}

pub mark_label-WellFormed :
    {b : BytecodeBuilder} (label : Label)
    → label < b.next_label_id
    → WellFormed b
    → WellFormed (mark_label label b)
unfolding mark_label
mark_label-WellFormed {b} label h w = record {
  placed = w.placed;
  marked = All-insert _ label _ b.labels (h, omega arith) w.marked;
  runtime = w.runtime;
}

pub push_label-WellFormed :
    {b : BytecodeBuilder} (label : Label)
    → label < b.next_label_id
    → WellFormed b
    → WellFormed (push_label label b)
unfolding push_label
push_label-WellFormed {b} label h w =
    let w' =
      emit_bytes-WellFormed (0xff ∷ [])
        (emit_bytes-WellFormed (0xff ∷ []) (emit-WellFormed Opcode.push2 w)) in
    let c = b.code in
    let e = encode Opcode.push2 ∷ [] in
    record {
      placed =
          Placed-snoc b.next_label_id 0 (length c) _ b.pending_jumps _ w.placed (omega arith) refl h
            (omega (
              arith,
              length-append ((c ++ e) ++ 0xff ∷ []) (0xff ∷ []),
              length-append (c ++ e) (0xff ∷ []),
              length-append c e,
            ));
      marked = w'.marked;
      runtime = w'.runtime;
    }

pub jump_to-WellFormed :
    {b : BytecodeBuilder} (label : Label)
    → label < b.next_label_id
    → WellFormed b
    → WellFormed (jump_to label b)
unfolding jump_to
jump_to-WellFormed label h w = emit-WellFormed Opcode.jump (push_label-WellFormed label h w)

pub jumpi_to-WellFormed :
    {b : BytecodeBuilder} (label : Label)
    → label < b.next_label_id
    → WellFormed b
    → WellFormed (jumpi_to label b)
unfolding jumpi_to
jumpi_to-WellFormed label h w = emit-WellFormed Opcode.jumpi (push_label-WellFormed label h w)

pub push-WellFormed :
    {b b' : BytecodeBuilder} (value : List ℕ)
    → length value ≤ 32
    → WellFormed b
    → push value b ≡ ok b'
    → WellFormed b'
unfolding emit_bytes
push-WellFormed {b} {b'} value h w runs =
    let (operand, r, _) = push-appended value b h in
    let same : appended b (0x5f + length operand) operand ≡ b' = cc in
    subst WellFormed same (emit_bytes-WellFormed ((0x5f + length operand) ∷ operand) w)

-- A builder as the code generator makes it: from `new`, by its methods, over labels that
-- `new_label` handed out.
pub data Built : BytecodeBuilder → Type 0 where
  new : Built empty
  emitted : {b : BytecodeBuilder} (op : Opcode) → Built b → Built (emit op b)
  bytes_emitted : {b : BytecodeBuilder} (bytes : List ℕ) → Built b → Built (emit_bytes bytes b)
  pushed :
      {b b' : BytecodeBuilder} (value : List ℕ)
      → length value ≤ 32
      → push value b ≡ ok b'
      → Built b
      → Built b'
  runtime_marked : {b : BytecodeBuilder} → Built b → Built (mark_runtime_start b)
  label_made : {b : BytecodeBuilder} → Built b → Built (new_label b).1
  label_marked :
      {b : BytecodeBuilder} (label : Label)
      → label < b.next_label_id
      → Built b
      → Built (mark_label label b)
  label_pushed :
      {b : BytecodeBuilder} (label : Label)
      → label < b.next_label_id
      → Built b
      → Built (push_label label b)
  jumped :
      {b : BytecodeBuilder} (label : Label)
      → label < b.next_label_id
      → Built b
      → Built (jump_to label b)
  branched :
      {b : BytecodeBuilder} (label : Label)
      → label < b.next_label_id
      → Built b
      → Built (jumpi_to label b)

-- Every builder that the methods make is well formed: its pending jumps are apart, in order and
-- inside the code, and its labels and its runtime start are positions in the code.
pub Built-WellFormed : {b : BytecodeBuilder} → Built b → WellFormed b
Built-WellFormed new = record { placed = omega arith; marked = tt; runtime = tt }
Built-WellFormed (emitted op h) = emit-WellFormed op (Built-WellFormed h)
Built-WellFormed (bytes_emitted bytes h) = emit_bytes-WellFormed bytes (Built-WellFormed h)
Built-WellFormed (pushed value n runs h) = push-WellFormed value n (Built-WellFormed h) runs
Built-WellFormed (runtime_marked h) = mark_runtime_start-WellFormed (Built-WellFormed h)
Built-WellFormed (label_made h) = new_label-WellFormed (Built-WellFormed h)
Built-WellFormed (label_marked label n h) = mark_label-WellFormed label n (Built-WellFormed h)
Built-WellFormed (label_pushed label n h) = push_label-WellFormed label n (Built-WellFormed h)
Built-WellFormed (jumped label n h) = jump_to-WellFormed label n (Built-WellFormed h)
Built-WellFormed (branched label n h) = jumpi_to-WellFormed label n (Built-WellFormed h)
