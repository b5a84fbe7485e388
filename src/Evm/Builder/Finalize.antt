-- ===== src/Evm/Builder/Finalize.antt =====
-- codegen/src/evm/bytecode.rs: what `finalize` writes, and when it fails.
use mathlib.Core.Option.{get_or}
use merak.Prelude.{
  ℕ, ◌+◌, ◌<◌, ◌≤◌, ◌≡◌, ◌∙◌, ap, refl, ◌++◌, List, [], ◌∷◌, arith, Option, none, some, length, set,
  get_elem?, All, get_elem?-set, length-set, ◌==◌, if◌then◌else◌, nat_eq,
}
use merak.Prelude.Map.{get}
use merak.Prelude.Outcome.{ok, err, >>=-eq-ok}
use merak.Evm.Builder.{
  PendingJump, BytecodeBuilder, unresolved_label, effective_target, high_byte, low_byte,
  write_address, patch_jump, patch_jumps, finalize,
}
use merak.Evm.Builder.WellFormed.{Placed, WellFormed}

-- The target of a pending jump has a position.
abbrev pub IsResolved : BytecodeBuilder → PendingJump → Type 0
IsResolved b j = (at : ℕ) × (get j.target b.labels ≡ some at)

-- The address that a pending jump gets.
abbrev pub address : BytecodeBuilder → PendingJump → ℕ
address b j = effective_target b.runtime_start j.position (get_or (get j.target b.labels) 0)

-- The byte at an index of finished code: a byte of an address, or what was emitted.
abbrev pub patched_byte : BytecodeBuilder → List PendingJump → List ℕ → ℕ → Option ℕ
patched_byte b [] code i = get_elem? code i
patched_byte b (j ∷ js) code i =
    if i == j.position
    then some (high_byte (address b j))
    else if i == j.position + 1
    then some (low_byte (address b j))
    else patched_byte b js code i

-- The code after one write.
abbrev written : ℕ → ℕ → List ℕ → List ℕ
written at target code = set (set code at (high_byte target)) (at + 1) (low_byte target)

get_elem?-written :
    (at target : ℕ) (code : List ℕ) (i : ℕ)
    → at + 2 ≤ length code
    → get_elem? (written at target code) i ≡ (
        if i == at
        then some (high_byte target)
        else if i == at + 1
        then some (low_byte target)
        else get_elem? code i)
get_elem?-written at target code i h =
    let hi = high_byte target in
    ground (
      arith,
      get_elem?-set (set code at hi) (at + 1) i (low_byte target),
      get_elem?-set code at i hi,
      length-set code at hi,
    )

patched_byte-below :
    (b : BytecodeBuilder) (next lo hi : ℕ) (js : List PendingJump) (code : List ℕ) (i : ℕ)
    → Placed next lo hi js
    → i < lo
    → patched_byte b js code i ≡ get_elem? code i
patched_byte-below b next lo hi [] code i h p = refl
patched_byte-below b next lo hi (j ∷ js) code i (a, s, t, h) p =
    ground (arith, patched_byte-below b next (j.position + 2) hi js code i h)

patched_byte-congr :
    (b : BytecodeBuilder) (js : List PendingJump) (code code' : List ℕ) (i : ℕ)
    → get_elem? code i ≡ get_elem? code' i
    → patched_byte b js code i ≡ patched_byte b js code' i
patched_byte-congr b [] code code' i e = e
patched_byte-congr b (j ∷ js) code code' i e = rw (patched_byte-congr b js code code' i e)

Placed-le : (next lo hi : ℕ) (js : List PendingJump) → Placed next lo hi js → lo ≤ hi
Placed-le next lo hi [] h = h
Placed-le next lo hi (j ∷ js) (a, s, t, h) = omega (arith, Placed-le next (j.position + 2) hi js h)

patch_jump-written :
    (b : BytecodeBuilder) (j : PendingJump) (code : List ℕ)
    → IsResolved b j
    → j.size ≡ 2
    → j.position + 2 ≤ length code
    → patch_jump b j code ≡ ok (written j.position (address b j) code)
unfolding patch_jump write_address
patch_jump-written b j code (at, r) s h = rw (r, patch_jump) (ground arith)

patched_byte-written :
    (b : BytecodeBuilder) (next hi : ℕ) (j : PendingJump) (js : List PendingJump) (code : List ℕ)
    (i : ℕ)
    → Placed next (j.position + 2) hi js
    → j.position + 2 ≤ length code
    → patched_byte b js (written j.position (address b j) code) i ≡ patched_byte b (j ∷ js) code i
patched_byte-written b next hi j js code i h fits =
    let p = j.position in
    let code₁ = written p (address b j) code in
    let at : get_elem? code₁ i ≡ _ = get_elem?-written p (address b j) code i fits in
    ground (
      arith,
      at,
      patched_byte-below b next (p + 2) hi js code₁ i h,
      patched_byte-congr b js code₁ code i,
    )

-- The loop of `finalize`, over jumps that lie apart in the code.
patch_jumps-patched :
    (b : BytecodeBuilder) (next lo : ℕ) (js : List PendingJump) (code : List ℕ)
    → Placed next lo (length code) js
    → All (IsResolved b) js
    → (code' : List ℕ) × (patch_jumps b js code ≡ ok code')
      × (length code' ≡ length code)
      × ((i : ℕ) → get_elem? code' i ≡ patched_byte b js code i)
unfolding patch_jumps
patch_jumps-patched b next lo [] code h r = (code, refl, refl, λ i. refl)
patch_jumps-patched b next lo (j ∷ js) code (a, s, t, h) (r, rs) =
    let fits : j.position + 2 ≤ length code = Placed-le next (j.position + 2) (length code) js h in
    let hi = high_byte (address b j) in
    let code₁ = written j.position (address b j) code in
    let same : length code₁ ≡ length code =
      length-set (set code j.position hi) (j.position + 1) _ ∙ length-set code j.position hi in
    let (code', runs, len, bytes) =
      patch_jumps-patched b next (j.position + 2) js code₁ (rw same h) rs in
    (
      code',
      rw (patch_jump-written b j code r s fits) runs,
      len ∙ same,
      λ i. bytes i ∙ patched_byte-written b next (length code) j js code i h fits,
    )

-- `finalize` of a well-formed builder whose pending jumps have all been marked succeeds. The
-- result is as long as the code; the two bytes at each pending jump are the target's address modulo
-- 2^16, relative to the runtime section if jump and target lie in it; every other byte is kept.
pub finalize-patched :
    (b : BytecodeBuilder)
    → WellFormed b
    → All (IsResolved b) b.pending_jumps
    → (code : List ℕ) × (finalize b ≡ ok code)
      × (length code ≡ length b.code)
      × ((i : ℕ) → get_elem? code i ≡ patched_byte b b.pending_jumps b.code i)
unfolding finalize
finalize-patched b w r = patch_jumps-patched b b.next_label_id 0 b.pending_jumps b.code w.placed r

Placed-tail :
    (next lo hi : ℕ) (js ks : List PendingJump)
    → Placed next lo hi (js ++ ks)
    → Placed next lo hi js
Placed-tail next lo hi [] ks h = Placed-le next lo hi ks h
Placed-tail next lo hi (j ∷ js) ks (a, s, t, h) =
    (a, s, t, Placed-tail next (j.position + 2) hi js ks h)

patch_jumps-append :
    (b : BytecodeBuilder) (js ks : List PendingJump) (code code' : List ℕ)
    → patch_jumps b js code ≡ ok code'
    → patch_jumps b (js ++ ks) code ≡ patch_jumps b ks code'
unfolding patch_jumps
patch_jumps-append b [] ks code code' h = ap (patch_jumps b ks) (cc)
patch_jumps-append b (j ∷ js) ks code code' h =
    let (code₁, runs, rest) = >>=-eq-ok (patch_jump b j code) (patch_jumps b js) h in
    rw runs (patch_jumps-append b js ks code₁ code' rest)

patch_jumps-lost :
    (b : BytecodeBuilder) (j : PendingJump) (js : List PendingJump) (code : List ℕ)
    → get j.target b.labels ≡ none
    → patch_jumps b (j ∷ js) code ≡ err (unresolved_label j.target)
unfolding patch_jumps patch_jump
patch_jumps-lost b j js code lost = rw (lost, patch_jump)

-- `finalize` of a well-formed builder fails with the first label that was jumped to and never
-- marked.
pub finalize-unresolved :
    (b : BytecodeBuilder) (before after : List PendingJump) (j : PendingJump)
    → WellFormed b
    → b.pending_jumps ≡ before ++ j ∷ after
    → All (IsResolved b) before
    → get j.target b.labels ≡ none
    → finalize b ≡ err (unresolved_label j.target)
unfolding finalize
finalize-unresolved b before after j w e r lost =
    let placed : Placed b.next_label_id 0 (length b.code) (before ++ j ∷ after) =
      rw e at w.placed in
    let (code, runs, len, bytes) =
      patch_jumps-patched b b.next_label_id 0 before b.code
        (Placed-tail b.next_label_id 0 (length b.code) before (j ∷ after) placed) r in
    ap (λ js. patch_jumps b js b.code) e
    ∙ patch_jumps-append b before (j ∷ after) b.code code runs
    ∙ patch_jumps-lost b j after code lost
