-- ===== src/Codegen/Shuffler/Rotation.antt =====
-- Lists turned round: what `m` rounds of SWAP and POP make of the top of the stack.
use native.Mathlib.Nat.{mod-add-mod, mod-eq_of_lt, mod-lt, mod_self}
use merak.Prelude.{
  ℕ, zero, suc, ◌+◌, ◌%◌, ◌<◌, ◌≡◌, ◌∙◌, refl, ap, List, [], ◌∷◌, ◌++◌, some, arith, length,
  get_elem?, length-append, sym, Bool-cases, inl, inr, ==_iff, ◌==◌, if◌then◌else◌,
}

module _ {ℓ} {A : Type ℓ} where
  -- The first item moves to the end.
  unfoldable pub rotate : List A → List A
  rotate [] = []
  rotate (x ∷ xs) = xs ++ x ∷ []

  unfoldable pub rotate_by : ℕ → List A → List A
  rotate_by zero xs = xs
  rotate_by (suc m) xs = rotate_by m (rotate xs)

  pub length-rotate : (xs : List A) → length (rotate xs) ≡ length xs
  unfolding rotate
  length-rotate [] = refl
  length-rotate (x ∷ xs) = omega (arith, length-append xs (x ∷ []))

  pub length-rotate_by : (m : ℕ) (xs : List A) → length (rotate_by m xs) ≡ length xs
  unfolding rotate_by
  length-rotate_by zero xs = refl
  length-rotate_by (suc m) xs = length-rotate_by m (rotate xs) ∙ length-rotate xs

  pub get_elem?-snoc :
      (xs : List A) (x : A) (i : ℕ)
      → get_elem? (xs ++ x ∷ []) i ≡ (if i == length xs then some x else get_elem? xs i)
  get_elem?-snoc [] x zero = refl
  get_elem?-snoc [] x (suc i) = ground arith
  get_elem?-snoc (y ∷ xs) x zero = ground arith
  get_elem?-snoc (y ∷ xs) x (suc i) = ground (arith, get_elem?-snoc xs x i)

  get_elem?-rotate :
      (xs : List A) (i : ℕ)
      → i < length xs
      → get_elem? (rotate xs) i ≡ get_elem? xs ((i + 1) % length xs)
  unfolding rotate
  get_elem?-rotate [] i h = elim h [ ]
  get_elem?-rotate (x ∷ xs) i h = elim (Bool-cases (i == length xs)) [
    | inl last ↦
        let e : i + 1 ≡ suc (length xs) = omega (arith, (==_iff i (length xs)).0 last) in
        let turned : (i + 1) % suc (length xs) ≡ 0 =
          ap (λ k. k % suc (length xs)) e ∙ mod_self (suc (length xs)) in
        rw turned (get_elem?-snoc xs x i ∙ rw last)
    | inr before ↦
        let short : i < length xs = ground arith in
        let kept : (i + 1) % suc (length xs) ≡ suc i = mod-eq_of_lt (omega arith) ∙ omega arith in
        rw kept (get_elem?-snoc xs x i ∙ rw before)
  ]

  pub get_elem?-rotate_by :
      (m : ℕ) (xs : List A) (i : ℕ)
      → i < length xs
      → get_elem? (rotate_by m xs) i ≡ get_elem? xs ((i + m) % length xs)
  unfolding rotate_by
  get_elem?-rotate_by zero xs i h =
      ap (get_elem? xs) (sym (mod-eq_of_lt (omega arith)) ∙ ap (λ k. k % length xs) (omega arith))
  get_elem?-rotate_by (suc m) xs i h =
      let n = length xs in
      let at : (i + m) % n < n = mod-lt (i + m) (omega arith) in
      get_elem?-rotate_by m (rotate xs) i (omega (arith, length-rotate xs))
      ∙ ap (λ k. get_elem? (rotate xs) ((i + m) % k)) (length-rotate xs)
      ∙ get_elem?-rotate xs ((i + m) % n) at
      ∙ ap (get_elem? xs) (mod-add-mod (i + m) n 1 ∙ ap (λ k. k % n) (omega arith))

  -- Lists of one length that agree at every index are equal.
  pub eq_of_get_elem? :
      (xs ys : List A)
      → length xs ≡ length ys
      → ((i : ℕ) → i < length xs → get_elem? xs i ≡ get_elem? ys i)
      → xs ≡ ys
  eq_of_get_elem? [] [] l h = refl
  eq_of_get_elem? [] (y ∷ ys) l h = absurd (omega arith)
  eq_of_get_elem? (x ∷ xs) [] l h = absurd (omega arith)
  eq_of_get_elem? (x ∷ xs) (y ∷ ys) l h =
      cc (h 0 (omega arith), eq_of_get_elem? xs ys (omega arith) (λ i p. h (suc i) (omega arith)))
