-- ===== src/Prelude/Map.antt =====
-- `HashMap` as an association list: a key stands once, at the place of its first insertion.
use mathlib.Core.Path.{◌≡◌, refl, sym}
use mathlib.Core.Logic.{inl, inr}
use mathlib.Core.Bool.{true}
use mathlib.Core.List.{List, [], ◌∷◌}
use mathlib.Core.Option.{Option, none, some, some-injective}
use native.Mathlib.Omega.{arith}
use merak.Prelude.Tests.{if◌then◌else◌, Bool-cases}
use merak.Prelude.Equality.{Eq}

abbrev pub Map {ℓ κ} : Type ℓ → Type κ → Type (ℓ ⊔ κ)
Map K V = List (K × V)

pub same_refl {ℓ} : {K : Type ℓ} ⦃e : Eq K⦄ (k : K) → e.same k k ≡ true
same_refl ⦃e⦄ k = (e.same_iff k k).1 refl

module _ {ℓ κ} {K : Type ℓ} {V : Type κ} ⦃e : Eq K⦄ where
  -- `HashMap::get`
  unfoldable pub get : K → Map K V → Option V
  get k [] = none
  get k ((j, v) ∷ m) = if e.same j k then some v else get k m

  -- `HashMap::insert`
  unfoldable pub insert : K → V → Map K V → Map K V
  insert k v [] = (k, v) ∷ []
  insert k v ((j, w) ∷ m) = if e.same j k then (k, v) ∷ m else (j, w) ∷ insert k v m

  pub get-insert :
      (k j : K) (v : V) (m : Map K V)
      → get j (insert k v m) ≡ (if e.same k j then some v else get j m)
  unfolding get insert
  get-insert k j v [] = refl
  get-insert k j v ((i, w) ∷ m) =
      ground (arith, e.same_iff k j, e.same_iff i k, e.same_iff i j, get-insert k j v m)

  pub get-insert_self : (k : K) (v : V) (m : Map K V) → get k (insert k v m) ≡ some v
  get-insert_self k v m = rw (get-insert, same_refl k)

-- A predicate of every value that a map holds, which computes to a tuple.
abbrev pub AllValues {ℓ κ μ} : {K : Type ℓ} {V : Type κ} → (V → Type μ) → Map K V → Type μ
AllValues P [] = Unit
AllValues P ((k, v) ∷ m) = P v × AllValues P m

module _ {ℓ κ μ} {K : Type ℓ} {V : Type κ} ⦃e : Eq K⦄ (P : V → Type μ) where
  pub AllValues-get : (k : K) (v : V) (m : Map K V) → AllValues P m → get k m ≡ some v → P v
  unfolding get
  AllValues-get k v [] h found = absurd (cc)
  AllValues-get k v ((j, w) ∷ m) (p, h) found = elim (Bool-cases (e.same j k)) [
    | inl here ↦ rw (sym (some-injective w v (ground arith))) p
    | inr there ↦ AllValues-get k v m h (ground arith)
  ]

  pub AllValues-insert :
      (k : K) (v : V) (m : Map K V) → P v → AllValues P m → AllValues P (insert k v m)
  unfolding insert
  AllValues-insert k v [] p h = (p, tt)
  AllValues-insert k v ((j, w) ∷ m) p (q, h) = elim (Bool-cases (e.same j k)) [
    | inl here ↦ rw here (p, h)
    | inr there ↦ rw there (q, AllValues-insert k v m p h)
  ]

  pub AllValues-map :
      (Q : V → Type μ) (f : (v : V) → P v → Q v) (m : Map K V) → AllValues P m → AllValues Q m
  AllValues-map Q f [] h = tt
  AllValues-map Q f ((k, v) ∷ m) (p, h) = (f v p, AllValues-map Q f m h)
