-- ===== src/Prelude/Partial.antt =====
-- A function of the source that can panic, as an option: `none` is the panic.
use mathlib.Core.Path.{◌≡◌, refl}
use mathlib.Core.Option.{Option, none, some}

infixl 5 ◌>>=◌
abbrev pub ◌>>=◌ {ℓ κ} : {A : Type ℓ} {B : Type κ} → Option A → (A → Option B) → Option B
none >>= f = none
some a >>= f = f a

pub >>=-eq-some {ℓ κ} :
    {A : Type ℓ} {B : Type κ} (first : Option A) (next : A → Option B) {out : B}
    → (first >>= next) ≡ some out
    → (mid : A) × (first ≡ some mid) × (next mid ≡ some out)
>>=-eq-some none next done = cc
>>=-eq-some (some mid) next done = (mid, refl, done)
