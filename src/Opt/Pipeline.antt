-- ===== src/Opt/Pipeline.antt =====
-- codegen/src/opt/mod.rs: passes over a program of any form, and pipelines of them.
use merak.Prelude.{
  ℕ, zero, suc, String, Bool, false, ◌||◌, Option, none, some, List, [], ◌∷◌, if◌then◌else◌,
}

pub record Pass {ℓ} (IR : Type ℓ) : Type ℓ where
  pub name : String
  pub run : IR → IR × Bool

module _ {ℓ} {IR : Type ℓ} where
  -- The fold over the passes, from the flag given.
  abbrev pub run_passes : List (Pass IR) → IR → Bool → IR × Bool
  run_passes [] ir changed = (ir, changed)
  run_passes (pass ∷ passes) ir changed =
      let (ir', flag) = pass.run ir in run_passes passes ir' (flag || changed)

  -- `Pipeline::run_once`
  abbrev pub run_once : List (Pass IR) → IR → IR × Bool
  run_once passes ir = run_passes passes ir false

  -- `Pipeline::run_to_fixed_point`, with a bound on the rounds; `none` is the bound reached.
  unfoldable pub run_to_fixed_point : ℕ → List (Pass IR) → IR → Option IR
  run_to_fixed_point zero passes ir = none
  run_to_fixed_point (suc fuel) passes ir =
      let (ir', changed) = run_once passes ir in
      let rest = run_to_fixed_point fuel passes ir' in if changed then rest else some ir'
