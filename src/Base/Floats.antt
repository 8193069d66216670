-- ===== src/Base/Floats.antt =====
-- `f32` and `f64` are the hardware's: their operations are a parameter of what uses them. No law
-- of rounding is assumed unless a theorem names it.
use mathlib.Core.Bool.{Bool}
use mathlib.Core.List.{List, [], ◌∷◌}
use Prim.Native.Nat.{ℕ}

pub record Float (F : Type 0) : Type 0 where
  pub add : F → F → F
  pub sub : F → F → F
  pub mul : F → F → F
  pub div : F → F → F
  pub sqrt : F → F
  pub abs : F → F
  pub larger : F → F → F
  -- A decimal literal `n / 10 ^ k`, and `n as f64` at `k = 0`.
  pub literal : ℕ → ℕ → F
  pub lt : F → F → Bool
  pub le : F → F → Bool
  pub eq : F → F → Bool

module _ {F : Type 0} ⦃fl : Float F⦄ where
  abbrev pub sum_from : F → List F → F
  sum_from acc [] = acc
  sum_from acc (x ∷ xs) = sum_from (fl.add acc x) xs

  -- `Iterator::sum`, from the left.
  abbrev pub sum : List F → F
  sum = sum_from (fl.literal 0 0)
