-- ===== src/Tests.antt =====
-- Concrete inputs, and the theorems at them. Whole numbers stand in for floats: the theorems hold for any operations.
mod Clusters
mod Requests
mod Jobs
mod Rows
mod Writing
mod Attempts
mod Pages
mod Ledgers
mod Repairs
mod Envelopes
use Prim.Native.Nat.{◌/◌}
use episcience.Base.{ℕ, ◌+◌, ◌-◌, ◌*◌, max, ltb, leb, ◌==◌}
use episcience.Base.Floats.{Float}

instance abbrev pub whole_numbers : Float ℕ
whole_numbers = record {
  add = λ a b. a + b;
  sub = λ a b. a - b;
  mul = λ a b. a * b;
  div = λ a b. a / b;
  sqrt = λ a. a;
  abs = λ a. a;
  larger = max;
  literal = λ n k. n;
  lt = ltb;
  le = leb;
  eq = λ a b. a == b;
}
