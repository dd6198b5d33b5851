-- ===== src/Prelude/Sqrt.antt =====
-- The root of a number, rounded down.
use Prim.Native.Nat.{ℕ, zero, suc, ◌+◌, ◌*◌, ◌/◌, ◌≤◌, ◌<◌}
use mathlib.Core.Logic.{inl, inr}
use native.Mathlib.Omega.{arith}
use trino_gateway.Prelude.Tests.{leb, if◌then◌else◌, Bool-cases}

-- The fuel is more than the number, which falls to its quarter in each round.
unfoldable pub root_fuel : ℕ → ℕ → ℕ
root_fuel zero n = 0
root_fuel (suc f) n =
    let r = 2 * root_fuel f (n / 4) in
    if leb n 0 then 0 else if leb ((r + 1) * (r + 1)) n then r + 1 else r

unfoldable pub root : ℕ → ℕ
unfolding root_fuel
root n = root_fuel (suc n) n

root_step :
    (n s : ℕ)
    → s * s ≤ n / 4
    → n / 4 < (s + 1) * (s + 1)
    → (2 * s * (2 * s) ≤ n) × (n < (2 * s + 1 + 1) * (2 * s + 1 + 1))
root_step n s a b = (grind arith, grind arith)

pub root_fuel-IsRoot :
    (f n : ℕ)
    → n < f
    → (root_fuel f n * root_fuel f n ≤ n) × (n < (root_fuel f n + 1) * (root_fuel f n + 1))
unfolding root_fuel
root_fuel-IsRoot zero n h = elim h [ ]
root_fuel-IsRoot (suc f) n h = elim (Bool-cases (leb n 0)) [
  | inl nil ↦ rw nil (omega arith, ground arith)
  | inr pos ↦
      let (a, b) = root_fuel-IsRoot f (n / 4) (ground arith) in
      let (c, d) = root_step n (root_fuel f (n / 4)) a b in rw pos (ground arith, ground arith)
]
