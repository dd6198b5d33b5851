-- ===== src/Prelude/Round.antt =====
-- Python's `round` on a quotient: to the nearest number, and to the even one of two that are as near.
-- The quotient is exact here, where the program rounds a float.
use Prim.Native.Nat.{ℕ, ◌+◌, ◌*◌, ◌/◌, ◌%◌, ◌≤◌, ◌<◌}
use mathlib.Core.Path.{◌≡◌, refl, sym, ap}
use native.Mathlib.Omega.{arith}
use native.Mathlib.Nat.{div-add-mod', mod-lt, div-one, mod-one, mul-div-mul_left}
use native.Mathlib.Decide.{dec_lt}
use mathlib.Core.Logic.{◌↔◌, ◌⊎◌, inl, inr}
use trino_gateway.Prelude.Tests.{ltb, ◌==◌, if◌then◌else◌}

-- `round(n / d)`
unfoldable pub round_div : ℕ → ℕ → ℕ
round_div n d =
    if ltb (2 * (n % d)) d
    then n / d
    else if ltb d (2 * (n % d))
    then n / d + 1
    else if n / d % 2 == 0
    then n / d
    else n / d + 1

round_div_cases :
    (n d : ℕ)
    → (round_div n d ≡ n / d) × (2 * (n % d) ≤ d) ⊎ (round_div n d ≡ n / d + 1) × (d ≤ 2 * (n % d))
unfolding round_div
round_div_cases n d = ground arith

below_multiple : (q r d b : ℕ) → q * d + r ≤ b * d → 0 < d → (q ≤ b) × (0 < r → q + 1 ≤ b)
below_multiple q r d b h pos = (
  elim (dec_lt b q) [
    | yes p ↦ let m : (b + 1) * d ≤ q * d = grind arith in absurd (omega arith)
    | no p ↦ omega arith
  ],
  λ z. elim (dec_lt q b) [
    | yes p ↦ omega arith
    | no p ↦ let m : b * d ≤ q * d = grind arith in absurd (omega arith)
  ],
)

-- A bound by a whole number is kept.
pub round_div-le : (n d b : ℕ) → 0 < d → n ≤ b * d → round_div n d ≤ b
round_div-le n d b pos h =
    let parts : n / d * d + n % d ≡ n = div-add-mod' n d in
    let (low, high) = below_multiple (n / d) (n % d) d b (omega arith) pos in
    elim (round_div_cases n d) [ inl (e, _) ↦ rw e low | inr (e, half) ↦ rw e (high (omega arith)) ]

-- The rounded number is off by a half at most.
pub round_div_near :
    (n d : ℕ)
    → 0 < d
    → (2 * (round_div n d * d) ≤ 2 * n + d) × (2 * n ≤ 2 * (round_div n d * d) + d)
round_div_near n d pos =
    let parts : n / d * d + n % d ≡ n = div-add-mod' n d in
    let small = mod-lt n pos in
    elim (round_div_cases n d) [
      | inl (e, half) ↦ rw e (omega arith, omega arith)
      | inr (e, half) ↦ rw e (omega arith, omega arith)
    ]

-- A number is its own nearest one.
pub round_div-one : (n : ℕ) → round_div n 1 ≡ n
unfolding round_div
round_div-one n = rw (div-one n, mod-one n) refl

mul-lt : (k a b : ℕ) → 0 < k → (k * a < k * b) ↔ (a < b)
mul-lt k a b pos = (
  λ h. elim (dec_lt a b) [
    | yes p ↦ p
    | no p ↦ let m : k * b ≤ k * a = grind arith in absurd (omega arith)
  ],
  λ h. let m : k * (a + 1) ≤ k * b = grind arith in omega arith,
)

ltb-cancel : (k a b : ℕ) → 0 < k → ltb (k * a) (k * b) ≡ ltb a b
ltb-cancel k a b pos = ground (arith, mul-lt k a b pos)

mod-cancel : (k n d : ℕ) → 0 < k → k * n % (k * d) ≡ k * (n % d)
mod-cancel k n d pos =
    let q = mul-div-mul_left n d pos in
    let a = div-add-mod' n d in
    let b = div-add-mod' (k * n) (k * d) in
    let c : n / d * (k * d) + k * n % (k * d) ≡ k * n = rw (sym q) b in
    let e : n / d * (k * d) + k * (n % d) ≡ k * (n / d * d + n % d) = grind arith in
    let f : k * (n / d * d + n % d) ≡ k * n = ap (λ x. k * x) a in omega arith

-- A common factor is cancelled.
pub round_div-cancel : (k n d : ℕ) → 0 < k → round_div (k * n) (k * d) ≡ round_div n d
unfolding round_div
round_div-cancel k n d pos =
    let e : 2 * (k * (n % d)) ≡ k * (2 * (n % d)) = grind arith in
    let low : ltb (2 * (k * (n % d))) (k * d) ≡ ltb (2 * (n % d)) d =
      rw e (ltb-cancel k (2 * (n % d)) d pos) in
    let high : ltb (k * d) (2 * (k * (n % d))) ≡ ltb d (2 * (n % d)) =
      rw e (ltb-cancel k d (2 * (n % d)) pos) in
    rw (mod-cancel k n d pos, mul-div-mul_left n d pos, low, high) refl
