-- ===== src/Prelude/Decimal.antt =====
-- Python's `str(n)` and `f"{n:,}"` for numbers that are not negative.
use Prim.Native.Nat.{ℕ, zero, suc, ◌+◌, ◌-◌, ◌*◌, ◌/◌, ◌%◌, ◌<◌}
use mathlib.Core.Path.{◌≡◌, refl}
use mathlib.Core.Logic.{inl, inr}
use mathlib.Core.List.{[], ◌∷◌, ◌++◌}
use native.Mathlib.Omega.{arith}
use trino_gateway.Prelude.Tests.{ltb, ◌==◌, if◌then◌else◌, Bool-cases}
use trino_gateway.Prelude.Text.{Text, codes}

-- The fuel of `decimal` and `thousands` is more than the number, which falls in each round.
unfoldable pub decimal_fuel : ℕ → ℕ → Text
decimal_fuel zero n = []
decimal_fuel (suc f) n =
    let rest = decimal_fuel f (n / 10) in
    if ltb n 10 then (n + 48) ∷ [] else rest ++ ((n % 10 + 48) ∷ [])

-- `str(n)`
unfoldable pub decimal : ℕ → Text
unfolding decimal_fuel
decimal n = decimal_fuel (suc n) n

-- Three digits, the group of thousands behind a comma.
unfoldable pub three_digits : ℕ → Text
three_digits n = (n / 100 % 10 + 48) ∷ (n / 10 % 10 + 48) ∷ (n % 10 + 48) ∷ []

unfoldable pub thousands_fuel : ℕ → ℕ → Text
unfolding decimal three_digits
thousands_fuel zero n = []
thousands_fuel (suc f) n =
    let rest = thousands_fuel f (n / 1000) in
    if ltb n 1000 then decimal n else rest ++ (b',' ∷ three_digits (n % 1000))

-- `f"{n:,}"`
unfoldable pub thousands : ℕ → Text
unfolding thousands_fuel
thousands n = thousands_fuel (suc n) n

-- The number that a text of digits stands for; commas are passed over.
unfoldable pub read_from : ℕ → Text → ℕ
read_from a [] = a
read_from a (c ∷ s) = read_from (if c == b',' then a else a * 10 + (c - 48)) s

read_from-append : (a : ℕ) (s t : Text) → read_from a (s ++ t) ≡ read_from (read_from a s) t
unfolding read_from
read_from-append a [] t = refl
read_from-append a (c ∷ s) t = read_from-append (if c == b',' then a else a * 10 + (c - 48)) s t

read-digit : (a d : ℕ) → read_from a ((d + 48) ∷ []) ≡ a * 10 + d
unfolding read_from
read-digit a d = ground arith

read-three_digits : (a n : ℕ) → n < 1000 → read_from a (b',' ∷ three_digits n) ≡ a * 1000 + n
unfolding read_from three_digits
read-three_digits a n h = ground arith

read-decimal_fuel : (f n : ℕ) → n < f → read_from 0 (decimal_fuel f n) ≡ n
unfolding decimal_fuel
read-decimal_fuel zero n h = elim h [ ]
read-decimal_fuel (suc f) n h = elim (Bool-cases (ltb n 10)) [
  | inl small ↦ rw small (omega (arith, read-digit 0 n))
  | inr large ↦
      rw (large, read_from-append)
        (ground (
          arith,
          read-decimal_fuel f (n / 10),
          read-digit (read_from 0 (decimal_fuel f (n / 10))) (n % 10),
        ))
]

pub read-decimal : (n : ℕ) → read_from 0 (decimal n) ≡ n
unfolding decimal
read-decimal n = read-decimal_fuel (suc n) n (omega arith)

read-thousands_fuel : (f n : ℕ) → n < f → read_from 0 (thousands_fuel f n) ≡ n
unfolding thousands_fuel
read-thousands_fuel zero n h = elim h [ ]
read-thousands_fuel (suc f) n h = elim (Bool-cases (ltb n 1000)) [
  | inl small ↦ rw small (read-decimal n)
  | inr large ↦
      rw (large, read_from-append)
        (ground (
          arith,
          read-thousands_fuel f (n / 1000),
          read-three_digits (read_from 0 (thousands_fuel f (n / 1000))) (n % 1000),
        ))
]

-- The text of `f"{n:,}"`, read digit by digit past its commas, is the number `n`.
pub read-thousands : (n : ℕ) → read_from 0 (thousands n) ≡ n
unfolding thousands
read-thousands n = read-thousands_fuel (suc n) n (omega arith)

thousands_example : thousands 1234005 ≡ codes "1,234,005"
unfolding thousands
thousands_example = refl
