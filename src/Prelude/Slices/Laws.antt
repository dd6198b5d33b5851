-- ===== src/Prelude/Slices/Laws.antt =====
-- Printed numbers are read back, also behind a unit.
use Prim.Native.Nat.{ℕ, zero, suc, ◌+◌, ◌-◌, ◌*◌, ◌/◌, ◌%◌, ◌<◌}
use mathlib.Core.Path.{◌≡◌, refl}
use mathlib.Core.Bool.{true, false}
use mathlib.Core.Logic.{inl, inr}
use mathlib.Core.Option.{some}
use mathlib.Core.List.{
  [], ◌∷◌, ◌++◌, reverse, reverse-append, reverse-reverse, append-nil, append_assoc,
}
use native.Mathlib.Omega.{arith}
use trino_gateway.Prelude.Tests.{ltb, Bool-cases}
use trino_gateway.Prelude.Lists.{Each}
use trino_gateway.Prelude.Text.{Text, text_eq}
use trino_gateway.Prelude.Decimal.{decimal_fuel, decimal}
use trino_gateway.Prelude.Slices.{
  is_blank, digit, left_strip, cons_unless_blank, right_strip, strip, after_prefix, before_suffix,
  int_from, int_of, float_from, float_of, has_digit,
}

abbrev pub IsDigits : Text → Type 0
IsDigits s = Each (λ c. digit c ≡ true) s

Each-append : (s t : Text) → IsDigits s → IsDigits t → IsDigits (s ++ t)
Each-append [] t a b = b
Each-append (c ∷ s) t a b = (a.0, Each-append s t a.1 b)

decimal_fuel-IsDigits : (f n : ℕ) → IsDigits (decimal_fuel f n)
unfolding decimal_fuel
decimal_fuel-IsDigits zero n = tt
decimal_fuel-IsDigits (suc f) n = elim (Bool-cases (ltb n 10)) [
  | inl small ↦ rw small (ground arith, tt)
  | inr large ↦
      rw large
        (Each-append _ ((n % 10 + 48) ∷ []) (decimal_fuel-IsDigits f (n / 10)) (ground arith, tt))
]

int_from-append :
    (a : ℕ) (s t : Text) {b : ℕ} → int_from a s ≡ some b → int_from a (s ++ t) ≡ int_from b t
unfolding int_from
int_from-append a [] t h = ground arith
int_from-append a (c ∷ s) t {b} h = ground (arith, int_from-append (a * 10 + (c - 48)) s t {b = b})

int_from-decimal_fuel : (f n : ℕ) → n < f → int_from 0 (decimal_fuel f n) ≡ some n
unfolding decimal_fuel int_from
int_from-decimal_fuel zero n h = elim h [ ]
int_from-decimal_fuel (suc f) n h = elim (Bool-cases (ltb n 10)) [
  | inl small ↦ rw small (ground arith)
  | inr large ↦
      rw
        (
          large,
          int_from-append 0 (decimal_fuel f (n / 10)) ((n % 10 + 48) ∷ [])
              (int_from-decimal_fuel f (n / 10) (ground arith)),
        )
        (ground arith)
]

float_from-append :
    (a : ℕ) (s t : Text) {b : ℕ} → int_from a s ≡ some b → float_from a (s ++ t) ≡ float_from b t
unfolding int_from float_from
float_from-append a [] t h = ground arith
float_from-append a (c ∷ s) t {b} h =
    ground (arith, float_from-append (a * 10 + (c - 48)) s t {b = b})

cons_kept : (d : ℕ) (s : Text) (c : ℕ) → cons_unless_blank d (s ++ (c ∷ [])) ≡ d ∷ (s ++ (c ∷ []))
cons_kept d [] c = refl
cons_kept d (e ∷ s) c = refl

-- A text that ends in a character that is not blank loses nothing behind.
right_strip-snoc :
    (s : Text) (c : ℕ) → is_blank c ≡ false → right_strip (s ++ (c ∷ [])) ≡ s ++ (c ∷ [])
unfolding right_strip
right_strip-snoc [] c h = rw h
right_strip-snoc (d ∷ s) c h = rw (right_strip-snoc s c h) (cons_kept d s c)

after_prefix-append : (p r : Text) → after_prefix p (p ++ r) ≡ some r
unfolding after_prefix
after_prefix-append [] r = refl
after_prefix-append (c ∷ p) r = ground (arith, after_prefix-append p r)

pub before_suffix-append : (s p : Text) → before_suffix p (s ++ p) ≡ some s
unfolding before_suffix
before_suffix-append s p =
    let e : after_prefix (reverse p) (reverse (s ++ p)) ≡ some (reverse s) =
      rw (reverse-append s p) (after_prefix-append (reverse p) (reverse s)) in
    rw e (rw (reverse-reverse s))

snoc-cons :
    (s : Text) (c : ℕ)
    → IsDigits s
    → digit c ≡ true
    → (d : ℕ) × (r : Text) × (s ++ (c ∷ []) ≡ d ∷ r) × (digit d ≡ true)
snoc-cons [] c h k = (c, [], refl, k)
snoc-cons (d ∷ s) c h k = (d, s ++ (c ∷ []), refl, h.0)

-- A printed number has a first digit.
decimal-cons : (n : ℕ) → (d : ℕ) × (r : Text) × (decimal n ≡ d ∷ r) × (digit d ≡ true)
unfolding decimal
decimal-cons n = elim (Bool-cases (ltb n 10)) [
  | inl small ↦ (n + 48, [], rw small, ground arith)
  | inr large ↦
      let (d, r, e, k) =
        snoc-cons (decimal_fuel n (n / 10)) (n % 10 + 48) (decimal_fuel-IsDigits n (n / 10))
          (ground arith) in
      (d, r, rw large e, k)
]

int_from-decimal : (n : ℕ) → int_from 0 (decimal n) ≡ some n
unfolding decimal
int_from-decimal n = int_from-decimal_fuel (suc n) n (omega arith)

int_of-cons : (d : ℕ) (r : Text) → int_of (d ∷ r) ≡ int_from 0 (d ∷ r)
unfolding int_of
int_of-cons d r = refl

-- A printed number is read back by `int` and by `float`.
pub int_of-decimal : (n : ℕ) → int_of (decimal n) ≡ some n
int_of-decimal n = let (d, r, e, k) = decimal-cons n in cc (e, int_of-cons d r, int_from-decimal n)

pub float_of-decimal : (n : ℕ) → float_of (decimal n) ≡ some (record { digits = n; places = 0 })
unfolding float_of
float_of-decimal n =
    let (d, r, e, k) = decimal-cons n in
    let read : float_from 0 (decimal n) ≡ some (record { digits = n; places = 0 }) =
      rw (← append-nil (decimal n)) (float_from-append 0 (decimal n) [] (int_from-decimal n)) in
    let some_digit : has_digit (decimal n) ≡ true = rw e (rw k) in rw (some_digit, read)

left_strip-digit : (d : ℕ) (s : Text) → digit d ≡ true → left_strip (d ∷ s) ≡ d ∷ s
unfolding left_strip
left_strip-digit d s k = ground arith

-- A printed number with a unit that ends in no blank loses nothing by `strip`.
pub strip-decimal :
    (n : ℕ) (u : Text) (c : ℕ)
    → is_blank c ≡ false
    → strip (decimal n ++ (u ++ (c ∷ []))) ≡ decimal n ++ (u ++ (c ∷ []))
unfolding strip
strip-decimal n u c h =
    let (d, r, e, k) = decimal-cons n in
    let left : left_strip (decimal n ++ (u ++ (c ∷ []))) ≡ decimal n ++ (u ++ (c ∷ [])) =
      rw e (left_strip-digit d (r ++ (u ++ (c ∷ []))) k) in
    rw (left, ← append_assoc (decimal n) u (c ∷ [])) (right_strip-snoc (decimal n ++ u) c h)

pub decimal-ne-nil : (n : ℕ) (u : Text) → text_eq (decimal n ++ u) [] ≡ false
decimal-ne-nil n u = let (d, r, e, k) = decimal-cons n in rw e
