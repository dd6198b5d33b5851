-- ===== src/Prelude/Lists.antt =====
-- Lists measured by native numbers, and the tests over a list that Python's `any`, `all` and
-- comprehensions make.
use Prim.Native.Nat.{ℕ, zero, suc, ◌+◌, ◌*◌, ◌≤◌}
use mathlib.Core.Path.{◌≡◌, refl, ap}
use mathlib.Core.Logic.{◌↔◌, ◌⊎◌, inl, inr}
use mathlib.Core.Bool.{Bool, true, false, ◌&&◌, ◌||◌}
use mathlib.Core.Option.{Option, none, some}
use mathlib.Core.List.{List, [], ◌∷◌, ◌++◌, map}
use native.Mathlib.Omega.{arith}
use trino_gateway.Prelude.Tests.{if◌then◌else◌}

module _ {ℓ} {A : Type ℓ} where
  abbrev pub length : List A → ℕ
  length [] = 0
  length (x ∷ xs) = suc (length xs)

  abbrev pub get_elem? : List A → ℕ → Option A
  get_elem? [] i = none
  get_elem? (x ∷ xs) zero = some x
  get_elem? (x ∷ xs) (suc i) = get_elem? xs i

  abbrev pub take : ℕ → List A → List A
  take zero xs = []
  take (suc n) [] = []
  take (suc n) (x ∷ xs) = x ∷ take n xs

  pub length-append : (xs ys : List A) → length (xs ++ ys) ≡ length xs + length ys
  length-append [] ys = omega arith
  length-append (x ∷ xs) ys = omega (arith, length-append xs ys)

  -- `any(p(x) for x in xs)`
  abbrev pub any : (A → Bool) → List A → Bool
  any p [] = false
  any p (x ∷ xs) = p x || any p xs

  -- `all(p(x) for x in xs)`
  abbrev pub all : (A → Bool) → List A → Bool
  all p [] = true
  all p (x ∷ xs) = p x && all p xs

  -- `[x for x in xs if p(x)]`
  abbrev pub select : (A → Bool) → List A → List A
  select p [] = []
  select p (x ∷ xs) = if p x then x ∷ select p xs else select p xs

  -- Every element satisfies `P`.
  abbrev pub Each {κ} : (A → Type κ) → List A → Type κ
  Each P [] = Unit
  Each P (x ∷ xs) = P x × Each P xs

module _ {ℓ} {A : Type ℓ} where
  -- `sum(f(x) for x in xs)`
  abbrev pub sum_of : (A → ℕ) → List A → ℕ
  sum_of f [] = 0
  sum_of f (x ∷ xs) = f x + sum_of f xs

module _ {ℓ} {A : Type ℓ} where
  pub length-map {κ} : {B : Type κ} (xs : List A) (f : A → B) → length (map f xs) ≡ length xs
  length-map [] f = refl
  length-map (x ∷ xs) f = ap suc (length-map xs f)

  pub sum_of-append : (f : A → ℕ) (xs ys : List A) → sum_of f (xs ++ ys) ≡ sum_of f xs + sum_of f ys
  sum_of-append f [] ys = omega arith
  sum_of-append f (x ∷ xs) ys = omega (arith, sum_of-append f xs ys)

  pub sum_of-le :
      (f : A → ℕ) (b : ℕ) (xs : List A) → ((x : A) → f x ≤ b) → sum_of f xs ≤ b * length xs
  sum_of-le f b [] h = omega arith
  sum_of-le f b (x ∷ xs) h = grind (arith, sum_of-le f b xs h, h x)

  pub length-select-le : (p : A → Bool) (xs : List A) → length (select p xs) ≤ length xs
  length-select-le p [] = omega arith
  length-select-le p (x ∷ xs) = ground (arith, length-select-le p xs)

  pub Each-snoc {κ} :
      (P : A → Type κ) (xs : List A) (x : A) → Each P xs → P x → Each P (xs ++ (x ∷ []))
  Each-snoc P [] x each h = (h, tt)
  Each-snoc P (y ∷ ys) x each h = (each.0, Each-snoc P ys x each.1 h)

module _ {ℓ} {A : Type ℓ} (P : A → Type 0) where
  -- Some element satisfies `P`.
  abbrev pub Has : List A → Type 0
  Has [] = ⊥
  Has (x ∷ xs) = P x ⊎ Has xs

  pub Has-append : (xs ys : List A) → Has (xs ++ ys) ↔ (Has xs ⊎ Has ys)
  Has-append [] ys = (inr, λ h. elim h [ inl n ↦ absurd n | inr k ↦ k ])
  Has-append (x ∷ xs) ys = (
    λ h. elim h [
      | inl here ↦ inl (inl here)
      | inr later ↦ elim ((Has-append xs ys).0 later) [ inl k ↦ inl (inr k) | inr k ↦ inr k ]
    ],
    λ h. elim h [
      | inl k ↦ elim k [ inl here ↦ inl here | inr l ↦ inr ((Has-append xs ys).1 (inl l)) ]
      | inr k ↦ inr ((Has-append xs ys).1 (inr k))
    ],
  )
