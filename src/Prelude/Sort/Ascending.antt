-- ===== src/Prelude/Sort/Ascending.antt =====
-- `sorted(xs)` of numbers, and what stands at a place of it.
use Prim.Native.Nat.{ℕ, zero, suc, ◌+◌, ◌≤◌, ◌<◌}
use mathlib.Core.Path.{◌≡◌, refl, sym}
use mathlib.Core.Logic.{inl, inr}
use mathlib.Core.Bool.{Bool}
use mathlib.Core.Option.{some}
use mathlib.Core.List.{List, [], ◌∷◌}
use native.Mathlib.Omega.{arith}
use trino_gateway.Prelude.Tests.{ltb, leb, if◌then◌else◌, Bool-cases}
use trino_gateway.Prelude.Lists.{Each, length, get_elem?}

insert_asc : ℕ → List ℕ → List ℕ
insert_asc x [] = x ∷ []
insert_asc x (y ∷ ys) = if leb x y then x ∷ y ∷ ys else y ∷ insert_asc x ys

unfoldable pub sort_asc : List ℕ → List ℕ
unfolding insert_asc
sort_asc [] = []
sort_asc (x ∷ xs) = insert_asc x (sort_asc xs)

abbrev pub IsAscending : List ℕ → Type 0
IsAscending [] = Unit
IsAscending (x ∷ xs) = Each (λ y. x ≤ y) xs × IsAscending xs

-- How many numbers pass the test.
abbrev pub count : (ℕ → Bool) → List ℕ → ℕ
count p [] = 0
count p (x ∷ xs) = (if p x then 1 else 0) + count p xs

Each-lower : (b c : ℕ) (xs : List ℕ) → b ≤ c → Each (λ y. c ≤ y) xs → Each (λ y. b ≤ y) xs
Each-lower b c [] h each = tt
Each-lower b c (x ∷ xs) h each = (omega arith, Each-lower b c xs h each.1)

Each-insert_asc :
    (b x : ℕ) (xs : List ℕ) → b ≤ x → Each (λ y. b ≤ y) xs → Each (λ y. b ≤ y) (insert_asc x xs)
unfolding insert_asc
Each-insert_asc b x [] h each = (h, tt)
Each-insert_asc b x (y ∷ ys) h each = elim (Bool-cases (leb x y)) [
  | inl here ↦ rw here (h, each)
  | inr later ↦ rw later (each.0, Each-insert_asc b x ys h each.1)
]

insert_asc-sorted : (x : ℕ) (xs : List ℕ) → IsAscending xs → IsAscending (insert_asc x xs)
unfolding insert_asc
insert_asc-sorted x [] h = (tt, tt)
insert_asc-sorted x (y ∷ ys) h = elim (Bool-cases (leb x y)) [
  | inl here ↦ let le : x ≤ y = ground arith in rw here ((le, Each-lower x y ys le h.0), h)
  | inr later ↦ rw later (Each-insert_asc y x ys (ground arith) h.0, insert_asc-sorted x ys h.1)
]

pub sort_asc-sorted : (xs : List ℕ) → IsAscending (sort_asc xs)
unfolding sort_asc
sort_asc-sorted [] = tt
sort_asc-sorted (x ∷ xs) = insert_asc-sorted x (sort_asc xs) (sort_asc-sorted xs)

count-insert_asc :
    (p : ℕ → Bool) (x : ℕ) (xs : List ℕ) → count p (insert_asc x xs) ≡ count p (x ∷ xs)
unfolding insert_asc
count-insert_asc p x [] = refl
count-insert_asc p x (y ∷ ys) = ground (arith, count-insert_asc p x ys)

pub count-sort_asc : (p : ℕ → Bool) (xs : List ℕ) → count p (sort_asc xs) ≡ count p xs
unfolding sort_asc
count-sort_asc p [] = refl
count-sort_asc p (x ∷ xs) = omega (arith, count-insert_asc p x (sort_asc xs), count-sort_asc p xs)

length-insert_asc : (x : ℕ) (xs : List ℕ) → length (insert_asc x xs) ≡ suc (length xs)
unfolding insert_asc
length-insert_asc x [] = refl
length-insert_asc x (y ∷ ys) = ground (arith, length-insert_asc x ys)

pub length-sort_asc : (xs : List ℕ) → length (sort_asc xs) ≡ length xs
unfolding sort_asc
length-sort_asc [] = refl
length-sort_asc (x ∷ xs) = omega (arith, length-insert_asc x (sort_asc xs), length-sort_asc xs)

-- Up to the index, none is above the number that stands there; from it on, none is below.
none_below : (v : ℕ) (xs : List ℕ) → Each (λ y. v ≤ y) xs → count (λ y. ltb y v) xs ≡ 0
none_below v [] each = refl
none_below v (x ∷ xs) each = ground (arith, none_below v xs each.1, each.0)

at_least : (b v i : ℕ) (xs : List ℕ) → Each (λ y. b ≤ y) xs → get_elem? xs i ≡ some v → b ≤ v
at_least b v i [] each at = ground arith
at_least b v zero (x ∷ xs) each at = ground (arith, each.0)
at_least b v (suc i) (x ∷ xs) each at = at_least b v i xs each.1 at

-- The number at an index of a sorted list: at most as many as the index are below it, and more than
-- that are not above it.
pub rank_of :
    (v i : ℕ) (xs : List ℕ)
    → IsAscending xs
    → get_elem? xs i ≡ some v
    → (count (λ y. ltb y v) xs ≤ i) × (i < count (λ y. leb y v) xs)
rank_of v i [] sorted at = ground arith
rank_of v zero (x ∷ xs) sorted at =
    let e : x ≡ v = ground arith in
    rw e ((ground (arith, none_below v xs (rw (sym e) sorted.0))), ground arith)
rank_of v (suc i) (x ∷ xs) sorted at =
    let below = at_least x v i xs sorted.0 at in
    let rest = rank_of v i xs sorted.1 at in (ground (arith, rest.0), ground (arith, rest.1, below))

pub ascending_at :
    (v w i j : ℕ) (xs : List ℕ)
    → IsAscending xs
    → i ≤ j
    → get_elem? xs i ≡ some v
    → get_elem? xs j ≡ some w
    → v ≤ w
ascending_at v w i j [] sorted le a b = ground arith
ascending_at v w zero zero (x ∷ xs) sorted le a b = ground arith
ascending_at v w zero (suc j) (x ∷ xs) sorted le a b =
    let h = at_least x w j xs sorted.0 b in ground arith
ascending_at v w (suc i) zero (x ∷ xs) sorted le a b = ground arith
ascending_at v w (suc i) (suc j) (x ∷ xs) sorted le a b =
    ascending_at v w i j xs sorted.1 (omega arith) a b

pub get_elem?-some : (xs : List ℕ) (i : ℕ) → i < length xs → (v : ℕ) × (get_elem? xs i ≡ some v)
get_elem?-some [] i h = ground arith
get_elem?-some (x ∷ xs) zero h = (x, refl)
get_elem?-some (x ∷ xs) (suc i) h = get_elem?-some xs i (omega arith)
