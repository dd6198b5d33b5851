-- ===== src/PodResources/Metrics/Laws.antt =====
-- What the usage of a deployment says of the values that were measured.
use trino_gateway.Prelude.{
  ℕ, suc, ◌*◌, ◌/◌, ◌≤◌, ◌<◌, ◌≡◌, refl, sym, inl, inr, Option, some, List, [], ◌∷◌, length, sum_of,
  ltb, leb, if◌then◌else◌, min, max, arith, Each, Bool-cases,
}
use native.Mathlib.Nat.{le-div_iff_mul-le, div-lt_iff_lt-mul}
use trino_gateway.Prelude.Sort.Ascending.{
  sort_asc, count, count-sort_asc, sort_asc-sorted, length-sort_asc, rank_of, ascending_at,
  get_elem?-some,
}
use trino_gateway.PodResources.Usage.{Usage}
use trino_gateway.PodResources.Metrics.{
  min_of, max_of, mean, stdev, percentile, calculate_percentiles,
}

-- At most q percent of the values, rounded down to a whole number of them, are below v, and more
-- than that are not above it.
abbrev pub IsQuantile : List ℕ → ℕ → Option ℕ → Type 0
IsQuantile values q p =
    (v : ℕ) × (p ≡ some v)
    × (count (λ y. ltb y v) values ≤ length values * q / 100)
    × (length values * q / 100 < count (λ y. leb y v) values)

place : (n q : ℕ) → q < 100 → 0 < n → n * q / 100 < n
place n q h pos = let le : n * q ≤ n * 99 = grind arith in omega arith

percentile-IsQuantile :
    (values : List ℕ) (q : ℕ)
    → q < 100
    → 0 < length values
    → IsQuantile values q (percentile values q)
unfolding percentile sort_asc
percentile-IsQuantile values q h pos =
    let sorted = sort_asc-sorted values in
    let i = length values * q / 100 in
    let inside : i < length (sort_asc values) =
      rw (length-sort_asc values) (place (length values) q h pos) in
    let (v, at) = get_elem?-some (sort_asc values) i inside in
    let (below, upto) = rank_of v i (sort_asc values) sorted at in
    (
      v,
      at,
      rw (sym (count-sort_asc (λ y. ltb y v) values)) below,
      rw (sym (count-sort_asc (λ y. leb y v) values)) upto,
    )

-- Of n values, one or more, the q-th percentile is a number v such that at most n * q / 100 values,
-- rounded down, are below v and more than that are not above it, for q = 50, 75, 90, 95 and 99.
pub calculate_percentiles-IsQuantile :
    (x : ℕ) (xs : List ℕ)
    → (u : Usage) × (calculate_percentiles (x ∷ xs) ≡ some u)
      × IsQuantile (x ∷ xs) 50 u.p50
      × IsQuantile (x ∷ xs) 75 u.p75
      × IsQuantile (x ∷ xs) 90 u.p90
      × IsQuantile (x ∷ xs) 95 u.p95
      × IsQuantile (x ∷ xs) 99 u.p99
unfolding calculate_percentiles
calculate_percentiles-IsQuantile x xs =
    let q = λ (n : ℕ) (h : n < 100). percentile-IsQuantile (x ∷ xs) n h (omega arith) in
    (
      _,
      refl,
      q 50 (omega arith),
      q 75 (omega arith),
      q 90 (omega arith),
      q 95 (omega arith),
      q 99 (omega arith),
    )

min_of-le : (x : ℕ) (xs : List ℕ) → (min_of x xs ≤ x) × Each (λ y. min_of x xs ≤ y) xs
min_of-le x [] = (omega arith, tt)
min_of-le x (y ∷ ys) = let (a, each) = min_of-le (min x y) ys in (omega arith, (omega arith, each))

max_of-ge : (x : ℕ) (xs : List ℕ) → (x ≤ max_of x xs) × Each (λ y. y ≤ max_of x xs) xs
max_of-ge x [] = (omega arith, tt)
max_of-ge x (y ∷ ys) = let (a, each) = max_of-ge (max x y) ys in (omega arith, (omega arith, each))

sum-between :
    (lo hi : ℕ) (xs : List ℕ)
    → Each (λ y. lo ≤ y) xs
    → Each (λ y. y ≤ hi) xs
    → (length xs * lo ≤ sum_of (λ y. y) xs) × (sum_of (λ y. y) xs ≤ length xs * hi)
sum-between lo hi [] a b = (omega arith, omega arith)
sum-between lo hi (x ∷ xs) a b =
    let (l, h) = sum-between lo hi xs a.1 b.1 in (grind (arith, l, a.0), grind (arith, h, b.0))

quotient_between : (s n lo hi : ℕ) → 0 < n → n * lo ≤ s → s ≤ n * hi → (lo ≤ s / n) × (s / n ≤ hi)
quotient_between s n lo hi pos a b =
    let high : s / n < suc hi =
      (div-lt_iff_lt-mul {k = n} {x = s} {y = suc hi} pos).1 (grind arith) in
    ((le-div_iff_mul-le {k = n} {x = lo} {y = s} pos).1 (grind arith), omega arith)

none_upto : (v m : ℕ) (xs : List ℕ) → Each (λ y. m ≤ y) xs → 0 < count (λ y. leb y v) xs → m ≤ v
none_upto v m [] each h = ground arith
none_upto v m (x ∷ xs) each h = elim (Bool-cases (leb x v)) [
  | inl here ↦ ground (arith, each.0)
  | inr later ↦ none_upto v m xs each.1 (ground arith)
]

all_below :
    (v m : ℕ) (xs : List ℕ) → Each (λ y. y ≤ m) xs → count (λ y. ltb y v) xs < length xs → v ≤ m
all_below v m [] each h = ground arith
all_below v m (x ∷ xs) each h = elim (Bool-cases (ltb x v)) [
  | inl here ↦ all_below v m xs each.1 (ground arith)
  | inr later ↦ ground (arith, each.0)
]

quantile_between :
    (x : ℕ) (xs : List ℕ) (q : ℕ)
    → q < 100
    → (v : ℕ) → percentile (x ∷ xs) q ≡ some v
    → (min_of x xs ≤ v) × (v ≤ max_of x xs)
quantile_between x xs q h v at =
    let values = x ∷ xs in
    let (w, at_w, below, upto) = percentile-IsQuantile values q h (omega arith) in
    let e : w ≡ v = ground arith in
    let inside = place (length values) q h (omega arith) in
    (
      none_upto v (min_of x xs) values (min_of-le x xs) (ground arith),
      all_below v (max_of x xs) values (max_of-ge x xs) (ground arith),
    )

percentile_mono :
    (values : List ℕ) (p q v w : ℕ)
    → p ≤ q
    → percentile values p ≡ some v
    → percentile values q ≡ some w
    → v ≤ w
unfolding percentile sort_asc
percentile_mono values p q v w h a b =
    let le : length values * p ≤ length values * q = grind arith in
    ascending_at v w (length values * p / 100) (length values * q / 100) (sort_asc values)
      (sort_asc-sorted values) (omega arith) a b

-- The figures of one or more values: none of the values is below the minimum or above the maximum,
-- the percentiles lie between the two and never fall, and the average lies between the two.
pub calculate_percentiles-order :
    (x : ℕ) (xs : List ℕ)
    → (lo p50 p75 p90 p95 p99 hi average dev : ℕ) × (calculate_percentiles (x ∷ xs)
        ≡ some (record {
          p50 = some p50;
          p75 = some p75;
          p90 = some p90;
          p95 = some p95;
          p99 = some p99;
          min = some lo;
          max = some hi;
          average = some average;
          std_dev = some dev;
        }))
      × Each (λ y. lo ≤ y) (x ∷ xs)
      × Each (λ y. y ≤ hi) (x ∷ xs)
      × (lo ≤ p50)
      × (p50 ≤ p75)
      × (p75 ≤ p90)
      × (p90 ≤ p95)
      × (p95 ≤ p99)
      × (p99 ≤ hi)
      × (lo ≤ average)
      × (average ≤ hi)
unfolding calculate_percentiles
calculate_percentiles-order x xs =
    let values = x ∷ xs in
    let at = λ (q : ℕ) (h : q < 100). percentile-IsQuantile values q h (omega arith) in
    let (a, pa, _, _) = at 50 (omega arith) in
    let (b, pb, _, _) = at 75 (omega arith) in
    let (c, pc, _, _) = at 90 (omega arith) in
    let (d, pd, _, _) = at 95 (omega arith) in
    let (e, pe, _, _) = at 99 (omega arith) in
    let (low, high) =
      sum-between (min_of x xs) (max_of x xs) values (min_of-le x xs) (max_of-ge x xs) in
    let (mean_low, mean_high) =
      quotient_between (sum_of (λ y. y) values) (length values) (min_of x xs) (max_of x xs)
        (omega arith) low high in
    (
      min_of x xs,
      a,
      b,
      c,
      d,
      e,
      max_of x xs,
      mean values,
      (if ltb 1 (length values) then stdev values else 0),
      rw (pa, pb, pc, pd, pe),
      min_of-le x xs,
      max_of-ge x xs,
      (quantile_between x xs 50 (omega arith) a pa).0,
      percentile_mono values 50 75 a b (omega arith) pa pb,
      percentile_mono values 75 90 b c (omega arith) pb pc,
      percentile_mono values 90 95 c d (omega arith) pc pd,
      percentile_mono values 95 99 d e (omega arith) pd pe,
      (quantile_between x xs 99 (omega arith) e pe).1,
      mean_low,
      mean_high,
    )
