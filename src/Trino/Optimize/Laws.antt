-- ===== src/Trino/Optimize/Laws.antt =====
-- What the findings on a query say of it.
use trino_gateway.Prelude.{
  ℕ, ◌≤◌, ◌<◌, ◌≡◌, ◌↔◌, refl, sym, ap, ◌∙◌, ◌⊎◌, inl, inr, Bool, true, false, not, ◌&&◌, ◌||◌,
  Option, List, [], ◌∷◌, ◌++◌, any, length, length-append, arith, Each, Bool-cases, ltb,
  append_assoc,
}
use trino_gateway.Prelude.Text.{
  Text, codes, lower, contains, contains_any, contains_sound, contains_complete,
}
use trino_gateway.Regex.Engine.{found}
use trino_gateway.Trino.Plan.{Features}
use trino_gateway.Trino.Optimize.Patterns.{
  select_star_pattern, count_distinct_pattern, conversion_pattern, subquery_pattern,
}
use trino_gateway.Trino.Optimize.{
  AntiPattern, select_star, missing_partition_filter, count_distinct, implicit_conversion,
  subquery_in_select, when, extend_all, check_cross_joins, check_non_partitioned_filters,
  check_multiple_aggregations, check_or_conditions, checks, anti_patterns_of,
  suggest_materialization, suggestions, optimizations_of, high, medium, unknown, analyze,
  priority_of, potential_of, partition_cols,
}

any-append {ℓ} :
    {A : Type ℓ} (p : A → Bool) (xs ys : List A) → any p (xs ++ ys) ≡ (any p xs || any p ys)
any-append p [] ys = refl
any-append p (x ∷ xs) ys = ground (arith, any-append p xs ys)

any-when {ℓ} : {A : Type ℓ} (p : A → Bool) (b : Bool) (a : A) → any p (when b a) ≡ (b && p a)
any-when p true a = ground arith
any-when p false a = refl

length-when-le {ℓ} : {A : Type ℓ} (b : Bool) (a : A) → length (when b a) ≤ 1
length-when-le true a = omega arith
length-when-le false a = omega arith

length-extend_all-le {ℓ} :
    {A : Type ℓ} (xss : List (List A))
    → Each (λ xs. length xs ≤ 1) xss
    → length (extend_all xss) ≤ length xss
length-extend_all-le [] h = omega arith
length-extend_all-le (xs ∷ xss) (a, h) =
    omega (arith, length-append xs (extend_all xss), a, length-extend_all-le xss h)

any-extend_all {ℓ} :
    {A : Type ℓ} (p : A → Bool) (xss : List (List A)) → any p (extend_all xss) ≡ any (any p) xss
any-extend_all p [] = refl
any-extend_all p (xs ∷ xss) =
    any-append p xs (extend_all xss) ∙ ap (λ b. any p xs || b) (any-extend_all p xss)

module _ (q : Text) (plan : Option Features) where
  cross-le : length (check_cross_joins q plan) ≤ 1
  unfolding check_cross_joins
  cross-le = ground arith

  anti_patterns-le : length (anti_patterns_of q plan) ≤ 8
  unfolding anti_patterns_of checks check_non_partitioned_filters check_multiple_aggregations
      check_or_conditions
  anti_patterns-le = length-extend_all-le (checks q plan) (
    ground arith,
    (
      cross-le,
      (
        ground arith,
        (ground arith, (ground arith, (ground arith, (ground arith, (ground arith, tt))))),
      ),
    ),
  )

  optimizations-le : length (optimizations_of q plan) ≤ 6
  unfolding optimizations_of suggestions suggest_materialization
  optimizations-le = length-extend_all-le (suggestions q plan) (
    ground arith,
    (ground arith, (ground arith, (ground arith, (ground arith, (ground arith, tt))))),
  )

levels_lem :
    (n : ℕ)
    → ((priority_of n ≡ high) ↔ (3 < n))
      × ((priority_of n ≡ medium) ↔ ((1 < n) × (n ≤ 3)))
      × ((potential_of n ≡ unknown) ↔ (n ≡ 0))
      × ((potential_of n ≡ priority_of n) ⊎ (n ≡ 0))
levels_lem n = (
  (λ h. ground arith, λ h. ground arith),
  (λ h. ground arith, λ h. ground arith),
  (λ h. ground arith, λ h. ground arith),
  elim (Bool-cases (ltb 0 n)) [ inl above ↦ inl (ground arith) | inr zero_n ↦ inr (ground arith) ],
)

-- A query has at most eight anti-patterns and six suggestions. Its priority is high exactly with
-- more than three anti-patterns and medium exactly with two or three; the potential is that
-- priority, but unknown exactly for a query without anti-patterns.
analyze-priority :
    (query : Text) (plan : Option Features)
    → let f = analyze query plan in
      let n = length f.anti_patterns in
      (n ≤ 8)
      × (length f.optimizations ≤ 6)
      × ((f.priority ≡ high) ↔ (3 < n))
      × ((f.priority ≡ medium) ↔ ((1 < n) × (n ≤ 3)))
      × ((f.cost_reduction_potential ≡ unknown) ↔ (n ≡ 0))
      × ((f.cost_reduction_potential ≡ f.priority) ⊎ (n ≡ 0))
unfolding analyze
analyze-priority query plan =
    let (a, b, c, d) = levels_lem (length (anti_patterns_of (lower query) plan)) in
    (anti_patterns-le (lower query) plan, optimizations-le (lower query) plan, a, b, c, d)

abbrev pub is_missing_filter : AntiPattern → Bool
is_missing_filter missing_partition_filter = true
is_missing_filter _ = false

module _ (q : Text) (plan : Option Features) where
  cross_lem : any is_missing_filter (check_cross_joins q plan) ≡ false
  unfolding check_cross_joins
  cross_lem = ground arith

  aggregations_lem : any is_missing_filter (check_multiple_aggregations q plan) ≡ false
  unfolding check_multiple_aggregations
  aggregations_lem = ground arith

  or_lem : any is_missing_filter (check_or_conditions q plan) ≡ false
  unfolding check_or_conditions
  or_lem = ground arith

  filter_lem :
      any is_missing_filter (check_non_partitioned_filters q plan)
      ≡ (not (contains_any partition_cols q) && contains (codes "from") q)
  unfolding check_non_partitioned_filters
  filter_lem =
      any-when is_missing_filter (not (contains_any partition_cols q) && contains (codes "from") q)
        missing_partition_filter
      ∙ ground arith

date_in_name :
    (q : Text)
    → (contains (codes "date") q || contains (codes "partition_date") q) ≡ contains (codes "date") q
date_in_name q = elim (Bool-cases (contains (codes "partition_date") q)) [
  | inl named ↦
      let (a, b, e) = contains_sound (codes "partition_date") q named in
      let date : contains (codes "date") q ≡ true =
        rw (e ∙ sym (append_assoc a (codes "partition_") (codes "date" ++ b)))
          (contains_complete (codes "date") (a ++ codes "partition_") b) in
      ground (arith, date)
  | inr unnamed ↦ ground (arith, unnamed)
]

-- A missing partition filter is reported exactly if "from" is in the query, in any case, and none of
-- "dt", "date", "year", "month" and "day" is, be it a part of another word: a column updated_at
-- passes for a partition.
pub analyze-missing_filter :
    (query : Text) (plan : Option Features)
    → any is_missing_filter (analyze query plan).anti_patterns ≡ (
        contains (codes "from") (lower query)
        && not (
            contains_any
              (codes "dt" ∷ codes "date" ∷ codes "year" ∷ codes "month" ∷ codes "day" ∷ [])
              (lower query)))
unfolding analyze anti_patterns_of checks contains_any
analyze-missing_filter query plan =
    let q = lower query in
    any-extend_all is_missing_filter (checks q plan)
    ∙ rw
        (
          any-when is_missing_filter (found select_star_pattern q) select_star,
          cross_lem q plan,
          filter_lem q plan,
          aggregations_lem q plan,
          any-when is_missing_filter (found count_distinct_pattern q) count_distinct,
          or_lem q plan,
          any-when is_missing_filter (found conversion_pattern q) implicit_conversion,
          any-when is_missing_filter (found subquery_pattern q) subquery_in_select,
        )
        (ground (arith, date_in_name q))
