-- ===== src/Trino/Optimize.antt =====
-- .agents/skills/trino-analyzer/scripts/identify_optimizations.py: `QueryOptimizer` and
-- `optimize_query`. A finding has one constructor for each text, with what the text shows. What
-- `explain_query` returns is an argument, `none` where it raises or is not asked; the score of a
-- plan counts in halves.
pub mod Patterns
pub mod Laws
mod Tests
use trino_gateway.Prelude.{
  ℕ, ◌+◌, ◌*◌, Bool, true, false, not, ◌&&◌, ◌||◌, Option, none, some, List, [], ◌∷◌, ◌++◌, String,
  any, length, ltb, take, ◌==◌, str_eq, if◌then◌else◌,
}
use trino_gateway.Prelude.Text.{Text, codes, lower, contains, contains_any}
use trino_gateway.Regex.Engine.{
  Re, edge, one, many, few, seq, lit, text, one_of, all_of, many1, spaces, spaces1, but, dot, found,
  count_matches,
}
use trino_gateway.Trino.Optimize.Patterns.{
  select_star_pattern, cross_join_pattern, aggregation_pattern, count_distinct_pattern, whole_word,
  conversion_pattern, subquery_pattern, nested_pattern,
}
use trino_gateway.Trino.Plan.{Features, parse_query_plan, complexity_score}

pub data AntiPattern : Type 0 where
  select_star planned_cross_join explicit_cross_join missing_partition_filter : AntiPattern
  multiple_aggregations multiple_or_conditions : ℕ → AntiPattern
  count_distinct implicit_conversion subquery_in_select : AntiPattern

pub data Optimization : Type 0 where
  partition_pruning predicate_pushdown join_reordering use_cte add_limit : Optimization
  approximate_aggregation : Optimization

abbrev pub when {ℓ} : {A : Type ℓ} → Bool → A → List A
when b a = if b then a ∷ [] else []

-- What the calls of `extend` make of an empty list.
abbrev pub extend_all {ℓ} : {A : Type ℓ} → List (List A) → List A
extend_all [] = []
extend_all (xs ∷ xss) = xs ++ extend_all xss

abbrev pub partition_cols : List Text
partition_cols =
    codes "dt"
    ∷ codes "date"
    ∷ codes "year"
    ∷ codes "month"
    ∷ codes "day"
    ∷ codes "partition_date"
    ∷ []

-- A test of the plan; there may be none.
abbrev pub in_plan : (Features → Bool) → Option Features → Bool
in_plan f none = false
in_plan f (some plan) = f plan

module _ (query_lower : Text) (plan : Option Features) where
  unfoldable pub check_cross_joins : List AntiPattern
  unfolding found cross_join_pattern
  check_cross_joins =
      if in_plan (λ f. any (λ t. str_eq t "CROSS") f.join_types) plan
      then planned_cross_join ∷ []
      else when (found cross_join_pattern query_lower) explicit_cross_join

  unfoldable pub check_non_partitioned_filters : List AntiPattern
  unfolding contains contains_any
  check_non_partitioned_filters =
      when (not (contains_any partition_cols query_lower) && contains (codes "from") query_lower)
        missing_partition_filter

  unfoldable pub check_multiple_aggregations : List AntiPattern
  unfolding count_matches aggregation_pattern
  check_multiple_aggregations =
      let agg_count = count_matches aggregation_pattern query_lower in
      when (ltb 5 agg_count) (multiple_aggregations agg_count)

  unfoldable pub check_or_conditions : List AntiPattern
  unfolding count_matches whole_word
  check_or_conditions =
      let or_count = count_matches (whole_word (codes "or")) query_lower in
      when (ltb 3 or_count) (multiple_or_conditions or_count)

  -- The eight checks, in their order.
  unfoldable pub checks : List (List AntiPattern)
  unfolding found select_star_pattern check_cross_joins check_non_partitioned_filters
      check_multiple_aggregations count_distinct_pattern check_or_conditions conversion_pattern
      subquery_pattern
  checks =
      when (found select_star_pattern query_lower) select_star
      ∷ check_cross_joins
      ∷ check_non_partitioned_filters
      ∷ check_multiple_aggregations
      ∷ when (found count_distinct_pattern query_lower) count_distinct
      ∷ check_or_conditions
      ∷ when (found conversion_pattern query_lower) implicit_conversion
      ∷ when (found subquery_pattern query_lower) subquery_in_select
      ∷ []

  unfoldable pub anti_patterns_of : List AntiPattern
  unfolding checks
  anti_patterns_of = extend_all checks

  unfoldable pub suggest_materialization : List Optimization
  unfolding count_matches whole_word nested_pattern
  suggest_materialization =
      let cte_count = count_matches (whole_word (codes "with")) query_lower in
      let subquery_count = count_matches nested_pattern query_lower in
      when (ltb 2 subquery_count && cte_count == 0) use_cte

  -- The six suggestions, in their order.
  unfoldable pub suggestions : List (List Optimization)
  unfolding suggest_materialization complexity_score contains
  suggestions =
      when (in_plan (λ f. ltb 0 (length f.scanned_tables)) plan) partition_pruning
      ∷ when (in_plan (λ f. ltb 0 f.join_count) plan) predicate_pushdown
      ∷ when (in_plan (λ f. ltb 2 f.join_count) plan) join_reordering
      ∷ suggest_materialization
      ∷ when (in_plan (λ f. not f.has_limit && ltb (3 * 2) (complexity_score f)) plan) add_limit
      ∷ when (contains (codes "count(distinct") query_lower) approximate_aggregation
      ∷ []

  unfoldable pub optimizations_of : List Optimization
  unfolding suggestions
  optimizations_of = extend_all suggestions

-- The strings of the priority and of the potential.
pub data Level : Type 0 where
  high medium low unknown : Level

pub record Findings : Type 0 where
  pub anti_patterns : List AntiPattern
  pub optimizations : List Optimization
  pub cost_reduction_potential : Level
  pub priority : Level

abbrev pub potential_of : ℕ → Level
potential_of n =
    if ltb 3 n then high else if ltb 1 n then medium else if ltb 0 n then low else unknown

abbrev pub priority_of : ℕ → Level
priority_of n = if ltb 3 n then high else if ltb 1 n then medium else low

unfoldable pub analyze : Text → Option Features → Findings
unfolding lower anti_patterns_of optimizations_of
analyze query plan =
    let anti_patterns = anti_patterns_of (lower query) plan in
    record {
      anti_patterns = anti_patterns;
      optimizations = optimizations_of (lower query) plan;
      cost_reduction_potential = potential_of (length anti_patterns);
      priority = priority_of (length anti_patterns);
    }

pub record Optimized : Type 0 where
  pub query : Text
  pub analysis : Findings
  pub anti_patterns_found : ℕ
  pub optimizations_suggested : ℕ

-- `query[:200] + '...' if len(query) > 200 else query`
abbrev pub shortened : Text → Text
shortened query = if ltb 200 (length query) then take 200 query ++ codes "..." else query

abbrev pub optimized : Text → Option Features → Optimized
unfolding analyze
optimized query plan =
    let findings = analyze query plan in
    record {
      query = shortened query;
      analysis = findings;
      anti_patterns_found = length findings.anti_patterns;
      optimizations_suggested = length findings.optimizations;
    }

-- The plan of a text that is not empty is parsed, which may raise.
abbrev pub with_plan : Text → Option Features → Option Optimized
unfolding optimized
with_plan query none = none
with_plan query (some plan) = some (optimized query (some plan))

unfoldable pub optimize_query : (float : Text → Option ℕ) → Text → Option Text → Option Optimized
unfolding optimized with_plan parse_query_plan
optimize_query float query none = some (optimized query none)
optimize_query float query (some []) = some (optimized query none)
optimize_query float query (some (c ∷ explain_output)) =
    with_plan query (parse_query_plan float (c ∷ explain_output))
