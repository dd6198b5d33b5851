-- ===== src/Trino/Optimize/Tests.antt =====
-- Findings on queries, and the theorems about them at concrete inputs.
use trino_gateway.Prelude.{◌≡◌, refl, not, ◌&&◌, none, [], ◌∷◌, any}
use trino_gateway.Prelude.Text.{Text, codes, lower, contains, contains_any}
use trino_gateway.Trino.Optimize.{
  select_star, missing_partition_filter, subquery_in_select, count_distinct, anti_patterns_of,
  optimizations_of, analyze,
}
use trino_gateway.Trino.Optimize.Laws.{is_missing_filter, analyze-missing_filter}

-- The last one has an o between the two selects, which the class of the pattern leaves out.
queries :
    (anti_patterns_of (codes "select  * from t") none ≡ select_star ∷ missing_partition_filter ∷ [])
    × (anti_patterns_of (codes "select a from t where updated_at > 1") none ≡ [])
    × (anti_patterns_of (codes "select a, (select b from u) from t where dt = 1") none
        ≡ subquery_in_select ∷ [])
    × (anti_patterns_of (codes "select no, (select b from u) from t where dt = 1") none ≡ [])
unfolding anti_patterns_of
queries = (refl, refl, refl, refl)

-- The suggestion wants the two words next to each other, the anti-pattern does not.
distinct_apart :
    (anti_patterns_of (codes "select count( distinct a) from t where dt = 1") none
      ≡ count_distinct ∷ [])
    × (optimizations_of (codes "select count( distinct a) from t where dt = 1") none ≡ [])
unfolding anti_patterns_of optimizations_of
distinct_apart = (refl, refl)

abbrev star_query : Text
star_query = codes "SELECT * FROM t"

analyze-missing_filter_example : any is_missing_filter (analyze star_query none).anti_patterns ≡ (
    contains (codes "from") (lower star_query)
    && not (
        contains_any
          (codes "dt" ∷ codes "date" ∷ codes "year" ∷ codes "month" ∷ codes "day" ∷ [])
          (lower star_query)))
analyze-missing_filter_example = analyze-missing_filter star_query none
