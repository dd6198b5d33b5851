-- ===== src/Trino/Cost.antt =====
-- .agents/skills/trino-analyzer/scripts/analyze_query_plan.py: `estimate_cost_from_plan`. Dollars count
-- in millionths, in which every factor of the code is whole.
pub mod Laws
use trino_gateway.Prelude.{
  ℕ, ◌+◌, ◌*◌, ◌^◌, ◌≤◌, ◌<◌, ◌≡◌, refl, sym, ◌∙◌, Bool, true, false, Option, none, some, List, [],
  ◌∷◌, ◌++◌, String, any, ltb, str_eq, sum_of, arith, if◌then◌else◌,
}
use trino_gateway.Prelude.Round.{round_div}
use trino_gateway.Prelude.Slices.{Decimal}
use trino_gateway.Trino.Plan.{Features, complexity_score}

-- The statistics of past queries, with their mean cost in dollars, of any number of places, if it is
-- known; an empty dict is no statistics. A mean below 0 is used as little as one of 0, and stands for 0.
pub record HistoricalStats : Type 0 where
  pub avg_cost : Option Decimal

pub record CostEstimate : Type 0 where
  pub estimated_cost : ℕ
  -- the parts of the cost, and the multiplier as a fraction
  pub cost_breakdown : List (String × ℕ)
  pub historical_adjustment : Option (ℕ × ℕ)
  pub confidence : String
  pub complexity_score : ℕ

unfoldable pub join_cost : Features → ℕ
join_cost f =
    if any (λ t. str_eq t "CROSS") f.join_types
    then 10_000_000 * f.join_count
    else 500_000 * f.join_count

abbrev pub part : Bool → String → ℕ → List (String × ℕ)
part b name cost = if b then (name, cost) ∷ [] else []

-- The parts in the order in which they are added.
unfoldable pub plan_breakdown : Features → List (String × ℕ)
unfolding join_cost
plan_breakdown f =
    ("base", 1000)
    ∷ (part f.has_join "joins" (join_cost f)
        ++ (part f.has_aggregation "aggregations" (200_000 * f.aggregation_count)
            ++ (part f.has_window_functions "window_functions" 2_000_000
                ++ (part f.has_table_scan "table_scans" (100_000 * f.table_scan_count)
                    ++ part f.has_sort "sort" 300_000))))

-- `cost` before the statistics: each part is added as it is written down.
unfoldable pub plan_cost : Features → ℕ
unfolding join_cost
plan_cost f =
    1000
    + (if f.has_join then join_cost f else 0)
    + (if f.has_aggregation then 200_000 * f.aggregation_count else 0)
    + (if f.has_window_functions then 2_000_000 else 0)
    + (if f.has_table_scan then 100_000 * f.table_scan_count else 0)
    + (if f.has_sort then 300_000 else 0)

-- The average cost, if there is one above 0.
abbrev pub average_of : Option HistoricalStats → Option Decimal
average_of none = none
average_of (some stats) = elim stats.avg_cost [
  | none ↦ none
  | some a ↦ if ltb 0 a.digits then some a else none
]

abbrev pub confidence_of : Option HistoricalStats → String
confidence_of none = "low"
confidence_of (some stats) = "medium"

-- `avg_cost / cost`, as a numerator and a denominator
abbrev pub multiplier : ℕ → Option Decimal → Option (ℕ × ℕ)
multiplier cost none = none
multiplier cost (some a) = some (a.digits * 1_000_000, cost * 10 ^ a.places)

-- `round(cost, 6)` of the cost after `cost *= historical_multiplier`, if there is a multiplier.
abbrev pub rounded_cost : ℕ → Option (ℕ × ℕ) → ℕ
unfolding round_div
rounded_cost cost none = round_div cost 1
rounded_cost cost (some (n, d)) = round_div (cost * n) d

unfoldable pub estimate_cost_from_plan : Features → Option HistoricalStats → CostEstimate
unfolding plan_cost plan_breakdown rounded_cost complexity_score
estimate_cost_from_plan f historical_stats = record {
  estimated_cost =
      rounded_cost (plan_cost f) (multiplier (plan_cost f) (average_of historical_stats));
  cost_breakdown = plan_breakdown f;
  historical_adjustment = multiplier (plan_cost f) (average_of historical_stats);
  confidence = confidence_of historical_stats;
  complexity_score = complexity_score f;
}
