-- ===== src/Trino/Tests.antt =====
-- A plan with a join of two tables, and what it costs.
use trino_gateway.Prelude.{ℕ, ◌≡◌, refl, true, Option, none, some, [], ◌∷◌, ◌++◌, length}
use trino_gateway.Prelude.Text.{Text, codes}
use trino_gateway.Trino.Plan.{Features, no_features, split_lines, parse_query_plan}
use trino_gateway.Trino.Plan.Laws.{IsCounted, parse_query_plan-IsCounted}
use trino_gateway.Prelude.Round.{round_div}
use trino_gateway.Trino.Cost.{HistoricalStats, estimate_cost_from_plan}

abbrev plan : Text
plan =
    codes "- Left Join[x = y] 40 rows\n  - TableScan[table = hive:orders, grouped]\n"
    ++ codes "  - TableScan[table= hive:users] 1200  rows\n"

abbrev float : Text → Option ℕ
float t = some 1_000_000

abbrev features : Features
features = record no_features {
  has_join = true;
  join_count = 1;
  join_types = "LEFT" ∷ [];
  has_table_scan = true;
  table_scan_count = 2;
  scanned_tables = codes "hive:orders" ∷ codes "hive:users" ∷ [];
  output_rows_estimate = 1200;
}

plan_read : parse_query_plan float plan ≡ some features
unfolding parse_query_plan
plan_read = refl

parse_query_plan-IsCounted_example : let n = length (split_lines plan) in IsCounted n n n features
parse_query_plan-IsCounted_example = parse_query_plan-IsCounted float plan features plan_read

abbrev month : HistoricalStats
month = record { avg_cost = some (record { digits = 25; places = 1 }) }

-- 0.0000004 dollars
abbrev tiny : HistoricalStats
tiny = record { avg_cost = some (record { digits = 4; places = 7 }) }

tiny_cost : (estimate_cost_from_plan features (some tiny)).estimated_cost ≡ 0
unfolding estimate_cost_from_plan round_div
tiny_cost = refl

-- 0.001 + 0.5 + 0.2 dollars
cost_of_plan : (estimate_cost_from_plan features none).estimated_cost ≡ 701_000
unfolding estimate_cost_from_plan round_div
cost_of_plan = refl
