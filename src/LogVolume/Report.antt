-- ===== src/LogVolume/Report.antt =====
-- .agents/skills/log-volume-optimizer/scripts/estimate_volume.py: `generate_report`. Daily units and
-- the assigned units are in ten-thousandths, as `estimate_log` rounds them, and daily bytes in
-- hundredths; each percentage is in tenths.
pub mod Laws
mod Tests
use trino_gateway.Prelude.{
  ℕ, ◌+◌, ◌-◌, ◌*◌, ◌^◌, List, [], ◌∷◌, String, map, ltb, leb, ◌==◌, length, select, sum_of, take,
  str_eq, if◌then◌else◌,
}
use trino_gateway.Prelude.Text.{Text, codes, text_eq}
use trino_gateway.Prelude.Counter.{Counter, increment}
use trino_gateway.Prelude.Round.{round_div}
use trino_gateway.LogVolume.Estimate.{LogVolumeEstimate}

-- `negsuc n` is -(n + 1).
pub data ℤ : Type 0 where
  pos : ℕ → ℤ
  negsuc : ℕ → ℤ

-- The negative of a number.
abbrev pub negative : ℕ → ℤ
negative n = if n == 0 then pos 0 else negsuc (n - 1)

-- `by_category[cat]`; the units are in hundredths.
pub record CategoryCount : Type 0 where
  pub category : String
  pub count : ℕ
  pub units : ℕ
  pub percent : ℕ

pub record LevelCount : Type 0 where
  pub level : Text
  pub count : ℕ
  pub units : ℕ

pub record Report : Type 0 where
  pub total_logs : ℕ
  pub total_daily_units : ℕ
  pub total_daily_bytes : ℕ
  pub total_daily_gb : ℕ
  pub assigned_units : ℕ
  pub utilization_percent : ℕ
  pub remaining_units : ℤ
  pub by_category : List CategoryCount
  pub by_level : List LevelCount
  pub opportunities : Counter
  pub potential_savings_units : ℕ
  pub potential_savings_percent : ℕ
  pub top_logs : List LogVolumeEstimate

abbrev pub Estimates : Type 0
Estimates = List LogVolumeEstimate

abbrev pub units_of : Estimates → ℕ
units_of estimates = sum_of (λ e. e.daily_units) estimates

abbrev pub bytes_of : Estimates → ℕ
bytes_of estimates = sum_of (λ e. e.daily_bytes) estimates

abbrev pub of_category : String → Estimates → Estimates
of_category cat estimates = select (λ e. str_eq e.impact_category cat) estimates

unfoldable pub count_category : Estimates → String → CategoryCount
unfolding round_div
count_category estimates cat =
    let total_units = units_of estimates in
    let units = round_div (units_of (of_category cat estimates)) 100 in
    record {
      category = cat;
      count = length (of_category cat estimates);
      units = units;
      percent = if ltb 0 total_units then round_div (units * 100_000) total_units else 0;
    }

abbrev pub of_level : Text → Estimates → Estimates
of_level level estimates = select (λ e. text_eq e.level level) estimates

unfoldable pub count_level : Estimates → Text → LevelCount
unfolding round_div
count_level estimates level = record {
  level = level;
  count = length (of_level level estimates);
  units = round_div (units_of (of_level level estimates)) 100;
}

abbrev pub categories : List String
categories = "CRITICAL" ∷ "HIGH" ∷ "MEDIUM" ∷ "LOW" ∷ []

abbrev pub levels : List Text
levels = codes "DEBUG" ∷ codes "INFO" ∷ codes "WARN" ∷ codes "ERROR" ∷ codes "FATAL" ∷ []

-- The loop over `optimization_counts`.
unfoldable pub count_potentials : Counter → Estimates → Counter
count_potentials counts [] = counts
count_potentials counts (e ∷ es) = count_potentials (increment e.optimization_potential counts) es

-- The part of its units that an optimisation saves, in hundredths.
unfoldable pub saved_part : String → ℕ
saved_part potential =
    if str_eq potential "CONSOLIDATE_LOOP"
    then 90
    else if str_eq potential "CHANGE_TO_DEBUG"
    then 95
    else if str_eq potential "USE_METRICS"
    then 100
    else if str_eq potential "ADD_SAMPLING"
    then 99
    else 0

-- The loop over `potential_savings`, in millionths of a unit.
unfoldable pub potential_savings : ℕ → Estimates → ℕ
unfolding saved_part
potential_savings saved [] = saved
potential_savings saved (e ∷ es) =
    potential_savings (saved + e.daily_units * saved_part e.optimization_potential) es

-- `round(assigned_units - total_units, 2)`
unfoldable pub remaining : ℕ → ℕ → ℤ
unfolding round_div
remaining assigned total =
    if leb total assigned
    then pos (round_div (assigned - total) 100)
    else negative (round_div (total - assigned) 100)

unfoldable pub generate_report : Estimates → ℕ → Report
unfolding count_category count_level count_potentials potential_savings remaining round_div
generate_report estimates assigned_units =
    let total_units = units_of estimates in
    let total_bytes = bytes_of estimates in
    let saved = potential_savings 0 estimates in
    record {
      total_logs = length estimates;
      total_daily_units = round_div total_units 100;
      total_daily_bytes = total_bytes;
      total_daily_gb = round_div total_bytes (10 ^ 8);
      assigned_units = assigned_units;
      utilization_percent =
          if ltb 0 assigned_units then round_div (total_units * 1000) assigned_units else 0;
      remaining_units =
          if ltb 0 assigned_units then remaining assigned_units total_units else pos 0;
      by_category = map (count_category estimates) categories;
      by_level = map (count_level estimates) levels;
      opportunities = count_potentials [] estimates;
      potential_savings_units = round_div saved 10_000;
      potential_savings_percent =
          if ltb 0 total_units then round_div (saved * 10) total_units else 0;
      top_logs = take 20 estimates;
    }
