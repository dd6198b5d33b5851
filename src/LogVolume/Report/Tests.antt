-- ===== src/LogVolume/Report/Tests.antt =====
-- The estimates and the report on small inputs.
use trino_gateway.Prelude.{
  ℕ, ◌+◌, ◌≡◌, refl, true, none, some, List, [], ◌∷◌, String, map, ◌==◌, length, select, sum_of,
  any, not,
}
use mathlib.Core.List.{Perm}
use trino_gateway.Prelude.Text.{codes, text_eq, upper, lower, contains_any}
use trino_gateway.Prelude.Sort.{IsDescending}
use trino_gateway.LogVolume.Log.{LogEntry, empty_entry}
use trino_gateway.LogVolume.Estimate.{
  VolumeEstimator, LogVolumeEstimate, level_is, estimate_log, estimate_all,
}
use trino_gateway.LogVolume.Estimate.Laws.{estimated, estimate_all-sorts}
use trino_gateway.LogVolume.Report.{CategoryCount, LevelCount, Estimates, levels, generate_report}
use trino_gateway.LogVolume.Report.Laws.{generate_report-estimate_all, generate_report-levels}

-- The defaults: 100 requests a second, an error rate of 1 percent, ten rounds of a loop.
abbrev estimator : VolumeEstimator
estimator = record {
  avg_rps = 100_000;
  peak_rps = 500_000;
  error_rate = 10_000;
  loop_multiplier = 10_000;
}

abbrev at_level : String → LogEntry
at_level level = record empty_entry { level = some (codes level) }

abbrev handled : LogEntry
handled = record (at_level "ERROR") { in_error_handler = some true }

abbrev in_loop_entry : LogEntry
in_loop_entry = record (at_level "INFO") { in_loop = some true }

abbrev sample_logs : List LogEntry
sample_logs = at_level "DEBUG" ∷ handled ∷ at_level "PANIC" ∷ in_loop_entry ∷ []

abbrev sample_estimates : Estimates
sample_estimates = map (estimated estimator none) sample_logs

-- 1000 rounds a second of 300 bytes: 25920 units a day.
loop_units : (estimate_log estimator in_loop_entry none).daily_units ≡ 259_200_000
unfolding estimate_log upper
loop_units = refl

top_is_loop :
    map (λ (e : LogVolumeEstimate). e.impact_category) (estimate_all estimator sample_logs none)
    ≡ "CRITICAL" ∷ "HIGH" ∷ "HIGH" ∷ "LOW" ∷ []
unfolding estimate_all upper
top_is_loop = refl

estimate_all-sorts_example :
    Perm (estimate_all estimator sample_logs none) sample_estimates
    × IsDescending (λ e. e.daily_units) (estimate_all estimator sample_logs none)
    × ((units : ℕ)
        → select (λ e. e.daily_units == units) (estimate_all estimator sample_logs none)
          ≡ select (λ e. e.daily_units == units) sample_estimates)
estimate_all-sorts_example = estimate_all-sorts estimator none sample_logs

debug_level : level_is (at_level "DEBUG") "DEBUG" ≡ true
unfolding estimate_log upper
debug_level = refl

handled_kept : (estimate_log estimator handled none).optimization_potential ≡ "KEEP"
unfolding estimate_log upper lower contains_any
handled_kept = refl

generate_report-estimate_all_example :
    let r = generate_report (estimate_all estimator sample_logs none) 0 in
    (sum_of (λ (c : CategoryCount). c.count) r.by_category ≡ length sample_logs)
    × (r.total_logs ≡ length sample_logs)
generate_report-estimate_all_example = generate_report-estimate_all estimator none sample_logs 0

generate_report-levels_example :
    let r = generate_report sample_estimates 0 in
    sum_of (λ (l : LevelCount). l.count) r.by_level
      + length (select (λ e. not (any (text_eq e.level) levels)) sample_estimates)
    ≡ r.total_logs
generate_report-levels_example = generate_report-levels sample_estimates 0

-- One of the four logs, the PANIC, is in no count by level.
panic_unlisted :
    sum_of (λ (l : LevelCount). l.count) (generate_report sample_estimates 0).by_level ≡ 3
unfolding generate_report estimate_log
panic_unlisted = refl
