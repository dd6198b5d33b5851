-- ===== src/LogVolume/Report/Laws.antt =====
-- What `generate_report` adds up.
use trino_gateway.Prelude.{
  ℕ, ◌+◌, ◌*◌, ◌≤◌, ◌≡◌, refl, ◌⊎◌, inl, inr, Bool, Option, List, [], ◌∷◌, String, map, arith, ◌∙◌,
  length, length-map, select, sum_of, Each, ltb, ltb→lt, str_eq, if◌then◌else◌, Bool-cases, not,
  any,
}
use trino_gateway.Prelude.Text.{Text, codes, text_eq, text_eq_iff}
use trino_gateway.Prelude.Counter.{Counter, increment, total_count, total_count-increment}
use trino_gateway.Prelude.Round.{round_div-le}
use trino_gateway.LogVolume.Log.{LogEntry}
use trino_gateway.LogVolume.Estimate.{
  VolumeEstimator, LogVolumeEstimate, estimate_log, route_rps_for, estimate_all,
}
use trino_gateway.LogVolume.Estimate.Laws.{estimated, estimate_all-sort_desc}
use trino_gateway.Prelude.Sort.{Each-sort_desc, length-sort_desc}
use trino_gateway.LogVolume.Report.{
  CategoryCount, LevelCount, Estimates, units_of, of_category, of_level, levels, count_potentials,
  saved_part, potential_savings, generate_report,
}

-- The category of the estimate is one of the four that the report lists.
abbrev pub IsCategorized : LogVolumeEstimate → Type 0
IsCategorized e =
    (e.impact_category ≡ "CRITICAL")
    ⊎ (e.impact_category ≡ "HIGH")
    ⊎ (e.impact_category ≡ "MEDIUM")
    ⊎ (e.impact_category ≡ "LOW")

one_of_four :
    (c : String)
    → (c ≡ "CRITICAL") ⊎ (c ≡ "HIGH") ⊎ (c ≡ "MEDIUM") ⊎ (c ≡ "LOW")
    → (if str_eq c "CRITICAL" then 1 else 0)
        + (if str_eq c "HIGH" then 1 else 0)
        + (if str_eq c "MEDIUM" then 1 else 0)
        + (if str_eq c "LOW" then 1 else 0)
      ≡ 1
one_of_four c (inl e) = rw e refl
one_of_four c (inr (inl e)) = rw e refl
one_of_four c (inr (inr (inl e))) = rw e refl
one_of_four c (inr (inr (inr e))) = rw e refl

categories_partition :
    (estimates : Estimates)
    → Each IsCategorized estimates
    → length (of_category "CRITICAL" estimates)
        + length (of_category "HIGH" estimates)
        + length (of_category "MEDIUM" estimates)
        + length (of_category "LOW" estimates)
      ≡ length estimates
categories_partition [] h = refl
categories_partition (e ∷ es) h =
    ground (arith, one_of_four e.impact_category h.0, categories_partition es h.1)

-- If each estimate has one of the four categories, as those of `estimate_log` have, the counts by
-- category add up to the number of logs.
pub generate_report-categories :
    (estimates : Estimates) (assigned : ℕ)
    → Each IsCategorized estimates
    → let r = generate_report estimates assigned in
      sum_of (λ (c : CategoryCount). c.count) r.by_category ≡ r.total_logs
unfolding generate_report
generate_report-categories estimates assigned h = omega (arith, categories_partition estimates h)

estimate_log-IsCategorized :
    (v : VolumeEstimator) (log : LogEntry) (route_rps : Option ℕ)
    → IsCategorized (estimate_log v log route_rps)
unfolding estimate_log
estimate_log-IsCategorized v log route_rps = ground arith

count_potentials-total :
    (counts : Counter) (estimates : Estimates)
    → total_count (count_potentials counts estimates) ≡ total_count counts + length estimates
unfolding count_potentials
count_potentials-total counts [] = omega arith
count_potentials-total counts (e ∷ es) = omega (
  arith,
  count_potentials-total (increment e.optimization_potential counts) es,
  total_count-increment e.optimization_potential counts,
)

saved_part-le : (p : String) → saved_part p ≤ 100
unfolding saved_part
saved_part-le p = ground arith

part-le : (u p : ℕ) → p ≤ 100 → u * p ≤ 100 * u
part-le u p h = grind arith

potential_savings-le :
    (saved : ℕ) (estimates : Estimates)
    → potential_savings saved estimates ≤ saved + 100 * units_of estimates
unfolding potential_savings
potential_savings-le saved [] = omega arith
potential_savings-le saved (e ∷ es) =
    let p = saved_part e.optimization_potential in
    omega (
      arith,
      potential_savings-le (saved + e.daily_units * p) es,
      part-le e.daily_units p (saved_part-le e.optimization_potential),
    )

-- The report never promises to save more than is logged: the percentage of the potential savings is
-- at most 100.0, and the opportunities count each log once.
generate_report-savings :
    (estimates : Estimates) (assigned : ℕ)
    → let r = generate_report estimates assigned in
      (r.potential_savings_percent ≤ 1000) × (total_count r.opportunities ≡ r.total_logs)
unfolding generate_report total_count
generate_report-savings estimates assigned =
    let bound = potential_savings-le 0 estimates in
    (
      elim (Bool-cases (ltb 0 (units_of estimates))) [
        | inl some_units ↦ rw some_units (
            round_div-le (potential_savings 0 estimates * 10) (units_of estimates) 1000
              (ltb→lt 0 (units_of estimates) some_units) (omega arith))
        | inr no_units ↦ rw no_units (omega arith)
      ],
      omega (arith, count_potentials-total [] estimates),
    )

Each-estimated :
    (v : VolumeEstimator) (routes : Option (List (Text × ℕ))) (logs : List LogEntry)
    → Each IsCategorized (map (estimated v routes) logs)
Each-estimated v routes [] = tt
Each-estimated v routes (log ∷ logs) =
    (estimate_log-IsCategorized v log (route_rps_for routes log), Each-estimated v routes logs)

-- In the report on the estimates of `estimate_all` the counts by category add up to the number of
-- logs that were given.
pub generate_report-estimate_all :
    (v : VolumeEstimator) (routes : Option (List (Text × ℕ))) (logs : List LogEntry) (assigned : ℕ)
    → let r = generate_report (estimate_all v logs routes) assigned in
      (sum_of (λ (c : CategoryCount). c.count) r.by_category ≡ length logs)
      × (r.total_logs ≡ length logs)
generate_report-estimate_all v routes logs assigned =
    let es = map (estimated v routes) logs in
    let sorted = estimate_all-sort_desc v routes logs in
    let each : Each IsCategorized (estimate_all v logs routes) =
      rw sorted
        (Each-sort_desc (λ e. e.daily_units) IsCategorized es (Each-estimated v routes logs)) in
    let len : length (estimate_all v logs routes) ≡ length logs =
      rw sorted (length-sort_desc (λ e. e.daily_units) es ∙ length-map logs (estimated v routes)) in
    (
      generate_report-categories (estimate_all v logs routes) assigned each
          ∙ unfold generate_report in len,
      unfold generate_report in len,
    )

abbrev is_one : Text → String → ℕ
is_one t l = if text_eq t (codes l) then 1 else 0

abbrev unlisted : Text → Bool
unlisted t = not (any (text_eq t) levels)

listed_once :
    (t : Text)
    → is_one t "DEBUG"
        + (is_one t "INFO" + (is_one t "WARN" + (is_one t "ERROR" + is_one t "FATAL")))
        + (if unlisted t then 1 else 0)
      ≡ 1
listed_once t = elim (Bool-cases (text_eq t (codes "DEBUG"))) [
  | inl d ↦ rw ((text_eq_iff t (codes "DEBUG")).0 d) refl
  | inr d ↦ elim (Bool-cases (text_eq t (codes "INFO"))) [
    | inl i ↦ rw ((text_eq_iff t (codes "INFO")).0 i) refl
    | inr i ↦ elim (Bool-cases (text_eq t (codes "WARN"))) [
      | inl w ↦ rw ((text_eq_iff t (codes "WARN")).0 w) refl
      | inr w ↦ elim (Bool-cases (text_eq t (codes "ERROR"))) [
        | inl r ↦ rw ((text_eq_iff t (codes "ERROR")).0 r) refl
        | inr r ↦ ground arith
      ]
    ]
  ]
]

levels_partition :
    (estimates : Estimates)
    → length (of_level (codes "DEBUG") estimates)
        + (length (of_level (codes "INFO") estimates)
            + (length (of_level (codes "WARN") estimates)
                + (length (of_level (codes "ERROR") estimates)
                    + length (of_level (codes "FATAL") estimates))))
        + length (select (λ e. unlisted e.level) estimates)
      ≡ length estimates
levels_partition [] = refl
levels_partition (e ∷ es) = ground (arith, listed_once e.level, levels_partition es)

-- The statements of a level that the report does not list, such as PANIC, are missing from the
-- counts by level: only with them these add up to the number of logs.
pub generate_report-levels :
    (estimates : Estimates) (assigned : ℕ)
    → let r = generate_report estimates assigned in
      sum_of (λ (l : LevelCount). l.count) r.by_level
        + length (select (λ e. not (any (text_eq e.level) levels)) estimates)
      ≡ r.total_logs
unfolding generate_report
generate_report-levels estimates assigned = omega (arith, levels_partition estimates)
