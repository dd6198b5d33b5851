-- ===== src/LogVolume/Estimate/Laws.antt =====
-- What `VolumeEstimator` makes of a log statement, and of all.
use trino_gateway.Prelude.{
  ℕ, ◌*◌, ◌≤◌, ◌≡◌, refl, sym, ◌∙◌, ◌⊎◌, true, false, ◌||◌, Option, List, [], ◌∷◌, ◌++◌, map,
  append_assoc, append-nil, arith, eq_iff, get_or, ◌==◌, select,
}
use trino_gateway.Prelude.Text.{Text, codes, text_eq_iff}
use trino_gateway.Prelude.Sort.{
  IsDescending, sort_desc, sort_desc-perm, sort_desc-sorted, sort_desc-stable,
}
use mathlib.Core.List.{Perm}
use trino_gateway.LogVolume.Log.{LogEntry}
use trino_gateway.LogVolume.Estimate.{
  VolumeEstimator, LogVolumeEstimate, certain, level_or_info, level_is,
  calculate_trigger_probability, effective_rps, invocations, volume, estimate_log, route_rps_for,
  estimate_from, estimate_all,
}

mul-le_left : (a : ℕ) {b c : ℕ} → b ≤ c → a * b ≤ a * c
mul-le_left a h = grind arith

module _ (v : VolumeEstimator) (routes : Option (List (Text × ℕ))) where
  abbrev pub estimated : LogEntry → LogVolumeEstimate
  estimated log = estimate_log v log (route_rps_for routes log)

  estimate_from-map :
      (estimates : List LogVolumeEstimate) (logs : List LogEntry)
      → estimate_from v routes estimates logs ≡ estimates ++ map estimated logs
  unfolding estimate_from
  estimate_from-map estimates [] = sym (append-nil estimates)
  estimate_from-map estimates (log ∷ logs) =
      estimate_from-map (estimates ++ (estimated log ∷ [])) logs
      ∙ append_assoc estimates (estimated log ∷ []) (map estimated logs)

  pub estimate_all-sort_desc :
      (logs : List LogEntry)
      → estimate_all v logs routes ≡ sort_desc (λ e. e.daily_units) (map estimated logs)
  unfolding estimate_all
  estimate_all-sort_desc logs = rw (estimate_from-map [] logs)

  -- `estimate_all` returns the estimates of all the logs, each as often as its log is given, by
  -- falling `daily_units`; estimates of the same units keep the order of their logs.
  pub estimate_all-sorts :
      (logs : List LogEntry)
      → Perm (estimate_all v logs routes) (map estimated logs)
        × IsDescending (λ e. e.daily_units) (estimate_all v logs routes)
        × ((units : ℕ)
            → select (λ e. e.daily_units == units) (estimate_all v logs routes)
              ≡ select (λ e. e.daily_units == units) (map estimated logs))
  estimate_all-sorts logs = rw (estimate_all-sort_desc logs) (
    sort_desc-perm (λ e. e.daily_units) (map estimated logs),
    sort_desc-sorted (λ e. e.daily_units) (map estimated logs),
    λ units. sort_desc-stable (λ e. e.daily_units) units (map estimated logs),
  )

module _ (v : VolumeEstimator) (log : LogEntry) where
  calculate_trigger_probability-le :
      v.error_rate ≤ certain → calculate_trigger_probability v log ≤ certain
  unfolding calculate_trigger_probability
  calculate_trigger_probability-le h = ground arith

  -- If the error rate is a probability, a log is written at most once for each round of a loop, or
  -- each request: its invocations are at most the effective rate over a day.
  invocations-le_certain :
      (route_rps : Option ℕ)
      → v.error_rate ≤ certain
      → (estimate_log v log route_rps).trigger_probability ≤ certain
        × (invocations v log route_rps ≤ effective_rps v log route_rps * 86400 * certain)
  unfolding estimate_log
  invocations-le_certain route_rps h =
      let p = calculate_trigger_probability-le h in
      (p, mul-le_left (effective_rps v log route_rps * 86400) p)

  trigger_debug :
      level_is log "DEBUG" ≡ true
      → get_or log.in_error_handler false ≡ false
      → calculate_trigger_probability v log ≡ 0
  unfolding calculate_trigger_probability
  trigger_debug d h = rw (h, (text_eq_iff (level_or_info log) (codes "DEBUG")).0 d) refl

  -- A DEBUG statement outside error handlers is taken to be switched off: it has no invocations, no
  -- bytes and no units at any rate, and its impact is LOW.
  pub estimate_log-debug :
      (route_rps : Option ℕ)
      → level_is log "DEBUG" ≡ true
      → get_or log.in_error_handler false ≡ false
      → let e = estimate_log v log route_rps in
        (e.daily_invocations ≡ 0)
        × (e.daily_bytes ≡ 0)
        × (e.daily_units ≡ 0)
        × (e.impact_category ≡ "LOW")
  unfolding estimate_log
  estimate_log-debug route_rps d h =
      let none_written = trigger_debug d h in
      let i : invocations v log route_rps ≡ 0 = rw none_written (omega arith) in
      let b : volume v log route_rps ≡ 0 = rw i (omega arith) in
      (rw i refl, rw b refl, rw b refl, rw b refl)

  -- What is assessed as "KEEP" is in no loop, and is of LOW impact or an error of an error handler.
  estimate_log-keep :
      (route_rps : Option ℕ)
      → let e = estimate_log v log route_rps in
        e.optimization_potential ≡ "KEEP"
        → (e.in_loop ≡ false)
          × ((e.impact_category ≡ "LOW")
              ⊎ ((level_is log "ERROR" || level_is log "FATAL") ≡ true)
                × (e.in_error_handler ≡ true))
  unfolding estimate_log
  estimate_log-keep route_rps h =
      let loop = eq_iff "CONSOLIDATE_LOOP" "KEEP" in
      let debug = eq_iff "CHANGE_TO_DEBUG" "KEEP" in
      let metrics = eq_iff "USE_METRICS" "KEEP" in
      let sampling = eq_iff "ADD_SAMPLING" "KEEP" in
      let review = eq_iff "REVIEW" "KEEP" in ground arith
