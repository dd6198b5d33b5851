-- ===== src/PodResources/Recommend/Laws.antt =====
-- What the recommendations for a resource come to.
use trino_gateway.Prelude.{
  ℕ, ◌*◌, ◌≤◌, ◌<◌, ◌≡◌, refl, ◌↔◌, ◌⊎◌, Option, none, some, arith, eq_iff, true,
}
use trino_gateway.PodResources.Usage.{Usage, one}
use trino_gateway.PodResources.Recommend.{
  Wording, half_more, twice, recommend, variance_of, average_variance, recommend_hpa,
}

module _ (w : Wording) (p95 requested : ℕ) (metrics : Usage) where
  -- Where there is a limit, the priority is CRITICAL exactly if the P95 usage is beyond the request
  -- and beyond a limit that is not 0, and HIGH exactly if it is beyond the request alone.
  pub recommend-priority :
      (limit : ℕ)
      → let r = recommend w (some p95) (some requested) (some limit) metrics in
        ((r.priority ≡ "CRITICAL") ↔ ((requested * one < p95) × (0 < limit) × (limit * one < p95)))
        × ((r.priority ≡ "HIGH") ↔ ((requested * one < p95) × ((limit ≡ 0) ⊎ (p95 ≤ limit * one))))
  unfolding recommend
  recommend-priority limit =
      let a = eq_iff "CRITICAL" "HIGH" in
      let b = eq_iff "HIGH" "CRITICAL" in
      let c = eq_iff "LOW" "CRITICAL" in
      let d = eq_iff "NONE" "CRITICAL" in
      let e = eq_iff "LOW" "HIGH" in
      let f = eq_iff "NONE" "HIGH" in
      ((λ h. ground arith, λ h. ground arith), (λ h. ground arith, λ h. ground arith))

  -- Where there is a limit, a usage beyond a request that is not 0 gets an increase of the request
  -- to at least twice what it was, and the new request covers the usage.
  recommend-increase :
      (limit : ℕ)
      → 0 < requested
      → requested * one < p95
      → let r = recommend w (some p95) (some requested) (some limit) metrics in
        (n : ℕ) × (r.type ≡ "INCREASE_REQUEST")
        × (r.new_request ≡ some n)
        × (2 * requested ≤ n)
        × (p95 ≤ n * one)
  unfolding recommend
  recommend-increase limit pos h = (twice p95, ground arith, ground arith, omega arith, omega arith)

  -- A usage of at least two units beyond the request and beyond a limit that is not 0 gets a new
  -- request and a new limit, of which the request is the larger.
  pub recommend-critical :
      (limit : ℕ)
      → requested * one < p95
      → 0 < limit
      → limit * one < p95
      → 2 * one ≤ p95
      → let r = recommend w (some p95) (some requested) (some limit) metrics in
        (n l : ℕ) × (r.new_request ≡ some n) × (r.new_limit ≡ some l) × (l < n)
  unfolding recommend
  recommend-critical limit a b c d =
      (twice p95, half_more p95, ground arith, ground arith, omega arith)

  -- Where there is a limit, a usage below half of the request gets a decrease; the new request is
  -- smaller than the old one and covers the usage, unless that is below two units.
  recommend-decrease :
      (limit : ℕ)
      → 2 * p95 < requested * one
      → let r = recommend w (some p95) (some requested) (some limit) metrics in
        (n : ℕ) × (r.type ≡ "DECREASE_REQUEST")
        × (r.new_request ≡ some n)
        × (r.new_limit ≡ none)
        × (n < requested)
        × (p95 < 2 * one ⊎ p95 ≤ n * one)
  unfolding recommend
  recommend-decrease limit h =
      (half_more p95, ground arith, ground arith, ground arith, omega arith, ground arith)

  -- Without a limit one is recommended that covers the usage, unless that is below two units; it is
  -- below the request exactly if one and a half of the usage is.
  pub recommend-set_limit :
      let r = recommend w (some p95) (some requested) none metrics in
      (l : ℕ) × (r.type ≡ "SET_LIMIT")
      × (r.new_limit ≡ some l)
      × (r.new_request ≡ none)
      × (p95 < 2 * one ⊎ p95 ≤ l * one)
      × ((l < requested) ↔ (p95 * 3 < requested * (2 * one)))
  unfolding recommend
  recommend-set_limit =
      (half_more p95, refl, refl, refl, ground arith, (λ h. omega arith, λ h. omega arith))

-- Scaling is recommended exactly if the average variance is above 30 percent, by the metric that
-- varies more, the memory in a tie; the smallest number of replicas is at most the largest, and the
-- average is at most one of the two variances.
recommend_hpa-enabled :
    (cpu mem : Option Usage)
    → let r = recommend_hpa cpu mem in
      let c = variance_of cpu in
      let m = variance_of mem in
      ((r.enabled ≡ true) ↔ (30 * one < average_variance c m))
      × ((r.metric_for_scaling ≡ some "cpu") ↔ ((30 * one < average_variance c m) × (m < c)))
      × ((r.metric_for_scaling ≡ some "memory") ↔ ((30 * one < average_variance c m) × (c ≤ m)))
      × (r.suggested_min_replicas ≤ r.suggested_max_replicas)
      × (average_variance c m ≤ c ⊎ average_variance c m ≤ m)
unfolding recommend_hpa
recommend_hpa-enabled cpu mem =
    let a = eq_iff "cpu" "memory" in
    let b = eq_iff "memory" "cpu" in
    (
      (λ h. ground arith, λ h. ground arith),
      (λ h. ground arith, λ h. ground arith),
      (λ h. ground arith, λ h. ground arith),
      ground arith,
      ground arith,
    )
