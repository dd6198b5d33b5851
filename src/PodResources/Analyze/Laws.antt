-- ===== src/PodResources/Analyze/Laws.antt =====
-- What the analysis of a deployment reports.
use trino_gateway.Prelude.{
  ℕ, ◌≡◌, ◌≢◌, refl, ◌↔◌, Bool, true, false, ◌||◌, Option, none, some, List, [], ◌∷◌, arith,
}
use trino_gateway.Prelude.Text.{Text}
use trino_gateway.PodResources.Usage.{ResourceSpec, Usage, Aggregated}
use trino_gateway.PodResources.Recommend.{recommend_cpu, recommend_memory}
use trino_gateway.PodResources.Analyze.{
  Analysis, no_cpu_limit, no_memory_limit, is_urgent, needs_attention, all_healthy, has_metrics,
  p95_of, issues, format_resources, analyze_deployment_metrics,
}

-- The dict of `format_resources` has no key that `check_for_issues` asks for.
issues-format_resources :
    (spec : ResourceSpec) → issues (format_resources spec) ≡ no_cpu_limit ∷ no_memory_limit ∷ []
unfolding issues format_resources
issues-format_resources spec = refl

abbrev urgent_cpu : ResourceSpec → Option Usage → Bool
urgent_cpu spec none = false
urgent_cpu spec (some u) = elim u.p95 [ none ↦ false | some p ↦ is_urgent (recommend_cpu spec u) ]

abbrev urgent_memory : ResourceSpec → Option Usage → Bool
urgent_memory spec none = false
urgent_memory spec (some u) = elim u.p95 [
  | none ↦ false
  | some p ↦ is_urgent (recommend_memory spec u)
]

-- An urgent recommendation is made for the CPU or the memory.
abbrev pub is_alarming : ResourceSpec → Aggregated → Bool
is_alarming spec a = urgent_cpu spec a.cpu_m || urgent_memory spec a.memory_mi

module _ (name : Text) (pod_count : ℕ) (spec : ResourceSpec) (a : Aggregated)
    (clusters : List Text) where
  abbrev result : Analysis
  result = analyze_deployment_metrics name pod_count spec a clusters

  -- Wherever there are metrics, both flags on missing limits are raised, also if all limits are set,
  -- and none on a request above a limit; so the status is never that of a healthy deployment, and it
  -- asks for attention exactly if a recommendation is CRITICAL or HIGH.
  pub analyze_deployment_metrics-flags :
      (has_metrics a.cpu_m || has_metrics a.memory_mi) ≡ true
      → let r = analyze_deployment_metrics name pod_count spec a clusters in
        (r.flags ≡ no_cpu_limit ∷ no_memory_limit ∷ [])
        × (r.status ≢ all_healthy)
        × ((r.status ≡ needs_attention) ↔ (is_alarming spec a ≡ true))
  unfolding analyze_deployment_metrics
  analyze_deployment_metrics-flags h =
      (ground arith, λ e. ground arith, (λ e. ground arith, λ e. ground arith))

  -- A recommendation for a resource is made exactly if its P95 is known, and one on scaling exactly
  -- if there are metrics; the name, the count of pods and the clusters are those that were given.
  analyze_deployment_metrics-recommendations :
      let r = analyze_deployment_metrics name pod_count spec a clusters in
      ((r.recommendation_cpu ≢ none) ↔ (p95_of a.cpu_m ≢ none))
      × ((r.recommendation_memory ≢ none) ↔ (p95_of a.memory_mi ≢ none))
      × ((r.recommendation_hpa ≢ none) ↔ ((has_metrics a.cpu_m || has_metrics a.memory_mi) ≡ true))
      × (r.deployment ≡ name)
      × (r.pod_count ≡ pod_count)
      × (r.clusters ≡ clusters)
  unfolding analyze_deployment_metrics
  analyze_deployment_metrics-recommendations = (
    (λ e n. ground arith, λ e n. ground arith),
    (λ e n. ground arith, λ e n. ground arith),
    (λ e. ground arith, λ e n. ground arith),
    ground arith,
    ground arith,
    ground arith,
  )
