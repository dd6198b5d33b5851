-- ===== src/PodResources/Recommend/Tests.antt =====
-- The recommendations on a pod of 500m and 256Mi.
use trino_gateway.Prelude.{
  ℕ, ◌*◌, ◌≤◌, ◌<◌, ◌≡◌, ◌≢◌, refl, ◌↔◌, ◌⊎◌, true, none, some, [], ◌∷◌, arith,
}
use trino_gateway.Prelude.Text.{codes}
use trino_gateway.PodResources.Usage.{ResourceSpec, Usage, Aggregated, no_usage, one}
use trino_gateway.PodResources.Recommend.{
  Recommendation, cpu_wording, memory_wording, recommend, recommend_cpu,
}
use trino_gateway.PodResources.Recommend.Laws.{
  recommend-priority, recommend-critical, recommend-set_limit,
}
use trino_gateway.PodResources.Analyze.{
  analyze_deployment_metrics, no_cpu_limit, no_memory_limit, all_healthy, needs_attention,
}
use trino_gateway.PodResources.Analyze.Laws.{is_alarming, analyze_deployment_metrics-flags}

abbrev spec : ResourceSpec
spec = record {
  requested_cpu_m = some 500;
  requested_memory_mi = some 256;
  limit_cpu_m = some 1000;
  limit_memory_mi = none;
}

-- The P95 in millionths of the unit.
abbrev usage_at : ℕ → Usage
usage_at p95 = record no_usage { p95 = some p95; average = some p95; std_dev = some 0 }

-- 1200m of usage, 500m requested, a limit of 1000m: the new request is 2400m, the new limit 1800m.
critical : Recommendation
critical = recommend_cpu spec (usage_at 1_200_000_000)

critical_request : critical.new_request ≡ some 2400
unfolding critical recommend_cpu
critical_request = refl

critical_limit : critical.new_limit ≡ some 1800
unfolding critical recommend_cpu
critical_limit = refl

critical_reason :
    critical.reason
    ≡ codes
        "P95 usage (1200m) exceeds request (500m) and limit (1000m) - Pod at risk of throttling!"
unfolding critical recommend_cpu
critical_reason = refl

recommend-priority_example :
    let r = recommend cpu_wording (some 1_200_000_000) (some 500) (some 1000) no_usage in
    let limit : ℕ = 1000 in
    ((r.priority ≡ "CRITICAL")
      ↔ ((500 * one < 1_200_000_000) × (0 < 1000) × (1000 * one < 1_200_000_000)))
    × ((r.priority ≡ "HIGH")
        ↔ ((500 * one < 1_200_000_000) × ((limit ≡ 0) ⊎ (1_200_000_000 ≤ 1000 * one))))
recommend-priority_example = recommend-priority cpu_wording 1_200_000_000 500 no_usage 1000

recommend-critical_example :
    let r = recommend cpu_wording (some 1_200_000_000) (some 500) (some 1000) no_usage in
    (n l : ℕ) × (r.new_request ≡ some n) × (r.new_limit ≡ some l) × (l < n)
recommend-critical_example =
    recommend-critical cpu_wording 1_200_000_000 500 no_usage 1000 (omega arith) (omega arith)
      (omega arith) (omega arith)

recommend-set_limit_example :
    let r = recommend memory_wording (some 100_000_000) (some 256) none no_usage in
    (l : ℕ) × (r.type ≡ "SET_LIMIT")
    × (r.new_limit ≡ some l)
    × (r.new_request ≡ none)
    × (100_000_000 < 2 * one ⊎ 100_000_000 ≤ l * one)
    × ((l < 256) ↔ (100_000_000 * 3 < 256 * (2 * one)))
recommend-set_limit_example = recommend-set_limit memory_wording 100_000_000 256 no_usage

-- The usage varies by half of its average.
abbrev bursty : Usage
bursty = record no_usage { average = some 400_000_000; std_dev = some 200_000_000 }

abbrev measured : Aggregated
measured = record { cpu_m = some (usage_at 1_200_000_000); memory_mi = none }

analyze_deployment_metrics-flags_example :
    let r = analyze_deployment_metrics (codes "api") 2 spec measured [] in
    (r.flags ≡ no_cpu_limit ∷ no_memory_limit ∷ [])
    × (r.status ≢ all_healthy)
    × ((r.status ≡ needs_attention) ↔ (is_alarming spec measured ≡ true))
analyze_deployment_metrics-flags_example =
    analyze_deployment_metrics-flags (codes "api") 2 spec measured [] refl
