-- ===== src/PodResources/Recommend.antt =====
-- .agents/skills/k8s-resource-analyzer/scripts/analyze.py: the recommendations for one resource.
-- `recommend_cpu` and `recommend_memory` are the same code in other words. A quotient is rounded
-- down to a millionth.
pub mod Laws
pub mod Tests
use trino_gateway.Prelude.{
  ℕ, ◌+◌, ◌*◌, ◌/◌, Bool, true, false, ◌&&◌, Option, none, some, ◌++◌, String, get_or, ltb, ◌==◌,
  if◌then◌else◌,
}
use trino_gateway.Prelude.Text.{Text, codes}
use trino_gateway.Prelude.Decimal.{decimal}
use trino_gateway.Prelude.Round.{round_div}
use trino_gateway.PodResources.Usage.{ResourceSpec, Usage, no_usage, one}

pub record Recommendation : Type 0 where
  pub type : String
  pub new_request : Option ℕ
  pub new_limit : Option ℕ
  pub priority : String
  pub reason : Text
  pub action : Option Text

-- What differs between the two functions: the resource's name, its unit, and three phrases.
pub record Wording : Type 0 where
  pub resource : Text
  pub unit : Text
  pub healthy : Text
  pub no_limit : Text
  pub danger : Text

abbrev pub cpu_wording : Wording
cpu_wording = record {
  resource = codes "CPU";
  unit = codes "m";
  healthy = codes "CPU allocation is healthy";
  no_limit = codes "No CPU limit set - Pod has unlimited CPU access";
  danger = codes "Pod at risk of throttling!";
}

abbrev pub memory_wording : Wording
memory_wording = record {
  resource = codes "memory";
  unit = codes "Mi";
  healthy = codes "Memory allocation is healthy";
  no_limit = codes "No memory limit set - Pod could consume all node memory";
  danger = codes "Pod will be OOM killed!";
}

-- In millionths of a percent.
unfoldable pub calculate_variance : ℕ → ℕ → ℕ
calculate_variance std_dev average = if average == 0 then 0 else std_dev * (100 * one) / average

-- `int(p95)`, `int(p95 * 1.5)` and `int(p95 * 2)`
abbrev pub whole : ℕ → ℕ
whole p = p / one

abbrev pub half_more : ℕ → ℕ
half_more p = p * 3 / (2 * one)

abbrev pub twice : ℕ → ℕ
twice p = p * 2 / one

module _ (w : Wording) where
  abbrev amount : ℕ → Text
  amount n = decimal n ++ w.unit

  unfoldable pub set_limit : ℕ → Recommendation
  unfolding decimal
  set_limit p95 = record {
    type = "SET_LIMIT";
    new_request = none;
    new_limit = some (half_more p95);
    priority = "MEDIUM";
    reason = w.no_limit;
    action = some (codes "Set " ++ (w.resource ++ (codes " limit to " ++ amount (half_more p95))));
  }

  -- Check 1, beyond the request: the second part is for a usage beyond the limit as well.
  unfoldable pub increase_request : ℕ → ℕ → ℕ → Recommendation
  unfolding decimal
  increase_request p95 requested limit =
      let reason =
        codes "P95 usage ("
        ++ (amount (whole p95)
            ++ (codes ") exceeds request (" ++ (amount requested ++ codes ")"))) in
      let action =
        codes "Increase " ++ (w.resource ++ (codes " request to " ++ amount (twice p95))) in
      if ltb 0 limit && ltb (limit * one) p95
      then record {
        type = "INCREASE_REQUEST";
        new_request = some (twice p95);
        new_limit = some (half_more p95);
        priority = "CRITICAL";
        reason = reason ++ (codes " and limit (" ++ (amount limit ++ (codes ") - " ++ w.danger)));
        action = some (action ++ (codes " and limit to " ++ amount (half_more p95)));
      }
      else record {
        type = "INCREASE_REQUEST";
        new_request = some (twice p95);
        new_limit = none;
        priority = "HIGH";
        reason = reason;
        action = some action;
      }

  unfoldable pub decrease_request : ℕ → ℕ → Recommendation
  unfolding decimal round_div
  decrease_request p95 requested = record {
    type = "DECREASE_REQUEST";
    new_request = some (half_more p95);
    new_limit = none;
    priority = "LOW";
    reason =
        codes "P95 usage ("
        ++ (amount (whole p95)
            ++ (codes ") is only "
                ++ (decimal (round_div (p95 * 100) (requested * one))
                    ++ (codes "% of request (" ++ (amount requested ++ codes ")")))));
    action =
        some
          (codes "Decrease " ++ (w.resource ++ (codes " request to " ++ amount (half_more p95))));
  }

  unfoldable pub monitor : ℕ → Recommendation
  unfolding decimal round_div
  monitor variance = record {
    type = "MONITOR";
    new_request = none;
    new_limit = none;
    priority = "LOW";
    reason =
        codes "High variance ("
        ++ (decimal (round_div variance one) ++ codes "%) indicates bursty workload");
    action = none;
  }

  -- What the functions start from.
  abbrev pub healthy_recommendation : Recommendation
  healthy_recommendation = record {
    type = "OK";
    new_request = none;
    new_limit = none;
    priority = "NONE";
    reason = w.healthy;
    action = none;
  }

  -- Checks 1 to 3, where there is a limit.
  unfoldable pub check_usage : ℕ → ℕ → ℕ → ℕ → Recommendation
  unfolding increase_request decrease_request monitor
  check_usage p95 requested limit variance =
      if ltb (requested * one) p95
      then increase_request p95 requested limit
      else if ltb 0 requested && ltb (2 * p95) (requested * one)
      then decrease_request p95 requested
      else if ltb (30 * one) variance && (ltb 0 limit && ltb (10 * p95) (limit * (8 * one)))
      then monitor variance
      else healthy_recommendation

  unfoldable pub check_limit : ℕ → ℕ → Option ℕ → ℕ → Recommendation
  unfolding set_limit check_usage
  check_limit p95 requested none variance = set_limit p95
  check_limit p95 requested (some limit) variance = check_usage p95 requested limit variance

  unfoldable pub recommend : Option ℕ → Option ℕ → Option ℕ → Usage → Recommendation
  unfolding check_limit calculate_variance
  recommend none requested limit metrics = healthy_recommendation
  recommend (some p95) none limit metrics = healthy_recommendation
  recommend (some p95) (some requested) limit metrics =
      check_limit p95 requested limit
        (calculate_variance (get_or metrics.std_dev 0) (get_or metrics.average p95))

unfoldable pub recommend_cpu : ResourceSpec → Usage → Recommendation
unfolding recommend
recommend_cpu spec metrics =
    recommend cpu_wording metrics.p95 spec.requested_cpu_m spec.limit_cpu_m metrics

unfoldable pub recommend_memory : ResourceSpec → Usage → Recommendation
unfolding recommend
recommend_memory spec metrics =
    recommend memory_wording metrics.p95 spec.requested_memory_mi spec.limit_memory_mi metrics

pub record HpaRecommendation : Type 0 where
  pub enabled : Bool
  pub reason : Text
  pub metric_for_scaling : Option String
  pub target_utilization : ℕ
  pub suggested_min_replicas : ℕ
  pub suggested_max_replicas : ℕ

unfoldable pub variance_of : Option Usage → ℕ
unfolding calculate_variance
variance_of u =
    let usage = get_or u no_usage in
    calculate_variance (get_or usage.std_dev 0) (get_or usage.average 0)

-- The mean of the two, if neither is 0, and else the one that is not.
unfoldable pub average_variance : ℕ → ℕ → ℕ
average_variance cpu mem =
    if ltb 0 cpu && ltb 0 mem then (cpu + mem) / 2 else (if ltb 0 cpu then cpu else mem)

unfoldable pub recommend_hpa : Option Usage → Option Usage → HpaRecommendation
unfolding variance_of average_variance decimal round_div
recommend_hpa cpu_metrics mem_metrics =
    let cpu_variance = variance_of cpu_metrics in
    let mem_variance = variance_of mem_metrics in
    let avg_variance = average_variance cpu_variance mem_variance in
    if ltb (30 * one) avg_variance
    then record {
      enabled = true;
      reason =
          codes "High variance ("
          ++ (decimal (round_div avg_variance one)
              ++ codes "%) indicates bursty/variable workload");
      metric_for_scaling = some (if ltb mem_variance cpu_variance then "cpu" else "memory");
      target_utilization = 70;
      suggested_min_replicas = 1;
      suggested_max_replicas = 3;
    }
    else record {
      enabled = false;
      reason = codes "Workload is stable";
      metric_for_scaling = none;
      target_utilization = 70;
      suggested_min_replicas = 1;
      suggested_max_replicas = 1;
    }
