-- ===== src/PodResources/Analyze.antt =====
-- .agents/skills/k8s-resource-analyzer/scripts/analyze.py: `analyze_deployment_metrics`, with
-- `check_for_issues` and `format_resources`.
pub mod Laws
use trino_gateway.Prelude.{
  ℕ, Bool, true, false, not, ◌&&◌, ◌||◌, Option, none, some, List, [], ◌∷◌, ◌++◌, String, get_or,
  str_eq, if◌then◌else◌,
}
use trino_gateway.Prelude.Text.{Text, codes, text_eq, text_lt}
use trino_gateway.Prelude.Decimal.{decimal}
use trino_gateway.PodResources.Usage.{ResourceSpec, Usage, no_usage, Aggregated}
use trino_gateway.PodResources.Recommend.{
  Recommendation, HpaRecommendation, recommend_cpu, recommend_memory, recommend_hpa,
}

-- A dict from strings to strings.
abbrev pub Strings : Type 0
Strings = List (String × Text)

-- `d.get(k)`
unfoldable pub get : Strings → String → Option Text
get [] k = none
get ((j, v) ∷ d) k = if str_eq j k then some v else get d k

-- `x` as a condition, for a string that may be missing
abbrev pub truthy : Option Text → Bool
truthy none = false
truthy (some t) = not (text_eq t [])

pub record Analysis : Type 0 where
  pub deployment : Text
  pub clusters : List Text
  pub pod_count : ℕ
  pub status : Text
  pub current_spec : Strings
  pub metrics_cpu : Option Usage
  pub metrics_memory : Option Usage
  pub recommendation_cpu : Option Recommendation
  pub recommendation_memory : Option Recommendation
  pub recommendation_hpa : Option HpaRecommendation
  pub flags : List Text

-- `f"{n}"` for a number of `spec`, which is `None` where the spec has it so
abbrev pub shown : Option ℕ → Text
unfolding decimal
shown none = codes "None"
shown (some n) = decimal n

-- The spec holds all four keys, so that the default 0 is not used.
unfoldable pub format_resources : ResourceSpec → Strings
unfolding decimal
format_resources spec =
    (
      "request",
      shown spec.requested_cpu_m
          ++ (codes "m CPU / " ++ (shown spec.requested_memory_mi ++ codes "Mi Memory")),
    )
    ∷ (
      "limit",
      shown spec.limit_cpu_m
          ++ (codes "m CPU / " ++ (shown spec.limit_memory_mi ++ codes "Mi Memory")),
    )
    ∷ []

-- `a > b` for two strings of the dict
abbrev above : Option Text → Option Text → Bool
above (some a) (some b) = text_lt b a
above _ _ = false

-- The warning sign, with its variation selector.
abbrev pub warning : Text
warning = 0x26a0 ∷ 0xfe0f ∷ []

abbrev pub no_cpu_limit : Text
no_cpu_limit = warning ++ codes " Missing CPU limits - Pod has unlimited CPU access"

abbrev pub no_memory_limit : Text
no_memory_limit = warning ++ codes " Missing memory limits - Pod could consume all node memory"

abbrev invalid : String → String → Option Text → Option Text → Text
invalid resource unit request limit =
    warning
    ++ (codes " "
        ++ (codes resource
            ++ (codes " request ("
                ++ (get_or request []
                    ++ (codes unit
                        ++ (codes ") > limit ("
                            ++ (get_or limit []
                                ++ (codes unit ++ codes ") - Invalid configuration!"))))))))

abbrev flag_if : Bool → Text → List Text
flag_if b t = if b then t ∷ [] else []

-- The flags that `check_for_issues` appends, from the dict under "current_spec".
unfoldable pub issues : Strings → List Text
unfolding get text_lt
issues spec =
    let cpu_req = get spec "requested_cpu_m" in
    let cpu_lim = get spec "limit_cpu_m" in
    let mem_req = get spec "requested_memory_mi" in
    let mem_lim = get spec "limit_memory_mi" in
    flag_if (truthy cpu_req && truthy cpu_lim && above cpu_req cpu_lim)
      (invalid "CPU" "m" cpu_req cpu_lim)
    ++ (flag_if (truthy mem_req && truthy mem_lim && above mem_req mem_lim)
          (invalid "Memory" "Mi" mem_req mem_lim)
        ++ (flag_if (not (truthy cpu_req) || not (truthy cpu_lim)) no_cpu_limit
            ++ flag_if (not (truthy mem_req) || not (truthy mem_lim)) no_memory_limit))

unfoldable pub check_for_issues : Analysis → Analysis
unfolding issues
check_for_issues analysis = record analysis {
  flags = analysis.flags ++ issues analysis.current_spec;
}

-- `priority in ["CRITICAL", "HIGH"]`
abbrev pub is_urgent : Recommendation → Bool
is_urgent r = str_eq r.priority "CRITICAL" || str_eq r.priority "HIGH"

abbrev pub needs_attention : Text
needs_attention = warning ++ codes " NEEDS ATTENTION"

abbrev pub all_healthy : Text
all_healthy = codes "✅ HEALTHY"

abbrev pub start : Text → ℕ → ResourceSpec → List Text → Analysis
start deployment_name pod_count resource_spec clusters = record {
  deployment = deployment_name;
  clusters = clusters;
  pod_count = pod_count;
  status = codes "OK";
  current_spec = format_resources resource_spec;
  metrics_cpu = none;
  metrics_memory = none;
  recommendation_cpu = none;
  recommendation_memory = none;
  recommendation_hpa = none;
  flags = [];
}

abbrev raised : Text → Recommendation → Text
raised status r = if is_urgent r then needs_attention else status

-- The P95 of `aggregated.get(key, {})`.
abbrev pub p95_of : Option Usage → Option ℕ
p95_of u = (get_or u no_usage).p95

-- The block under `if cpu_p95 is not None`.
unfoldable pub analyze_cpu : ResourceSpec → Option Usage → Analysis → Analysis
analyze_cpu spec usage analysis = elim (p95_of usage) [
  | none ↦ analysis
  | some p95 ↦
      let r = recommend_cpu spec (get_or usage no_usage) in
      record analysis {
        metrics_cpu = usage;
        recommendation_cpu = some r;
        status = raised analysis.status r;
      }
]

unfoldable pub analyze_memory : ResourceSpec → Option Usage → Analysis → Analysis
analyze_memory spec usage analysis = elim (p95_of usage) [
  | none ↦ analysis
  | some p95 ↦
      let r = recommend_memory spec (get_or usage no_usage) in
      record analysis {
        metrics_memory = usage;
        recommendation_memory = some r;
        status = raised analysis.status r;
      }
]

abbrev is_nil : List Text → Bool
is_nil [] = true
is_nil (x ∷ xs) = false

-- "If no critical issues, mark as OK"
unfoldable pub settle_status : Analysis → Analysis
settle_status analysis =
    if text_eq analysis.status (codes "OK") && is_nil analysis.flags
    then record analysis { status = all_healthy }
    else analysis

abbrev pub has_metrics : Option Usage → Bool
has_metrics none = false
has_metrics (some u) = true

unfoldable pub analyze_deployment_metrics :
    Text → ℕ → ResourceSpec → Aggregated → List Text → Analysis
unfolding format_resources analyze_cpu analyze_memory check_for_issues settle_status
analyze_deployment_metrics deployment_name pod_count resource_spec aggregated clusters =
    let analysis = start deployment_name pod_count resource_spec clusters in
    if not (has_metrics aggregated.cpu_m) && not (has_metrics aggregated.memory_mi)
    then record analysis {
      status = codes "NO_METRICS";
      flags = codes "No Prometheus metrics available - pods may be too new or not running" ∷ [];
    }
    else let analysis_cpu = analyze_cpu resource_spec aggregated.cpu_m analysis in
      let analysis_memory = analyze_memory resource_spec aggregated.memory_mi analysis_cpu in
      settle_status (
        check_for_issues (record analysis_memory {
          recommendation_hpa = some (recommend_hpa aggregated.cpu_m aggregated.memory_mi);
        }))
